-- ===== src/Artifact.antt =====
-- internal/artifact/manifest.go: the signed manifest of a snapshot artifact, and its checks. What
-- the Go library computes (JSON, base64, SHA-256, Ed25519) is the parameter `Library`.
pub mod Publisher
pub mod Release
use vpsa_network_discovery.Prelude.{
  ℕ, ◌≡◌, refl, ◌⊎◌, inl, inr, Bool, true, false, not, ◌&&◌, Option, none, some, List, [], ◌∷◌,
  ◌++◌, Bytes, bytes_eq, bytes_eq-eq, arith, if◌then◌else◌, is_empty, length, ◌==◌, ==_iff,
}
use vpsa_network_discovery.WireAuth.{hex}

-- Manifest
pub record Manifest : Type 0 where
  pub version : Bytes
  pub created_at : ℕ
  pub object_key : Bytes
  pub sha256 : Bytes
  pub size_bytes : ℕ
  pub prefix_count_v4 : ℕ
  pub prefix_count_v6 : ℕ
  pub target_count : ℕ
  pub min_worker_version : Bytes
  pub signature : Bytes

-- Pointer
pub record Pointer : Type 0 where
  pub version : Bytes
  pub manifest_key : Bytes
  pub updated_at : ℕ

pub record Library : Type 0 where
  pub marshal : Manifest → Option Bytes
  pub unmarshal : Bytes → Option Manifest
  pub marshal_pointer : Pointer → Bytes
  pub base64_encode : Bytes → Bytes
  pub base64_decode : Bytes → Option Bytes
  pub sha256 : Bytes → Bytes
  -- ed25519.Sign key message
  pub ed25519_sign : Bytes → Bytes → Bytes
  -- ed25519.Verify key message signature
  pub ed25519_verify : Bytes → Bytes → Bytes → Bool

-- payload
unfoldable pub payload : Library → Manifest → Option Bytes
payload lib m = lib.marshal (record m { signature = [] })

-- Sign; `none` is the error.
unfoldable pub sign : Library → Manifest → Bytes → Option Manifest
unfolding payload
sign lib m key = elim (payload lib m) [
  | none ↦ none
  | some message ↦ some (record m { signature = lib.base64_encode (lib.ed25519_sign key message) })
]

-- ParseSigningKey up to the length of the seed, and ParsePublicKey
unfoldable pub parse_key : Library → Bytes → Option Bytes
parse_key lib text = elim (lib.base64_decode text) [
  | none ↦ none
  | some raw ↦ if length raw == 32 then some raw else none
]

pub data Verdict : Type 0 where
  genuine unsigned bad_encoding bad_json bad_signature : Verdict

unfoldable pub verify_payload : Library → Bytes → Bytes → Option Bytes → Verdict
verify_payload lib pub_key sig none = bad_json
verify_payload lib pub_key sig (some message) =
    if lib.ed25519_verify pub_key message sig then genuine else bad_signature

unfoldable pub verify_signature : Library → Manifest → Bytes → Option Bytes → Verdict
unfolding payload verify_payload
verify_signature lib m pub_key none = bad_encoding
verify_signature lib m pub_key (some sig) = verify_payload lib pub_key sig (payload lib m)

-- Verify
unfoldable pub verify : Library → Manifest → Bytes → Verdict
unfolding verify_signature
verify lib m pub_key =
    if is_empty m.signature
    then unsigned
    else verify_signature lib m pub_key (lib.base64_decode m.signature)

-- HashFile, of the file's content
unfoldable pub hash_file : Library → Bytes → Bytes × ℕ
hash_file lib content = (hex (lib.sha256 content), length content)

pub data FileVerdict : Type 0 where
  intact unreadable bad_size bad_checksum : FileVerdict

-- VerifyFile; the content is `none` where the file cannot be read.
unfoldable pub verify_file : Library → Option Bytes → Manifest → FileVerdict
unfolding hash_file
verify_file lib none m = unreadable
verify_file lib (some content) m =
    let (sum, size) = hash_file lib content in
    if not (size == m.size_bytes)
    then bad_size
    else if not (bytes_eq sum m.sha256)
    then bad_checksum
    else intact

abbrev pub snapshots_prefix : Bytes
snapshots_prefix = b's' ∷ b'n' ∷ b'a' ∷ b'p' ∷ b's' ∷ b'h' ∷ b'o' ∷ b't' ∷ b's' ∷ b'/' ∷ []

-- ObjectKeySQLite and ObjectKeyManifest
abbrev pub object_key_sqlite : Bytes → Bytes
object_key_sqlite version =
    snapshots_prefix
    ++ (version
        ++ (b'/' ∷ b'r' ∷ b'o' ∷ b'u' ∷ b't' ∷ b'i' ∷ b'n' ∷ b'g' ∷ b'.' ∷ b's' ∷ b'q' ∷ b'l' ∷ b'i'
            ∷ b't' ∷ b'e' ∷ []))

abbrev pub object_key_manifest : Bytes → Bytes
object_key_manifest version =
    snapshots_prefix
    ++ (version
        ++ (b'/' ∷ b'm' ∷ b'a' ∷ b'n' ∷ b'i' ∷ b'f' ∷ b'e' ∷ b's' ∷ b't' ∷ b'.' ∷ b'j' ∷ b's' ∷ b'o'
            ∷ b'n' ∷ []))

-- PointerKey
abbrev pub pointer_key : Bytes
pointer_key =
    b's' ∷ b'n' ∷ b'a' ∷ b'p' ∷ b's' ∷ b'h' ∷ b'o' ∷ b't' ∷ b's' ∷ b'/' ∷ b'c' ∷ b'u' ∷ b'r' ∷ b'r'
    ∷ b'e' ∷ b'n' ∷ b't' ∷ b'.' ∷ b'j' ∷ b's' ∷ b'o' ∷ b'n' ∷ []

-- What an accepted manifest has shown.
pub record Endorsed (lib : Library) (m : Manifest) (pub_key : Bytes) : Type 0 where
  pub sig : Bytes
  pub message : Bytes
  pub decoded : lib.base64_decode m.signature ≡ some sig
  pub encoded : payload lib m ≡ some message
  pub endorses : lib.ed25519_verify pub_key message sig ≡ true

-- A manifest that Verify accepts carries a signature, by that key, of its own fields.
pub verify-Endorsed :
    (lib : Library) (m : Manifest) (pub_key : Bytes)
    → verify lib m pub_key ≡ genuine
    → Endorsed lib m pub_key
unfolding verify verify_signature verify_payload
verify-Endorsed lib m pub_key h =
    by_decoded (is_empty m.signature) (lib.base64_decode m.signature) refl h
  where
    by_payload :
        (sig : Bytes)
        → lib.base64_decode m.signature ≡ some sig
        → (p : Option Bytes) → payload lib m ≡ p
        → verify_payload lib pub_key sig p ≡ genuine
        → Endorsed lib m pub_key
    by_payload sig i none j k = absurd (ground arith)
    by_payload sig i (some message) j k = record {
      sig = sig;
      message = message;
      decoded = i;
      encoded = j;
      endorses = ground (arith, k);
    }

    by_decoded :
        (e : Bool) (d : Option Bytes)
        → lib.base64_decode m.signature ≡ d
        → (if e then unsigned else verify_signature lib m pub_key d) ≡ genuine
        → Endorsed lib m pub_key
    by_decoded true d i k = absurd (ground arith)
    by_decoded false none i k = absurd (ground arith)
    by_decoded false (some sig) i k = by_payload sig i (payload lib m) refl k

-- A file that VerifyFile accepts can be read and has the size and the checksum of the manifest.
pub verify_file-intact :
    (lib : Library) (o : Option Bytes) (m : Manifest)
    → verify_file lib o m ≡ intact
    → (content : Bytes) × (o ≡ some content)
      × (length content ≡ m.size_bytes)
      × (hex (lib.sha256 content) ≡ m.sha256)
unfolding verify_file hash_file
verify_file-intact lib none m h = absurd (ground arith)
verify_file-intact lib (some content) m h = (
  content,
  refl,
  ground (arith, h, ==_iff (length content) m.size_bytes),
  bytes_eq-eq (hex (lib.sha256 content)) m.sha256 (ground (arith, h)),
)
