-- ===== src/Observations.antt =====
-- internal/observation/observation.go: the signed record of a measurement. What the Go library
-- computes (JSON, base64, Ed25519) is the parameter `Codec`.
use vpsa_network_discovery.Prelude.{
  ℕ, ◌≡◌, refl, Bool, true, false, Option, none, some, [], Bytes, if◌then◌else◌, is_empty,
}

-- The float and the map of metrics stand as the text of their JSON.
pub record Observation : Type 0 where
  pub assignment : ℕ
  pub target : Bytes
  pub probe_type : Bytes
  pub measured_at : ℕ
  pub ok : Bool
  pub rtt_ms : Option Bytes
  pub packets_sent : ℕ
  pub packets_lost : ℕ
  pub metrics : Bytes
  pub signature : Bytes

pub record Codec : Type 0 where
  -- json.Marshal, which fails on a value that JSON cannot hold
  pub marshal : Observation → Option Bytes
  pub base64_encode : Bytes → Bytes
  pub base64_decode : Bytes → Option Bytes
  -- ed25519.Sign key message
  pub ed25519_sign : Bytes → Bytes → Bytes
  -- ed25519.Verify key message signature
  pub ed25519_verify : Bytes → Bytes → Bytes → Bool

-- payload
unfoldable pub payload : Codec → Observation → Option Bytes
payload lib o = lib.marshal (record o { signature = [] })

-- Sign; `none` is the error, which leaves the observation as it was.
unfoldable pub sign : Codec → Observation → Bytes → Option Observation
unfolding payload
sign lib o key = elim (payload lib o) [
  | none ↦ none
  | some message ↦ some (record o { signature = lib.base64_encode (lib.ed25519_sign key message) })
]

pub data Verdict : Type 0 where
  verified unsigned bad_encoding bad_json bad_signature : Verdict

unfoldable pub verify_payload : Codec → Bytes → Bytes → Option Bytes → Verdict
verify_payload lib pub_key sig none = bad_json
verify_payload lib pub_key sig (some message) =
    if lib.ed25519_verify pub_key message sig then verified else bad_signature

-- Verify
unfoldable pub verify : Codec → Observation → Bytes → Verdict
unfolding payload verify_payload
verify lib o pub_key =
    if is_empty o.signature then unsigned else elim (lib.base64_decode o.signature) [
      | none ↦ bad_encoding
      | some sig ↦ verify_payload lib pub_key sig (payload lib o)
    ]

-- What the library promises of a key pair.
pub record IsKeyPair (lib : Codec) (key pub_key : Bytes) : Type 0 where
  pub verifies : (m : Bytes) → lib.ed25519_verify pub_key m (lib.ed25519_sign key m) ≡ true
  pub nonempty : (m : Bytes) → is_empty (lib.ed25519_sign key m) ≡ false

pub record IsBase64 (lib : Codec) : Type 0 where
  pub decodes : (b : Bytes) → lib.base64_decode (lib.base64_encode b) ≡ some b
  pub nonempty : (b : Bytes) → is_empty b ≡ false → is_empty (lib.base64_encode b) ≡ false

-- What Sign signs, Verify accepts under the key's public half, if the signatures of a key verify
-- under it and are not empty and base64 decodes what it encodes and encodes nothing else as the
-- empty text.
pub sign-verify :
    (lib : Codec) (key pub_key : Bytes)
    → IsKeyPair lib key pub_key
    → IsBase64 lib
    → (o o' : Observation) → sign lib o key ≡ some o'
    → verify lib o' pub_key ≡ verified
unfolding sign verify verify_payload payload
sign-verify lib key pub_key k b o o' h =
    by_payload (lib.marshal (record o { signature = [] })) refl h
  where
    signed_as : Bytes → Observation
    signed_as m = record o { signature = lib.base64_encode (lib.ed25519_sign key m) }

    accepted :
        (m : Bytes)
        → lib.marshal (record o { signature = [] }) ≡ some m
        → verify lib (signed_as m) pub_key ≡ verified
    accepted m e = simp (e, b.decodes, k.verifies, b.nonempty _ (k.nonempty m))

    by_payload :
        (p : Option Bytes)
        → lib.marshal (record o { signature = [] }) ≡ p
        → (elim p [ none ↦ none | some message ↦ some (signed_as message) ]) ≡ some o'
        → verify lib o' pub_key ≡ verified
    by_payload none e q = cc
    by_payload (some m) e q = by_result (accepted m e) q
      where
        by_result :
            verify lib (signed_as m) pub_key ≡ verified
            → ◌≡◌ {A = Option Observation} (some (signed_as m)) (some o')
            → verify lib o' pub_key ≡ verified
        by_result r q' = cc
