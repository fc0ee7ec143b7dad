-- ===== src/WireAuth.antt =====
-- internal/wireauth/wireauth.go: the signature of a request. Times are nanoseconds since a time
-- before all those that RFC 3339 writes. What the Go library computes (SHA-256, Ed25519, base64,
-- RFC 3339, the syntax of a uuid) is the parameter `Library`; nothing is assumed of it here.
pub mod Canonical
pub mod Signing
use vpsa_network_discovery.Prelude.{
  ℕ, ◌+◌, ◌-◌, ◌*◌, ◌/◌, ◌%◌, ◌≤◌, ◌≡◌, refl, ◌⊎◌, Bool, true, false, not, ◌&&◌, ◌||◌, Option, none,
  some, List, [], ◌∷◌, ◌++◌, Bytes, arith, if◌then◌else◌, ltb, leb, is_empty,
}

pub record Library : Type 0 where
  pub sha256 : Bytes → Bytes
  -- ed25519.Verify key message signature
  pub ed25519_verify : Bytes → Bytes → Bytes → Bool
  pub base64_decode : Bytes → Option Bytes
  pub parse_rfc3339 : Bytes → Option ℕ
  pub parse_uuid : Bytes → Option ℕ

abbrev pub second : ℕ
second = 1_000_000_000

-- MaxSkew
abbrev pub max_skew : ℕ
max_skew = 120 * second

-- The four headers; an absent one is empty.
pub record Header : Type 0 where
  pub worker_id : Bytes
  pub timestamp : Bytes
  pub nonce : Bytes
  pub signature : Bytes

abbrev pub hex_digit : ℕ → ℕ
hex_digit d = if ltb d 10 then b'0' + d else b'a' + d - 10

-- hex.EncodeToString
unfoldable pub hex : Bytes → Bytes
hex [] = []
hex (b ∷ bs) = hex_digit (b / 16) ∷ hex_digit (b % 16) ∷ hex bs

-- strings.Join(…, "|")
unfoldable pub join_bar : List Bytes → Bytes
join_bar [] = []
join_bar (s ∷ []) = s
join_bar (s ∷ t ∷ ss) = s ++ b'|' ∷ join_bar (t ∷ ss)

-- canonical
unfoldable pub canonical : Library → Bytes → Bytes → Bytes → Bytes → Bytes → Bytes
unfolding join_bar
canonical lib method path timestamp nonce body =
    join_bar (method ∷ path ∷ timestamp ∷ nonce ∷ hex (lib.sha256 body) ∷ [])

pub data VerifyError : Type 0 where
  missing_headers bad_timestamp outside_window bad_encoding bad_signature_value : VerifyError

pub data Verdict : Type 0 where
  verified : Bytes → Verdict
  refused : VerifyError → Verdict

-- A time.Duration is an int64 of nanoseconds: here its word of 64 bits, of which the upper half are
-- the negative numbers.
abbrev pub half : ℕ
half = 0x8000_0000_0000_0000

abbrev pub is_negative : ℕ → Bool
is_negative d = leb half d

-- -d; the least duration is its own negation.
abbrev pub negate : ℕ → ℕ
negate d = (2 * half - d) % (2 * half)

-- now.Sub(t), which stops at the least and at the greatest duration.
unfoldable pub sub_time : ℕ → ℕ → ℕ
sub_time now t =
    if ltb now t
    then if leb half (t - now) then half else negate (t - now)
    else if ltb (now - t) half
    then now - t
    else half - 1

-- skew, negated where it is negative
unfoldable pub skew_of : ℕ → ℕ → ℕ
unfolding sub_time
skew_of now t = if is_negative (sub_time now t) then negate (sub_time now t) else sub_time now t

-- skew > MaxSkew, between signed numbers
abbrev pub exceeds : ℕ → Bool
exceeds d = not (is_negative d) && ltb max_skew d

unfoldable pub check_signature : Library → Bytes → Bytes → Bytes → Option Bytes → Verdict
check_signature lib pub_key message nonce none = refused bad_encoding
check_signature lib pub_key message nonce (some sig) =
    if lib.ed25519_verify pub_key message sig then verified nonce else refused bad_signature_value

unfoldable pub check_window :
    Library → Bytes → Bytes → Header → Bytes → Bytes → ℕ → Option ℕ → Verdict
unfolding check_signature
check_window lib method path h body pub_key now none = refused bad_timestamp
check_window lib method path h body pub_key now (some t) =
    if exceeds (skew_of now t)
    then refused outside_window
    else check_signature lib pub_key (canonical lib method path h.timestamp h.nonce body) h.nonce
        (lib.base64_decode h.signature)

-- Verify
unfoldable pub verify : Library → Bytes → Bytes → Header → Bytes → Bytes → ℕ → Verdict
unfolding check_window
verify lib method path h body pub_key now =
    if is_empty h.timestamp || is_empty h.nonce || is_empty h.signature
    then refused missing_headers
    else check_window lib method path h body pub_key now (lib.parse_rfc3339 h.timestamp)

-- What the test of the window lets pass: times within it, and those so far ahead that the
-- difference overflows.
within_window :
    (now t : ℕ)
    → exceeds (skew_of now t) ≡ false
    → (now ≤ t + max_skew) × ((t ≤ now + max_skew) ⊎ (now + half ≤ t))
unfolding skew_of sub_time
within_window now t h = ground arith

-- What an accepted request has shown.
pub record Shown (lib : Library) (method path : Bytes) (h : Header) (body pub_key : Bytes) (now : ℕ)
    : Type 0 where
  pub time : ℕ
  pub stamped : lib.parse_rfc3339 h.timestamp ≡ some time
  pub not_early : now ≤ time + max_skew
  pub not_late : (time ≤ now + max_skew) ⊎ (now + half ≤ time)
  pub sig : Bytes
  pub decoded : lib.base64_decode h.signature ≡ some sig
  pub signed :
      lib.ed25519_verify pub_key (canonical lib method path h.timestamp h.nonce body) sig ≡ true

verified_sig :
    (lib : Library) (pub_key message nonce : Bytes) (o : Option Bytes) (n : Bytes)
    → check_signature lib pub_key message nonce o ≡ verified n
    → (sig : Bytes) × (o ≡ some sig) × (lib.ed25519_verify pub_key message sig ≡ true) × (n ≡ nonce)
unfolding check_signature
verified_sig lib pub_key message nonce none n h = cc
verified_sig lib pub_key message nonce (some sig) n h = (sig, refl, ground arith, ground arith)

verified_window :
    (lib : Library) (method path : Bytes) (h : Header) (body pub_key : Bytes) (now : ℕ)
    (o : Option ℕ) (n : Bytes)
    → check_window lib method path h body pub_key now o ≡ verified n
    → lib.parse_rfc3339 h.timestamp ≡ o
    → Shown lib method path h body pub_key now × (n ≡ h.nonce)
unfolding check_window
verified_window lib method path h body pub_key now none n v e = cc
verified_window lib method path h body pub_key now (some t) n v e =
    let checked : check_signature lib pub_key (canonical lib method path h.timestamp h.nonce body)
          h.nonce (lib.base64_decode h.signature)
        ≡ verified n =
      ground arith in
    let passed : exceeds (skew_of now t) ≡ false = ground arith in
    let (early, late) = within_window now t passed in
    let (sig, d, s, m) =
      verified_sig lib pub_key _ h.nonce (lib.base64_decode h.signature) n checked in
    (
      record {
        time = t;
        stamped = e;
        not_early = early;
        not_late = late;
        sig = sig;
        decoded = d;
        signed = s;
      },
      m,
    )

-- A request that Verify accepts carries a signature of its canonical string by that key, at a time
-- that the window lets pass, and the nonce that is returned is the header's.
pub verify-Shown :
    (lib : Library) (method path : Bytes) (h : Header) (body pub_key : Bytes) (now : ℕ) (n : Bytes)
    → verify lib method path h body pub_key now ≡ verified n
    → Shown lib method path h body pub_key now × (n ≡ h.nonce)
unfolding verify
verify-Shown lib method path h body pub_key now n v =
    verified_window lib method path h body pub_key now (lib.parse_rfc3339 h.timestamp) n
      (ground arith) refl
