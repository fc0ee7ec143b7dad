-- ===== src/WireAuth/Signing.antt =====
-- internal/wireauth/wireauth.go, `Sign`: the headers of a request, and that Verify accepts them.
use vpsa_network_discovery.Prelude.{
  ℕ, ◌+◌, ◌-◌, ◌*◌, ◌/◌, ◌≤◌, ◌<◌, ◌≡◌, refl, true, false, Option, none, some, [], ◌∷◌, Bytes,
  arith, is_empty,
}
use vpsa_network_discovery.WireAuth.{
  Library, Header, verified, second, max_skew, hex, canonical, exceeds, skew_of, sub_time,
  check_signature, check_window, verify,
}

-- What Sign takes from the Go library.
pub record Signing : Type 0 where
  -- ed25519.Sign key message
  pub ed25519_sign : Bytes → Bytes → Bytes
  pub base64_encode : Bytes → Bytes
  pub format_rfc3339 : ℕ → Bytes

unfoldable pub header_of :
    Library → Signing → Bytes → Bytes → Bytes → Bytes → Bytes → Bytes → Bytes → Header
header_of lib out method path worker key body timestamp nonce = record {
  worker_id = worker;
  timestamp = timestamp;
  nonce = nonce;
  signature =
      out.base64_encode (out.ed25519_sign key (canonical lib method path timestamp nonce body));
}

-- Sign; `random` is what rand.Read yields, and `none` is the error.
unfoldable pub sign :
    Library → Signing → Bytes → Bytes → Bytes → Bytes → Bytes → ℕ → Option Bytes → Option Header
unfolding header_of
sign lib out method path worker key body now none = none
sign lib out method path worker key body now (some random) =
    some (header_of lib out method path worker key body (out.format_rfc3339 now) (hex random))

-- What the Go library promises: signatures of a key verify under its public half, and base64
-- decodes what it encodes; neither result is empty.
pub record IsKeyPair (lib : Library) (out : Signing) (key pub_key : Bytes) : Type 0 where
  pub verifies : (m : Bytes) → lib.ed25519_verify pub_key m (out.ed25519_sign key m) ≡ true
  pub decodes : (b : Bytes) → lib.base64_decode (out.base64_encode b) ≡ some b
  pub encoded : (m : Bytes) → is_empty (out.base64_encode (out.ed25519_sign key m)) ≡ false

-- RFC 3339 keeps the time `at` to the second, as it does for the years that have four digits.
pub record IsStamped (lib : Library) (out : Signing) (at : ℕ) : Type 0 where
  pub parses : lib.parse_rfc3339 (out.format_rfc3339 at) ≡ some (at / second * second)
  pub nonempty : is_empty (out.format_rfc3339 at) ≡ false

hex_nonempty : (b : Bytes) → is_empty b ≡ false → is_empty (hex b) ≡ false
unfolding hex
hex_nonempty [] h = h
hex_nonempty (x ∷ xs) h = refl

to_second : (t : ℕ) → (t / second * second ≤ t) × (t < t / second * second + second)
to_second t = omega arith

close_enough :
    (at now : ℕ)
    → at ≤ now + (max_skew - second)
    → now ≤ at + (max_skew - second)
    → exceeds (skew_of now (at / second * second)) ≡ false
unfolding skew_of sub_time
close_enough at now h k = ground (arith, h, k, to_second at)

-- What Sign signs is accepted.
pub sign-verify :
    (lib : Library) (out : Signing) (key pub_key : Bytes)
    → IsKeyPair lib out key pub_key
    → (method path worker body random : Bytes) (at now : ℕ) (h : Header) → IsStamped lib out at
    → is_empty random ≡ false
    → at ≤ now + (max_skew - second)
    → now ≤ at + (max_skew - second)
    → sign lib out method path worker key body at (some random) ≡ some h
    → verify lib method path h body pub_key now ≡ verified h.nonce
unfolding sign header_of verify check_window check_signature
sign-verify lib out key pub_key k method path worker body random at now h t fresh early late e =
    by_header (header_of lib out method path worker key body (out.format_rfc3339 at) (hex random))
      accepted e
  where
    made : Header
    made = header_of lib out method path worker key body (out.format_rfc3339 at) (hex random)

    accepted : verify lib method path made body pub_key now ≡ verified made.nonce
    accepted =
        rw
          (
            t.nonempty,
            hex_nonempty random fresh,
            k.encoded _,
            t.parses,
            close_enough at now early late,
            k.decodes _,
            k.verifies _,
          )
          refl

    by_header :
        (g : Header)
        → verify lib method path g body pub_key now ≡ verified g.nonce
        → ◌≡◌ {A = Option Header} (some g) (some h)
        → verify lib method path h body pub_key now ≡ verified h.nonce
    by_header g a q = cc

pub sign-worker :
    (lib : Library) (out : Signing) (method path worker key body random : Bytes) (at : ℕ)
    (h : Header)
    → sign lib out method path worker key body at (some random) ≡ some h
    → h.worker_id ≡ worker
unfolding sign header_of
sign-worker lib out method path worker key body random at h e = cc
