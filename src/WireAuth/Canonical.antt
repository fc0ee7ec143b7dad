-- ===== src/WireAuth/Canonical.antt =====
-- For internal/wireauth/wireauth.go: the canonical string.
use vpsa_network_discovery.Prelude.{◌≡◌, refl, ◌≢◌, [], ◌∷◌, ◌++◌, Bytes, arith, All}
use vpsa_network_discovery.WireAuth.{Library, canonical, hex}

-- No separator in a part.
abbrev pub NoBar : Bytes → Type 0
NoBar = All (λ b. b ≢ b'|')

-- The first part ends at the first separator.
split_at_bar :
    (s t u v : Bytes) → NoBar s → NoBar t → s ++ b'|' ∷ u ≡ t ++ b'|' ∷ v → (s ≡ t) × (u ≡ v)
split_at_bar [] [] u v a b h = (refl, ground arith)
split_at_bar [] (y ∷ t) u v a b h = absurd (ground arith)
split_at_bar (x ∷ s) [] u v a b h = absurd (ground arith)
split_at_bar (x ∷ s) (y ∷ t) u v a b h =
    let (e, r) = split_at_bar s t u v a.1 b.1 (ground arith) in (ground (arith, e), r)

-- Two requests with one canonical string are one in method, path, timestamp and nonce, and have
-- bodies of one hash (in hexadecimal), if none of the first four parts holds the separator.
pub canonical-injective :
    (lib : Library) (method path time nonce body method' path' time' nonce' body' : Bytes)
    → NoBar method
    → NoBar path
    → NoBar time
    → NoBar nonce
    → NoBar method'
    → NoBar path'
    → NoBar time'
    → NoBar nonce'
    → canonical lib method path time nonce body ≡ canonical lib method' path' time' nonce' body'
    → (method ≡ method')
      × (path ≡ path')
      × (time ≡ time')
      × (nonce ≡ nonce')
      × (hex (lib.sha256 body) ≡ hex (lib.sha256 body'))
unfolding canonical
canonical-injective lib m p t n b m' p' t' n' b' hm hp ht hn hm' hp' ht' hn' e =
    let (e1, r1) = split_at_bar m m' _ _ hm hm' e in
    let (e2, r2) = split_at_bar p p' _ _ hp hp' r1 in
    let (e3, r3) = split_at_bar t t' _ _ ht ht' r2 in
    let (e4, r4) = split_at_bar n n' _ _ hn hn' r3 in (e1, e2, e3, e4, r4)
