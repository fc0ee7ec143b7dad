-- ===== src/Builder/Extraction/Counts.antt =====
-- For internal/builder/builder.go, `extract`: the count of a row across one origin of a record.
use vpsa_network_discovery.Prelude.{
  ℕ, ◌≡◌, refl, ap, subst, ◌∙◌, inl, inr, Bool, true, false, ◌&&◌, Option, none, some, List, [],
  ◌∷◌, ◌++◌, ltb, ◌==◌, ==_iff, arith, if◌then◌else◌, Bool-cases,
}
use vpsa_network_discovery.Sql.Table.{
  update, exists, find, find-update, find-append, find-single, find_sound, find-exists, map_row,
  or_else, exists_of-find,
}
use vpsa_network_discovery.Addresses.{Prefix, same_prefix}
use vpsa_network_discovery.Routing.Table.{TableRecord, peers_of, contains}
use vpsa_network_discovery.Builder.Extraction.{
  ExtractedRow, is_key, new_row, raise_peers, add_origin,
}

-- The higher of two counts, where there are any.
unfoldable pub higher : Option ℕ → Option ℕ → Option ℕ
higher none b = b
higher (some a) none = some a
higher (some a) (some b) = some (if ltb a b then b else a)

-- A record announces the prefix with the origin.
abbrev pub announces : Prefix → ℕ → TableRecord → Bool
announces p o rec = same_prefix rec.prefix p && contains rec.origins o

-- The highest count of peers among the records that announce the prefix with the origin.
unfoldable pub best : Prefix → ℕ → List TableRecord → Option ℕ
unfolding higher
best p o [] = none
best p o (rec ∷ recs) =
    higher (if announces p o rec then some (peers_of rec.peer_counts o) else none) (best p o recs)

abbrev pub count_of : Option ExtractedRow → Option ℕ
count_of none = none
count_of (some r) = some r.peer_count

-- The count that the row of a prefix and an origin carries.
unfoldable pub visibility : Prefix → ℕ → List ExtractedRow → Option ℕ
visibility p o rows = count_of (find (is_key p o) rows)

pub higher-none : (a : Option ℕ) → higher a none ≡ a
unfolding higher
higher-none none = refl
higher-none (some a) = refl

pub higher_assoc : (a b c : Option ℕ) → higher (higher a b) c ≡ higher a (higher b c)
unfolding higher
higher_assoc none b c = refl
higher_assoc (some a) none c = refl
higher_assoc (some a) (some b) none = refl
higher_assoc (some a) (some b) (some c) = ground arith

pub higher_twice : (a b : Option ℕ) → higher (higher a b) b ≡ higher a b
unfolding higher
higher_twice none none = refl
higher_twice none (some b) = ground arith
higher_twice (some a) none = refl
higher_twice (some a) (some b) = ground arith

pub same_prefix-eq : (p q : Prefix) → same_prefix p q ≡ true → p ≡ q
unfolding same_prefix
same_prefix-eq p q h = ground (arith, h)

key_kept : (p : Prefix) (o n : ℕ) (r : ExtractedRow) → is_key p o (raise_peers n r) ≡ is_key p o r
unfolding is_key raise_peers
key_kept p o n r = ground arith

-- Two keys of one row are one.
one_key :
    (p q : Prefix) (o u : ℕ) (r : ExtractedRow)
    → is_key p o r ≡ true
    → is_key q u r ≡ (u == o && same_prefix q p)
unfolding is_key same_prefix
one_key p q o u r h = ground (arith, h)

-- A row added or raised for the origin `u` of a record.
abbrev pub touched : Prefix → ℕ → TableRecord → ℕ → Bool
touched p o rec u = u == o && same_prefix rec.prefix p

abbrev pub raised : Bool → ℕ → Option ℕ → Option ℕ
raised hit n v = if hit then higher v (some n) else v

visibility-new :
    (provider_of : ℕ → ℕ) (p : Prefix) (o : ℕ) (rec : TableRecord) (u : ℕ)
    → is_key p o (new_row provider_of rec u) ≡ touched p o rec u
unfolding is_key new_row
visibility-new provider_of p o rec u = refl

visibility-raised :
    (p : Prefix) (o n : ℕ) (rec : TableRecord) (u : ℕ) (found : Option ExtractedRow)
    → ((r : ExtractedRow) → found ≡ some r → is_key rec.prefix u r ≡ touched p o rec u)
    → (found ≡ none → touched p o rec u ≡ false)
    → count_of (map_row (λ r. if is_key rec.prefix u r then raise_peers n r else r) found)
      ≡ raised (touched p o rec u) n (count_of found)
unfolding raise_peers higher
visibility-raised p o n rec u none k m = rw (m refl) refl
visibility-raised p o n rec u (some r) k m = rw (k r refl) (by_hit (touched p o rec u))
  where
    by_hit :
        (hit : Bool)
        → count_of (map_row (λ r. if hit then raise_peers n r else r) (some r))
          ≡ raised hit n (count_of (some r))
    by_hit true = ground arith
    by_hit false = refl

touched_key :
    (p : Prefix) (o : ℕ) (rec : TableRecord) (u : ℕ)
    → touched p o rec u ≡ true
    → (rec.prefix ≡ p) × (u ≡ o)
touched_key p o rec u h =
    (same_prefix-eq rec.prefix p (ground (arith, h)), (==_iff u o).0 (ground (arith, h)))

new_count :
    (provider_of : ℕ → ℕ) (rec : TableRecord) (u : ℕ)
    → (new_row provider_of rec u).peer_count ≡ peers_of rec.peer_counts u
unfolding new_row
new_count provider_of rec u = refl

-- Where the row is not there, it is not touched as one that is.
touched_found :
    (p : Prefix) (o : ℕ) (rec : TableRecord) (u : ℕ) (seen : List ExtractedRow)
    → exists (is_key rec.prefix u) seen ≡ true
    → find (is_key p o) seen ≡ none
    → touched p o rec u ≡ false
touched_found p o rec u seen e f = elim (Bool-cases (touched p o rec u)) [
  | inr h ↦ h
  | inl h ↦ absurd (no_row h)
]
  where
    no_row : touched p o rec u ≡ true → ⊥
    no_row h =
        let (ep, eo) = touched_key p o rec u h in
        clash (subst (λ (q : Prefix). exists (is_key q u) seen ≡ true) ep e) eo
      where
        clash : exists (is_key p u) seen ≡ true → u ≡ o → ⊥
        clash t eo =
            let t' : exists (is_key p o) seen ≡ true =
              subst (λ (x : ℕ). exists (is_key p x) seen ≡ true) eo t in
            cc (exists_of-find (is_key p o) seen f)

raised_new :
    (hit : Bool) (n : ℕ) (row : ExtractedRow) (found : Option ExtractedRow)
    → row.peer_count ≡ n
    → ((r : ExtractedRow) → found ≡ some r → hit ≡ false)
    → count_of (or_else found (if hit then some row else none)) ≡ raised hit n (count_of found)
unfolding higher
raised_new true n row none e k = ap some e
raised_new false n row none e k = refl
raised_new hit n row (some r) e k = rw (k r refl) refl

module _ (provider_of : ℕ → ℕ) (p : Prefix) (o : ℕ) where
  pub visibility-add_origin :
      (rec : TableRecord) (u : ℕ) (seen : List ExtractedRow)
      → visibility p o (add_origin provider_of rec u seen)
        ≡ raised (touched p o rec u) (peers_of rec.peer_counts u) (visibility p o seen)
  unfolding visibility add_origin
  visibility-add_origin rec u seen = by_key (exists (is_key rec.prefix u) seen) refl
    where
      n : ℕ
      n = peers_of rec.peer_counts u

      at_row :
          (r : ExtractedRow)
          → find (is_key p o) seen ≡ some r
          → is_key rec.prefix u r ≡ touched p o rec u
      at_row r e = one_key p rec.prefix o u r (find_sound (is_key p o) seen r e)

      not_there :
          exists (is_key rec.prefix u) seen ≡ false
          → (r : ExtractedRow) → find (is_key p o) seen ≡ some r
          → touched p o rec u ≡ false
      not_there x r e = elim (Bool-cases (touched p o rec u)) [
        | inr h ↦ h
        | inl h ↦ cc (find-exists (is_key p o) (is_key rec.prefix u) seen r e (at_row r e ∙ h), x)
      ]

      by_key :
          (b : Bool)
          → exists (is_key rec.prefix u) seen ≡ b
          → count_of (
              find (is_key p o) (
                if b
                then update (is_key rec.prefix u) (raise_peers n) seen
                else seen ++ new_row provider_of rec u ∷ []))
            ≡ raised (touched p o rec u) n (count_of (find (is_key p o) seen))
      by_key true x =
          ap count_of
            (find-update (is_key p o) (is_key rec.prefix u) (raise_peers n) seen (key_kept p o n))
          ∙ visibility-raised p o n rec u (find (is_key p o) seen) at_row
              (touched_found p o rec u seen x)
      by_key false x =
          ap count_of (
            find-append (is_key p o) seen (new_row provider_of rec u ∷ [])
            ∙ ap (or_else (find (is_key p o) seen))
                (find-single (is_key p o) (new_row provider_of rec u)))
          ∙ raised_new (touched p o rec u) n (new_row provider_of rec u) (find (is_key p o) seen)
              (new_count provider_of rec u) (not_there x)
