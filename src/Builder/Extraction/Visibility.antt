-- ===== src/Builder/Extraction/Visibility.antt =====
-- For internal/builder/builder.go, `extract`: the visibility that a row ends with.
use vpsa_network_discovery.Prelude.{
  ℕ, ◌≡◌, refl, sym, ap, ◌∙◌, Bool, true, false, not, ◌&&◌, ◌||◌, Option, none, some, List, [], ◌∷◌,
  ◌==◌, ==_iff, arith, if◌then◌else◌,
}
use vpsa_network_discovery.Sql.Table.{find}
use vpsa_network_discovery.Addresses.{Prefix, same_prefix}
use vpsa_network_discovery.Sorting.{find-sort_by}
use vpsa_network_discovery.Routing.Bogon.{is_bogon}
use vpsa_network_discovery.Routing.Table.{TableRecord, peers_of, contains}
use vpsa_network_discovery.Builder.Extraction.{
  ExtractedRow, is_key, add_origin, add_origins, add_record, add_records, by_prefix, extract,
}
use vpsa_network_discovery.Builder.Extraction.Counts.{
  higher, higher-none, higher_assoc, higher_twice, announces, best, count_of, visibility, touched,
  raised, same_prefix-eq, visibility-add_origin,
}

raised_again :
    (mu mo same c prefixed : Bool) (nu n : ℕ) (v : Option ℕ)
    → (same ≡ true → (mu ≡ mo) × (nu ≡ n))
    → raised (mo && (c && prefixed)) n (if mu then raised (same && prefixed) nu v else v)
      ≡ raised (mo && ((same || c) && prefixed)) n v
raised_again mu mo false c prefixed nu n v k = by_monitored mu
  where
    by_monitored :
        (b : Bool)
        → raised (mo && (c && prefixed)) n (if b then raised (false && prefixed) nu v else v)
          ≡ raised (mo && ((false || c) && prefixed)) n v
    by_monitored true = refl
    by_monitored false = refl
raised_again mu mo true c prefixed nu n v k =
    let (em, en) = k refl in rw (em, en) (by_all mo c prefixed)
  where
    by_all :
        (m d s : Bool)
        → raised (m && (d && s)) n (if m then raised (true && s) n v else v)
          ≡ raised (m && ((true || d) && s)) n v
    by_all false d s = refl
    by_all true true true = higher_twice v (some n)
    by_all true false s = refl
    by_all true true false = refl

record_raised :
    (bogus bogus_p m c prefixed : Bool) (n : ℕ) (v : Option ℕ)
    → (prefixed ≡ true → bogus ≡ bogus_p)
    → (if bogus then v else raised (m && (c && prefixed)) n v)
      ≡ (if m && not bogus_p then higher v (if prefixed && c then some n else none) else v)
record_raised bogus bogus_p m c true n v k = rw (k refl) (by_all bogus_p m c)
  where
    by_all :
        (b m' d : Bool)
        → (if b then v else raised (m' && (d && true)) n v)
          ≡ (if m' && not b then higher v (if d then some n else none) else v)
    by_all true true d = refl
    by_all true false d = refl
    by_all false false d = refl
    by_all false true true = refl
    by_all false true false = sym (higher-none v)
record_raised bogus bogus_p m c false n v k = by_all bogus m c (not bogus_p)
  where
    by_all :
        (b m' d g : Bool)
        → (if b then v else raised (m' && (d && false)) n v)
          ≡ (if m' && g then higher v none else v)
    by_all true true d true = sym (higher-none v)
    by_all true true d false = refl
    by_all true false d g = refl
    by_all false false d g = refl
    by_all false true true true = sym (higher-none v)
    by_all false true false true = sym (higher-none v)
    by_all false true true false = refl
    by_all false true false false = refl

module _ (monitored : ℕ → Bool) (provider_of : ℕ → ℕ) (p : Prefix) (o : ℕ) where
  visibility-add_origins :
      (rec : TableRecord) (os : List ℕ) (seen : List ExtractedRow)
      → visibility p o (add_origins monitored provider_of rec os seen)
        ≡ raised
            (monitored o && (contains os o && same_prefix rec.prefix p))
            (peers_of rec.peer_counts o)
            (visibility p o seen)
  unfolding add_origins contains
  visibility-add_origins rec [] seen = none_raised (monitored o)
    where
      none_raised :
          (b : Bool)
          → visibility p o seen
            ≡ raised (b && false) (peers_of rec.peer_counts o) (visibility p o seen)
      none_raised true = refl
      none_raised false = refl
  visibility-add_origins rec (u ∷ os) seen =
      visibility-add_origins rec os
        (if monitored u then add_origin provider_of rec u seen else seen)
      ∙ ap (raised (monitored o && (contains os o && same_prefix rec.prefix p)) n)
          (by_monitored (monitored u))
      ∙ raised_again (monitored u) (monitored o) (u == o) (contains os o) (same_prefix rec.prefix p)
          (peers_of rec.peer_counts u) n (visibility p o seen) at_same
    where
      n : ℕ
      n = peers_of rec.peer_counts o

      by_monitored :
          (b : Bool)
          → visibility p o (if b then add_origin provider_of rec u seen else seen) ≡ (
              if b
              then raised (touched p o rec u) (peers_of rec.peer_counts u) (visibility p o seen)
              else visibility p o seen)
      by_monitored true = visibility-add_origin provider_of p o rec u seen
      by_monitored false = refl

      at_same : (u == o) ≡ true → (monitored u ≡ monitored o) × (peers_of rec.peer_counts u ≡ n)
      at_same h = let e = (==_iff u o).0 h in (ap monitored e, ap (peers_of rec.peer_counts) e)

  abbrev shown : TableRecord → Option ℕ
  shown rec = if announces p o rec then some (peers_of rec.peer_counts o) else none

  visibility-add_record :
      (rec : TableRecord) (seen : List ExtractedRow)
      → visibility p o (add_record monitored provider_of rec seen) ≡ (
          if monitored o && not (is_bogon p)
          then higher (visibility p o seen) (shown rec)
          else visibility p o seen)
  unfolding add_record
  visibility-add_record rec seen =
      by_bogon (is_bogon rec.prefix)
      ∙ record_raised (is_bogon rec.prefix) (is_bogon p) (monitored o) (contains rec.origins o)
          (same_prefix rec.prefix p) (peers_of rec.peer_counts o) (visibility p o seen)
          (λ h. ap is_bogon (same_prefix-eq rec.prefix p h))
    where
      by_bogon :
          (b : Bool)
          → visibility p o
              (if b then seen else add_origins monitored provider_of rec rec.origins seen)
            ≡ (if b
                then visibility p o seen
                else raised
                    (monitored o && (contains rec.origins o && same_prefix rec.prefix p))
                    (peers_of rec.peer_counts o)
                    (visibility p o seen))
      by_bogon true = refl
      by_bogon false = visibility-add_origins rec rec.origins seen

  visibility-add_records :
      (recs : List TableRecord) (seen : List ExtractedRow)
      → visibility p o (add_records monitored provider_of recs seen) ≡ (
          if monitored o && not (is_bogon p)
          then higher (visibility p o seen) (best p o recs)
          else visibility p o seen)
  unfolding add_records best
  visibility-add_records [] seen = by_kept (monitored o && not (is_bogon p))
    where
      by_kept :
          (b : Bool)
          → visibility p o seen
            ≡ (if b then higher (visibility p o seen) none else visibility p o seen)
      by_kept true = sym (higher-none (visibility p o seen))
      by_kept false = refl
  visibility-add_records (rec ∷ recs) seen =
      visibility-add_records recs (add_record monitored provider_of rec seen)
      ∙ by_kept (monitored o && not (is_bogon p)) (visibility-add_record rec seen)
    where
      v : Option ℕ
      v = visibility p o seen

      by_kept :
          (b : Bool)
          → visibility p o (add_record monitored provider_of rec seen)
            ≡ (if b then higher v (shown rec) else v)
          → (if b
              then higher
                  (visibility p o (add_record monitored provider_of rec seen))
                  (best p o recs)
              else visibility p o (add_record monitored provider_of rec seen))
            ≡ (if b then higher v (higher (shown rec) (best p o recs)) else v)
      by_kept true e =
          ap (λ w. higher w (best p o recs)) e ∙ higher_assoc v (shown rec) (best p o recs)
      by_kept false e = e

  same_order :
      (x y : ExtractedRow) → is_key p o x ≡ true → is_key p o y ≡ true → by_prefix y x ≡ false
  unfolding is_key same_prefix
  same_order x y h k = ground (arith, h, k)

  visibility-extract :
      (recs : List TableRecord)
      → visibility p o (extract monitored provider_of recs)
        ≡ (if monitored o && not (is_bogon p) then best p o recs else none)
  unfolding extract visibility find best higher
  visibility-extract recs =
      ap count_of
        (find-sort_by (is_key p o) by_prefix (add_records monitored provider_of recs []) same_order)
      ∙ visibility-add_records recs []
      ∙ empty (monitored o && not (is_bogon p))
    where
      empty :
          (b : Bool)
          → (if b then higher (visibility p o []) (best p o recs) else visibility p o [])
            ≡ (if b then best p o recs else none)
      empty true = refl
      empty false = refl

-- The rows that are extracted of a dump hold, for a prefix and an origin, the highest count of
-- peers among the records of that prefix that name the origin, and no row where there is no such
-- record, the origin is not monitored or the prefix is a bogon.
pub extract-visibility :
    (monitored : ℕ → Bool) (provider_of : ℕ → ℕ) (recs : List TableRecord) (p : Prefix) (o : ℕ)
    → visibility p o (extract monitored provider_of recs)
      ≡ (if monitored o && not (is_bogon p) then best p o recs else none)
extract-visibility monitored provider_of recs p o =
    visibility-extract monitored provider_of p o recs
