-- ===== src/Builder/Extraction/Soundness.antt =====
-- For internal/builder/builder.go, `extract`: the prefixes of the rows.
use vpsa_network_discovery.Prelude.{
  ℕ, ◌≡◌, refl, ◌∙◌, Bool, true, false, not, ◌&&◌, ◌||◌, List, [], ◌∷◌, ◌++◌, arith, if◌then◌else◌,
}
use vpsa_network_discovery.Sql.Table.{
  update, exists, exists-append, exists-single, exists-update_same,
}
use vpsa_network_discovery.Sorting.{exists-sort_by}
use vpsa_network_discovery.Routing.Bogon.{is_bogon, too_long}
use vpsa_network_discovery.Routing.Table.{TableRecord, peers_of}
use vpsa_network_discovery.Builder.Extraction.{
  ExtractedRow, is_key, new_row, raise_peers, add_origin, add_origins, add_record, add_records,
  by_prefix, extract,
}

-- A row of bogon space, or one that is too long and not flagged.
abbrev pub unsound : ExtractedRow → Bool
unsound r = is_bogon r.prefix || (too_long r.prefix && not r.long_prefix)

unsound_kept : (n : ℕ) (r : ExtractedRow) → unsound (raise_peers n r) ≡ unsound r
unfolding raise_peers
unsound_kept n r = ground arith

unsound-new :
    (provider_of : ℕ → ℕ) (rec : TableRecord) (o : ℕ)
    → is_bogon rec.prefix ≡ false
    → unsound (new_row provider_of rec o) ≡ false
unfolding new_row
unsound-new provider_of rec o h = rw h (by_length (too_long rec.prefix))
  where
    by_length : (b : Bool) → (b && not b) ≡ false
    by_length true = refl
    by_length false = refl

module _ (monitored : ℕ → Bool) (provider_of : ℕ → ℕ) where
  add_origin_sound :
      (rec : TableRecord) (o : ℕ) (seen : List ExtractedRow)
      → is_bogon rec.prefix ≡ false
      → exists unsound seen ≡ false
      → exists unsound (add_origin provider_of rec o seen) ≡ false
  unfolding add_origin
  add_origin_sound rec o seen b h = by_key (exists (is_key rec.prefix o) seen)
    where
      by_key :
          (k : Bool)
          → exists unsound (
              if k
              then update (is_key rec.prefix o) (raise_peers (peers_of rec.peer_counts o)) seen
              else seen ++ new_row provider_of rec o ∷ [])
            ≡ false
      by_key true =
          exists-update_same unsound (is_key rec.prefix o)
            (raise_peers (peers_of rec.peer_counts o)) seen
            (unsound_kept (peers_of rec.peer_counts o))
          ∙ h
      by_key false =
          exists-append unsound seen (new_row provider_of rec o ∷ [])
          ∙ rw (h, exists-single unsound (new_row provider_of rec o))
              (unsound-new provider_of rec o b)

  add_origins_sound :
      (rec : TableRecord) (os : List ℕ) (seen : List ExtractedRow)
      → is_bogon rec.prefix ≡ false
      → exists unsound seen ≡ false
      → exists unsound (add_origins monitored provider_of rec os seen) ≡ false
  unfolding add_origins
  add_origins_sound rec [] seen b h = h
  add_origins_sound rec (o ∷ os) seen b h =
      add_origins_sound rec os _ b (by_monitored (monitored o))
    where
      by_monitored :
          (m : Bool)
          → exists unsound (if m then add_origin provider_of rec o seen else seen) ≡ false
      by_monitored true = add_origin_sound rec o seen b h
      by_monitored false = h

  add_record_sound :
      (rec : TableRecord) (seen : List ExtractedRow)
      → exists unsound seen ≡ false
      → exists unsound (add_record monitored provider_of rec seen) ≡ false
  unfolding add_record
  add_record_sound rec seen h = by_bogon (is_bogon rec.prefix) refl
    where
      by_bogon :
          (b : Bool)
          → is_bogon rec.prefix ≡ b
          → exists unsound
              (if b then seen else add_origins monitored provider_of rec rec.origins seen)
            ≡ false
      by_bogon true e = h
      by_bogon false e = add_origins_sound rec rec.origins seen e h

  add_records_sound :
      (recs : List TableRecord) (seen : List ExtractedRow)
      → exists unsound seen ≡ false
      → exists unsound (add_records monitored provider_of recs seen) ≡ false
  unfolding add_records
  add_records_sound [] seen h = h
  add_records_sound (rec ∷ recs) seen h =
      add_records_sound recs (add_record monitored provider_of rec seen)
        (add_record_sound rec seen h)

  -- No row is of bogon space, and each that is too long is flagged.
  pub extract_sound :
      (recs : List TableRecord) → exists unsound (extract monitored provider_of recs) ≡ false
  unfolding extract exists
  extract_sound recs =
      exists-sort_by unsound by_prefix (add_records monitored provider_of recs [])
      ∙ add_records_sound recs [] refl
