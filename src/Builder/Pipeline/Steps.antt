-- ===== src/Builder/Pipeline/Steps.antt =====
-- For internal/builder/builder.go, `Run`: the table of snapshots across the steps of the pipeline.
use vpsa_network_discovery.Prelude.{
  ℕ, ◌≡◌, refl, ◌∙◌, Bool, true, false, Option, none, some, List, [], ◌∷◌, ◌++◌, Bytes,
  if◌then◌else◌,
}
use vpsa_network_discovery.Database.{Database, Snapshot, ProviderGeo, Asn}
use vpsa_network_discovery.Sql.{Result, ok, err, db_error, M, Conn, exec}
use vpsa_network_discovery.Sql.Keeps.{
  Keeps, Keeps-leaves, Keeps-bind, Keeps-pure, Keeps-raise, Keeps-if, Keeps-transact, Leaves,
}
use vpsa_network_discovery.Sql.Table.{exists, update}
use vpsa_network_discovery.Sql.Triple.{Triple, PostWith}
use vpsa_network_discovery.Addresses.{Prefix}
use vpsa_network_discovery.Advisor.{
  Listed, sync_providers, sync_each, sync_asns, claimed_by_other, upsert_provider, upsert_asn,
  delist, is_asn, is_provider, row_of,
}
use vpsa_network_discovery.Artifact.Publisher.{World}
use vpsa_network_discovery.Distribution.{Range}
use vpsa_network_discovery.Distribution.Countries.{
  Announcement, CountryStat, load_distribution, load_providers, load_stats, upsert_geo, geo_row,
  is_geo, count_targets, stats_of, providers_of,
}
use vpsa_network_discovery.Builder.Targets.{Limits, derive_targets}
use vpsa_network_discovery.Builder.Pipeline.{on_db}

module _ {K : Database → Type 0} {A : Type 0} where
  pub Keeps-on_db : (m : M Database A) → Keeps K m → Keeps (λ s. K s.db) (on_db m)
  unfolding on_db
  Keeps-on_db m k = record { at = λ c h. k.at (record { db = c.db.db; faults = c.faults }) h }

module _ {K E : Database → Type 0} {A : Type 0} {Q : A → Database → Type 0} where
  pub Triple-on_db :
      (m : M Database A)
      → Triple K Q E m
      → Triple (λ s. K s.db) (λ a s. Q a s.db) (λ s. E s.db) (on_db m)
  unfolding on_db
  Triple-on_db m k = record {
    at = λ c h.
        lifted c.db (m (record { db = c.db.db; faults = c.faults })).0 _
          (k.at (record { db = c.db.db; faults = c.faults }) h);
  }
    where
      lifted :
          (w : World) (r : Result A) (c : Conn Database)
          → PostWith Q E r c
          → PostWith
              (λ (a : A) (s : World). Q a s.db)
              (λ s. E s.db)
              r
              (record { db = record w { db = c.db }; faults = c.faults })
      lifted w (ok a) c h = h
      lifted w (err e) c h = h

-- The table of snapshots and its identity column.
pub record Table (snapshots : List Snapshot) (seq : ℕ) (db : Database) : Type 0 where
  pub rows : db.snapshots ≡ snapshots
  pub next : db.snapshot_seq ≡ seq

module _ (snapshots : List Snapshot) (seq : ℕ) where
  abbrev Framed : Database → Database → Type 0
  Framed db t = (t.snapshots ≡ db.snapshots) × (t.snapshot_seq ≡ db.snapshot_seq)

  framed :
      {A : Type 0} (f : Database → Result (A × Database))
      → ((db : Database) → Leaves (Framed db) (f db))
      → Keeps (Table snapshots seq) (exec f)
  framed {A} f k = Keeps-leaves f λ db v. moved db v (f db) (k db)
    where
      moved :
          (db : Database)
          → Table snapshots seq db
          → (r : Result (A × Database)) → Leaves (Framed db) r
          → Leaves (Table snapshots seq) r
      moved db v (ok (a, t)) (e, n) = record { rows = e ∙ v.rows; next = n ∙ v.next }
      moved db v (err x) u = tt

  upsert_provider-Framed : (l : Listed) (db : Database) → Leaves (Framed db) (upsert_provider l db)
  unfolding upsert_provider
  upsert_provider-Framed l db = at_row (exists (is_provider l.provider) db.providers)
    where
      at_row :
          (b : Bool)
          → Leaves (Framed db) (
              if b
              then ok (
                tt,
                record db {
                  providers = update (is_provider l.provider) (λ p. row_of l) db.providers;
                },
              )
              else ok (tt, record db { providers = db.providers ++ row_of l ∷ [] }))
      at_row true = (refl, refl)
      at_row false = (refl, refl)

  upsert_asn-Framed :
      (asn provider : ℕ) (db : Database) → Leaves (Framed db) (upsert_asn asn provider db)
  unfolding upsert_asn
  upsert_asn-Framed asn provider db = at_row (exists (is_asn asn) db.asns)
    where
      at_row :
          (b : Bool)
          → Leaves (Framed db) (
              if b
              then ok (
                tt,
                record db {
                  asns = update (is_asn asn) (λ r. record r { provider = provider }) db.asns;
                },
              )
              else ok (
                tt,
                record db { asns = db.asns ++ record { asn = asn; provider = provider } ∷ [] },
              ))
      at_row true = (refl, refl)
      at_row false = (refl, refl)

  sync_asns-Table :
      (provider : ℕ) (asns : List ℕ) (seen : List Asn)
      → Keeps (Table snapshots seq) (sync_asns provider asns seen)
  unfolding sync_asns
  sync_asns-Table provider [] seen = Keeps-pure seen
  sync_asns-Table provider (a ∷ asns) seen =
      Keeps-if (claimed_by_other seen a provider) _ _ (Keeps-raise db_error) (
        Keeps-bind _ _ (framed (upsert_asn a provider) (upsert_asn-Framed a provider))
          λ u. sync_asns-Table provider asns (record { asn = a; provider = provider } ∷ seen))

  sync_each-Table :
      (ls : List Listed) (seen : List Asn) → Keeps (Table snapshots seq) (sync_each ls seen)
  unfolding sync_each
  sync_each-Table [] seen = Keeps-pure seen
  sync_each-Table (l ∷ ls) seen =
      Keeps-bind _ _ (framed (upsert_provider l) (upsert_provider-Framed l))
        λ u. Keeps-bind _ _ (sync_asns-Table l.provider l.asns seen) λ s. sync_each-Table ls s

  pub sync_providers-Table :
      (now : ℕ) (o : Option (List Listed)) → Keeps (Table snapshots seq) (sync_providers now o)
  unfolding sync_providers delist
  sync_providers-Table now none = Keeps-raise db_error
  sync_providers-Table now (some ls) = Keeps-transact _ (
      Keeps-bind _ _ (sync_each-Table ls [])
        λ seen. Keeps-bind _ _ (framed (delist now ls) λ db. (refl, refl)) λ u. Keeps-pure seen)

  upsert_geo-Framed : (g : ProviderGeo) (db : Database) → Leaves (Framed db) (upsert_geo g db)
  unfolding upsert_geo
  upsert_geo-Framed g db = at_row (exists (is_geo g.snapshot g.provider g.country) db.provider_geo)
    where
      at_row :
          (b : Bool)
          → Framed db (
              if b
              then record db {
                provider_geo =
                    update
                      (is_geo g.snapshot g.provider g.country)
                      (λ r. record g { target_count = r.target_count })
                      db.provider_geo;
              }
              else record db { provider_geo = db.provider_geo ++ g ∷ [] })
      at_row true = (refl, refl)
      at_row false = (refl, refl)

  load_stats-Table :
      (snapshot provider : ℕ) (ss : List CountryStat)
      → Keeps (Table snapshots seq) (load_stats snapshot provider ss)
  unfolding load_stats
  load_stats-Table snapshot provider [] = Keeps-pure tt
  load_stats-Table snapshot provider (s ∷ ss) =
      Keeps-bind _ _
        (framed (upsert_geo (geo_row snapshot provider s))
          (upsert_geo-Framed (geo_row snapshot provider s)))
        λ u. load_stats-Table snapshot provider ss

  load_providers-Table :
      (ranges : Prefix → List Range) (rows : List Announcement) (snapshot : ℕ) (ps : List ℕ)
      → Keeps (Table snapshots seq) (load_providers ranges rows snapshot ps)
  unfolding load_providers
  load_providers-Table ranges rows snapshot [] = Keeps-pure tt
  load_providers-Table ranges rows snapshot (p ∷ ps) =
      Keeps-bind _ _ (load_stats-Table snapshot p (stats_of ranges rows p))
        λ u. load_providers-Table ranges rows snapshot ps

  pub load_distribution-Table :
      (ranges : Prefix → List Range) (rows : List Announcement) (snapshot : ℕ)
      → Keeps (Table snapshots seq) (load_distribution ranges rows snapshot)
  unfolding load_distribution
  load_distribution-Table ranges rows snapshot =
      Keeps-transact _ (load_providers-Table ranges rows snapshot (providers_of rows []))

  pub derive_targets-Table :
      (text_of : Bool → ℕ → Bytes) (l : Limits) (snapshot : ℕ)
      → Keeps (Table snapshots seq) (exec (derive_targets text_of l snapshot))
  unfolding derive_targets
  derive_targets-Table text_of l snapshot =
      framed (derive_targets text_of l snapshot) λ db. (refl, refl)

  pub count_targets-Table :
      (snapshot : ℕ) → Keeps (Table snapshots seq) (exec (count_targets snapshot))
  unfolding count_targets
  count_targets-Table snapshot = framed (count_targets snapshot) λ db. (refl, refl)
