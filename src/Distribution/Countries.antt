-- ===== src/Distribution/Countries.antt =====
-- For internal/builder/distribution.go, `distribute`, and builder.go, `loadDistribution` and
-- `countTargetsByCountry`: the distribution of each provider over the countries. Names and
-- percentages, which are only displayed, are left out.
use vpsa_network_discovery.Prelude.{
  ℕ, ◌+◌, ◌%◌, Bool, true, false, ◌&&◌, List, [], ◌∷◌, ◌++◌, Bytes, bytes_eq, is_empty, ltb, ◌==◌,
  if◌then◌else◌,
}
use vpsa_network_discovery.Database.{Database, ProviderGeo, ProbeTarget}
use vpsa_network_discovery.Sql.{Result, ok, M, exec, transact, pure, ◌>>=◌}
use vpsa_network_discovery.Sql.Table.{update, exists, count}
use vpsa_network_discovery.Addresses.{Prefix, masked, same_family, same_prefix}
use vpsa_network_discovery.Distribution.{Range, Shares, word, unknown_country}
use vpsa_network_discovery.Distribution.Exclusive.{Entry, exclusive_units}

-- What distribute reads of a row.
pub record Announcement : Type 0 where
  pub provider : ℕ
  pub prefix : Prefix

-- CountryStat
pub record CountryStat : Type 0 where
  pub code : Bytes
  pub ipv4_addresses : ℕ
  pub ipv6_net64s : ℕ
  pub prefix_count_v4 : ℕ
  pub prefix_count_v6 : ℕ

-- A set of prefixes.
unfoldable pub insert_prefix : Prefix → List Prefix → List Prefix
insert_prefix p ps = if exists (same_prefix p) ps then ps else ps ++ p ∷ []

-- The prefixes of a provider and an address family.
unfoldable pub prefixes_of : ℕ → Bool → List Announcement → List Prefix → List Prefix
unfolding masked insert_prefix
prefixes_of provider is6 [] seen = seen
prefixes_of provider is6 (r ∷ rs) seen = prefixes_of provider is6 rs (
    if r.provider == provider && same_family r.prefix.is6 is6
    then insert_prefix (masked r.prefix) seen
    else seen)

abbrev pub no_stat : Bytes → CountryStat
no_stat code = record {
  code = code;
  ipv4_addresses = 0;
  ipv6_net64s = 0;
  prefix_count_v4 = 0;
  prefix_count_v6 = 0;
}

-- stat(code), and what is done with it.
unfoldable pub at_code : Bytes → (CountryStat → CountryStat) → List CountryStat → List CountryStat
at_code code f [] = f (no_stat code) ∷ []
at_code code f (s ∷ ss) =
    let rest = at_code code f ss in if bytes_eq s.code code then f s ∷ ss else s ∷ rest

unfoldable pub add_space : Bool → ℕ → CountryStat → CountryStat
add_space is6 u s =
    if is6
    then record s { ipv6_net64s = (s.ipv6_net64s + u) % word }
    else record s { ipv4_addresses = (s.ipv4_addresses + u) % word }

unfoldable pub add_prefix : Bool → CountryStat → CountryStat
add_prefix is6 s =
    if is6
    then record s { prefix_count_v6 = s.prefix_count_v6 + 1 }
    else record s { prefix_count_v4 = s.prefix_count_v4 + 1 }

unfoldable pub add_exclusive : Bool → Shares → List CountryStat → List CountryStat
unfolding at_code add_space
add_exclusive is6 [] ss = ss
add_exclusive is6 (e ∷ es) ss =
    add_exclusive is6 es (if e.1 == 0 then ss else at_code e.0 (add_space is6 e.1) ss)

unfoldable pub add_own : Bool → Shares → List CountryStat → List CountryStat
unfolding at_code add_prefix
add_own is6 [] ss = ss
add_own is6 (e ∷ es) ss = add_own is6 es (at_code e.0 (add_prefix is6) ss)

unfoldable pub add_entries : Bool → List Entry → List CountryStat → List CountryStat
unfolding add_exclusive add_own
add_entries is6 [] ss = ss
add_entries is6 (e ∷ es) ss =
    add_entries is6 es (add_own is6 e.own (add_exclusive is6 e.exclusive ss))

-- distribute, for one provider
unfoldable pub stats_of : (Prefix → List Range) → List Announcement → ℕ → List CountryStat
unfolding prefixes_of add_entries
stats_of ranges rows provider =
    add_entries true (exclusive_units ranges (prefixes_of provider true rows []))
      (add_entries false (exclusive_units ranges (prefixes_of provider false rows [])) [])

unfoldable pub insert_provider : ℕ → List ℕ → List ℕ
insert_provider p ps = if exists (λ q. q == p) ps then ps else ps ++ p ∷ []

-- Rows without a provider, whose id is 0 here, are skipped.
unfoldable pub providers_of : List Announcement → List ℕ → List ℕ
unfolding insert_provider
providers_of [] seen = seen
providers_of (r ∷ rs) seen =
    providers_of rs (if r.provider == 0 then seen else insert_provider r.provider seen)

-- clampInt64
unfoldable pub clamp_int64 : ℕ → ℕ
clamp_int64 v = if ltb 9_223_372_036_854_775_807 v then 9_223_372_036_854_775_807 else v

abbrev pub geo_row : ℕ → ℕ → CountryStat → ProviderGeo
geo_row snapshot provider s = record {
  snapshot = snapshot;
  provider = provider;
  country = s.code;
  ipv4_addresses = clamp_int64 s.ipv4_addresses;
  ipv6_net64s = clamp_int64 s.ipv6_net64s;
  prefix_count_v4 = s.prefix_count_v4;
  prefix_count_v6 = s.prefix_count_v6;
  target_count = 0;
}

abbrev pub is_geo : ℕ → ℕ → Bytes → ProviderGeo → Bool
is_geo snapshot provider code g =
    g.snapshot == snapshot && (g.provider == provider && bytes_eq g.country code)

-- insert … on conflict (snapshot_id, provider_id, country_code) do update
unfoldable pub upsert_geo : ProviderGeo → Database → Result (Unit {0} × Database)
upsert_geo g db = ok (
  tt,
  (if exists (is_geo g.snapshot g.provider g.country) db.provider_geo
      then record db {
        provider_geo =
            update (is_geo g.snapshot g.provider g.country)
              (λ r. record g { target_count = r.target_count }) db.provider_geo;
      }
      else record db { provider_geo = db.provider_geo ++ g ∷ [] }),
)

unfoldable pub load_stats : ℕ → ℕ → List CountryStat → M Database (Unit {0})
unfolding clamp_int64 upsert_geo
load_stats snapshot provider [] = pure tt
load_stats snapshot provider (s ∷ ss) =
    exec (upsert_geo (geo_row snapshot provider s)) >>= (λ u. load_stats snapshot provider ss)

unfoldable pub load_providers :
    (Prefix → List Range) → List Announcement → ℕ → List ℕ → M Database (Unit {0})
unfolding stats_of load_stats
load_providers ranges rows snapshot [] = pure tt
load_providers ranges rows snapshot (p ∷ ps) =
    load_stats snapshot p (stats_of ranges rows p) >>= (λ u. load_providers ranges rows snapshot ps)

-- loadDistribution
unfoldable pub load_distribution :
    (Prefix → List Range) → List Announcement → ℕ → M Database (Unit {0})
unfolding providers_of load_providers
load_distribution ranges rows snapshot =
    transact (load_providers ranges rows snapshot (providers_of rows []))

unfoldable pub code_or_unknown : Bytes → Bytes
code_or_unknown c = if is_empty c then unknown_country else c

-- countTargetsByCountry
unfoldable pub count_targets : ℕ → Database → Result (Unit {0} × Database)
unfolding code_or_unknown
count_targets snapshot db = ok (
  tt,
  record db {
    provider_geo =
        update (λ (g : ProviderGeo). g.snapshot == snapshot)
          (λ g. record g {
            target_count =
                count
                  (λ (t : ProbeTarget).
                    t.snapshot == g.snapshot
                    && (t.provider == g.provider && bytes_eq (code_or_unknown t.country) g.country))
                  db.targets;
          })
          db.provider_geo;
  },
)
