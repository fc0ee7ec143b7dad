-- ===== src/Aggregation/Status.antt =====
-- internal/aggregate/aggregate.go, `RollupStatus`: the status of each provider from its newest
-- windows, its anomalies, and the document that is queued.
pub mod Tidy
pub mod Seen
pub mod Incident
pub mod Moves
pub mod Step
pub mod Rollup
use vpsa_network_discovery.Prelude.{
  ℕ, ◌+◌, ◌≡◌, Bool, true, false, not, ◌&&◌, Option, none, some, List, [], ◌∷◌, ◌++◌, Bytes,
  bytes_eq, ltb, ◌==◌, if◌then◌else◌,
}
use vpsa_network_discovery.Sql.{Result, ok, err, M, Conn, exec, pure, ◌>>=◌, ◌>>◌}
use vpsa_network_discovery.Sql.Table.{update, exists, select, find, delete}
use vpsa_network_discovery.Outbox.{Row, provider_status}
use vpsa_network_discovery.Aggregation.{
  Config, Verdict, verdict_code, same_verdict, Window, ProviderStatus, Store, global_region,
  with_defaults,
}
use vpsa_network_discovery.Aggregation.Targets.{refresh_target_status}
use vpsa_network_discovery.Aggregation.Anomalies.{handle_transition, check_latency}

abbrev pub same_series : Window → Window → Bool
same_series a b = a.provider == b.provider && bytes_eq a.region b.region

-- distinct on (provider_id, region), of rows in order
unfoldable pub distinct : List Window → List Window
distinct [] = []
distinct (w ∷ ws) = w ∷ delete (same_series w) (distinct ws)

-- The newest window of each provider and region.
unfoldable pub newest : List Window → List Window
unfolding distinct
newest ws =
    distinct (select (λ w. not (exists (λ v. same_series w v && ltb w.start v.start) ws)) ws)

unfoldable pub select_newest : Store → Result (List Window × Store)
unfolding newest
select_newest s = ok (newest s.windows, s)

abbrev pub is_status : ℕ → Bytes → ProviderStatus → Bool
is_status provider region r = r.provider == provider && bytes_eq r.region region

-- since = case when … then … else … end
unfoldable pub since_of : ℕ → Window → ProviderStatus → ℕ
since_of now w r = if same_verdict r.verdict w.verdict then r.since else w.start

abbrev pub new_status : ℕ → Window → ProviderStatus
new_status now w = record {
  provider = w.provider;
  region = w.region;
  verdict = w.verdict;
  since = w.start;
  updated_at = now;
}

-- insert into aggregation.provider_status … on conflict … do update
unfoldable pub upsert_status : ℕ → Window → List ProviderStatus → List ProviderStatus
unfolding since_of
upsert_status now w rs =
    if exists (is_status w.provider w.region) rs
    then update (is_status w.provider w.region)
        (λ r. record r { verdict = w.verdict; since = since_of now w r; updated_at = now }) rs
    else rs ++ new_status now w ∷ []

unfoldable pub put_status : ℕ → Window → Store → Result (Unit {0} × Store)
unfolding upsert_status
put_status now w s = ok (tt, record s { statuses = upsert_status now w s.statuses })

unfoldable pub put_statuses : ℕ → List Window → M Store (Unit {0})
unfolding put_status
put_statuses now [] = pure tt
put_statuses now (w ∷ ws) = exec (put_status now w) >>= (λ u. put_statuses now ws)

-- The previous verdict, `none` where there is no row.
unfoldable pub verdict_of : Option ProviderStatus → Option Verdict
verdict_of none = none
verdict_of (some r) = some r.verdict

unfoldable pub select_verdict : ℕ → Store → Result (Option Verdict × Store)
unfolding verdict_of
select_verdict provider s = ok (verdict_of (find (is_status provider global_region) s.statuses), s)

-- prev != verdict
unfoldable pub changed : Option Verdict → Verdict → Bool
changed none v = true
changed (some p) v = not (same_verdict p v)

unfoldable pub transition : ℕ → Option Verdict → Window → M Store (Unit {0})
unfolding changed handle_transition
transition provider prev w =
    if changed prev w.verdict then handle_transition provider prev w.verdict w.start else pure tt

unfoldable pub latency : ℕ → ℕ → Window → Option ℕ → M Store (Unit {0})
unfolding check_latency
latency factor provider w none = pure tt
latency factor provider w (some p50) = check_latency factor provider p50 w.start

unfoldable pub queue_document : (ℕ → Bytes) → ℕ → ℕ → Store → Result (Unit {0} × Store)
queue_document name now provider s = ok (
  tt,
  record s {
    outbox =
        s.outbox
        ++ record {
          id = s.outbox_seq;
          kind = provider_status (some (name provider));
          acked_at = none;
          attempts = 0;
          next_attempt_at = now;
        }
          ∷ [];
    outbox_seq = s.outbox_seq + 1;
  },
)

-- The queries of statusDocument, which may fail; the document itself is not modelled here.
unfoldable pub read_document : Store → Result (Unit {0} × Store)
read_document s = ok (tt, s)

abbrev pub global_or : Window → Option Window → Option Window
global_or w none = if bytes_eq w.region global_region then some w else none
global_or w (some v) = some v

-- The window of the region 'global', the last one of the loop.
unfoldable pub global_of : List Window → Option Window
global_of [] = none
global_of (w ∷ ws) = global_or w (global_of ws)

unfoldable pub with_global :
    (ℕ → Bytes) → ℕ → Config → ℕ → Option Verdict → Option Window → M Store (Unit {0})
unfolding transition latency read_document queue_document
with_global name now cfg provider prev none = pure tt
with_global name now cfg provider prev (some w) = transition provider prev w >>= (λ u.
    latency cfg.latency_factor provider w w.p50
    >>= (λ u'. exec read_document >>= (λ u''. exec (queue_document name now provider))))

-- The body of the loop over the providers.
unfoldable pub roll_up : (ℕ → Bytes) → ℕ → Config → ℕ → List Window → M Store (Unit {0})
unfolding select_verdict put_statuses with_global global_of
roll_up name now cfg provider wins = exec (select_verdict provider) >>= (λ prev.
    put_statuses now wins >>= (λ u. with_global name now cfg provider prev (global_of wins)))

unfoldable pub providers_of : List Window → List ℕ
providers_of [] = []
providers_of (w ∷ ws) = w.provider ∷ delete (λ p. p == w.provider) (providers_of ws)

unfoldable pub roll_up_all : (ℕ → Bytes) → ℕ → Config → List Window → List ℕ → M Store (Unit {0})
unfolding roll_up
roll_up_all name now cfg ws [] = pure tt
roll_up_all name now cfg ws (p ∷ ps) =
    roll_up name now cfg p (select (λ (w : Window). w.provider == p) ws)
    >>= (λ u. roll_up_all name now cfg ws ps)

unfoldable pub roll_up_newest : (ℕ → Bytes) → ℕ → Config → M Store (Unit {0})
unfolding select_newest roll_up_all providers_of
roll_up_newest name now cfg =
    exec select_newest >>= (λ ws. roll_up_all name now cfg ws (providers_of ws))

-- RollupStatus
unfoldable pub rollup_status : (ℕ → Bytes) → ℕ → Config → M Store (Unit {0})
unfolding with_defaults refresh_target_status roll_up_newest
rollup_status name now cfg =
    refresh_target_status (with_defaults cfg) now
    >>= (λ u. roll_up_newest name now (with_defaults cfg))
