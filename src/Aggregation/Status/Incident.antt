-- ===== src/Aggregation/Status/Incident.antt =====
-- internal/aggregate/aggregate.go, `RollupStatus` and `handleTransition`: the reachability of a
-- provider as a state machine that its settled verdicts drive.
use vpsa_network_discovery.Prelude.{
  ℕ, ◌≡◌, sym, Bool, true, false, not, ◌&&◌, ◌||◌, Option, none, some, List, arith, if◌then◌else◌,
}
use vpsa_network_discovery.Sql.Table.{exists}
use vpsa_network_discovery.Aggregation.{
  Verdict, healthy, degraded, outage, insufficient_data, verdict_code, Window, reachability_loss,
  ProviderStatus, Anomaly, Store, global_region,
}
use vpsa_network_discovery.Aggregation.Anomalies.{is_open, opens, is_healthy}
use vpsa_network_discovery.Aggregation.Status.{verdict_of, changed}
use vpsa_network_discovery.Aggregation.Status.Seen.{said, seen, settle}

-- A provider: whether an incident of its reachability is open, and the verdict that stands with
-- the time since when.
pub record Incident : Type 0 where
  pub raised : Bool
  pub standing : Option (Verdict × ℕ)

-- An incident is raised when the verdict changes to an outage, or from healthy to degraded, and ends
-- when it changes to healthy. Any other verdict leaves the incident as it is: also an outage that
-- stands already, and degraded after anything but healthy.
unfoldable pub raise_of : Bool → Option (Verdict × ℕ) → Verdict → Bool
raise_of r none healthy = false
raise_of r none degraded = r
raise_of r none outage = true
raise_of r none insufficient_data = r
raise_of r (some (healthy, t)) healthy = r
raise_of r (some (healthy, t)) degraded = true
raise_of r (some (healthy, t)) outage = true
raise_of r (some (healthy, t)) insufficient_data = r
raise_of r (some (degraded, t)) healthy = false
raise_of r (some (degraded, t)) degraded = r
raise_of r (some (degraded, t)) outage = true
raise_of r (some (degraded, t)) insufficient_data = r
raise_of r (some (outage, t)) healthy = false
raise_of r (some (outage, t)) degraded = r
raise_of r (some (outage, t)) outage = r
raise_of r (some (outage, t)) insufficient_data = r
raise_of r (some (insufficient_data, t)) healthy = false
raise_of r (some (insufficient_data, t)) degraded = r
raise_of r (some (insufficient_data, t)) outage = true
raise_of r (some (insufficient_data, t)) insufficient_data = r

-- A verdict that is settled for the window that starts at `at`.
unfoldable pub advance : Incident → Option (Verdict × ℕ) → Incident
unfolding raise_of settle
advance i none = i
advance i (some (v, at)) = record {
  raised = raise_of i.raised i.standing v;
  standing = some (settle i.standing v at);
}

abbrev pub raised : ℕ → List Anomaly → Bool
raised p as_ = exists (is_open p reachability_loss) as_

abbrev pub incident_of : ℕ → Store → Incident
incident_of p s = record {
  raised = raised p s.anomalies;
  standing = seen p global_region s.statuses;
}

pub incident_eq : (i j : Incident) → i.raised ≡ j.raised → i.standing ≡ j.standing → i ≡ j
incident_eq i j e f = cc

-- The verdict that is settled.
abbrev pub claim : Option Window → Option (Verdict × ℕ)
claim none = none
claim (some w) = some (w.verdict, w.start)

raise_table :
    (r : Bool) (u v : Verdict) (t : ℕ)
    → raise_of r (some (u, t)) v
      ≡ (if changed (some u) v then not (is_healthy v) && (r || opens (some u) v) else r)
unfolding raise_of changed verdict_code is_healthy opens
raise_table r u v t = ground arith

raise_first :
    (r : Bool) (v : Verdict) → raise_of r none v ≡ (not (is_healthy v) && (r || opens none v))
unfolding raise_of is_healthy opens
raise_first r v = ground arith

pub raise_moved :
    (r : Bool) (o : Option ProviderStatus) (v : Verdict)
    → (if changed (verdict_of o) v then not (is_healthy v) && (r || opens (verdict_of o) v) else r)
      ≡ raise_of r (said o) v
unfolding changed verdict_of
raise_moved r none v = sym (raise_first r v)
raise_moved r (some x) v = sym (raise_table r x.verdict v x.since)
