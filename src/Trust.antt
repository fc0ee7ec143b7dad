-- ===== src/Trust.antt =====
-- internal/trust/trust.go: the trust scores of workers. A score is the exact fraction that the
-- statement computes in floating point, in thousandths: `points` of `parts` thousandths.
use vpsa_network_discovery.Prelude.{
  ℕ, ◌+◌, ◌-◌, ◌*◌, Bool, true, false, not, ◌&&◌, Option, none, some, List, [], ◌∷◌, ◌++◌, length,
  min, ltb, ◌==◌, if◌then◌else◌,
}
use vpsa_network_discovery.Database.{
  Worker, TrustEvent, EventType, bad_signature, replay, retired, same_state,
}
use vpsa_network_discovery.Sql.{Result, ok, M, exec}
use vpsa_network_discovery.Sql.Table.{select, update, exists, count}
use vpsa_network_discovery.Aggregation.{second, hour, day}

-- aggregation.worker_agreement; the agreement in thousandths, at most 1000 by its constraint.
pub record Agreement : Type 0 where
  pub worker : ℕ
  pub start : ℕ
  pub agreement : ℕ

-- registry.trust_score, of score points / (1000 * parts)
pub record Score : Type 0 where
  pub worker : ℕ
  pub points : ℕ
  pub parts : ℕ

pub record Tables : Type 0 where
  pub workers : List Worker
  pub events : List TrustEvent
  pub agreements : List Agreement
  pub scores : List Score

-- avail, in halves
unfoldable pub availability : ℕ → Option ℕ → ℕ
availability now none = 0
availability now (some t) =
    if ltb now (t + 300 * second) then 2 else if ltb now (t + hour) then 1 else 0

-- Time since the approval: tenure is age / (age + 14 days).
unfoldable pub age_of : ℕ → Option ℕ → ℕ
age_of now none = 0
age_of now (some t) = now - t

abbrev pub ramp : ℕ
ramp = 14 * day

unfoldable pub recent : ℕ → ℕ → List Agreement → List Agreement
recent now w as_ = select (λ (a : Agreement). a.worker == w && ltb now (a.start + 24 * hour)) as_

unfoldable pub sum_of : List Agreement → ℕ
sum_of [] = 0
sum_of (a ∷ as_) = a.agreement + sum_of as_

-- The mean agreement, as a sum and a number: 0.5 where there is none.
unfoldable pub mean : List Agreement → ℕ × ℕ
unfolding sum_of
mean [] = (500, 1)
mean (a ∷ as_) = (sum_of (a ∷ as_), length (a ∷ as_))

unfoldable pub is_offence : EventType → Bool
is_offence bad_signature = true
is_offence replay = true
is_offence _ = false

-- penalty, in thousandths
unfoldable pub penalty : ℕ → ℕ → List TrustEvent → ℕ
unfolding is_offence
penalty now w es = min 500 (
    100
    * count
        (λ (e : TrustEvent).
          e.worker == w && (ltb now (e.created_at + 7 * day) && is_offence e.event_type))
        es)

-- greatest(0.0, least(1.0, avail * (0.2 + 0.3 * tenure) + 0.5 * agreement - penalty)), over the
-- common denominator 2 * (age + 14 days) * n, where n agreements add up to `sum`.
unfoldable pub score_of : ℕ → ℕ → ℕ → ℕ → ℕ → ℕ → Score
score_of w halves age sum n fine =
    let parts = 2 * (age + ramp) * n in
    let points = halves * (200 * (age + ramp) + 300 * age) * n + sum * (age + ramp) in
    record { worker = w; points = min (1000 * parts) (points - fine * parts); parts = parts }

unfoldable pub scored : ℕ → Tables → Worker → Score
unfolding availability age_of recent mean penalty score_of
scored now s w =
    let (sum, n) = mean (recent now w.id s.agreements) in
    score_of w.id (availability now w.last_heartbeat) (age_of now w.approved_at) sum n
      (penalty now w.id s.events)

abbrev pub is_score : ℕ → Score → Bool
is_score w r = r.worker == w

-- on conflict (worker_id) do update
unfoldable pub upsert_score : Score → List Score → List Score
upsert_score r rs =
    if exists (is_score r.worker) rs then update (is_score r.worker) (λ x. r) rs else rs ++ r ∷ []

unfoldable pub upsert_scores : ℕ → Tables → List Worker → List Score → List Score
unfolding upsert_score scored
upsert_scores now s [] rs = rs
upsert_scores now s (w ∷ ws) rs = upsert_scores now s ws (upsert_score (scored now s w) rs)

unfoldable pub put_scores : ℕ → Tables → Result (Unit {0} × Tables)
unfolding upsert_scores
put_scores now s = ok (
  tt,
  record s {
    scores =
        upsert_scores now s (select (λ (w : Worker). not (same_state w.state retired)) s.workers)
          s.scores;
  },
)

-- ComputeAll
unfoldable pub compute_all : ℕ → M Tables (Unit {0})
unfolding put_scores
compute_all now = exec (put_scores now)
