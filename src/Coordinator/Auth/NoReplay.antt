-- ===== src/Coordinator/Auth/NoReplay.antt =====
-- For internal/coordinator/server.go: the timestamp's window and the pruning of nonces.
use vpsa_network_discovery.Prelude.{
  ℕ, ◌+◌, ◌*◌, ◌≤◌, ◌<◌, ◌≡◌, ◌≢◌, sym, ap, ◌∙◌, subst, false, Option, some, List, [], ◌∷◌, Bytes,
  arith, All,
}
use vpsa_network_discovery.Database.{Database}
use vpsa_network_discovery.Sql.{ok, Conn}
use vpsa_network_discovery.Registry.{seen_nonce}
use vpsa_network_discovery.Registry.Runs.{Call, prunes, run}
use vpsa_network_discovery.Registry.Statements.{AdmitsCall}
use vpsa_network_discovery.Registry.Replay.{Spares, seen_nonce-run}
use vpsa_network_discovery.WireAuth.{Library, Header, Shown, max_skew, half}
use vpsa_network_discovery.Coordinator.Auth.{Request, Identity, next, signed}
use vpsa_network_discovery.Coordinator.Auth.Admission.{Admitted, signed-Admitted}

-- StartMaintenance prunes with twice the skew; a pruning by a time.
abbrev pub PrunesBy : ℕ → ℕ → ℕ → Type 0
PrunesBy by now window = (now ≤ by) × (window ≡ 2 * max_skew)

spare-All :
    (from by : ℕ) (calls : List Call)
    → by ≤ from + 2 * max_skew
    → All (AdmitsCall (PrunesBy by)) calls
    → All (AdmitsCall (Spares from)) calls
spare-All from by [] h a = tt
spare-All from by (prunes now window ∷ calls) h a = (spared, spare-All from by calls h a.1)
  where
    spared : Spares from now window
    spared = omega (arith, a.0.0, a.0.1)
spare-All from by (call ∷ calls) h a = (tt, spare-All from by calls h a.1)

-- The timestamp is less than 2^63 nanoseconds ahead of the clock.
abbrev pub IsNear : Library → Header → ℕ → Type 0
IsNear lib h now = (t : ℕ) → lib.parse_rfc3339 h.timestamp ≡ some t → t < now + half

-- The window: what is accepted twice is accepted twice within double the skew.
accepted_within :
    (lib : Library) (m p b k m' p' b' k' : Bytes) (h h' : Header) (now now' : ℕ)
    → Shown lib m p h b k now
    → Shown lib m' p' h' b' k' now'
    → h'.timestamp ≡ h.timestamp
    → IsNear lib h now
    → now' ≤ now + 2 * max_skew
accepted_within lib m p b k m' p' b' k' h h' now now' s s' e near = omega (
  arith,
  s.not_late,
  near s.time s.stamped,
  s'.not_early,
  same_time s.time s'.time (sym s.stamped ∙ ap lib.parse_rfc3339 (sym e) ∙ s'.stamped),
)
  where
    same_time : (t t' : ℕ) → ◌≡◌ {A = Option ℕ} (some t) (some t') → t ≡ t'
    same_time t t' q = cc

-- A request that was accepted is never accepted again, whatever calls of the registry come between
-- and whatever fails, if its timestamp is less than 2^63 nanoseconds ahead of the clock, the
-- nonces are pruned with the window of StartMaintenance and the database's clock advances no more
-- than the program's in between. The second request need agree with the first in the headers for
-- worker, timestamp and nonce only.
pub signed-run :
    (lib : Library) (now db_now : ℕ) (r : Request) (c : Conn Database) (i : Identity) (body : Bytes)
    (after : Conn Database) (calls : List Call) (now' db_now' : ℕ) (r' : Request) (i' : Identity)
    (body' : Bytes) (after' : Conn Database)
    → signed lib now db_now r c ≡ (next i body, after)
    → IsNear lib r.header now
    → All (AdmitsCall (PrunesBy db_now')) calls
    → db_now' + now ≤ db_now + now'
    → r'.header.worker_id ≡ r.header.worker_id
    → r'.header.timestamp ≡ r.header.timestamp
    → r'.header.nonce ≡ r.header.nonce
    → signed lib now' db_now' r' (run lib.sha256 calls after) ≢ (next i' body', after')
signed-run lib now db_now r c i body after calls now' db_now' r' i' body' after' h near a clocks ew
      et en again =
    seen_nonce-run lib.sha256 db_now i.id r.header.nonce first.conn calls db_now' second.conn
      first.fresh (spare-All db_now db_now' calls (omega (arith, within, clocks)) a)
      (second.same ∙ ap (λ (d : Conn Database). (run lib.sha256 calls d).db) first.then_)
      (subst (λ (n : Bytes). (seen_nonce db_now' i.id n second.conn).0 ≡ ok false) en
        (subst (λ (w : ℕ). (seen_nonce db_now' w r'.header.nonce second.conn).0 ≡ ok false) same_id
          second.fresh))
  where
    first : Admitted lib now db_now r c i body after
    first = signed-Admitted lib now db_now r c i body after h

    second : Admitted lib now' db_now' r' (run lib.sha256 calls after) i' body' after'
    second = signed-Admitted lib now' db_now' r' (run lib.sha256 calls after) i' body' after' again

    within : now' ≤ now + 2 * max_skew
    within =
        accepted_within lib _ _ _ _ _ _ _ _ r.header r'.header now now' first.shown second.shown et
          near

    named_once : (w w' : ℕ) → ◌≡◌ {A = Option ℕ} (some w) (some w') → w ≡ w'
    named_once w w' q = cc

    same_id : i'.id ≡ i.id
    same_id = named_once _ _ (sym second.named ∙ ap lib.parse_uuid ew ∙ first.named)
