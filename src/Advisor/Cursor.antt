-- ===== src/Advisor/Cursor.antt =====
-- For internal/coordinator/advisorsync.go: the cursor of the decisions.
use vpsa_network_discovery.Prelude.{
  ℕ, ◌≤◌, ◌≡◌, refl, ◌⊎◌, inl, inr, Bool, true, false, Option, none, some, List, [], ◌∷◌, ltb,
  if◌then◌else◌, arith, Any,
}
use vpsa_network_discovery.Database.{Database}
use vpsa_network_discovery.Sql.{Conn}
use vpsa_network_discovery.Advisor.{
  Decision, apply_all, apply_some, advance, succeeded, sync_advisor, Listed, Enrollment, all_of,
}
use vpsa_network_discovery.Registry.{apply_decision}

-- The cursor has not gone back, and is the old one or the time of a decision.
pub record IsCursor (ds : List Decision) (since cursor : ℕ) : Type 0 where
  pub later : since ≤ cursor
  pub origin : (cursor ≡ since) ⊎ Any (λ (d : Decision). d.decided_at ≡ cursor) ds

step-IsCursor :
    (d : Decision) (ds : List Decision) (since cursor : ℕ) (b : Bool)
    → IsCursor ds (if b then advance since d.decided_at else since) cursor
    → IsCursor (d ∷ ds) since cursor
unfolding advance
step-IsCursor d ds since cursor false k = record { later = k.later; origin = shift k.origin }
  where
    shift :
        (cursor ≡ since) ⊎ Any (λ (x : Decision). x.decided_at ≡ cursor) ds
        → (cursor ≡ since) ⊎ Any (λ (x : Decision). x.decided_at ≡ cursor) (d ∷ ds)
    shift (inl e) = inl e
    shift (inr a) = inr (inr a)
step-IsCursor d ds since cursor true k = record {
  later = ground (arith, k.later);
  origin = shift k.origin;
}
  where
    shift :
        (cursor ≡ (if ltb since d.decided_at then d.decided_at else since))
          ⊎ Any (λ (x : Decision). x.decided_at ≡ cursor) ds
        → (cursor ≡ since) ⊎ Any (λ (x : Decision). x.decided_at ≡ cursor) (d ∷ ds)
    shift (inr a) = inr (inr a)
    shift (inl e) = chosen (ltb since d.decided_at) e
      where
        chosen :
            (b : Bool)
            → cursor ≡ (if b then d.decided_at else since)
            → (cursor ≡ since) ⊎ Any (λ (x : Decision). x.decided_at ≡ cursor) (d ∷ ds)
        chosen true e' = inr (inl (ground (arith, e')))
        chosen false e' = inl e'

apply_all-IsCursor :
    (now : ℕ) (ds : List Decision) (since : ℕ) (c : Conn Database)
    → IsCursor ds since (apply_all now ds since c).0
unfolding apply_all
apply_all-IsCursor now [] since c = record { later = omega arith; origin = inl refl }
apply_all-IsCursor now (d ∷ ds) since c =
    step-IsCursor d ds since _ (succeeded (apply_decision now d.worker d.state d.reason c).0)
      (apply_all-IsCursor now ds _ _)

-- A synchronisation never moves the cursor back, and moves it only to the time of a decision that
-- VPS Advisor returned; where it returned none the cursor stays.
pub sync_advisor-IsCursor :
    (now : ℕ) (providers : Option (List Listed)) (enrollments : Option (List Enrollment))
    (decisions : Option (List Decision)) (since : ℕ) (c : Conn Database)
    → IsCursor (all_of decisions) since (sync_advisor now providers enrollments decisions since c).0
unfolding sync_advisor apply_some
sync_advisor-IsCursor now providers enrollments none since c = record {
  later = omega arith;
  origin = inl refl;
}
sync_advisor-IsCursor now providers enrollments (some ds) since c =
    apply_all-IsCursor now ds since _
