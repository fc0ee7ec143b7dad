-- ===== src/Aggregation/Status/Seen.antt =====
-- internal/aggregate/aggregate.go, `RollupStatus`: the verdict of a provider and since when it
-- stands.
use vpsa_network_discovery.Prelude.{
  ℕ, ◌≤◌, ◌≡◌, refl, sym, subst, ap, ◌∙◌, inl, inr, Bool, true, false, ◌&&◌, Option, none, some,
  List, [], ◌∷◌, Bytes, bytes_eq, bytes_eq-eq, bytes_eq_refl, arith, ◌==◌, ==_iff, ==_refl,
  if◌then◌else◌, Bool-cases, All,
}
use vpsa_network_discovery.Sql.Calm.{
  Reaches, Reaches-pure, Reaches-exec, Reaches-bind, Reaches-weaken,
}
use vpsa_network_discovery.Sql.Table.{
  exists, count, find, find-append, find-single, find-update, find_sound, exists-find, map_row,
  or_else, exists_of-find,
}
use vpsa_network_discovery.Aggregation.{
  Verdict, same_verdict, Window, ProviderStatus, Store, global_region,
}
use vpsa_network_discovery.Aggregation.Status.{
  is_status, since_of, new_status, upsert_status, put_status, put_statuses, global_of, global_or,
}

-- What a status says: the verdict, and since when.
abbrev pub said : Option ProviderStatus → Option (Verdict × ℕ)
said none = none
said (some r) = some (r.verdict, r.since)

abbrev pub seen : ℕ → Bytes → List ProviderStatus → Option (Verdict × ℕ)
seen p r rs = said (find (is_status p r) rs)

-- A verdict that is settled for the window that starts at `at`.
unfoldable pub settle : Option (Verdict × ℕ) → Verdict → ℕ → Verdict × ℕ
settle none v at = (v, at)
settle (some (u, t)) v at = (v, if same_verdict u v then t else at)

module _ (now : ℕ) (w : Window) where
  abbrev into : ProviderStatus → ProviderStatus
  into r = record r { verdict = w.verdict; since = since_of now w r; updated_at = now }

  abbrev mine : ProviderStatus → Bool
  mine = is_status w.provider w.region

  pub seen-upsert_status :
      (rs : List ProviderStatus)
      → seen w.provider w.region (upsert_status now w rs)
        ≡ some (settle (seen w.provider w.region rs) w.verdict w.start)
  unfolding upsert_status since_of settle
  seen-upsert_status rs = at_row (find mine rs) refl
    where
      at_row :
          (o : Option ProviderStatus)
          → find mine rs ≡ o
          → seen w.provider w.region (upsert_status now w rs)
            ≡ some (settle (said o) w.verdict w.start)
      at_row none e =
          rw
            (
              exists_of-find mine rs e,
              find-append mine rs (new_status now w ∷ []),
              e,
              find-single mine (new_status now w),
              ==_refl w.provider,
              bytes_eq_refl w.region,
            )
            refl
      at_row (some r) e =
          rw
            (
              exists-find mine rs r e,
              find-update mine mine into rs (λ x. refl),
              e,
              find_sound mine rs r e,
            )
            refl

  apart :
      (p : ℕ) (r : Bytes) (x : ProviderStatus)
      → (w.provider == p && bytes_eq w.region r) ≡ false
      → is_status p r x ≡ true
      → mine x ≡ false
  apart p r x h k = elim (Bool-cases (mine x)) [
    | inl t ↦ absurd (true_false (sym (shared t) ∙ h))
    | inr f ↦ f
  ]
    where
      true_false : true ≡ false → ⊥
      true_false e = cc

      shared : mine x ≡ true → (w.provider == p && bytes_eq w.region r) ≡ true
      shared t =
          rw
            (
              sym ((==_iff x.provider w.provider).0 (ground (arith, t))),
              (==_iff x.provider p).0 (ground (arith, k)),
              ==_refl p,
              sym (bytes_eq-eq x.region w.region (ground (arith, t))),
              bytes_eq-eq x.region r (ground (arith, k)),
              bytes_eq_refl r,
            )
            refl

  said_kept :
      (p : ℕ) (r : Bytes) (rs : List ProviderStatus) (o : Option ProviderStatus)
      → (w.provider == p && bytes_eq w.region r) ≡ false
      → find (is_status p r) rs ≡ o
      → said (map_row (λ x. if mine x then into x else x) o) ≡ said o
  said_kept p r rs none h e = refl
  said_kept p r rs (some x) h e = rw (apart p r x h (find_sound (is_status p r) rs x e)) refl

  said_first : (o : Option ProviderStatus) → said (or_else o none) ≡ said o
  said_first none = refl
  said_first (some x) = refl

  pub seen-upsert_status_other :
      (p : ℕ) (r : Bytes) (rs : List ProviderStatus)
      → (w.provider == p && bytes_eq w.region r) ≡ false
      → seen p r (upsert_status now w rs) ≡ seen p r rs
  unfolding upsert_status
  seen-upsert_status_other p r rs h = elim (Bool-cases (exists mine rs)) [
    | inl t ↦
        rw (t, find-update (is_status p r) mine into rs (λ x. refl))
          (said_kept p r rs (find (is_status p r) rs) h refl)
    | inr f ↦
        rw
          (
            f,
            find-append (is_status p r) rs (new_status now w ∷ []),
            find-single (is_status p r) (new_status now w),
            h,
          )
          (said_first (find (is_status p r) rs))
  ]

abbrev pub is_global : Window → Bool
is_global w = bytes_eq w.region global_region

-- The statuses that the loop over the windows of a provider leaves.
unfoldable upsert_all : ℕ → List Window → List ProviderStatus → List ProviderStatus
upsert_all now [] rs = rs
upsert_all now (w ∷ ws) rs = upsert_all now ws (upsert_status now w rs)

abbrev pub settled : Option Window → Option (Verdict × ℕ) → Option (Verdict × ℕ)
settled none o = o
settled (some w) o = some (settle o w.verdict w.start)

global_none : (ws : List Window) → count is_global ws ≡ 0 → global_of ws ≡ none
unfolding count global_of
global_none [] h = refl
global_none (w ∷ ws) h = ground (arith, global_none ws (ground (arith, h)))

settled_skip :
    (w : Window) (g : Option Window) (o : Option (Verdict × ℕ))
    → is_global w ≡ false
    → settled (global_or w g) o ≡ settled g o
settled_skip w none o h = rw h refl
settled_skip w (some v) o h = refl

seen-mine :
    (p now : ℕ) (w : Window) (rs : List ProviderStatus)
    → w.provider ≡ p
    → is_global w ≡ true
    → seen p global_region (upsert_status now w rs)
      ≡ some (settle (seen p global_region rs) w.verdict w.start)
seen-mine p now w rs e h =
    subst
      (λ (b : Bytes).
        seen p b (upsert_status now w rs) ≡ some (settle (seen p b rs) w.verdict w.start))
      (bytes_eq-eq w.region global_region h)
      (subst
        (λ (n : ℕ).
          seen n w.region (upsert_status now w rs)
          ≡ some (settle (seen n w.region rs) w.verdict w.start))
        e (seen-upsert_status now w rs))

seen-upsert_all :
    (p now : ℕ) (ws : List Window) (rs : List ProviderStatus)
    → All (λ (w : Window). w.provider ≡ p) ws
    → count is_global ws ≤ 1
    → seen p global_region (upsert_all now ws rs) ≡ settled (global_of ws) (seen p global_region rs)
unfolding upsert_all global_of count
seen-upsert_all p now [] rs a h = refl
seen-upsert_all p now (w ∷ ws) rs (e, a) h = elim (Bool-cases (is_global w)) [
  | inl t ↦
      seen-upsert_all p now ws (upsert_status now w rs) a (ground (arith, t, h))
      ∙ rw (global_none ws (ground (arith, t, h)), t) (seen-mine p now w rs e t)
  | inr f ↦
      seen-upsert_all p now ws (upsert_status now w rs) a (ground (arith, f, h))
      ∙ ap (settled (global_of ws))
          (seen-upsert_status_other now w p global_region rs (ground (arith, f)))
      ∙ sym (settled_skip w (global_of ws) (seen p global_region rs) f)
]

-- Another provider's status is left.
seen-upsert_all_other :
    (p q now : ℕ) (ws : List Window) (rs : List ProviderStatus)
    → All (λ (w : Window). w.provider ≡ p) ws
    → (p == q) ≡ false
    → seen q global_region (upsert_all now ws rs) ≡ seen q global_region rs
unfolding upsert_all
seen-upsert_all_other p q now [] rs a h = refl
seen-upsert_all_other p q now (w ∷ ws) rs (e, a) h =
    seen-upsert_all_other p q now ws (upsert_status now w rs) a h
    ∙ seen-upsert_status_other now w q global_region rs (rw (e, h) refl)

put_statuses-Reaches :
    (now : ℕ) (ws : List Window) (s : Store)
    → Reaches
        (λ (u : Unit {0}) t. t ≡ record s { statuses = upsert_all now ws s.statuses })
        (put_statuses now ws)
        s
unfolding put_statuses put_status upsert_all
put_statuses-Reaches now [] s = Reaches-pure tt s refl
put_statuses-Reaches now (w ∷ ws) s =
    Reaches-bind _ _ s
      (Reaches-exec {Q = λ (u : Unit {0}) t. t ≡ put now w s} (put_status now w) s tt (put now w s)
        refl refl)
      λ u t e. rw e (put_statuses-Reaches now ws (put now w s))
  where
    put : ℕ → Window → Store → Store
    put now w s = record s { statuses = upsert_status now w s.statuses }

-- What the loop over the windows of the provider `p` leaves of each provider's verdict.
pub put_statuses-seen :
    (p now : ℕ) (ws : List Window) (s : Store)
    → All (λ (w : Window). w.provider ≡ p) ws
    → count is_global ws ≤ 1
    → Reaches
        (λ (u : Unit {0}) t.
          (t.anomalies ≡ s.anomalies)
          × ((q : ℕ)
              → seen q global_region t.statuses ≡ (
                  if p == q
                  then settled (global_of ws) (seen q global_region s.statuses)
                  else seen q global_region s.statuses)))
        (put_statuses now ws)
        s
put_statuses-seen p now ws s a h =
    Reaches-weaken _ s (λ u t e. rw e (refl, λ q. at q)) (put_statuses-Reaches now ws s)
  where
    at :
        (q : ℕ)
        → seen q global_region (upsert_all now ws s.statuses) ≡ (
            if p == q
            then settled (global_of ws) (seen q global_region s.statuses)
            else seen q global_region s.statuses)
    at q = elim (Bool-cases (p == q)) [
      | inl t ↦ rw t (
          subst
            (λ (n : ℕ).
              seen n global_region (upsert_all now ws s.statuses)
              ≡ settled (global_of ws) (seen n global_region s.statuses))
            ((==_iff p q).0 t) (seen-upsert_all p now ws s.statuses a h))
      | inr f ↦ rw f (seen-upsert_all_other p q now ws s.statuses a f)
    ]
