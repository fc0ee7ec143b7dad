-- ===== src/Worker/Executor/Flushing.antt =====
-- For internal/worker/executor.go: the uploader, its batches and the answers.
use vpsa_network_discovery.Prelude.{
  ℕ, append_assoc, zero, suc, ◌+◌, ◌≤◌, ◌≡◌, refl, sym, ap, ◌∙◌, ◌⊎◌, inl, inr, Bool, true, false,
  List, [], ◌∷◌, ◌++◌, length, take, drop, arith, length-drop, take-append-drop, append-nil,
  empty_of-length, if◌then◌else◌,
}
use vpsa_network_discovery.Observations.{Observation}
use vpsa_network_discovery.Worker.Executor.{
  Outcome, acknowledged, unanswered, failed, is_acknowledged, is_taken, Attempt, Uploader, flush,
  batch_size,
}

-- The batches of the attempts with some outcome, in order.
unfoldable pub picked : (Outcome → Bool) → List Attempt → List Observation
picked f [] = []
picked f (t ∷ ts) = let rest = picked f ts in if f t.outcome then t.batch ++ rest else rest

-- What the client has a good answer for.
abbrev pub confirmed : Uploader → List Observation
confirmed u = picked is_acknowledged u.attempts

-- What the coordinator was handed and took, as often as it did.
abbrev pub delivered : Uploader → List Observation
delivered u = picked is_taken u.attempts

picked-append :
    (f : Outcome → Bool) (ts : List Attempt) (t : Attempt)
    → picked f (ts ++ t ∷ []) ≡ picked f ts ++ (if f t.outcome then t.batch else [])
unfolding picked
picked-append f [] t = ground (arith, append-nil t.batch)
picked-append f (s ∷ ts) t = by_outcome (picked-append f ts t) (f s.outcome)
  where
    shown : List Observation
    shown = if f t.outcome then t.batch else []

    by_outcome :
        picked f (ts ++ t ∷ []) ≡ picked f ts ++ shown
        → (b : Bool)
        → (if b then s.batch ++ picked f (ts ++ t ∷ []) else picked f (ts ++ t ∷ []))
          ≡ (if b then s.batch ++ picked f ts else picked f ts) ++ shown
    by_outcome step true =
        ap (λ (z : List Observation). s.batch ++ z) step
        ∙ sym (append_assoc s.batch (picked f ts) shown)
    by_outcome step false = step

-- What a flush has done: `sent` was confirmed, and `again` was taken by the coordinator without a
-- good answer.
pub record Flushed (u v : Uploader) : Type 0 where
  pub sent : List Observation
  pub again : List Observation
  pub waiting : u.pending ≡ sent ++ v.pending
  pub answered : confirmed v ≡ confirmed u ++ sent
  pub taken : delivered v ≡ delivered u ++ (sent ++ again)
  pub doubled : (again ≡ []) ⊎ (again ≡ take batch_size v.pending)

abbrev waits : List Observation → ℕ → List Attempt → Uploader
waits p n ts = record { pending = p; submitted = n; attempts = ts }

abbrev try_ : ℕ → List Observation → Outcome → Attempt
try_ id os r = record { batch_id = id; batch = take batch_size os; outcome = r }

idle : (u : Uploader) → Flushed u u
idle u = record {
  sent = [];
  again = [];
  waiting = refl;
  answered = sym (append-nil (confirmed u));
  taken = sym (append-nil (delivered u));
  doubled = inl refl;
}

-- A batch with a good answer, and what follows it.
sends :
    (id n m : ℕ) (os : List Observation) (ts : List Attempt) (v : Uploader)
    → Flushed (waits (drop batch_size os) m (ts ++ try_ id os acknowledged ∷ [])) v
    → Flushed (waits os n ts) v
sends id n m os ts v f = record {
  sent = take batch_size os ++ f.sent;
  again = f.again;
  waiting =
      sym (take-append-drop batch_size os)
      ∙ ap (λ (z : List Observation). take batch_size os ++ z) f.waiting
      ∙ sym (append_assoc (take batch_size os) f.sent v.pending);
  answered = f.answered ∙ joined is_acknowledged refl f.sent;
  taken =
      f.taken
      ∙ joined is_taken refl (f.sent ++ f.again)
      ∙ ap (λ (z : List Observation). picked is_taken ts ++ z)
          (sym (append_assoc (take batch_size os) f.sent f.again));
  doubled = f.doubled;
}
  where
    t : Attempt
    t = try_ id os acknowledged

    joined :
        (g : Outcome → Bool)
        → g acknowledged ≡ true
        → (zs : List Observation)
        → picked g (ts ++ t ∷ []) ++ zs ≡ picked g ts ++ (take batch_size os ++ zs)
    joined g e zs =
        ap (λ (z : List Observation). z ++ zs) (picked-append g ts t ∙ rw e refl)
        ∙ append_assoc (picked g ts) (take batch_size os) zs

-- A batch that the coordinator took, without a good answer.
repeats :
    (id n : ℕ) (os : List Observation) (ts : List Attempt)
    → Flushed (waits os n ts) (waits os n (ts ++ try_ id os unanswered ∷ []))
repeats id n os ts = record {
  sent = [];
  again = take batch_size os;
  waiting = refl;
  answered = picked-append is_acknowledged ts (try_ id os unanswered);
  taken = picked-append is_taken ts (try_ id os unanswered);
  doubled = inr refl;
}

fails :
    (id n : ℕ) (os : List Observation) (ts : List Attempt)
    → Flushed (waits os n ts) (waits os n (ts ++ try_ id os failed ∷ []))
fails id n os ts = record {
  sent = [];
  again = [];
  waiting = refl;
  answered = picked-append is_acknowledged ts (try_ id os failed);
  taken = picked-append is_taken ts (try_ id os failed);
  doubled = inl refl;
}

flushes :
    (fuel id : ℕ) (outcomes : List Outcome) (p : List Observation) (n : ℕ) (ts : List Attempt)
    → Flushed (waits p n ts) (flush fuel id outcomes (waits p n ts))
unfolding flush
flushes zero id outcomes p n ts = idle (waits p n ts)
flushes (suc fuel) id outcomes [] n ts = idle (waits [] n ts)
flushes (suc fuel) id [] (o ∷ os) n ts =
    sends id n (n + length (take batch_size (o ∷ os))) (o ∷ os) ts _ (
      flushes fuel (suc id) [] (drop batch_size (o ∷ os)) _
        (ts ++ try_ id (o ∷ os) acknowledged ∷ []))
flushes (suc fuel) id (acknowledged ∷ rs) (o ∷ os) n ts =
    sends id n (n + length (take batch_size (o ∷ os))) (o ∷ os) ts _ (
      flushes fuel (suc id) rs (drop batch_size (o ∷ os)) _
        (ts ++ try_ id (o ∷ os) acknowledged ∷ []))
flushes (suc fuel) id (unanswered ∷ rs) (o ∷ os) n ts = repeats id n (o ∷ os) ts
flushes (suc fuel) id (failed ∷ rs) (o ∷ os) n ts = fails id n (o ∷ os) ts

-- However its uploads end, a flush loses and reorders nothing: what waited is, in order, what it
-- got confirmed and what still waits. The coordinator took that in order and, after it, at most
-- one batch without a good answer, which is the first that the next flush sends again.
pub flush-Flushed :
    (fuel id : ℕ) (outcomes : List Outcome) (u : Uploader) → Flushed u (flush fuel id outcomes u)
flush-Flushed fuel id outcomes u = flushes fuel id outcomes u.pending u.submitted u.attempts

empties :
    (fuel id : ℕ) (p : List Observation) (n : ℕ) (ts : List Attempt)
    → length p ≤ fuel
    → (flush fuel id [] (waits p n ts)).pending ≡ []
unfolding flush
empties zero id p n ts h = empty_of-length p (omega (arith, h))
empties (suc fuel) id [] n ts h = refl
empties (suc fuel) id (o ∷ os) n ts h =
    empties fuel (suc id) (drop 255 os) (n + length (take batch_size (o ∷ os)))
      (ts ++ try_ id (o ∷ os) acknowledged ∷ []) (omega (arith, h, length-drop 255 os))

-- Fuel for as many uploads as observations wait empties the uploader, where the uploads succeed.
pub flush_empties : (id : ℕ) (u : Uploader) → (flush (length u.pending) id [] u).pending ≡ []
flush_empties id u = empties (length u.pending) id u.pending u.submitted u.attempts (omega arith)
