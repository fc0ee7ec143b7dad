-- ===== src/Worker/Executor/Queue.antt =====
-- For internal/worker/executor.go: what a probe loop that meets a full queue loses.
use vpsa_network_discovery.Prelude.{
  ℕ, append_assoc, ◌≤◌, ◌≡◌, sym, ap, ◌∙◌, true, Bool-cases, inl, inr, List, [], ◌∷◌, ◌++◌, length,
  take, drop, ltb, if◌then◌else◌, arith, length-drop, take-append-drop,
}
use vpsa_network_discovery.Observations.{Observation}
use vpsa_network_discovery.Worker.Executor.{produce, enqueue, queue_size}

-- What was received in two goes and what is left make up the queue.
taken_twice :
    (a b : ℕ) (q : List Observation) → (take a q ++ take b (drop a q)) ++ drop b (drop a q) ≡ q
taken_twice a b q =
    append_assoc (take a q) (take b (drop a q)) (drop b (drop a q))
    ∙ ap (λ (z : List Observation). take a q ++ z) (take-append-drop b (drop a q))
    ∙ take-append-drop a q

-- The same where the oldest is dropped after the first go and an observation is queued at the end.
dropped_between :
    (a b : ℕ) (o : Observation) (q : List Observation)
    → (take a q ++ take b (drop 1 (drop a q))) ++ (drop b (drop 1 (drop a q)) ++ o ∷ [])
      ≡ (take a q ++ drop 1 (drop a q)) ++ o ∷ []
dropped_between a b o q =
    append_assoc (take a q) (take b rest) (drop b rest ++ o ∷ [])
    ∙ ap (λ (z : List Observation). take a q ++ z)
        (sym (append_assoc (take b rest) (drop b rest) (o ∷ []))
          ∙ ap (λ (z : List Observation). z ++ o ∷ []) (take-append-drop b rest))
    ∙ sym (append_assoc (take a q) rest (o ∷ []))
  where
    rest : List Observation
    rest = drop 1 (drop a q)

-- The retry finds room, since the queue was full at most and the oldest was dropped.
room :
    (a b : ℕ) (q : List Observation)
    → length q ≤ queue_size
    → ltb (length (drop b (drop 1 (drop a q)))) queue_size ≡ true
room a b q h =
    ground (arith, h, length-drop b (drop 1 (drop a q)), length-drop 1 (drop a q), length-drop a q)

-- Whatever the uploader receives between its selects, a probe loop that no other probe loop
-- interrupts queues its observation last, where the channel holds its capacity at most: what the
-- uploader received and what is then queued are, in order, what was queued before and the
-- observation, less, where the queue was full, the one that was the oldest when the loop dropped
-- it.
pub enqueue_last :
    (a b : ℕ) (o : Observation) (q : List Observation)
    → length q ≤ queue_size
    → (enqueue a b o q).0 ++ (enqueue a b o q).1
      ≡ (if ltb (length q) queue_size then q else take a q ++ drop 1 (drop a q)) ++ o ∷ []
unfolding enqueue produce
enqueue_last a b o q h = elim (Bool-cases (ltb (length q) queue_size)) [
  | inl t ↦ rw t (taken_twice a b (q ++ o ∷ []))
  | inr f ↦ rw (f, room a b q h) (dropped_between a b o q)
]
