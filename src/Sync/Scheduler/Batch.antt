-- ===== src/Sync/Scheduler/Batch.antt =====
-- net/sync-scheduler.ts: what enters a batch.
use ovvio.Base.{
  ℕ, zero, suc, ◌+◌, ◌*◌, ◌≤◌, ◌<◌, Option, none, some, List, [], ◌∷◌, ◌++◌, ◌≡◌, refl, ap, sym,
  ◌∙◌, leb, ◌==◌, if◌then◌else◌, length, take, drop, arith, length-append, length-take,
  take-append-drop, inl, inr, Bool-cases, ℕ_discrete,
}
use mathlib.Core.List.{append_assoc}
use mathlib.Core.Path.{ap₂}
use ovvio.Base.Maps
use ovvio.Base.Maps.{Map}
use ovvio.Sync.Scheduler.{Request, max_req_batch, priorities, queue_at, collect}

module _ (Msg : Type 0) where
  abbrev pub Queues : Type 0
  Queues = Map ℕ (List (Request Msg))

  -- All that waits below a priority number, in the order in which it is due: by priority, and first
  -- come first served.
  unfoldable pub due : ℕ → Queues → List (Request Msg)
  due zero m = []
  due (suc p) m = queue_at Msg p m ++ due p m

  pub queue_at-put :
      (p k : ℕ) (queue : List (Request Msg)) (m : Queues)
      → queue_at Msg p (Maps.put ℕ_discrete k queue m)
        ≡ (if k == p then queue else queue_at Msg p m)
  unfolding queue_at ℕ_discrete
  queue_at-put p k queue m = ground (arith, Maps.get-put ℕ_discrete k p queue m)

  pub due-put :
      (n k : ℕ) (queue : List (Request Msg)) (m : Queues)
      → n ≤ k
      → due n (Maps.put ℕ_discrete k queue m) ≡ due n m
  unfolding due
  due-put zero k queue m h = refl
  due-put (suc n) k queue m h =
      ground (arith, queue_at-put n k queue m, due-put n k queue m (omega arith))

  -- A batch is built by taking what is due next.
  record IsBatch (n : ℕ) (batch : List (Request Msg)) (m : Queues) (r : List (Request Msg) × Queues)
      : Type 0 where
    in_order : r.0 ++ due n r.1 ≡ batch ++ due n m
    bounded : length batch < max_req_batch → length r.0 < max_req_batch + max_req_batch
    full : length r.0 < max_req_batch → due n r.1 ≡ []
    untouched : (p : ℕ) → n ≤ p → queue_at Msg p r.1 ≡ queue_at Msg p m

  drop_short : (queue : List (Request Msg)) (n : ℕ) → length queue ≤ n → drop n queue ≡ []
  drop_short [] zero h = refl
  drop_short [] (suc n) h = refl
  drop_short (x ∷ queue) zero h = absurd (omega arith)
  drop_short (x ∷ queue) (suc n) h = drop_short queue n (omega arith)

  -- What a queue keeps.
  left :
      (n : ℕ) (queue : List (Request Msg)) (m : Queues)
      → queue_at Msg n (Maps.put ℕ_discrete n (drop max_req_batch queue) m)
        ≡ drop max_req_batch queue
  left n queue m = ground (arith, queue_at-put n n (drop max_req_batch queue) m)

  regroup :
      (batch queue rest : List (Request Msg))
      → (batch ++ take max_req_batch queue) ++ (drop max_req_batch queue ++ rest)
        ≡ batch ++ (queue ++ rest)
  regroup batch queue rest =
      append_assoc batch (take max_req_batch queue) (drop max_req_batch queue ++ rest)
      ∙ ap (λ l. batch ++ l)
          (sym (append_assoc (take max_req_batch queue) (drop max_req_batch queue) rest)
            ∙ ap (λ l. l ++ rest) (take-append-drop max_req_batch queue))

  -- The step for one queue, where the loop ends with it.
  last-IsBatch :
      (n : ℕ) (batch : List (Request Msg)) (m : Queues) (queue : List (Request Msg))
      → queue_at Msg n m ≡ queue
      → max_req_batch ≤ length (batch ++ take max_req_batch queue)
      → IsBatch
          (suc n)
          batch
          m
          (batch ++ take max_req_batch queue, Maps.put ℕ_discrete n (drop max_req_batch queue) m)
  unfolding due
  last-IsBatch n batch m queue at h = record {
    in_order =
        ap (λ l. (batch ++ take max_req_batch queue) ++ l)
          (ap₂ ◌++◌ (left n queue m) (due-put n n (drop max_req_batch queue) m (omega arith)))
        ∙ regroup batch queue (due n m)
        ∙ ap (λ l. batch ++ (l ++ due n m)) (sym at);
    bounded = λ k.
        omega
          (arith, length-append batch (take max_req_batch queue), length-take max_req_batch queue);
    full = λ k. absurd (omega arith);
    untouched = λ p le. ground (arith, queue_at-put p n (drop max_req_batch queue) m);
  }

  -- The step for one queue, where the loop goes on.
  more-IsBatch :
      (n : ℕ) (batch : List (Request Msg)) (m : Queues) (queue : List (Request Msg))
      (r : List (Request Msg) × Queues)
      → queue_at Msg n m ≡ queue
      → length (batch ++ take max_req_batch queue) < max_req_batch
      → IsBatch n
          (batch ++ take max_req_batch queue)
          (Maps.put ℕ_discrete n (drop max_req_batch queue) m)
          r
      → IsBatch (suc n) batch m r
  unfolding due
  more-IsBatch n batch m queue r at h b =
      let short : drop max_req_batch queue ≡ [] = drop_short queue max_req_batch (
        omega (
          arith,
          length-append batch (take max_req_batch queue),
          length-take max_req_batch queue,
        )) in
      let gone : queue_at Msg n r.1 ≡ [] = b.untouched n (omega arith) ∙ left n queue m ∙ short in
      record {
        in_order =
            ap (λ l. r.0 ++ (l ++ due n r.1)) gone
            ∙ b.in_order
            ∙ ap (λ l. (batch ++ take max_req_batch queue) ++ l)
                (due-put n n (drop max_req_batch queue) m (omega arith))
            ∙ ap (λ l. (batch ++ take max_req_batch queue) ++ (l ++ due n m)) (sym short)
            ∙ regroup batch queue (due n m)
            ∙ ap (λ l. batch ++ (l ++ due n m)) (sym at);
        bounded = λ k. b.bounded h;
        full = λ k. ap₂ ◌++◌ gone (b.full k);
        untouched = λ p le.
            b.untouched p (omega arith)
            ∙ ground (arith, queue_at-put p n (drop max_req_batch queue) m);
      }

  -- The step for a priority at which nothing waits.
  skip-IsBatch :
      (n : ℕ) (batch : List (Request Msg)) (m : Queues) (r : List (Request Msg) × Queues)
      → queue_at Msg n m ≡ []
      → IsBatch n batch m r
      → IsBatch (suc n) batch m r
  unfolding due
  skip-IsBatch n batch m r nothing b =
      let gone : queue_at Msg n r.1 ≡ [] = b.untouched n (omega arith) ∙ nothing in
      record {
        in_order =
            ap (λ l. r.0 ++ (l ++ due n r.1)) gone
            ∙ b.in_order
            ∙ ap (λ l. batch ++ (l ++ due n m)) (sym nothing);
        bounded = b.bounded;
        full = λ k. ap₂ ◌++◌ gone (b.full k);
        untouched = λ p le. b.untouched p (omega arith);
      }

  collect-IsBatch :
      (n : ℕ) (batch : List (Request Msg)) (m : Queues) → IsBatch n batch m (collect Msg n batch m)
  unfolding collect
  collect-IsBatch zero batch m = record {
    in_order = refl;
    bounded = λ h. omega arith;
    full = λ h. unfold due in refl;
    untouched = λ p h. refl;
  }
  collect-IsBatch (suc n) batch m =
      step (Maps.get ℕ_discrete n m) refl (λ b m'. collect-IsBatch n b m')
    where
      step :
          (o : Option (List (Request Msg)))
          → Maps.get ℕ_discrete n m ≡ o
          → ((b : List (Request Msg)) (m' : Queues) → IsBatch n b m' (collect Msg n b m'))
          → IsBatch (suc n) batch m (elim o [
            | none ↦ collect Msg n batch m
            | some queue ↦
                if leb max_req_batch (length (batch ++ take max_req_batch queue))
                then (
                  batch ++ take max_req_batch queue,
                  Maps.put ℕ_discrete n (drop max_req_batch queue) m,
                )
                else collect Msg n
                    (batch ++ take max_req_batch queue)
                    (Maps.put ℕ_discrete n (drop max_req_batch queue) m)
          ])
      step none e rec =
          let nothing : queue_at Msg n m ≡ [] = unfold queue_at in ground arith in
          skip-IsBatch n batch m _ nothing (rec batch m)
      step (some queue) e rec =
          let at : queue_at Msg n m ≡ queue = unfold queue_at in ground arith in
          elim (Bool-cases (leb max_req_batch (length (batch ++ take max_req_batch queue)))) [
            | inl ends ↦ rw ends (last-IsBatch n batch m queue at (ground arith))
            | inr goes ↦ rw goes (more-IsBatch n batch m queue _ at (ground arith) (rec _ _))
          ]

  -- A batch is what is due next, by priority and first come first served; it leaves the rest in its
  -- order, has less than twenty requests, and has less than ten only if nothing is left to send.
  pub collect_lem :
      (m : Queues)
      → let (batch, m') = collect Msg priorities [] m in
        (batch ++ due priorities m' ≡ due priorities m)
        × (length batch < 2 * max_req_batch)
        × (length batch < max_req_batch → due priorities m' ≡ [])
  collect_lem m =
      let b = collect-IsBatch priorities [] m in (b.in_order, b.bounded (omega arith), b.full)
