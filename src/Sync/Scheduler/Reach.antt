-- ===== src/Sync/Scheduler/Reach.antt =====
-- net/sync-scheduler.ts: no request is lost, however calls of `send`, ticks of the timer and answers
-- of the peer follow each other.
use ovvio.Base.{
  ℕ, zero, suc, ◌<◌, Bool, true, false, Option, List, [], ◌∷◌, ◌++◌, ◌≡◌, refl, sym, ◌∙◌, ◌==◌,
  if◌then◌else◌, length, arith, ◌⊎◌, inl, inr, All, Any, Any-All, subst, ℕ_discrete,
}
use ovvio.Collections.Search.Bounds.{All-mono}
use ovvio.Sync.Scheduler.{
  Request, Response, Scheduler, empty, priorities, queue_at, send, collect, start, finish,
}
use ovvio.Sync.Scheduler.Batch.{Queues, due, queue_at-put, collect_lem}
use ovvio.Sync.Scheduler.Settle.{IsSettled, settlements-IsSettled, Any-left, Any-right, Any-append}

module _ {Msg Json : Type 0} (decode : Json → Option Msg) where
  -- The runs of a scheduler, with the requests that were sent, the latest first.
  pub data Reach : List (Request Msg) → Scheduler Msg → Type 0 where
    initial : Reach [] (empty Msg)
    sent :
        {hist : List (Request Msg)} {s : Scheduler Msg}
        → Reach hist s
        → (r : Request Msg) (priority : ℕ) → priority < priorities
        → Reach (r ∷ hist) (send Msg s r priority)
    ticked :
        {hist : List (Request Msg)} {s : Scheduler Msg} → Reach hist s → Reach hist (start Msg s).0
    finished :
        {hist : List (Request Msg)} {s : Scheduler Msg}
        → Reach hist s
        → s.fetch_in_progress ≡ true
        → (resp : Option (List (Response Msg Json))) → Reach hist (finish Msg decode s resp)

  -- A request waits in a queue, is in flight, or is settled.
  abbrev pub IsKept : Scheduler Msg → Request Msg → Type 0
  IsKept s r =
      Any (λ q. q ≡ r) (due Msg priorities s.pending_requests)
      ⊎ Any (λ q. q ≡ r) s.in_flight
      ⊎ IsSettled decode s.settled r

  due-at :
      (n p : ℕ) (P : Request Msg → Type 0) (m : Queues Msg)
      → p < n
      → Any P (queue_at Msg p m)
      → Any P (due Msg n m)
  unfolding due
  due-at zero p P m lt h = absurd (omega arith)
  due-at (suc n) p P m lt h = elim (ℕ_discrete p n) [
    | yes e ↦ Any-left P _ _ (subst (λ k. Any P (queue_at Msg k m)) e h)
    | no other ↦ Any-right P _ _ (due-at n p P m (omega arith) h)
  ]

  due_mono :
      (n : ℕ) (P : Request Msg → Type 0) (m m' : Queues Msg)
      → ((p : ℕ) → Any P (queue_at Msg p m) → Any P (queue_at Msg p m'))
      → Any P (due Msg n m)
      → Any P (due Msg n m')
  unfolding due
  due_mono zero P m m' f h = h
  due_mono (suc n) P m m' f h = elim (Any-append P _ _ h) [
    | inl here ↦ Any-left P _ _ (f n here)
    | inr later ↦ Any-right P _ _ (due_mono n P m m' f later)
  ]

  -- A queue that a request joins.
  queue_at-send :
      (s : Scheduler Msg) (r : Request Msg) (p q : ℕ)
      → queue_at Msg q (send Msg s r p).pending_requests ≡ (
          if p == q
          then queue_at Msg p s.pending_requests ++ r ∷ []
          else queue_at Msg q s.pending_requests)
  unfolding send
  queue_at-send s r p q =
      queue_at-put Msg q p (queue_at Msg p s.pending_requests ++ r ∷ []) s.pending_requests

  queue_mono :
      (s : Scheduler Msg) (r : Request Msg) (p q : ℕ) (P : Request Msg → Type 0)
      → Any P (queue_at Msg q s.pending_requests)
      → Any P (queue_at Msg q (send Msg s r p).pending_requests)
  queue_mono s r p q P h = elim (ℕ_discrete p q) [
    | yes e ↦
        subst (Any P) (sym (queue_at-send s r p q ∙ ground arith))
          (Any-left P (queue_at Msg q s.pending_requests) (r ∷ []) h)
    | no n ↦ subst (Any P) (sym (queue_at-send s r p q ∙ ground arith)) h
  ]

  record IsSound (hist : List (Request Msg)) (s : Scheduler Msg) : Type 0 where
    kept : All (IsKept s) hist
    idle : s.fetch_in_progress ≡ false → s.in_flight ≡ []

  send-IsSound :
      (hist : List (Request Msg)) (s : Scheduler Msg) (r : Request Msg) (p : ℕ)
      → p < priorities
      → IsSound hist s
      → IsSound (r ∷ hist) (send Msg s r p)
  send-IsSound hist s r p lt h = record {
    kept = (
      inl (
          due-at priorities p (λ q. q ≡ r) _ lt
            (subst (Any (λ q. q ≡ r)) (sym (queue_at-send s r p p ∙ ground arith))
              (Any-right (λ q. q ≡ r) (queue_at Msg p s.pending_requests) (r ∷ []) (inl refl)))),
      All-mono _ _ hist
          (λ q k. elim k [
            | inl waits ↦
                inl (due_mono priorities _ _ _ (λ i. queue_mono s r p i (λ x. x ≡ q)) waits)
            | inr (inl flies) ↦ inr (inl (unfold send in flies))
            | inr (inr done) ↦ inr (inr (unfold send in done))
          ])
          h.kept,
    );
    idle = unfold send in h.idle;
  }

  no_member : (q : Request Msg) (xs : List (Request Msg)) → length xs ≡ 0 → ¬ Any (λ x. x ≡ q) xs
  no_member q [] e h = h
  no_member q (x ∷ xs) e h = absurd (omega arith)

  -- What was due is in the batch or is due still.
  batch-kept :
      (s : Scheduler Msg) (P : Request Msg → Type 0)
      → let r = collect Msg priorities [] s.pending_requests in
        Any P (due Msg priorities s.pending_requests) → Any P r.0 ⊎ Any P (due Msg priorities r.1)
  batch-kept s P h =
      let (in_order, bounded, full) = collect_lem Msg s.pending_requests in
      Any-append P _ _ (subst (Any P) (sym in_order) h)

  -- `start`, by whether the batch is empty, and by whether a fetch is in progress.
  abbrev sending : Scheduler Msg → List (Request Msg) × Queues Msg → Bool → Scheduler Msg × Bool
  sending s r b =
      if b
      then (record s { pending_requests = r.1 }, false)
      else (record s { pending_requests = r.1; fetch_in_progress = true; in_flight = r.0 }, true)

  abbrev ticking : Scheduler Msg → List (Request Msg) × Queues Msg → Bool → Scheduler Msg × Bool
  ticking s r b = if b then (s, false) else sending s r (length r.0 == 0)

  start-IsSound :
      (hist : List (Request Msg)) (s : Scheduler Msg)
      → IsSound hist s
      → IsSound hist (start Msg s).0
  unfolding start
  start-IsSound hist s h = by_flag s.fetch_in_progress refl
    where
      r : List (Request Msg) × Queues Msg
      r = collect Msg priorities [] s.pending_requests

      by_size :
          s.fetch_in_progress ≡ false
          → (b : Bool) → (length r.0 == 0) ≡ b
          → IsSound hist (sending s r b).0
      by_size free true e = record {
        kept =
            All-mono _ _ hist
              (λ q k. elim k [
                | inl waits ↦ elim (batch-kept s (λ x. x ≡ q) waits) [
                  | inl taken ↦ absurd (no_member q r.0 (ground arith) taken)
                  | inr still ↦ inl still
                ]
                | inr else_where ↦ inr else_where
              ])
              h.kept;
        idle = h.idle;
      }
      by_size free false e = record {
        kept =
            All-mono _ _ hist
              (λ q k. elim k [
                | inl waits ↦ elim (batch-kept s (λ x. x ≡ q) waits) [
                  | inl taken ↦ inr (inl taken)
                  | inr still ↦ inl still
                ]
                | inr (inl flies) ↦ absurd (subst (Any (λ x. x ≡ q)) (h.idle free) flies)
                | inr (inr done) ↦ inr (inr done)
              ])
              h.kept;
        idle = λ e. cc;
      }

      by_flag : (b : Bool) → s.fetch_in_progress ≡ b → IsSound hist (ticking s r b).0
      by_flag true e = h
      by_flag false e = by_size e (length r.0 == 0) refl

  finish-IsSound :
      (hist : List (Request Msg)) (s : Scheduler Msg) (resp : Option (List (Response Msg Json)))
      → IsSound hist s
      → IsSound hist (finish Msg decode s resp)
  unfolding finish
  finish-IsSound hist s resp h = record {
    kept =
        All-mono _ _ hist
          (λ q k. elim k [
            | inl waits ↦ inl waits
            | inr (inl flies) ↦ inr (
                inr (
                  Any-right _ s.settled _ (
                    Any-All _ q s.in_flight flies (settlements-IsSettled decode s.in_flight resp))))
            | inr (inr done) ↦ inr (inr (Any-left _ s.settled _ done))
          ])
          h.kept;
    idle = λ e. refl;
  }

  Reach-IsSound : {hist : List (Request Msg)} {s : Scheduler Msg} → Reach hist s → IsSound hist s
  Reach-IsSound initial = record { kept = tt; idle = λ h. refl }
  Reach-IsSound (sent {hist} {s} reach r p lt) = send-IsSound hist s r p lt (Reach-IsSound reach)
  Reach-IsSound (ticked {hist} {s} reach) = start-IsSound hist s (Reach-IsSound reach)
  Reach-IsSound (finished {hist} {s} reach busy resp) =
      finish-IsSound hist s resp (Reach-IsSound reach)

  -- In every run in which the batches are serialized without an error, each request that was sent waits in a queue, is in flight or is settled, and where
  -- nothing waits and no fetch is in progress, all are settled.
  pub no_request_lost :
      {hist : List (Request Msg)} {s : Scheduler Msg}
      → Reach hist s
      → All (IsKept s) hist
        × (due Msg priorities s.pending_requests ≡ []
            → s.fetch_in_progress ≡ false
            → All (IsSettled decode s.settled) hist)
  no_request_lost {hist} {s} reach =
      let h = Reach-IsSound reach in
      (
        h.kept,
        λ empty_queues free.
            All-mono _ _ hist
              (λ q k. elim k [
                | inl waits ↦ absurd (subst (Any (λ x. x ≡ q)) empty_queues waits)
                | inr (inl flies) ↦ absurd (subst (Any (λ x. x ≡ q)) (h.idle free) flies)
                | inr (inr done) ↦ done
              ])
              h.kept,
      )
