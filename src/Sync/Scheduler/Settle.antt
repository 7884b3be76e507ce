-- ===== src/Sync/Scheduler/Settle.antt =====
-- net/sync-scheduler.ts: the promises of a batch are settled, each by its own answer.
use ovvio.Base.{
  ℕ, Bool, true, ◌&&◌, Option, none, some, List, [], ◌∷◌, ◌++◌, ◌≡◌, refl, ap, sym, same, ◌==◌,
  length, arith, ◌⊎◌, inl, inr, Bool-cases, All, All-append, Any, All-self, subst,
}
use ovvio.Base.Text.{string_discrete}
use ovvio.Collections.Search.Bounds.{All-mono}
use ovvio.Sync.Scheduler.{
  Request, Response, Settlement, resolve, reject, reject_all, find_response, decoded, answer_one,
  answer, settlements,
}

Any-map :
    {A : Type 0} {P Q : A → Type 0} (xs : List A) → ((x : A) → P x → Q x) → Any P xs → Any Q xs
Any-map [] f h = absurd h
Any-map (x ∷ xs) f h = elim h [ inl p ↦ inl (f x p) | inr m ↦ inr (Any-map xs f m) ]

module _ {A : Type 0} (P : A → Type 0) where
  pub Any-left : (xs ys : List A) → Any P xs → Any P (xs ++ ys)
  Any-left [] ys h = absurd h
  Any-left (x ∷ xs) ys h = elim h [ inl p ↦ inl p | inr m ↦ inr (Any-left xs ys m) ]

  pub Any-right : (xs ys : List A) → Any P ys → Any P (xs ++ ys)
  Any-right [] ys h = h
  Any-right (x ∷ xs) ys h = inr (Any-right xs ys h)

  pub Any-append : (xs ys : List A) → Any P (xs ++ ys) → Any P xs ⊎ Any P ys
  Any-append [] ys h = inr h
  Any-append (x ∷ xs) ys h = elim h [
    | inl p ↦ inl (inl p)
    | inr m ↦ elim (Any-append xs ys m) [ inl l ↦ inl (inr l) | inr r ↦ inr r ]
  ]

module _ {Msg Json : Type 0} (decode : Json → Option Msg) where
  abbrev promise_of : Settlement Msg → ℕ
  promise_of (resolve p m) = p
  promise_of (reject p) = p

  -- The request has a call for its promise.
  abbrev pub IsSettled : List (Settlement Msg) → Request Msg → Type 0
  IsSettled calls r = Any (λ c. promise_of c ≡ r.promise) calls

  -- A call is right for a batch: it is for one of its requests, and if it resolves, the message is
  -- decoded from the response with the storage and id of that request.
  abbrev pub IsRight : List (Request Msg) → List (Response Msg Json) → Settlement Msg → Type 0
  IsRight batch json (reject p) = Any (λ r. r.promise ≡ p) batch
  IsRight batch json (resolve p m) =
      Any
        (λ r.
          (r.promise ≡ p)
          × Any (λ resp. (resp.storage ≡ r.storage) × (resp.id ≡ r.id) × (decode resp.res ≡ some m))
              json)
        batch

  reject_all-IsSettled : (batch : List (Request Msg)) → All (IsSettled (reject_all Msg batch)) batch
  reject_all-IsSettled [] = tt
  reject_all-IsSettled (r ∷ batch) =
      (inl refl, All-mono _ _ batch (λ q h. inr h) (reject_all-IsSettled batch))

  answer_one-IsSettled :
      (r : Request Msg) (batch : List (Request Msg)) (o : Option (Option Msg))
      (rest : List (Settlement Msg) × Bool)
      → (rest.1 ≡ true → All (IsSettled rest.0) batch)
      → (answer_one Msg decode r o rest).1 ≡ true
      → All (IsSettled (answer_one Msg decode r o rest).0) (r ∷ batch)
  unfolding answer_one
  answer_one-IsSettled r batch none rest h e = (inl refl, All-mono _ _ batch (λ q k. inr k) (h e))
  answer_one-IsSettled r batch (some none) rest h e = absurd (cc)
  answer_one-IsSettled r batch (some (some msg)) rest h e =
      (inl refl, All-mono _ _ batch (λ q k. inr k) (h e))

  answer-IsSettled :
      (batch : List (Request Msg)) (json : List (Response Msg Json))
      → (answer Msg decode batch json).1 ≡ true
      → All (IsSettled (answer Msg decode batch json).0) batch
  unfolding answer
  answer-IsSettled [] json = λ h. tt
  answer-IsSettled (r ∷ batch) json =
      answer_one-IsSettled r batch (decoded Msg decode r json) (answer Msg decode batch json)
        (answer-IsSettled batch json)

  -- The response that is found is for the request.
  decoded-right :
      (r : Request Msg) (json : List (Response Msg Json)) (m : Msg)
      → decoded Msg decode r json ≡ some (some m)
      → Any
          (λ resp. (resp.storage ≡ r.storage) × (resp.id ≡ r.id) × (decode resp.res ≡ some m))
          json
  unfolding decoded find_response
  decoded-right r [] m h = absurd (cc)
  decoded-right r (resp ∷ json) m h =
      elim (Bool-cases
        (same string_discrete resp.storage r.storage && same string_discrete resp.id r.id)) [
          | inl found ↦ inl (ground arith, ground arith, ground arith)
          | inr other ↦ inr (decoded-right r json m (ground arith))
        ]

  answer-IsRight :
      (all batch : List (Request Msg)) (json : List (Response Msg Json))
      → All (λ r. Any (λ q. q ≡ r) all) batch
      → All (IsRight all json) (answer Msg decode batch json).0
  unfolding answer answer_one
  answer-IsRight all [] json h = tt
  answer-IsRight all (r ∷ batch) json h =
      step (decoded Msg decode r json) refl (answer-IsRight all batch json h.1)
    where
      step :
          (o : Option (Option Msg))
          → decoded Msg decode r json ≡ o
          → All (IsRight all json) (answer Msg decode batch json).0
          → All (IsRight all json) (answer_one Msg decode r o (answer Msg decode batch json)).0
      step none e rest = (Any-map all (λ q k. ap (λ x. x.promise) k) h.0, rest)
      step (some none) e rest = tt
      step (some (some m)) e rest = (
        Any-map all
            (λ q k.
              subst
                (λ x.
                  (x.promise ≡ r.promise)
                  × Any
                      (λ resp.
                        (resp.storage ≡ x.storage) × (resp.id ≡ x.id) × (decode resp.res ≡ some m))
                      json)
                (sym k) (refl, decoded-right r json m e))
            h.0,
        rest,
      )

  reject_all-IsRight :
      (all batch : List (Request Msg)) (json : List (Response Msg Json))
      → All (λ r. Any (λ q. q ≡ r) all) batch
      → All (IsRight all json) (reject_all Msg batch)
  reject_all-IsRight all [] json h = tt
  reject_all-IsRight all (r ∷ batch) json h =
      (Any-map all (λ q k. ap (λ x. x.promise) k) h.0, reject_all-IsRight all batch json h.1)

  -- Whatever comes back, each request of the batch is settled.
  pub settlements-IsSettled :
      (batch : List (Request Msg)) (resp : Option (List (Response Msg Json)))
      → All (IsSettled (settlements Msg decode batch resp)) batch
  unfolding settlements
  settlements-IsSettled batch none = reject_all-IsSettled batch
  settlements-IsSettled batch (some json) = elim (Bool-cases (length json == length batch)) [
    | inr differ ↦ rw differ (reject_all-IsSettled batch)
    | inl fits ↦ elim (Bool-cases (answer Msg decode batch json).1) [
      | inl done ↦ rw (fits, done) (answer-IsSettled batch json done)
      | inr thrown ↦
          rw (fits, thrown)
            (All-mono _ _ batch
              (λ r. Any-right _ (answer Msg decode batch json).0 (reject_all Msg batch))
              (reject_all-IsSettled batch))
    ]
  ]

  -- No promise is settled that is not of the batch, and none with a message that was not decoded
  -- from the response to its own request.
  pub settlements-IsRight :
      (batch : List (Request Msg)) (json : List (Response Msg Json))
      → All (IsRight batch json) (settlements Msg decode batch (some json))
  unfolding settlements
  settlements-IsRight batch json =
      let rejected = reject_all-IsRight batch batch json (All-self batch) in
      let answered = answer-IsRight batch batch json (All-self batch) in
      elim (Bool-cases (length json == length batch)) [
        | inr differ ↦ rw differ rejected
        | inl fits ↦ elim (Bool-cases (answer Msg decode batch json).1) [
          | inl done ↦ rw (fits, done) answered
          | inr thrown ↦
              rw (fits, thrown)
                (All-append _ (answer Msg decode batch json).0 (reject_all Msg batch) answered
                  rejected)
        ]
      ]
