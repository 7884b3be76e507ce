-- ===== src/Tests/Syncing.antt =====
-- net/sync-scheduler.ts at small inputs.
use ovvio.Base.{
  ℕ, zero, suc, ◌*◌, ◌<◌, false, Option, some, none, List, [], ◌∷◌, ◌++◌, ◌≡◌, refl, arith, length,
  dec_lt, ℕ_discrete, All,
}
use ovvio.Base.Maps
use ovvio.Base.Text.{JsString, str, string_discrete}
use ovvio.Sync.Scheduler.{
  Request, Response, Scheduler, max_req_batch, priorities, resolve, reject, empty, queue_at, send,
  collect, start, find_response, decoded, answer_one, answer, settlements, finish,
}
use ovvio.Sync.Scheduler.Batch.{due, collect_lem}
use ovvio.Sync.Scheduler.Settle.{IsSettled, IsRight, settlements-IsRight}
use ovvio.Sync.Scheduler.Reach.{Reach, IsKept, no_request_lost}

program : Unit {0}
unfolding queue_at send collect start find_response decoded answer_one answer settlements finish due
    Maps.get Maps.put string_discrete ℕ_discrete dec_lt
program = tt

abbrev request : ℕ → JsString → Request ℕ
request n id = record { storage = str "data"; id = id; msg = n; promise = n }

abbrev response : JsString → ℕ → Response ℕ ℕ
response id n = record { storage = str "data"; id = id; res = n }

-- Even numbers can be decoded.
abbrev decode : ℕ → Option ℕ
decode zero = none
decode (suc n) = some n

abbrev waiting : Scheduler ℕ
waiting = send ℕ (send ℕ (empty ℕ) (request 1 (str "w")) 0) (request 2 (str "v")) 2

abbrev busy : Scheduler ℕ
busy = (start ℕ waiting).0

abbrev json : List (Response ℕ ℕ)
json = response (str "w") 8 ∷ response (str "v") 6 ∷ []

runs :
    (busy.in_flight ≡ request 2 (str "v") ∷ request 1 (str "w") ∷ [])
    × ((finish ℕ decode busy (some json)).settled ≡ resolve 2 5 ∷ resolve 1 7 ∷ [])
    × ((finish ℕ decode busy none).settled ≡ reject 2 ∷ reject 1 ∷ [])
unfolding program
runs = (refl, refl, refl)

collect_lem_example :
    let (batch, m) = collect ℕ priorities [] waiting.pending_requests in
    (batch ++ due ℕ priorities m ≡ due ℕ priorities waiting.pending_requests)
    × (length batch < 2 * max_req_batch)
    × (length batch < max_req_batch → due ℕ priorities m ≡ [])
collect_lem_example = collect_lem ℕ waiting.pending_requests

settlements-IsRight_example :
    All (IsRight decode busy.in_flight json) (settlements ℕ decode busy.in_flight (some json))
settlements-IsRight_example = settlements-IsRight decode busy.in_flight json

abbrev run : Reach decode (request 2 (str "v") ∷ request 1 (str "w") ∷ []) busy
run = Reach.ticked (
    Reach.sent (Reach.sent Reach.initial (request 1 (str "w")) 0 (omega arith))
      (request 2 (str "v")) 2 (omega arith))

no_request_lost_example :
    All (IsKept decode busy) (request 2 (str "v") ∷ request 1 (str "w") ∷ [])
    × (due ℕ priorities busy.pending_requests ≡ []
        → busy.fetch_in_progress ≡ false
        → All (IsSettled decode busy.settled) (request 2 (str "v") ∷ request 1 (str "w") ∷ []))
no_request_lost_example = no_request_lost decode run
