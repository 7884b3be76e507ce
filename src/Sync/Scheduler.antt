-- ===== src/Sync/Scheduler.antt =====
-- net/sync-scheduler.ts: the class `SyncScheduler`. Requests wait in a queue for each priority, are
-- sent in batches, and their promises are settled from the answer. The frequency of the cycles and
-- the logs are left out.
pub mod Batch
pub mod Settle
pub mod Reach
use ovvio.Base.{
  ℕ, zero, suc, Bool, true, false, ◌&&◌, Option, none, some, List, [], ◌∷◌, ◌++◌, same, leb, ◌==◌,
  if◌then◌else◌, length, take, drop, map, ℕ_discrete,
}
use ovvio.Base.Maps
use ovvio.Base.Maps.{Map}
use ovvio.Base.Text.{JsString, string_discrete}

-- `K_MAX_REQ_BATCH`
abbrev pub max_req_batch : ℕ
max_req_batch = 10

-- The number of values of `SyncPriority`, from `MIN` to `MAX`.
abbrev pub priorities : ℕ
priorities = 3

-- `Msg` stands for `SyncMessage`, a promise is named by a number.
module _ (Msg : Type 0) where
  pub record Request : Type 0 where
    pub storage : JsString
    pub id : JsString
    pub msg : Msg
    pub promise : ℕ

  -- An entry of the response: `res` before it is decoded.
  pub record Response (Json : Type 0) : Type 0 where
    pub storage : JsString
    pub id : JsString
    pub res : Json

  -- A call of `resolve` or `reject`. Only the first call for a promise counts.
  pub data Settlement : Type 0 where
    resolve : ℕ → Msg → Settlement
    reject : ℕ → Settlement

  -- The requests of the batch in flight stand beside the flag `_fetchInProgress`.
  pub record Scheduler : Type 0 where
    pub pending_requests : Map ℕ (List Request)
    pub fetch_in_progress : Bool
    pub in_flight : List Request
    pub settled : List Settlement

  abbrev pub empty : Scheduler
  empty = record { pending_requests = []; fetch_in_progress = false; in_flight = []; settled = [] }

  unfoldable pub queue_at : ℕ → Map ℕ (List Request) → List Request
  queue_at priority m = elim (Maps.get ℕ_discrete priority m) [ none ↦ [] | some queue ↦ queue ]

  unfoldable pub send : Scheduler → Request → ℕ → Scheduler
  unfolding queue_at
  send s r priority = record s {
    pending_requests =
        Maps.put ℕ_discrete priority (queue_at priority s.pending_requests ++ r ∷ [])
          s.pending_requests;
  }

  -- The loop over the priorities, from the one below the given number down to 0.
  unfoldable pub collect :
      ℕ → List Request → Map ℕ (List Request) → List Request × Map ℕ (List Request)
  collect zero batch m = (batch, m)
  collect (suc priority) batch m = elim (Maps.get ℕ_discrete priority m) [
    | none ↦ collect priority batch m
    | some queue ↦
        let batch' = batch ++ take max_req_batch queue in
        let m' = Maps.put ℕ_discrete priority (drop max_req_batch queue) m in
        let more = collect priority batch' m' in
        if leb max_req_batch (length batch') then (batch', m') else more
  ]

  -- `sendPendingRequests` up to the request: whether a batch goes out. The serialization of its
  -- messages, which stands before the `try`, does not throw.
  unfoldable pub start : Scheduler → Scheduler × Bool
  unfolding collect
  start s =
      if s.fetch_in_progress
      then (s, false)
      else let (batch, m) = collect priorities [] s.pending_requests in
        if length batch == 0
        then (record s { pending_requests = m }, false)
        else (record s { pending_requests = m; fetch_in_progress = true; in_flight = batch }, true)

  abbrev pub reject_all : List Request → List Settlement
  reject_all = map (λ r. reject r.promise)

  module _ {Json : Type 0} (decode : Json → Option Msg) where
    -- The response for a request: the first with its storage and id.
    unfoldable pub find_response : Request → List (Response Json) → Option (Response Json)
    find_response r [] = none
    find_response r (resp ∷ json) =
        if same string_discrete resp.storage r.storage && same string_discrete resp.id r.id
        then some resp
        else find_response r json

    -- Its message, or `some none` where it cannot be decoded.
    unfoldable pub decoded : Request → List (Response Json) → Option (Option Msg)
    unfolding find_response
    decoded r json = elim (find_response r json) [
      | none ↦ none
      | some resp ↦ some (decode resp.res)
    ]

    -- The body of the loop over the batch, before the rest of the loop: the calls, and whether
    -- nothing was thrown.
    unfoldable pub answer_one :
        Request → Option (Option Msg) → List Settlement × Bool → List Settlement × Bool
    answer_one r none (calls, done) = (reject r.promise ∷ calls, done)
    answer_one r (some none) rest = ([], false)
    answer_one r (some (some msg)) (calls, done) = (resolve r.promise msg ∷ calls, done)

    unfoldable pub answer : List Request → List (Response Json) → List Settlement × Bool
    unfolding decoded answer_one
    answer [] json = ([], true)
    answer (r ∷ batch) json = answer_one r (decoded r json) (answer batch json)

    -- `sendPendingRequests` behind the request. `none` is a request that failed, a status other
    -- than 200 or a text that is no JSON.
    unfoldable pub settlements : List Request → Option (List (Response Json)) → List Settlement
    unfolding answer
    settlements batch none = reject_all batch
    settlements batch (some json) =
        if length json == length batch
        then (let (calls, done) = answer batch json in
            if done then calls else calls ++ reject_all batch)
        else reject_all batch

    unfoldable pub finish : Scheduler → Option (List (Response Json)) → Scheduler
    unfolding settlements
    finish s resp = record s {
      fetch_in_progress = false;
      in_flight = [];
      settled = s.settled ++ settlements s.in_flight resp;
    }
