-- ===== src/Batch/BatchManager.antt =====
-- src/routerbot/core/batch/batch_manager.py, and its part of models.py. `create_batch` changes the
-- manager in one step. `execute_batch` awaits the handlers of all its requests between its checks and
-- what it writes, so it is two steps, `begin` and `finish`; what the handlers answer is an argument.
-- A batch's identifier is a fresh number; bodies are of a type left open.
pub mod Creation
pub mod Execution
mod Examples
use routerbot.Base.{
  ℕ, suc, ◌+◌, String, Option, none, some, Bool, true, false, not, ◌&&◌, ◌||◌, List, [], ◌∷◌, ◌++◌,
  map, if◌then◌else◌, ltb, leb, eqb, length, keep, contains, Dict, lookup, insert, string_eq, ◌==◌,
  get_or,
}
use routerbot.Batch.JobQueue.{id_eq}

pub data BatchStatus : Type 0 where
  validating in_progress completed failed cancelled expired : BatchStatus

pub record BatchRequest (B : Type 0) : Type 0 where
  pub custom_id : String
  pub method : String
  pub url : String
  pub body : B

pub record BatchRequestResult (B : Type 0) : Type 0 where
  pub custom_id : String
  pub status_code : ℕ
  pub body : Option B
  pub error : String

pub record Batch (B : Type 0) : Type 0 where
  pub batch_id : ℕ
  pub status : BatchStatus
  pub total_requests : ℕ
  pub completed_requests : ℕ
  pub failed_requests : ℕ
  pub created_at : Option ℕ
  pub completed_at : Option ℕ
  pub metadata : Dict String String
  pub results : List (BatchRequestResult B)
  pub errors : List String
  pub input_requests : List (BatchRequest B)

pub record BatchManager (B : Type 0) : Type 0 where
  pub max_batch_size : ℕ
  pub batches : Dict ℕ (Batch B)

-- The texts of BatchValidationError, by what they say.
pub data BatchValidationError : Type 0 where
  no_request : BatchValidationError
  too_large : BatchValidationError
  duplicate_custom_id : BatchValidationError

pub data Created (B : Type 0) : Type 0 where
  created : Batch B → Created B
  refused : BatchValidationError → Created B

-- set(xs), as the list of its members.
unfoldable pub set_of : List String → List String
set_of [] = []
set_of (x ∷ xs) = let rest = set_of xs in if contains x xs then rest else x ∷ rest

abbrev pub is_empty : {A : Type 0} → List A → Bool
is_empty [] = true
is_empty (x ∷ xs) = false

module _ {B : Type 0} where
  -- Batch(…) of create_batch
  abbrev pub new_batch : ℕ → ℕ → List (BatchRequest B) → Option (Dict String String) → Batch B
  new_batch now batch_id requests metadata = record {
    batch_id = batch_id;
    status = in_progress;
    total_requests = length requests;
    completed_requests = 0;
    failed_requests = 0;
    created_at = some now;
    completed_at = none;
    metadata = get_or metadata [];
    results = [];
    errors = [];
    input_requests = requests;
  }

  unfoldable pub create_batch :
      ℕ
      → ℕ
      → List (BatchRequest B)
      → Option (Dict String String)
      → BatchManager B
      → Created B × BatchManager B
  unfolding set_of
  create_batch now batch_id requests metadata m =
      let custom_ids = map (λ r. r.custom_id) requests in
      let batch = new_batch now batch_id requests metadata in
      if is_empty requests
      then (refused no_request, m)
      else if ltb m.max_batch_size (length requests)
      then (refused too_large, m)
      else if not (eqb (length custom_ids) (length (set_of custom_ids)))
      then (refused duplicate_custom_id, m)
      else (created batch, record m { batches = insert batch_id batch m.batches })

  unfoldable pub get_batch : ℕ → BatchManager B → Option (Batch B)
  get_batch batch_id m = lookup batch_id m.batches

abbrev pub is_open : BatchStatus → Bool
is_open in_progress = true
is_open validating = true
is_open completed = false
is_open failed = false
is_open cancelled = false
is_open expired = false

-- status in (COMPLETED, FAILED, CANCELLED)
abbrev pub is_final : BatchStatus → Bool
is_final completed = true
is_final failed = true
is_final cancelled = true
is_final validating = false
is_final in_progress = false
is_final expired = false

-- What the handler does with a request: a status and a body, or the text of an exception.
pub data Answer (B : Type 0) : Type 0 where
  returned : ℕ → B → Answer B
  raised : String → Answer B

module _ {B : Type 0} where
  abbrev pub result_of : BatchRequest B → Answer B → BatchRequestResult B
  result_of request (returned status_code body) = record {
    custom_id = request.custom_id;
    status_code = status_code;
    body = some body;
    error = "";
  }
  result_of request (raised exc) = record {
    custom_id = request.custom_id;
    status_code = 500;
    body = none;
    error = exc;
  }

  -- asyncio.gather of _process_one: the results in the order of the requests.
  unfoldable pub gather :
      (BatchRequest B → Answer B) → List (BatchRequest B) → List (BatchRequestResult B)
  gather handler requests = map (λ r. result_of r (handler r)) requests

  -- if res.error
  abbrev pub has_error : BatchRequestResult B → Bool
  has_error res = not (res.error == "")

  -- The loop over the results, with `completed` and `failed`.
  unfoldable pub count_results : List (BatchRequestResult B) → ℕ → ℕ → Batch B → Batch B × ℕ × ℕ
  count_results [] completed_count failed_count batch = (batch, completed_count, failed_count)
  count_results (res ∷ rest) completed_count failed_count batch =
      let kept = record batch { results = batch.results ++ res ∷ [] } in
      let f = has_error res in
      count_results rest (if f then completed_count else completed_count + 1)
        (if f then failed_count + 1 else failed_count)
        (if f then record kept { errors = batch.errors ++ res.error ∷ [] } else kept)

  abbrev begun : Option (Batch B) → Option (List (BatchRequest B))
  begun none = none
  begun (some batch) = if is_open batch.status then some batch.input_requests else none

  -- The requests that execute_batch hands to its handler, if it gets so far: it raises on a batch
  -- that is not there, and returns one that is not open as it is.
  unfoldable pub begin : ℕ → BatchManager B → Option (List (BatchRequest B))
  begin batch_id m = begun (lookup batch_id m.batches)

  -- What execute_batch does once it has the results.
  unfoldable pub finish_batch : ℕ → List (BatchRequestResult B) → Batch B → Batch B
  unfolding count_results
  finish_batch now results batch =
      let (counted, completed_count, failed_count) = count_results results 0 0 batch in
      record counted {
        completed_requests = completed_count;
        failed_requests = failed_count;
        completed_at = some now;
        status = (if eqb failed_count batch.total_requests then failed else completed);
      }

  abbrev update : ℕ → (Batch B → Batch B) → Option (Batch B) → BatchManager B → BatchManager B
  update batch_id f none m = m
  update batch_id f (some batch) m = record m { batches = insert batch_id (f batch) m.batches }

  -- The batch is changed where it is, whatever became of it since `begin`.
  unfoldable pub finish : ℕ → ℕ → List (BatchRequestResult B) → BatchManager B → BatchManager B
  unfolding finish_batch
  finish now batch_id results m =
      update batch_id (finish_batch now results) (lookup batch_id m.batches) m

  abbrev ran :
      ℕ
      → ℕ
      → (BatchRequest B → Answer B)
      → Option (List (BatchRequest B))
      → BatchManager B
      → BatchManager B
  ran now batch_id handler none m = m
  ran now batch_id handler (some requests) m = finish now batch_id (gather handler requests) m

  -- execute_batch with nothing in between.
  unfoldable pub execute_batch :
      ℕ → ℕ → (BatchRequest B → Answer B) → BatchManager B → BatchManager B
  unfolding begin finish gather
  execute_batch now batch_id handler m = ran now batch_id handler (begin batch_id m) m

  abbrev cancelled_one : ℕ → ℕ → Option (Batch B) → BatchManager B → Bool × BatchManager B
  cancelled_one now batch_id none m = (false, m)
  cancelled_one now batch_id (some batch) m = if is_final batch.status then (false, m) else (
    true,
    record m {
      batches =
          insert batch_id (record batch { status = cancelled; completed_at = some now }) m.batches;
    },
  )

  unfoldable pub cancel_batch : ℕ → ℕ → BatchManager B → Bool × BatchManager B
  cancel_batch now batch_id m = cancelled_one now batch_id (lookup batch_id m.batches) m
