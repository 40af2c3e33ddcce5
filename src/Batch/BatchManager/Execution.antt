-- ===== src/Batch/BatchManager/Execution.antt =====
-- What is counted and kept of a batch that was executed.
use routerbot.Base.{
  ℕ, ◌+◌, ◌≡◌, refl, sym, ap, ◌∙◌, arith, some, true, not, List, [], ◌∷◌, ◌++◌, map, if◌then◌else◌,
  eqb, length, keep, string_eq, Bool-cases, Option-cases, inl, inr, append-nil, append_assoc,
  lookup, insert_twice, lookup-insert_self,
}
use routerbot.Batch.JobQueue.{id_eq}
use routerbot.Batch.BatchManager.{
  completed, failed, cancelled, BatchRequest, BatchRequestResult, Batch, BatchManager, Answer,
  returned, raised, is_open, is_final, result_of, gather, has_error, count_results, finish_batch,
  finish, execute_batch, cancel_batch,
}

module _ {B : Type 0} where
  abbrev pub failures : List (BatchRequestResult B) → List (BatchRequestResult B)
  failures = keep has_error

  abbrev pub successes : List (BatchRequestResult B) → List (BatchRequestResult B)
  successes = keep (λ res. not (has_error res))

  -- The loop appends all results and the errors, and counts the two kinds.
  count_results_lem :
      (results : List (BatchRequestResult B)) (c f : ℕ) (batch : Batch B)
      → count_results results c f batch ≡ (
        record batch {
          results = batch.results ++ results;
          errors = batch.errors ++ map (λ res. res.error) (failures results);
        },
        c + length (successes results),
        f + length (failures results),
      )
  unfolding count_results
  count_results_lem [] c f batch = ground (arith, append-nil batch.results, append-nil batch.errors)
  count_results_lem (res ∷ rest) c f batch = elim (Bool-cases (has_error res)) [
    | inl t ↦ rw t (
        count_results_lem rest c (f + 1) _
        ∙ ground (
          arith,
          append_assoc batch.results (res ∷ []) rest,
          append_assoc batch.errors (res.error ∷ [])
              (map (λ (r : BatchRequestResult B). r.error) (failures rest)),
        ))
    | inr g ↦ rw g (
        count_results_lem rest (c + 1) f _
        ∙ ground (arith, append_assoc batch.results (res ∷ []) rest))
  ]

  length-kinds :
      (results : List (BatchRequestResult B))
      → length (successes results) + length (failures results) ≡ length results
  length-kinds [] = omega arith
  length-kinds (res ∷ rest) = ground (arith, length-kinds rest)

  length-gather :
      (handler : BatchRequest B → Answer B) (requests : List (BatchRequest B))
      → length (gather handler requests) ≡ length requests
  unfolding gather
  length-gather handler [] = refl
  length-gather handler (r ∷ rs) = omega (arith, length-gather handler rs)

  id-result : (r : BatchRequest B) (a : Answer B) → (result_of r a).custom_id ≡ r.custom_id
  id-result r (returned status_code body) = refl
  id-result r (raised exc) = refl

  ids-gather :
      (handler : BatchRequest B → Answer B) (requests : List (BatchRequest B))
      → map (λ r. r.custom_id) (gather handler requests) ≡ map (λ r. r.custom_id) requests
  unfolding gather
  ids-gather handler [] = refl
  ids-gather handler (r ∷ rs) = cc (id-result r (handler r), ids-gather handler rs)

  -- The results, errors, counts and status of a batch that is finished, in terms of the results.
  pub finish_batch_lem :
      (now : ℕ) (results : List (BatchRequestResult B)) (batch : Batch B)
      → finish_batch now results batch ≡ record batch {
        results = batch.results ++ results;
        errors = batch.errors ++ map (λ res. res.error) (failures results);
        completed_requests = length (successes results);
        failed_requests = length (failures results);
        completed_at = some now;
        status =
            (if eqb (length (failures results)) batch.total_requests then failed else completed);
      }
  unfolding finish_batch
  finish_batch_lem now results batch = rw (count_results_lem results 0 0 batch) (ground arith)

  -- The batch after its requests were handled: one result for each request, in their order; as many
  -- counted completed and failed as there are requests; and failed only if all of them are.
  pub record IsExecuted (handler : BatchRequest B → Answer B) (batch after : Batch B) : Type 0 where
    pub results : after.results ≡ batch.results ++ gather handler batch.input_requests
    pub names :
        map (λ r. r.custom_id) (gather handler batch.input_requests)
        ≡ map (λ r. r.custom_id) batch.input_requests
    pub counted : after.completed_requests + after.failed_requests ≡ after.total_requests
    pub failures : after.failed_requests ≡ length (failures (gather handler batch.input_requests))
    pub status :
        after.status
        ≡ (if eqb after.failed_requests after.total_requests then failed else completed)

  finish_batch-IsExecuted :
      (now : ℕ) (handler : BatchRequest B → Answer B) (batch : Batch B)
      → batch.total_requests ≡ length batch.input_requests
      → IsExecuted handler batch (finish_batch now (gather handler batch.input_requests) batch)
  finish_batch-IsExecuted now handler batch e =
      let rs = gather handler batch.input_requests in
      rw (finish_batch_lem now rs batch) (record {
        results = refl;
        names = ids-gather handler batch.input_requests;
        counted = omega (arith, length-kinds rs, length-gather handler batch.input_requests, e);
        failures = refl;
        status = refl;
      })

  -- Executing an open batch with nothing in between leaves it with one result for each of its
  -- requests, in their order and under their names, as many counted as completed and failed as there
  -- are requests, failed those whose exception has a text, and the status `failed` exactly if all
  -- did.
  pub execute_batch_lem :
      (now batch_id : ℕ) (handler : BatchRequest B → Answer B) (m : BatchManager B)
      (batch : Batch B)
      → lookup batch_id m.batches ≡ some batch
      → is_open batch.status ≡ true
      → batch.total_requests ≡ length batch.input_requests
      → (after : Batch B) × (lookup batch_id (execute_batch now batch_id handler m).batches
          ≡ some after)
        × IsExecuted handler batch after
  unfolding execute_batch
  execute_batch_lem now batch_id handler m batch there open' e = (
    finish_batch now (gather handler batch.input_requests) batch,
    rw (there, open') (rw there (lookup-insert_self batch_id _ m.batches)),
    finish_batch-IsExecuted now handler batch e,
  )

  overwritten :
      (now later : ℕ) (results : List (BatchRequestResult B)) (batch : Batch B)
      → finish_batch later results (record batch { status = cancelled; completed_at = some now })
        ≡ finish_batch later results batch
  overwritten now later results batch =
      finish_batch_lem later results (record batch { status = cancelled; completed_at = some now })
      ∙ sym (finish_batch_lem later results batch)

  -- Cancelling a batch while its requests are handled changes nothing of what becomes of it: when
  -- the results are there, the batch is as if it had not been cancelled.
  pub finish-cancel_batch :
      (now later batch_id : ℕ) (results : List (BatchRequestResult B)) (m : BatchManager B)
      → finish later batch_id results (cancel_batch now batch_id m).1
        ≡ finish later batch_id results m
  unfolding finish cancel_batch
  finish-cancel_batch now later batch_id results m =
      elim (Option-cases (lookup batch_id m.batches)) [
        | inl e ↦ rw e (rw e refl)
        | inr (batch, e) ↦ elim (Bool-cases (is_final batch.status)) [
          | inl f ↦ rw (e, f) (rw e refl)
          | inr t ↦
              let cut = record batch { status = cancelled; completed_at = some now } in
              rw (e, t)
                (rw (lookup-insert_self batch_id cut m.batches) (
                  rw (overwritten now later results batch) (
                    ap (λ d. record m { batches = d })
                      (insert_twice batch_id (finish_batch later results batch) cut m.batches))))
        ]
      ]
