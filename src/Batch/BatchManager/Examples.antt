-- ===== src/Batch/BatchManager/Examples.antt =====
-- The theorems on batches, at one of two requests of which one times out.
use routerbot.Base.{
  ℕ, ◌<◌, ◌≤◌, ◌≡◌, ◌⊎◌, refl, String, none, some, true, length, List, [], ◌∷◌, map, lookup, insert,
  at_key, ◌&&◌, eqb, string_eq,
}
use routerbot.Batch.JobQueue.{id_eq}
use routerbot.Batch.BatchManager.{
  BatchRequest, Batch, BatchManager, BatchValidationError, created, refused, Answer, returned,
  raised, new_batch, create_batch, gather, finish, execute_batch, cancel_batch,
}
use routerbot.Batch.BatchManager.Creation.{Nodup, create_batch_lem}
use routerbot.Batch.BatchManager.Execution.{IsExecuted, execute_batch_lem, finish-cancel_batch}

abbrev ask : String → BatchRequest ℕ
ask id = record { custom_id = id; method = "POST"; url = "/v1/chat/completions"; body = 0 }

abbrev both : List (BatchRequest ℕ)
both = ask "a" ∷ ask "b" ∷ []

abbrev manager : BatchManager ℕ
manager = record { max_batch_size = 10; batches = (1, new_batch 5 1 both none) ∷ [] }

-- An exception without a text, such as TimeoutError().
abbrev silent : BatchRequest ℕ → Answer ℕ
silent r = raised ""

-- Its requests are counted as completed.
silent_failures :
    at_key
      (λ b. eqb b.completed_requests 2 && eqb b.failed_requests 0)
      (lookup 1 (execute_batch 9 1 silent manager).batches)
    ≡ true
unfolding execute_batch lookup insert
silent_failures = refl

create_batch_lem_example :
    ((create_batch 7 2 both none manager ≡ (
      created (new_batch 7 2 both none),
      record manager { batches = insert 2 (new_batch 7 2 both none) manager.batches },
    ))
      × (0 < length both)
      × (length both ≤ 10)
      × Nodup (map (λ (r : BatchRequest ℕ). r.custom_id) both))
    ⊎ ((error : BatchValidationError) × (create_batch 7 2 both none manager
          ≡ (refused error, manager))
        × ¬ (
            (0 < length both)
            × (length both ≤ 10)
            × Nodup (map (λ (r : BatchRequest ℕ). r.custom_id) both)))
create_batch_lem_example = create_batch_lem 7 2 both none manager

found-one : lookup 1 manager.batches ≡ some (new_batch 5 1 both none)
unfolding lookup
found-one = refl

execute_batch_lem_example :
    (after : Batch ℕ) × (lookup 1 (execute_batch 9 1 (λ r. returned 200 7) manager).batches
      ≡ some after)
    × IsExecuted (λ r. returned 200 7) (new_batch 5 1 both none) after
execute_batch_lem_example =
    execute_batch_lem 9 1 (λ r. returned 200 7) manager (new_batch 5 1 both none) found-one refl
      refl

finish-cancel_batch_example :
    finish 9 1 (gather (λ r. returned 200 7) both) (cancel_batch 8 1 manager).1
    ≡ finish 9 1 (gather (λ r. returned 200 7) both) manager
finish-cancel_batch_example = finish-cancel_batch 8 9 1 (gather (λ r. returned 200 7) both) manager
