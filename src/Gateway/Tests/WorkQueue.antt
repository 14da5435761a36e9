-- ===== src/Gateway/Tests/WorkQueue.antt =====
-- The work queue of src/swarph_cli/gateway/server.py at concrete data.
use swarph_cli.Prelude.{
  none, some, true, false, ◌&&◌, List, [], ◌∷◌, ◌≡◌, refl, All, In, find, update_where, string_eq,
  nat_eq, option_eq,
}
use swarph_cli.Prelude.Times.{isoformat, text_leb}
use swarph_cli.Gateway.Tests.Callers.{bob-ada}
use swarph_cli.Gateway.Db.{Db, Task, in_progress}
use swarph_cli.Gateway.Monad.{ok, http}
use swarph_cli.Gateway.Fixtures.{test_config, test_task, empty_db, two_tasks}
use swarph_cli.Gateway.Auth.{per_peer_token}
use swarph_cli.Gateway.Tasks
use swarph_cli.Gateway.TaskQueue
use swarph_cli.Gateway.Tasks.{task_complete, task_fail}
use swarph_cli.Gateway.TaskQueue.{claimed_row, claim_next, is_claimable, comes_before}
use swarph_cli.Gateway.Tasks.Order.{claim_next-first}
use swarph_cli.Gateway.Tasks.Claims.{ClaimRequest, Distinct, claimed_ids, claimed_ids-Distinct}
use swarph_cli.Gateway.Tasks.Errors.{finish-not_owner}
use swarph_cli.Gateway.Tasks.Chains.{HasChains}
use swarph_cli.Gateway.Tasks.Loops.{serve-HasChains}

claim_run : claim_next 9 "bob" none two_tasks ≡ (
  ok (some (claimed_row 9 "bob" (test_task 2 5))),
  record two_tasks { tasks = test_task 1 3 ∷ claimed_row 9 "bob" (test_task 2 5) ∷ [] },
)
unfolding claim_next TaskQueue.next_claimable TaskQueue.set_tasks update_where
claim_run = refl

claim_next-first_example :
    (t : Task) × (claimed_row 9 "bob" (test_task 2 5) ≡ claimed_row 9 "bob" t)
    × In t two_tasks.tasks
    × (is_claimable 9 none t ≡ true)
    × All (λ u. (is_claimable 9 none u && comes_before u t) ≡ false) two_tasks.tasks
claim_next-first_example =
    claim_next-first 9 "bob" none two_tasks _ (claimed_row 9 "bob" (test_task 2 5)) claim_run

-- A gate that names no offset is passed by the texts' order.
runs_of_is_claimable :
    (is_claimable 0 none (record (test_task 1 3) { not_before = some "1970-01-01T00:00:00Z" })
      ≡ false)
    × (is_claimable 0 none (record (test_task 1 3) { not_before = some "1970-01-01T00:00:00" })
        ≡ true)
unfolding is_claimable isoformat text_leb
runs_of_is_claimable = (refl, refl)

abbrev two_claims : List ClaimRequest
two_claims =
    record { now = 9; worker = "bob"; category = none }
    ∷ record { now = 10; worker = "eve"; category = none }
    ∷ []

claimed_ids-Distinct_example : Distinct (claimed_ids two_claims two_tasks)
claimed_ids-Distinct_example = claimed_ids-Distinct two_claims two_tasks

abbrev held_task : Db
held_task = record empty_db {
  tasks = record (test_task 1 3) { status = in_progress; claimed_by = some "ada" } ∷ [];
  next_task = 2;
}

held_found :
    TaskQueue.task_by_id 1 held_task.tasks
    ≡ some (record (test_task 1 3) { status = in_progress; claimed_by = some "ada" })
unfolding find
held_found = refl

finish-not_owner_example :
    let done = task_complete test_config 9 (per_peer_token "bob" 1) 1 none none held_task in
    let failed = task_fail test_config 9 (per_peer_token "bob" 1) 1 "e" true held_task in
    (done.0 ≡ http 403)
    × (done.1.tasks ≡ held_task.tasks)
    × (failed.0 ≡ http 403)
    × (failed.1.tasks ≡ held_task.tasks)
finish-not_owner_example =
    finish-not_owner test_config 9 "bob" "ada" 1 1
      (record (test_task 1 3) { status = in_progress; claimed_by = some "ada" }) held_task none none
      "e" true refl held_found refl bob-ada

empty-HasChains : HasChains empty_db
empty-HasChains = record {
  below = λ t m. absurd m;
  parents = λ t p m. absurd m;
  short = λ limit t m. absurd m;
}

abbrev first_task : TaskQueue.TaskCreateRequest
first_task = record {
  task_id = "t1";
  category = "doc";
  spec_json = "{}";
  priority = 5;
  cost_cap_usd = none;
  not_before = none;
  added_by = "ada";
  parent_task_id = none;
  thread_id = none;
}

serve-HasChains_example :
    HasChains
      (Tasks.serve test_config 9 (per_peer_token "ada" 1) (Tasks.create first_task) empty_db).1
serve-HasChains_example =
    serve-HasChains test_config 9 (per_peer_token "ada" 1) (Tasks.create first_task) empty_db
      empty-HasChains
