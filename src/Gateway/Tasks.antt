-- ===== src/Gateway/Tasks.antt =====
-- The handlers of the work queue `claude_tasks` of src/swarph_cli/gateway/server.py: create, claim, complete,
-- fail and unblock. `now` is the handler's `_utcnow_iso()`, and `auth` what `_authorize` returned.
pub mod Order
pub mod Claims
pub mod Errors
pub mod Chains
pub mod Loops
use swarph_cli.Prelude.{
  ℕ, zero, suc, ◌+◌, String, Option, none, some, Bool, true, false, not, ◌&&◌, ◌||◌, List, [], ◌∷◌,
  ◌++◌, ltb, leb, ◌==◌, if◌then◌else◌, string_eq, nat_eq, option_eq, find, any, where_rows,
  update_where,
}
use swarph_cli.Prelude.Python.{Value, dict, end, get_or_null, has_key}
use swarph_cli.Gateway.Db.{
  Db, Task, TaskStatus, pending, in_progress, done, failed, stale, cancelled, Peer, Message,
}
use swarph_cli.Gateway.Monad.{
  Result, Handler, ok, http, pure, gets, or_raise, raise_if, modify, ◌>>=◌, ◌>>◌,
}
use swarph_cli.Gateway.Config.{Config}
use swarph_cli.Gateway.Auth.{AuthContext, truthy, check_caller_binding}
use swarph_cli.Gateway.TaskQueue.{
  has_status, valid_categories, TaskCreateRequest, task_by_id, chain_depth, insert_violates,
  insert_task, peer_capabilities, peer_is_ratified, capability_verdict, peer_can_claim_tasks,
  is_claimable, comes_before, first_in_order, next_claimable, claimed_row, completed_row,
  failed_status, failed_row, unblocked_row, set_tasks, take_task, post_message, claim_next,
  update_in_progress,
}

module _ (cfg : Config) where
  -- `POST /tasks`
  unfoldable pub task_create : ℕ → AuthContext → TaskCreateRequest → Handler ℕ
  task_create now auth req = do
    check_caller_binding cfg now auth req.added_by "task_create" true
    raise_if (not (has_key valid_categories req.category)) 400
    depth ← gets (λ db. chain_depth 10 db.tasks req.parent_task_id)
    raise_if (leb 3 depth) 400
    insert_task now req

  -- `POST /tasks/claim`
  unfoldable pub task_claim : ℕ → AuthContext → String → Option String → Handler (Option Task)
  task_claim now auth worker category = do
    check_caller_binding cfg now auth worker "task_claim" true
    allowed ← peer_can_claim_tasks worker
    raise_if (not allowed) 403
    claim_next now worker category

  unfoldable pub owner_binding : ℕ → AuthContext → Option Task → String → Handler (Unit {0})
  owner_binding now auth none site = pure tt
  owner_binding now auth (some t) site = elim t.claimed_by [
    | none ↦ pure tt
    | some owner ↦ check_caller_binding cfg now auth owner site true
  ]

  -- The ownership gate of complete and fail: the caller must be the worker that claimed the task.
  unfoldable pub check_task_owner : ℕ → AuthContext → ℕ → String → Handler (Unit {0})
  unfolding owner_binding
  check_task_owner now auth id site = do
    row ← gets (λ db. task_by_id id db.tasks)
    owner_binding now auth row site

  -- `POST /tasks/{task_pk}/complete`
  unfoldable pub task_complete : ℕ → AuthContext → ℕ → Option String → Option ℕ → Handler (Unit {0})
  task_complete now auth id output_path cost = do
    check_task_owner now auth id "task_complete"
    update_in_progress id (completed_row now output_path cost)

  -- `POST /tasks/{task_pk}/fail`
  unfoldable pub task_fail : ℕ → AuthContext → ℕ → String → Bool → Handler TaskStatus
  task_fail now auth id error retryable = do
    check_task_owner now auth id "task_fail"
    update_in_progress id (failed_row error retryable)
    pure (failed_status retryable)

  -- `POST /tasks/{task_pk}/unblock`
  unfoldable pub task_unblock : ℕ → AuthContext → ℕ → String → String → Handler (Unit {0})
  task_unblock now auth id evidence posted_by = do
    check_caller_binding cfg now auth posted_by "task_unblock" true
    row ← gets (λ db. task_by_id id db.tasks)
    t ← or_raise row 404
    raise_if (not (has_status pending t || has_status stale t)) 409
    set_tasks (update_where (λ u. u.id == id) unblocked_row)
    post_message (record {
      from_node = posted_by;
      to_node = t.added_by;
      kind = "unblock";
      content = evidence;
      related_task_id = some id;
      created_at = now;
    })

-- A request to the work queue, and the handler that it reaches; the reply's body is left out.
pub data TaskCall : Type 0 where
  create : TaskCreateRequest → TaskCall
  claim : String → Option String → TaskCall
  complete : ℕ → Option String → Option ℕ → TaskCall
  fail : ℕ → String → Bool → TaskCall
  unblock : ℕ → String → String → TaskCall

unfoldable pub serve : Config → ℕ → AuthContext → TaskCall → Handler (Unit {0})
serve cfg now auth (create req) = task_create cfg now auth req >>= λ _. pure tt
serve cfg now auth (claim worker category) =
    task_claim cfg now auth worker category >>= λ _. pure tt
serve cfg now auth (complete id path cost) = task_complete cfg now auth id path cost
serve cfg now auth (fail id error retryable) =
    task_fail cfg now auth id error retryable >>= λ _. pure tt
serve cfg now auth (unblock id evidence posted_by) = task_unblock cfg now auth id evidence posted_by
