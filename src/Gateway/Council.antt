-- ===== src/Gateway/Council.antt =====
-- The handlers of the council queue of src/swarph_cli/gateway/server.py: batch, claim, complete and fail.
-- `now` is the handler's `_utcnow_iso()`.
pub mod Valid
pub mod Rows
pub mod Settled
pub mod Limits
pub mod Guards
pub mod Order
mod Again
pub mod Reposted
use swarph_cli.Prelude.{
  ℕ, ◌+◌, ◌-◌, ◌*◌, String, Option, none, some, Bool, true, false, not, ◌&&◌, ◌||◌, List, [], ◌∷◌,
  ◌++◌, map, ltb, leb, ◌==◌, if◌then◌else◌, string_eq, nat_eq, option_eq, find, any, count, length,
  where_rows, update_where,
}
use Prim.Native.Nat.{◌%◌}
use swarph_cli.Prelude.Text.{strip}
use swarph_cli.Prelude.Python.{has_key}
use swarph_cli.Gateway.Db.{Db, CouncilJob, StoredPrompt, text, packed, JobStatus}
use swarph_cli.Gateway.Db.JobStatus.{pending, claimed, done, failed}
use swarph_cli.Gateway.Monad.{
  Result, Handler, ok, http, pure, raise, gets, or_raise, raise_if, when, modify, ◌>>=◌, ◌>>◌,
}
use swarph_cli.Gateway.Config.{Config}
use swarph_cli.Gateway.Auth.{AuthContext, check_caller_binding}
use swarph_cli.Gateway.CouncilJobs.{
  valid_council_roles, CouncilJobSpec, has_status, spec_refused, is_subscription, day_start,
  used_since, requested, stored_prompt, is_job, set_jobs, new_job, insert_or_ignore, BatchEntry,
  insert_one, insert_all, claimed_row, done_row, failed_row, retried_row, reclaimed_row,
  next_pending, take_job, claim_verdict, claimed_job, write_done, write_failed, is_stuck, has_id,
  council_reclaim_stuck, council_batch_get,
}

module _ (cfg : Config) where
  -- `if req.from_node: _check_caller_binding(...)`
  unfoldable pub check_enqueuer : ℕ → AuthContext → Option String → Handler (Unit {0})
  check_enqueuer now auth none = pure tt
  check_enqueuer now auth (some node) =
      when (not (node == "")) (check_caller_binding cfg now auth node "council_batch" true)

  -- `POST /council-batch`
  unfoldable pub council_batch_post :
      ℕ → AuthContext → Option String → String → List CouncilJobSpec → Handler (List BatchEntry)
  council_batch_post now auth from_node debate specs = do
    check_enqueuer now auth from_node
    raise_if (any spec_refused specs) 400
    used ← gets (λ db. used_since (day_start now) db.council_jobs)
    raise_if
        (ltb 0 (requested specs) && ltb cfg.subscription_chat_max_per_day (used + requested specs))
        429
    insert_all now debate specs

  -- `POST /council-claim`; `none` is the 204.
  unfoldable pub council_claim_post : ℕ → AuthContext → String → Handler (Option CouncilJob)
  council_claim_post now auth worker = do
    check_caller_binding cfg now auth worker "council_claim" false
    row ← gets (λ db. next_pending db.council_jobs)
    take_job now worker row

  -- `POST /council-complete`
  unfoldable pub council_complete_post : ℕ → AuthContext → ℕ → String → String → Handler (Unit {0})
  council_complete_post now auth id worker result = do
    check_caller_binding cfg now auth worker "council_complete" false
    claimed_job id worker
    write_done id now result

  -- `POST /council-fail`; the answer is the new status.
  unfoldable pub council_fail_post :
      ℕ → AuthContext → ℕ → String → String → Bool → Handler JobStatus
  council_fail_post now auth id worker error should_retry = do
    check_caller_binding cfg now auth worker "council_fail" false
    j ← claimed_job id worker
    write_failed id now error should_retry j

-- A request that changes the queue, and the handler that it reaches; the replies are left out.
pub data CouncilCall : Type 0 where
  batch : Option String → String → List CouncilJobSpec → CouncilCall
  claim : String → CouncilCall
  complete : ℕ → String → String → CouncilCall
  fail : ℕ → String → String → Bool → CouncilCall
  reclaim : ℕ → Bool → CouncilCall

unfoldable pub serve : Config → ℕ → AuthContext → CouncilCall → Handler (Unit {0})
serve cfg now auth (batch from_node debate specs) =
    council_batch_post cfg now auth from_node debate specs >>= λ _. pure tt
serve cfg now auth (claim worker) = council_claim_post cfg now auth worker >>= λ _. pure tt
serve cfg now auth (complete id worker result) = council_complete_post cfg now auth id worker result
serve cfg now auth (fail id worker error retry) =
    council_fail_post cfg now auth id worker error retry >>= λ _. pure tt
serve cfg now auth (reclaim older dry_run) =
    council_reclaim_stuck now older dry_run >>= λ _. pure tt
