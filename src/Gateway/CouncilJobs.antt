-- ===== src/Gateway/CouncilJobs.antt =====
-- The statements of the council queue of src/swarph_cli/gateway/server.py: its rows, the insertion of a
-- batch, the choice of a job, and the updates that the handlers of Council make.
use swarph_cli.Prelude.{
  ℕ, ◌+◌, ◌-◌, ◌*◌, String, Option, none, some, Bool, true, false, not, ◌&&◌, ◌||◌, List, [], ◌∷◌,
  ◌++◌, map, ltb, leb, ◌==◌, if◌then◌else◌, string_eq, nat_eq, option_eq, find, any, count, length,
  where_rows, update_where,
}
use Prim.Native.Nat.{◌%◌}
use swarph_cli.Prelude.Text.{strip}
use swarph_cli.Prelude.Python.{has_key}
use swarph_cli.Gateway.Db.{CouncilJob, StoredPrompt, text, packed, JobStatus}
use swarph_cli.Gateway.Db.JobStatus.{pending, claimed, done, failed}
use swarph_cli.Gateway.Monad.{
  Result, Handler, ok, http, pure, gets, raise_if, when, modify, ◌>>=◌, ◌>>◌,
}

abbrev pub valid_council_roles : List String
valid_council_roles =
    "r1_defender" ∷ "r2_defender_judge" ∷ "r1_challenger" ∷ "r2_challenger_judge" ∷ "r0_public_chat"
    ∷ "subscription_chat" ∷ "narrative_risk" ∷ "r1_grok_defender" ∷ []

pub record CouncilJobSpec : Type 0 where
  pub role : String
  pub prompt : String
  pub model : String
  pub purpose : Option String
  pub response_schema : Option String
  pub system_prompt : Option String

-- `status = s` in SQL
abbrev pub has_status : JobStatus → CouncilJob → Bool
has_status s j = elim s [
  | pending ↦ elim j.status [ pending ↦ true | _ ↦ false ]
  | claimed ↦ elim j.status [ claimed ↦ true | _ ↦ false ]
  | done ↦ elim j.status [ done ↦ true | _ ↦ false ]
  | failed ↦ elim j.status [ failed ↦ true | _ ↦ false ]
]

-- The two 400s of the batch, for one job.
unfoldable pub spec_refused : CouncilJobSpec → Bool
unfolding has_key strip
spec_refused j =
    not (has_key valid_council_roles j.role)
    || j.role == "subscription_chat" && (elim j.purpose [ none ↦ true | some p ↦ strip p == "" ])

abbrev pub is_subscription : String → Bool
is_subscription role = role == "subscription_chat"

-- Midnight of the day of `now`, as `now[:10] + "T00:00:00"` names it.
unfoldable pub day_start : ℕ → ℕ
day_start now = now - now % (24 * 60 * 60 * 1000000)

-- `SELECT COUNT(*) … WHERE role='subscription_chat' AND created_at >= ?`
unfoldable pub used_since : ℕ → List CouncilJob → ℕ
used_since start jobs = count (λ j. is_subscription j.role && leb start j.created_at) jobs

unfoldable pub requested : List CouncilJobSpec → ℕ
requested specs = count (λ s. is_subscription s.role) specs

unfoldable pub stored_prompt : CouncilJobSpec → StoredPrompt
stored_prompt s =
    if is_subscription s.role
    then packed s.prompt s.system_prompt s.response_schema s.purpose
    else text s.prompt

abbrev pub is_job : String → String → CouncilJob → Bool
is_job debate role j = j.debate_id == debate && j.role == role

unfoldable pub set_jobs : (List CouncilJob → List CouncilJob) → Handler (Unit {0})
set_jobs f = modify λ db. record db { council_jobs = f db.council_jobs }

unfoldable pub new_job : ℕ → String → CouncilJobSpec → ℕ → CouncilJob
unfolding stored_prompt
new_job now debate s id = record {
  id = id;
  debate_id = debate;
  role = s.role;
  prompt = stored_prompt s;
  model = s.model;
  status = pending;
  claimed_by = none;
  attempts = 0;
  max_attempts = 2;
  created_at = now;
  claimed_at = none;
  completed_at = none;
  result_json = none;
  error = none;
}

-- `INSERT OR IGNORE`, under UNIQUE(debate_id, role); the answer is `created`.
unfoldable pub insert_or_ignore : ℕ → String → CouncilJobSpec → Handler Bool
insert_or_ignore now debate s db =
    if any (is_job debate s.role) db.council_jobs then (ok false, db) else (
      ok true,
      record db {
        council_jobs = db.council_jobs ++ new_job now debate s db.next_job ∷ [];
        next_job = db.next_job + 1;
      },
    )

-- One entry of the reply's `jobs`.
pub record BatchEntry : Type 0 where
  pub role : String
  pub row : Option CouncilJob
  pub created : Bool

-- The body of the loop over the jobs.
unfoldable pub insert_one : ℕ → String → CouncilJobSpec → Handler BatchEntry
insert_one now debate s = do
  created ← insert_or_ignore now debate s
  row ← gets (λ db. find (is_job debate s.role) db.council_jobs)
  pure (record { role = s.role; row = row; created = created })

unfoldable pub insert_all : ℕ → String → List CouncilJobSpec → Handler (List BatchEntry)
insert_all now debate [] = pure []
insert_all now debate (s ∷ rest) = do
  entry ← insert_one now debate s
  entries ← insert_all now debate rest
  pure (entry ∷ entries)

-- The row that a claim leaves.
unfoldable pub claimed_row : ℕ → String → CouncilJob → CouncilJob
claimed_row now worker j = record j {
  status = claimed;
  claimed_by = some worker;
  claimed_at = some now;
  attempts = j.attempts + 1;
}

unfoldable pub done_row : ℕ → String → CouncilJob → CouncilJob
done_row now result j = record j {
  status = done;
  completed_at = some now;
  result_json = some result;
}

unfoldable pub failed_row : ℕ → String → CouncilJob → CouncilJob
failed_row now error j = record j { status = failed; completed_at = some now; error = some error }

unfoldable pub retried_row : String → CouncilJob → CouncilJob
retried_row error j = record j { status = pending; error = some error }

unfoldable pub reclaimed_row : CouncilJob → CouncilJob
reclaimed_row j = record j { status = pending }

-- `… WHERE status='pending' ORDER BY id ASC LIMIT 1`: ids rise along the table.
unfoldable pub next_pending : List CouncilJob → Option CouncilJob
next_pending jobs = find (has_status pending) jobs

unfoldable pub take_job : ℕ → String → Option CouncilJob → Handler (Option CouncilJob)
take_job now worker none = pure none
take_job now worker (some j) =
    set_jobs (update_where (λ k. k.id == j.id) (claimed_row now worker)) >> pure (some j)

-- The guards of complete and fail: 404, 409 and 403, in this order.
unfoldable pub claim_verdict : Option CouncilJob → String → Result CouncilJob
claim_verdict none worker = http 404
claim_verdict (some j) worker =
    if not (has_status claimed j)
    then http 409
    else if not (j.claimed_by == some worker)
    then http 403
    else ok j

unfoldable pub claimed_job : ℕ → String → Handler CouncilJob
claimed_job id worker db = (claim_verdict (find (λ j. j.id == id) db.council_jobs) worker, db)

-- The UPDATE of complete.
unfoldable pub write_done : ℕ → ℕ → String → Handler (Unit {0})
write_done id now result = set_jobs (update_where (λ j. j.id == id) (done_row now result))

-- The UPDATE of fail, and the new status.
unfoldable pub write_failed : ℕ → ℕ → String → Bool → CouncilJob → Handler JobStatus
write_failed id now error should_retry j =
    let retry = should_retry && ltb j.attempts j.max_attempts in
    set_jobs
      (update_where (λ j. j.id == id) (if retry then retried_row error else failed_row now error))
    >> pure (if retry then pending else failed)

-- A claim is stuck when it was made before the cutoff.
unfoldable pub is_stuck : ℕ → CouncilJob → Bool
is_stuck cutoff j =
    has_status claimed j && (elim j.claimed_at [ none ↦ false | some t ↦ ltb t cutoff ])

unfoldable pub has_id : List ℕ → ℕ → Bool
has_id ids id = any (λ i. i == id) ids

-- `POST /council-reclaim-stuck`; the answer is `reclaimed`.
unfoldable pub council_reclaim_stuck : ℕ → ℕ → Bool → Handler (List ℕ)
council_reclaim_stuck now older_than_min dry_run = do
  stuck ← gets (λ db. where_rows (is_stuck (now - older_than_min * 60000000)) db.council_jobs)
  let ids = map (λ (j : CouncilJob). j.id) stuck
  when (not dry_run) (set_jobs (update_where (λ j. has_id ids j.id) reclaimed_row))
  pure ids

-- `GET /council-batch/{debate_id}`: the rows, `all_done` and `any_failed`.
unfoldable pub council_batch_get : String → Handler (List CouncilJob × Bool × Bool)
council_batch_get debate = do
  rows ← gets (λ db. where_rows (λ j. j.debate_id == debate) db.council_jobs)
  raise_if (length rows == 0) 404
  pure (rows, not (any (λ j. not (has_status done j)) rows), any (has_status failed) rows)
