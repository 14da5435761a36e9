-- ===== src/Gateway/Council/Valid.antt =====
-- Rows and ids of the council queue in src/swarph_cli/gateway/server.py.
use swarph_cli.Prelude.{
  ℕ, ◌+◌, ◌<◌, ◌≤◌, String, Option, none, some, Bool, true, false, List, [], ◌∷◌, ◌++◌,
  if◌then◌else◌, string_eq, nat_eq, option_eq, any, update_where, All, ◌≡◌, refl, sym, subst, arith,
  inl, inr, Bool-cases,
}
use swarph_cli.Gateway.Db.{Db, CouncilJob, JobStatus}
use swarph_cli.Gateway.Db.JobStatus.{pending, claimed, done, failed}
use swarph_cli.Gateway.Frames.{Preserves, preserves_rules, Preserves-map_two}
use swarph_cli.Gateway.Config.{Config}
use swarph_cli.Gateway.Auth.{AuthContext, check_caller_binding}
use swarph_cli.Gateway.Auth.Binding.{check_caller_binding_frame}
use swarph_cli.Gateway.Council.{
  check_enqueuer, council_batch_post, council_claim_post, council_complete_post, council_fail_post,
  CouncilCall, batch, claim, complete, fail, reclaim, serve,
}
use swarph_cli.Gateway.CouncilJobs.{
  CouncilJobSpec, is_job, set_jobs, new_job, insert_or_ignore, insert_one, insert_all, claimed_row,
  done_row, failed_row, write_done, write_failed, retried_row, reclaimed_row, take_job, claimed_job,
  council_reclaim_stuck,
}

-- What a row holds in each status.
abbrev pub StatusOk : JobStatus → CouncilJob → Type 0
StatusOk pending j = Unit
StatusOk claimed j =
    ((w : String) × (j.claimed_by ≡ some w))
    × ((t : ℕ) × (j.claimed_at ≡ some t))
    × (1 ≤ j.attempts)
StatusOk done j = ((t : ℕ) × (j.completed_at ≡ some t)) × ((r : String) × (j.result_json ≡ some r))
StatusOk failed j = ((t : ℕ) × (j.completed_at ≡ some t)) × ((e : String) × (j.error ≡ some e))

abbrev pub RowOk : CouncilJob → Type 0
RowOk j = StatusOk j.status j

abbrev pub Rising : List CouncilJob → Type 0
Rising [] = Unit
Rising (j ∷ js) = All (λ k. j.id < k.id) js × Rising js

-- Ids rise along the table and stay below the counter, and each row holds what its status says.
pub record IsQueue (jobs : List CouncilJob) (next : ℕ) : Type 0 where
  pub rising : Rising jobs
  pub below : All (λ j. j.id < next) jobs
  pub rows : All RowOk jobs

abbrev pub HasQueue : Db → Type 0
HasQueue db = IsQueue db.council_jobs db.next_job

-- A change of a row that keeps its id and leaves the row in order.
pub record IsMove (f : CouncilJob → CouncilJob) : Type 0 where
  pub same_id : (j : CouncilJob) → (f j).id ≡ j.id
  pub row_ok : (j : CouncilJob) → RowOk (f j)

module _ (p : CouncilJob → Bool) (f : CouncilJob → CouncilJob) (k : IsMove f) where
  All-moved :
      (P : ℕ → Type 0) (jobs : List CouncilJob)
      → All (λ j. P j.id) jobs
      → All (λ j. P j.id) (update_where p f jobs)
  unfolding update_where
  All-moved P [] h = tt
  All-moved P (j ∷ js) h = elim (Bool-cases (p j)) [
    | inl e ↦ rw e (rw (k.same_id j) h.0, All-moved P js h.1)
    | inr e ↦ rw e (h.0, All-moved P js h.1)
  ]

  Rising-moved : (jobs : List CouncilJob) → Rising jobs → Rising (update_where p f jobs)
  unfolding update_where
  Rising-moved [] h = tt
  Rising-moved (j ∷ js) h = elim (Bool-cases (p j)) [
    | inl e ↦ rw (e, k.same_id j) (All-moved (λ i. j.id < i) js h.0, Rising-moved js h.1)
    | inr e ↦ rw e (All-moved (λ i. j.id < i) js h.0, Rising-moved js h.1)
  ]

  RowOk-moved : (jobs : List CouncilJob) → All RowOk jobs → All RowOk (update_where p f jobs)
  unfolding update_where
  RowOk-moved [] h = tt
  RowOk-moved (j ∷ js) h = elim (Bool-cases (p j)) [
    | inl e ↦ rw e (k.row_ok j, RowOk-moved js h.1)
    | inr e ↦ rw e (h.0, RowOk-moved js h.1)
  ]

  pub set_jobs-HasQueue : Preserves HasQueue (set_jobs (update_where p f))
  unfolding set_jobs
  set_jobs-HasQueue = record {
    at = λ db q. record {
      rising = Rising-moved db.council_jobs q.rising;
      below = All-moved (λ i. i < db.next_job) db.council_jobs q.below;
      rows = RowOk-moved db.council_jobs q.rows;
    };
  }

pub claimed_row-IsMove : (now : ℕ) (worker : String) → IsMove (claimed_row now worker)
unfolding claimed_row
claimed_row-IsMove now worker = record {
  same_id = λ j. refl;
  row_ok = λ j. ((worker, refl), (now, refl), omega arith);
}

pub done_row-IsMove : (now : ℕ) (result : String) → IsMove (done_row now result)
unfolding done_row
done_row-IsMove now result = record {
  same_id = λ j. refl;
  row_ok = λ j. ((now, refl), (result, refl));
}

-- `council_fail`, retried or not
pub fail_row-IsMove :
    (retry : Bool) (now : ℕ) (e : String)
    → IsMove (if retry then retried_row e else failed_row now e)
unfolding retried_row failed_row
fail_row-IsMove true now e = record { same_id = λ j. refl; row_ok = λ j. tt }
fail_row-IsMove false now e = record { same_id = λ j. refl; row_ok = λ j. ((now, refl), (e, refl)) }

pub reclaimed_row-IsMove : IsMove reclaimed_row
unfolding reclaimed_row
reclaimed_row-IsMove = record { same_id = λ j. refl; row_ok = λ j. tt }

ruleset queue_rules = (
  preserves_rules, set_jobs-HasQueue, claimed_row-IsMove, done_row-IsMove, fail_row-IsMove,
  reclaimed_row-IsMove,
)

take_job-HasQueue :
    (now : ℕ) (worker : String) (row : Option CouncilJob)
    → Preserves HasQueue (take_job now worker row)
unfolding take_job
take_job-HasQueue now worker none = search queue_rules
take_job-HasQueue now worker (some j) = search queue_rules

claimed_job-HasQueue : (id : ℕ) (worker : String) → Preserves HasQueue (claimed_job id worker)
unfolding claimed_job
claimed_job-HasQueue id worker = record { at = λ db q. q }

reclaim-HasQueue :
    (now older : ℕ) (dry_run : Bool) → Preserves HasQueue (council_reclaim_stuck now older dry_run)
unfolding council_reclaim_stuck
reclaim-HasQueue now older dry_run = search queue_rules depth 9

write_done-HasQueue : (id now : ℕ) (result : String) → Preserves HasQueue (write_done id now result)
unfolding write_done
write_done-HasQueue id now result = search queue_rules

write_failed-HasQueue :
    (id now : ℕ) (error : String) (retry : Bool) (j : CouncilJob)
    → Preserves HasQueue (write_failed id now error retry j)
unfolding write_failed
write_failed-HasQueue id now error retry j = search queue_rules

All-append :
    {A : Type 0} (P : A → Type 0) (xs : List A) (y : A) → All P xs → P y → All P (xs ++ y ∷ [])
All-append P [] y h q = (q, tt)
All-append P (x ∷ xs) y h q = (h.0, All-append P xs y h.1 q)

Rising-append :
    (jobs : List CouncilJob) (new : CouncilJob)
    → Rising jobs
    → All (λ j. j.id < new.id) jobs
    → Rising (jobs ++ new ∷ [])
Rising-append [] new h b = (tt, tt)
Rising-append (j ∷ js) new h b =
    (All-append (λ k. j.id < k.id) js new h.0 b.0, Rising-append js new h.1 b.1)

below_next :
    (jobs : List CouncilJob) (next : ℕ)
    → All (λ j. j.id < next) jobs
    → All (λ j. j.id < next + 1) jobs
below_next [] next h = tt
below_next (j ∷ js) next h = (omega (arith, h.0), below_next js next h.1)

pub insert-HasQueue :
    (now : ℕ) (debate : String) (s : CouncilJobSpec)
    → Preserves HasQueue (insert_or_ignore now debate s)
unfolding insert_or_ignore new_job
insert-HasQueue now debate s = record {
  at = λ db q. elim (Bool-cases (any (is_job debate s.role) db.council_jobs)) [
    | inl e ↦ rw e q
    | inr e ↦ rw e (record {
      rising = Rising-append db.council_jobs _ q.rising q.below;
      below =
          All-append (λ (j : CouncilJob). j.id < db.next_job + 1) db.council_jobs _
            (below_next db.council_jobs db.next_job q.below) (omega arith);
      rows = All-append RowOk db.council_jobs _ q.rows tt;
    })
  ];
}

insert_one-HasQueue :
    (now : ℕ) (debate : String) (s : CouncilJobSpec) → Preserves HasQueue (insert_one now debate s)
unfolding insert_one
insert_one-HasQueue now debate s = search (preserves_rules, insert-HasQueue) depth 9

insert_all-HasQueue :
    (now : ℕ) (debate : String) (specs : List CouncilJobSpec)
    → Preserves HasQueue (insert_all now debate specs)
unfolding insert_all
insert_all-HasQueue now debate [] = search preserves_rules
insert_all-HasQueue now debate (s ∷ rest) =
    Preserves-map_two (insert_one now debate s) (insert_all now debate rest) ◌∷◌
      (insert_one-HasQueue now debate s) (insert_all-HasQueue now debate rest)

module _ (cfg : Config) (now : ℕ) (auth : AuthContext) where
  pub binding-HasQueue :
      (actor site : String) (enforce : Bool)
      → Preserves HasQueue (check_caller_binding cfg now auth actor site enforce)
  binding-HasQueue actor site enforce = record {
    at = λ db q.
        subst HasQueue (sym (check_caller_binding_frame cfg now auth actor site enforce db)) q;
  }

  enqueuer-HasQueue :
      (from_node : Option String) → Preserves HasQueue (check_enqueuer cfg now auth from_node)
  unfolding check_enqueuer
  enqueuer-HasQueue none = search preserves_rules
  enqueuer-HasQueue (some node) = search (preserves_rules, binding-HasQueue)

  serve_keeps : (call : CouncilCall) → Preserves HasQueue (serve cfg now auth call)
  unfolding serve council_batch_post council_claim_post council_complete_post council_fail_post
  serve_keeps (batch from_node debate specs) =
      search (preserves_rules, enqueuer-HasQueue, insert_all-HasQueue) depth 9
  serve_keeps (claim worker) = search (preserves_rules, binding-HasQueue, take_job-HasQueue) depth 9
  serve_keeps (complete id worker result) =
      search (preserves_rules, binding-HasQueue, claimed_job-HasQueue, write_done-HasQueue) depth 9
  serve_keeps (fail id worker error retry) =
      search (preserves_rules, binding-HasQueue, claimed_job-HasQueue, write_failed-HasQueue) depth
        9
  serve_keeps (reclaim older dry_run) = search (preserves_rules, reclaim-HasQueue)

  -- Every request to the council queue keeps ids rising and below the counter, and every row with
  -- what its status says: a claim with its worker, its time and an attempt, a result with its time, a
  -- failure with its error.
  pub serve-HasQueue :
      (call : CouncilCall) (db : Db) → HasQueue db → HasQueue (serve cfg now auth call db).1
  serve-HasQueue call db h = (serve_keeps call).at db h
