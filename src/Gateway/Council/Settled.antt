-- ===== src/Gateway/Council/Settled.antt =====
-- Done and failed jobs of the council queue in src/swarph_cli/gateway/server.py, under later requests.
use swarph_cli.Prelude.{
  ℕ, ◌-◌, ◌*◌, String, Option, none, some, Bool, true, false, ◌&&◌, List, [], ◌∷◌, map, ltb, ◌==◌,
  if◌then◌else◌, string_eq, nat_eq, option_eq, find, any, where_rows, update_where, In, ◌≡◌, ◌≢◌,
  ap, sym, subst, ◌∙◌, arith, ◌⊎◌, inl, inr, Bool-cases, Option-cases, eq_iff, find-In,
  where_rows-In,
}
use swarph_cli.Gateway.Db.{Db, CouncilJob}
use swarph_cli.Gateway.Db.JobStatus.{pending, claimed, done, failed}
use swarph_cli.Gateway.Monad.{Handler, gets, ◌>>=◌}
use swarph_cli.Gateway.Frames.{Preserves, preserves_rules, Preserves-bind, Preserves-map_two}
use swarph_cli.Gateway.Config.{Config}
use swarph_cli.Gateway.Auth.{AuthContext, check_caller_binding}
use swarph_cli.Gateway.Auth.Binding.{check_caller_binding_frame}
use swarph_cli.Gateway.Council.{
  check_enqueuer, council_batch_post, council_claim_post, council_complete_post, council_fail_post,
  CouncilCall, batch, claim, complete, fail, reclaim, serve,
}
use swarph_cli.Gateway.CouncilJobs.{
  CouncilJobSpec, has_status, is_job, set_jobs, insert_or_ignore, insert_one, insert_all,
  claimed_row, done_row, failed_row, write_done, write_failed, retried_row, reclaimed_row,
  next_pending, take_job, claimed_job, is_stuck, has_id, council_reclaim_stuck,
}
use swarph_cli.Gateway.Council.Valid.{
  IsMove, set_jobs-HasQueue, claimed_row-IsMove, done_row-IsMove, fail_row-IsMove,
  reclaimed_row-IsMove, HasQueue, insert-HasQueue,
}
use swarph_cli.Gateway.Council.Rows.{Rising-unique, In-other, has_id-In, claimed_job_then, In-left}

-- Done or failed.
abbrev pub IsSettled : CouncilJob → Type 0
IsSettled j = (j.status ≡ done) ⊎ (j.status ≡ failed)

-- The settled row `t` stands in a queue that is in order.
pub record HasSettled (t : CouncilJob) (db : Db) : Type 0 where
  pub queue : HasQueue db
  pub row : In t db.council_jobs
  pub settled : IsSettled t

not_claimed : (t : CouncilJob) → IsSettled t → t.status ≢ claimed
not_claimed t (inl e) q = cc
not_claimed t (inr e) q = cc

not_pending : (t : CouncilJob) → IsSettled t → t.status ≢ pending
not_pending t (inl e) q = cc
not_pending t (inr e) q = cc

module _ (t : CouncilJob) where
  -- An UPDATE of other rows.
  set_jobs-HasSettled :
      (p : CouncilJob → Bool) (f : CouncilJob → CouncilJob)
      → IsMove f
      → (db : Db) → HasSettled t db
      → p t ≡ false
      → HasSettled t (set_jobs (update_where p f) db).1
  set_jobs-HasSettled p f k db h e = record {
    queue = (set_jobs-HasQueue p f k).at db h.queue;
    row = unfold set_jobs in In-other p f db.council_jobs t h.row e;
    settled = h.settled;
  }

  -- Rows of another status have other ids.
  other_id :
      (j : CouncilJob) (db : Db)
      → HasSettled t db
      → In j db.council_jobs
      → t.status ≢ j.status
      → (t.id == j.id) ≡ false
  other_id j db h m ne = elim (Bool-cases (t.id == j.id)) [
    | inl e ↦
        let same = Rising-unique db.council_jobs t j h.queue.rising h.row m (ground arith) in
        absurd (ne (ap (λ (k : CouncilJob). k.status) same))
    | inr e ↦ e
  ]

  take_job-HasSettled :
      (now : ℕ) (worker : String)
      → Preserves (HasSettled t) (gets (λ db. next_pending db.council_jobs) >>= take_job now worker)
  unfolding take_job next_pending set_jobs
  take_job-HasSettled now worker = record {
    at = λ db h. elim (Option-cases (find (has_status pending) db.council_jobs)) [
      | inl e ↦ rw e h
      | inr (j, e) ↦
          let (m, q) = find-In (has_status pending) db.council_jobs j e in
          rw e (
            set_jobs-HasSettled (λ k. k.id == j.id) (claimed_row now worker)
              (claimed_row-IsMove now worker) db h
              (other_id j db h m (λ s. not_pending t h.settled (ground arith))))
    ];
  }

  -- What complete and fail write goes to a claimed row, which has another id.
  finish-HasSettled :
      {A : Type 0} (id : ℕ) (worker : String) (next : CouncilJob → Handler A)
      → ((j : CouncilJob) (db : Db)
          → HasSettled t db
          → (t.id == id) ≡ false
          → HasSettled t (next j db).1)
      → Preserves (HasSettled t) (claimed_job id worker >>= next)
  finish-HasSettled id worker next k = record {
    at = λ db h. claimed_job_then (HasSettled t) id worker next db h λ j e s w.
        let (m, q) = find-In (λ k. k.id == id) db.council_jobs j e in
        k j db h (
          let o = other_id j db h m (λ r. not_claimed t h.settled (r ∙ s)) in
          ground (arith, eq_iff j.id id));
  }

  stuck_claimed : (now : ℕ) (j : CouncilJob) → is_stuck now j ≡ true → j.status ≡ claimed
  unfolding is_stuck
  stuck_claimed now j h = ground arith

  stuck_other :
      (now : ℕ) (db : Db)
      → HasSettled t db
      → has_id (map (λ (j : CouncilJob). j.id) (where_rows (is_stuck now) db.council_jobs)) t.id
        ≡ false
  stuck_other now db h =
      elim (Bool-cases (
        has_id (map (λ (j : CouncilJob). j.id) (where_rows (is_stuck now) db.council_jobs)) t.id)) [
          | inl e ↦
              let (j, m, q) = has_id-In (where_rows (is_stuck now) db.council_jobs) t.id e in
              let (n, s) = where_rows-In (is_stuck now) db.council_jobs j m in
              let same = Rising-unique db.council_jobs j t h.queue.rising n h.row q in
              absurd (
                not_claimed t h.settled
                  (ap (λ (k : CouncilJob). k.status) (sym same) ∙ stuck_claimed now j s))
          | inr e ↦ e
        ]

  reclaim-HasSettled :
      (now older : ℕ) (dry_run : Bool)
      → Preserves (HasSettled t) (council_reclaim_stuck now older dry_run)
  unfolding council_reclaim_stuck set_jobs
  reclaim-HasSettled now older true = record { at = λ db h. h }
  reclaim-HasSettled now older false = record {
    at = λ db h.
        set_jobs-HasSettled _ reclaimed_row reclaimed_row-IsMove db h
          (stuck_other (now - older * 60000000) db h);
  }

  insert-HasSettled :
      (now : ℕ) (debate : String) (s : CouncilJobSpec)
      → Preserves (HasSettled t) (insert_or_ignore now debate s)
  unfolding insert_or_ignore
  insert-HasSettled now debate s = record {
    at = λ db h. record {
      queue = (insert-HasQueue now debate s).at db h.queue;
      row = elim (Bool-cases (any (is_job debate s.role) db.council_jobs)) [
        | inl e ↦ rw e h.row
        | inr e ↦ rw e (In-left db.council_jobs _ t h.row)
      ];
      settled = h.settled;
    };
  }

  insert_one-HasSettled :
      (now : ℕ) (debate : String) (s : CouncilJobSpec)
      → Preserves (HasSettled t) (insert_one now debate s)
  unfolding insert_one
  insert_one-HasSettled now debate s = search (preserves_rules, insert-HasSettled) depth 9

  insert_all-HasSettled :
      (now : ℕ) (debate : String) (specs : List CouncilJobSpec)
      → Preserves (HasSettled t) (insert_all now debate specs)
  unfolding insert_all
  insert_all-HasSettled now debate [] = search preserves_rules
  insert_all-HasSettled now debate (s ∷ rest) =
      Preserves-map_two (insert_one now debate s) (insert_all now debate rest) ◌∷◌
        (insert_one-HasSettled now debate s) (insert_all-HasSettled now debate rest)

  module _ (cfg : Config) (now : ℕ) (auth : AuthContext) where
    binding-HasSettled :
        (actor site : String) (enforce : Bool)
        → Preserves (HasSettled t) (check_caller_binding cfg now auth actor site enforce)
    binding-HasSettled actor site enforce = record {
      at = λ db q.
          subst (HasSettled t) (sym (check_caller_binding_frame cfg now auth actor site enforce db))
            (record { queue = q.queue; row = q.row; settled = q.settled });
    }

    enqueuer-HasSettled :
        (from_node : Option String)
        → Preserves (HasSettled t) (check_enqueuer cfg now auth from_node)
    unfolding check_enqueuer
    enqueuer-HasSettled none = search preserves_rules
    enqueuer-HasSettled (some node) = search (preserves_rules, binding-HasSettled)

    complete-HasSettled :
        (id : ℕ) (worker result : String)
        → Preserves (HasSettled t) (claimed_job id worker >>= λ _. write_done id now result)
    unfolding write_done
    complete-HasSettled id worker result =
        finish-HasSettled id worker (λ _. write_done id now result)
          λ j.
            set_jobs-HasSettled (λ k. k.id == id) (done_row now result) (done_row-IsMove now result)

    fail-HasSettled :
        (id : ℕ) (worker error : String) (should_retry : Bool)
        → Preserves
            (HasSettled t)
            (claimed_job id worker >>= write_failed id now error should_retry)
    unfolding write_failed set_jobs
    fail-HasSettled id worker error should_retry =
        finish-HasSettled id worker (write_failed id now error should_retry) λ j.
          let retry = should_retry && ltb j.attempts j.max_attempts in
          set_jobs-HasSettled (λ k. k.id == id)
            (if retry then retried_row error else failed_row now error)
            (fail_row-IsMove retry now error)

    claim-HasSettled :
        (worker : String) → Preserves (HasSettled t) (council_claim_post cfg now auth worker)
    unfolding council_claim_post
    claim-HasSettled worker =
        Preserves-bind (check_caller_binding cfg now auth worker "council_claim" false)
          (λ _. gets (λ db. next_pending db.council_jobs) >>= take_job now worker)
          (binding-HasSettled worker "council_claim" false) (λ _. take_job-HasSettled now worker)

    serve_keeps : (call : CouncilCall) → Preserves (HasSettled t) (serve cfg now auth call)
    unfolding serve council_batch_post council_complete_post council_fail_post write_done
        write_failed
    serve_keeps (batch from_node debate specs) =
        search (preserves_rules, enqueuer-HasSettled, insert_all-HasSettled) depth 9
    serve_keeps (claim worker) = search (preserves_rules, claim-HasSettled)
    serve_keeps (complete id worker result) =
        search (preserves_rules, binding-HasSettled, complete-HasSettled) depth 9
    serve_keeps (fail id worker error retry) =
        search (preserves_rules, binding-HasSettled, fail-HasSettled) depth 9
    serve_keeps (reclaim older dry_run) = search (preserves_rules, reclaim-HasSettled)

    -- A council job that is done or failed stays in the table as it is, whatever request comes later:
    -- no claim, no retry, no recovery of stuck jobs and no new batch changes or removes it.
    pub serve-HasSettled :
        (call : CouncilCall) (db : Db)
        → HasSettled t db
        → HasSettled t (serve cfg now auth call db).1
    serve-HasSettled call db h = (serve_keeps call).at db h
