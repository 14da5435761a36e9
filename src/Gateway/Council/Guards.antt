-- ===== src/Gateway/Council/Guards.antt =====
-- Errors of the council queue in src/swarph_cli/gateway/server.py, and who may finish a job.
use swarph_cli.Prelude.{
  ℕ, String, Option, none, some, Bool, true, false, List, [], ◌∷◌, ◌==◌, string_eq, nat_eq,
  option_eq, find, any, update_where, ◌≡◌, refl, ap, sym, ◌∙◌, inl, inr, Bool-cases,
}
use swarph_cli.Gateway.Db.{Db, CouncilJob}
use swarph_cli.Gateway.Db.JobStatus.{claimed}
use swarph_cli.Gateway.Monad.{Result, Handler, ok, http, pure, gets, ◌>>=◌}
use swarph_cli.Gateway.Frames.{
  Keeps, keeps_rules, Atomic, atomic_rules, Atomic-then, Total, Total-pure,
}
use swarph_cli.Gateway.Config.{Config}
use swarph_cli.Gateway.Auth.{AuthContext, check_caller_binding}
use swarph_cli.Gateway.Auth.Binding.{check_caller_binding_frame}
use swarph_cli.Gateway.Council.Rows.{claim_verdict-ok}
use swarph_cli.Gateway.Council.{
  check_enqueuer, council_batch_post, council_claim_post, council_complete_post, council_fail_post,
  CouncilCall, batch, claim, complete, fail, reclaim, serve,
}
use swarph_cli.Gateway.CouncilJobs.{
  CouncilJobSpec, is_job, set_jobs, insert_or_ignore, insert_one, insert_all, done_row, write_done,
  write_failed, take_job, claimed_job, council_reclaim_stuck,
}

abbrev pub council_jobs : Db → List CouncilJob
council_jobs db = db.council_jobs

take_job-Atomic :
    (now : ℕ) (worker : String) (row : Option CouncilJob)
    → Atomic council_jobs (take_job now worker row)
unfolding take_job set_jobs
take_job-Atomic now worker none = search atomic_rules
take_job-Atomic now worker (some j) = record { at = λ db. tt }

claimed_job-Keeps : (id : ℕ) (worker : String) → Keeps council_jobs (claimed_job id worker)
unfolding claimed_job
claimed_job-Keeps id worker = record { at = λ db. refl }

write_done-Total : (id now : ℕ) (result : String) → Total (write_done id now result)
unfolding write_done set_jobs
write_done-Total id now result = record { at = λ db. (tt, refl) }

write_failed-Total :
    (id now : ℕ) (error : String) (retry : Bool) (j : CouncilJob)
    → Total (write_failed id now error retry j)
unfolding write_failed set_jobs
write_failed-Total id now error retry j = record { at = λ db. (_, refl) }

Total-rest :
    {A B : Type 0} (run : Result A × Db) (f : A → Handler B)
    → ((a : A) × (run.0 ≡ ok a))
    → ((a : A) → Total (f a))
    → (b : B) × ((((λ _. run) >>= f) run.1).0 ≡ ok b)
Total-rest (ok a, db) f h t = (t a).at db
Total-rest (http code, db) f (a, h) t = cc

Total-bind :
    {A B : Type 0} (m : Handler A) (f : A → Handler B)
    → Total m
    → ((a : A) → Total (f a))
    → Total (m >>= f)
Total-bind m f h t = record { at = λ db. Total-rest (m db) f (h.at db) t }

insert-Total :
    (now : ℕ) (debate : String) (s : CouncilJobSpec) → Total (insert_or_ignore now debate s)
unfolding insert_or_ignore
insert-Total now debate s = record {
  at = λ db. elim (Bool-cases (any (is_job debate s.role) db.council_jobs)) [
    | inl e ↦ rw e (false, refl)
    | inr e ↦ rw e (true, refl)
  ];
}

pub insert_one-Total :
    (now : ℕ) (debate : String) (s : CouncilJobSpec) → Total (insert_one now debate s)
unfolding insert_one
insert_one-Total now debate s =
    Total-bind (insert_or_ignore now debate s)
      (λ created. gets (λ db. find (is_job debate s.role) db.council_jobs) >>= λ row.
        pure (record { role = s.role; row = row; created = created }))
      (insert-Total now debate s) (λ created. record { at = λ db. (_, refl) })

insert_all-Total :
    (now : ℕ) (debate : String) (specs : List CouncilJobSpec) → Total (insert_all now debate specs)
unfolding insert_all
insert_all-Total now debate [] = Total-pure []
insert_all-Total now debate (s ∷ rest) =
    Total-bind (insert_one now debate s)
      (λ entry. insert_all now debate rest >>= λ entries. pure (entry ∷ entries))
      (insert_one-Total now debate s)
      (λ entry.
        Total-bind (insert_all now debate rest) (λ entries. pure (entry ∷ entries))
          (insert_all-Total now debate rest) (λ entries. Total-pure (entry ∷ entries)))

reclaim-Total : (now older : ℕ) (dry_run : Bool) → Total (council_reclaim_stuck now older dry_run)
unfolding council_reclaim_stuck set_jobs
reclaim-Total now older true = record { at = λ db. (_, refl) }
reclaim-Total now older false = record { at = λ db. (_, refl) }

ok_rest :
    {A B : Type 0} (run : Result A × Db) (f : A → Handler B) (b : B)
    → (((λ _. run) >>= f) run.1).0 ≡ ok b
    → (a : A) × (run.0 ≡ ok a) × (((λ _. run) >>= f) run.1 ≡ f a run.1)
ok_rest (ok a, db) f b h = (a, refl, refl)
ok_rest (http code, db) f b h = cc

pub bind_ok :
    {A B : Type 0} (m : Handler A) (f : A → Handler B) (db : Db) (b : B)
    → ((m >>= f) db).0 ≡ ok b
    → (a : A) × ((m db).0 ≡ ok a) × ((m >>= f) db ≡ f a (m db).1)
bind_ok m f db b h = ok_rest (m db) f b h

-- A run that returned went through the guards of the job.
claimed_job-ok :
    {A : Type 0} (id : ℕ) (worker : String) (f : CouncilJob → Handler A) (db : Db) (a : A)
    → ((claimed_job id worker >>= f) db).0 ≡ ok a
    → (j : CouncilJob) × (find (λ k. k.id == id) db.council_jobs ≡ some j)
      × (j.status ≡ claimed)
      × (j.claimed_by ≡ some worker)
      × ((claimed_job id worker >>= f) db ≡ f j db)
unfolding claimed_job
claimed_job-ok id worker f db a h =
    let (j, e, run) = bind_ok (claimed_job id worker) f db a h in
    let (q, s, w) = claim_verdict-ok _ worker j e in (j, q, s, w, run)

module _ (cfg : Config) (now : ℕ) (auth : AuthContext) where
  pub binding-Keeps :
      (actor site : String) (enforce : Bool)
      → Keeps council_jobs (check_caller_binding cfg now auth actor site enforce)
  binding-Keeps actor site enforce = record {
    at = λ db. ap council_jobs (check_caller_binding_frame cfg now auth actor site enforce db);
  }

  enqueuer-Keeps :
      (from_node : Option String) → Keeps council_jobs (check_enqueuer cfg now auth from_node)
  unfolding check_enqueuer
  enqueuer-Keeps none = search keeps_rules
  enqueuer-Keeps (some node) = search (keeps_rules, binding-Keeps)

  -- Whatever the request, a handler of the council queue that raises has left the table of jobs as it
  -- was.
  council-Atomic : (call : CouncilCall) → Atomic council_jobs (serve cfg now auth call)
  unfolding serve council_batch_post council_claim_post council_complete_post council_fail_post
  council-Atomic (batch from_node debate specs) =
      search (atomic_rules, Atomic-then, enqueuer-Keeps, insert_all-Total) depth 12
  council-Atomic (claim worker) =
      search (atomic_rules, Atomic-then, binding-Keeps, take_job-Atomic) depth 12
  council-Atomic (complete id worker result) =
      search (atomic_rules, binding-Keeps, claimed_job-Keeps, write_done-Total) depth 12
  council-Atomic (fail id worker error retry) =
      search (atomic_rules, Atomic-then, binding-Keeps, claimed_job-Keeps, write_failed-Total) depth
        12
  council-Atomic (reclaim older dry_run) =
      search (atomic_rules, Atomic-then, reclaim-Total) depth 12

  -- A result is recorded only for a job that the worker named in the request holds: if the handler
  -- returns, the job with that id was claimed by that worker, and the table afterwards is the old
  -- one with this job done.
  pub council_complete_post-owner :
      (id : ℕ) (worker result : String) (db : Db)
      → (council_complete_post cfg now auth id worker result db).0 ≡ ok tt
      → (j : CouncilJob) × (find (λ k. k.id == id) db.council_jobs ≡ some j)
        × (j.status ≡ claimed)
        × (j.claimed_by ≡ some worker)
        × ((council_complete_post cfg now auth id worker result db).1.council_jobs
            ≡ update_where (λ k. k.id == id) (done_row now result) db.council_jobs)
  unfolding council_complete_post write_done set_jobs
  council_complete_post-owner id worker result db h =
      let check = check_caller_binding cfg now auth worker "council_complete" false in
      let rest : Unit {0} → Handler (Unit {0}) =
        λ _. claimed_job id worker >>= λ _. write_done id now result in
      let (a, passed, run) = bind_ok check rest db tt h in
      let same = (binding-Keeps worker "council_complete" false).at db in
      let (j, found, s, w, run2) =
        claimed_job-ok id worker (λ _. write_done id now result) (check db).1 tt
          (ap (λ r. r.0) (sym run) ∙ h) in
      (
        j,
        ap (find (λ (k : CouncilJob). k.id == id)) (sym same) ∙ found,
        s,
        w,
        ap (λ r. r.1.council_jobs) (run ∙ run2)
            ∙ ap (update_where (λ k. k.id == id) (done_row now result)) same,
      )
