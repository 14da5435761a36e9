-- ===== src/Gateway/Tasks/Errors.antt =====
-- What a refused task handler leaves behind, and who may finish a task.
use swarph_cli.Prelude.{
  ℕ, String, Option, none, some, Bool, true, false, ◌&&◌, List, [], ◌∷◌, ◌==◌, string_eq, nat_eq,
  option_eq, any, ◌≡◌, ◌≢◌, refl, ap, arith, update_where, Option-cases, inl, inr,
}
use swarph_cli.Gateway.Db.{Db, Task, in_progress, Message}
use swarph_cli.Gateway.Monad.{http, ◌>>◌}
use swarph_cli.Gateway.Frames.{Keeps, Atomic, Atomic-then, keeps_rules, atomic_rules}
use swarph_cli.Gateway.Config.{Config}
use swarph_cli.Gateway.Auth.{AuthContext, per_peer_token, check_caller_binding}
use swarph_cli.Gateway.Auth.Binding.{check_caller_binding_frame, check_caller_binding_refuses}
use swarph_cli.Gateway.Tasks.{
  task_create, task_claim, check_task_owner, owner_binding, task_complete, task_fail, task_unblock,
  TaskCall, create, claim, complete, fail, unblock, serve,
}
use swarph_cli.Gateway.TaskQueue.{
  has_status, TaskCreateRequest, task_by_id, insert_task, peer_can_claim_tasks, next_claimable,
  set_tasks, post_message, claim_next, update_in_progress,
}

abbrev pub tasks : Db → List Task
tasks db = db.tasks

update_none :
    {A : Type 0} (p : A → Bool) (f : A → A) (xs : List A)
    → any p xs ≡ false
    → update_where p f xs ≡ xs
unfolding any update_where
update_none p f [] h = refl
update_none p f (x ∷ xs) h = ground (arith, update_none p f xs)

-- A miss raises after an UPDATE that changed no row.
update_in_progress-Atomic : (id : ℕ) (f : Task → Task) → Atomic tasks (update_in_progress id f)
unfolding update_in_progress set_tasks
update_in_progress-Atomic id f = record {
  at = λ db. ground (arith, update_none (λ t. t.id == id && has_status in_progress t) f db.tasks);
}

claim_next-Atomic :
    (now : ℕ) (worker : String) (category : Option String)
    → Atomic tasks (claim_next now worker category)
unfolding claim_next set_tasks
claim_next-Atomic now worker category = record {
  at = λ db. elim (Option-cases (next_claimable now category db.tasks)) [
    | inl e ↦ ground arith
    | inr (t, e) ↦ ground arith
  ];
}

insert_task-Atomic : (now : ℕ) (req : TaskCreateRequest) → Atomic tasks (insert_task now req)
unfolding insert_task
insert_task-Atomic now req = search atomic_rules depth 12

can_claim-Keeps : (name : String) → Keeps tasks (peer_can_claim_tasks name)
unfolding peer_can_claim_tasks
can_claim-Keeps name = record { at = λ db. refl }

module _ (cfg : Config) (now : ℕ) (auth : AuthContext) where
  binding-Keeps :
      (actor site : String) (enforce : Bool)
      → Keeps tasks (check_caller_binding cfg now auth actor site enforce)
  binding-Keeps actor site enforce = record {
    at = λ db. ap tasks (check_caller_binding_frame cfg now auth actor site enforce db);
  }

  owner_of-Keeps :
      (row : Option Task) (site : String) → Keeps tasks (owner_binding cfg now auth row site)
  unfolding owner_binding
  owner_of-Keeps none site = record { at = λ db. refl }
  owner_of-Keeps (some t) site = elim (Option-cases t.claimed_by) [
    | inl f ↦ rw f (record { at = λ db. refl })
    | inr (owner, f) ↦ rw f (binding-Keeps owner site true)
  ]

  check_task_owner-Keeps :
      (id : ℕ) (site : String) → Keeps tasks (check_task_owner cfg now auth id site)
  unfolding check_task_owner
  check_task_owner-Keeps id site = search (keeps_rules, owner_of-Keeps)

  task_create-Atomic : (req : TaskCreateRequest) → Atomic tasks (task_create cfg now auth req)
  unfolding task_create
  task_create-Atomic req = search (atomic_rules, binding-Keeps, insert_task-Atomic) depth 9

  task_claim-Atomic :
      (worker : String) (category : Option String)
      → Atomic tasks (task_claim cfg now auth worker category)
  unfolding task_claim
  task_claim-Atomic worker category =
      search (atomic_rules, binding-Keeps, can_claim-Keeps, claim_next-Atomic) depth 9

  task_complete-Atomic :
      (id : ℕ) (path : Option String) (cost : Option ℕ)
      → Atomic tasks (task_complete cfg now auth id path cost)
  unfolding task_complete
  task_complete-Atomic id path cost =
      search (atomic_rules, check_task_owner-Keeps, update_in_progress-Atomic) depth 9

  task_fail-Atomic :
      (id : ℕ) (error : String) (retryable : Bool)
      → Atomic tasks (task_fail cfg now auth id error retryable)
  unfolding task_fail
  task_fail-Atomic id error retryable =
      search (atomic_rules, Atomic-then, check_task_owner-Keeps, update_in_progress-Atomic) depth 9

  unblock_writes-Atomic :
      (f : List Task → List Task) (m : Message) → Atomic tasks (set_tasks f >> post_message m)
  unfolding set_tasks post_message
  unblock_writes-Atomic f m = record { at = λ db. tt }

  task_unblock-Atomic :
      (id : ℕ) (evidence posted_by : String)
      → Atomic tasks (task_unblock cfg now auth id evidence posted_by)
  unfolding task_unblock
  task_unblock-Atomic id evidence posted_by =
      search (atomic_rules, binding-Keeps, unblock_writes-Atomic) depth 9

  -- Whatever the request, a handler of the queue that raises has left the table of tasks as it was.
  serve-Atomic : (call : TaskCall) → Atomic tasks (serve cfg now auth call)
  unfolding serve
  serve-Atomic (create req) = search (atomic_rules, Atomic-then, task_create-Atomic) depth 7
  serve-Atomic (claim worker category) =
      search (atomic_rules, Atomic-then, task_claim-Atomic) depth 7
  serve-Atomic (complete id path cost) = task_complete-Atomic id path cost
  serve-Atomic (fail id error retryable) =
      search (atomic_rules, Atomic-then, task_fail-Atomic) depth 7
  serve-Atomic (unblock id evidence posted_by) = task_unblock-Atomic id evidence posted_by

check_task_owner_refuses :
    (cfg : Config) (now : ℕ) (peer owner site : String) (gen id : ℕ) (t : Task) (db : Db)
    → cfg.caller_binding_enforce ≡ true
    → task_by_id id db.tasks ≡ some t
    → t.claimed_by ≡ some owner
    → peer ≢ owner
    → (check_task_owner cfg now (per_peer_token peer gen) id site db).0 ≡ http 403
unfolding check_task_owner
check_task_owner_refuses cfg now peer owner site gen id t db e f c ne =
    ground (arith, check_caller_binding_refuses cfg now peer gen owner site db ne e)

-- In enforcing mode only the worker that claimed a task can finish it: a caller bound to another
-- peer is refused with 403 by both handlers, and the table stays as it was.
pub finish-not_owner :
    (cfg : Config) (now : ℕ) (peer owner : String) (gen id : ℕ) (t : Task) (db : Db)
    (path : Option String) (cost : Option ℕ) (error : String) (retryable : Bool)
    → cfg.caller_binding_enforce ≡ true
    → task_by_id id db.tasks ≡ some t
    → t.claimed_by ≡ some owner
    → peer ≢ owner
    → let done = task_complete cfg now (per_peer_token peer gen) id path cost db in
      let failed = task_fail cfg now (per_peer_token peer gen) id error retryable db in
      (done.0 ≡ http 403)
      × (done.1.tasks ≡ db.tasks)
      × (failed.0 ≡ http 403)
      × (failed.1.tasks ≡ db.tasks)
unfolding task_complete task_fail
finish-not_owner cfg now peer owner gen id t db path cost error retryable e f c ne =
    let auth = per_peer_token peer gen in
    (
      ground (arith, refused "task_complete"),
      ground (
        arith,
        refused "task_complete",
        (check_task_owner-Keeps cfg now auth id "task_complete").at db,
      ),
      ground (arith, refused "task_fail"),
      ground
          (arith, refused "task_fail", (check_task_owner-Keeps cfg now auth id "task_fail").at db),
    )
  where
    refused :
        (site : String)
        → (check_task_owner cfg now (per_peer_token peer gen) id site db).0 ≡ http 403
    refused site = check_task_owner_refuses cfg now peer owner site gen id t db e f c ne
