-- ===== src/Gateway/Tasks/Loops.antt =====
-- The handlers of the work queue of src/swarph_cli/gateway/server.py and the parent chains of tasks.
use swarph_cli.Prelude.{
  ℕ, zero, suc, ◌<◌, String, Option, none, some, Bool, true, false, List, [], ◌∷◌, leb, ◌==◌,
  if◌then◌else◌, string_eq, nat_eq, option_eq, find, any, ◌≡◌, refl, ap, sym, ◌∙◌, subst, arith,
  update_where, Bool-cases, Option-cases, inl, inr, update_where-In,
}
use swarph_cli.Gateway.Db.{Db, Task, Message}
use swarph_cli.Gateway.Monad.{gets, raise_if, ◌>>=◌, ◌>>◌}
use swarph_cli.Gateway.Frames.{Preserves, preserves_rules}
use swarph_cli.Gateway.Config.{Config}
use swarph_cli.Gateway.Auth.{AuthContext, check_caller_binding}
use swarph_cli.Gateway.Auth.Binding.{check_caller_binding_frame}
use swarph_cli.Gateway.Tasks.{
  TaskCall, create, claim, complete, fail, unblock, serve, task_create, task_claim,
  check_task_owner, owner_binding, task_complete, task_fail, task_unblock, TaskCall, create, claim,
  complete, fail, unblock, serve,
}
use swarph_cli.Gateway.TaskQueue.{
  TaskCreateRequest, task_by_id, chain_depth, insert_violates, insert_task, peer_can_claim_tasks,
  claimed_row, completed_row, failed_row, unblocked_row, set_tasks, post_message, take_task,
  claim_next, update_in_progress,
}
use swarph_cli.Gateway.Tasks.Chains.{
  IsChained, HasChains, chain_depth-suc, chain_depth-missing, IsChained-append,
}

-- A change of rows that leaves ids and parents alone.
pub record KeepsLinks (f : Task → Task) : Type 0 where
  pub same_id : (t : Task) → (f t).id ≡ t.id
  pub same_parent : (t : Task) → (f t).parent_task_id ≡ t.parent_task_id

module _ (p : Task → Bool) (f : Task → Task) (k : KeepsLinks f) where
  edited : Task → Task
  edited t = if p t then f t else t

  edited_id : (t : Task) → (edited t).id ≡ t.id
  unfolding edited
  edited_id t = ground (arith, k.same_id t)

  edited_parent : (t : Task) → (edited t).parent_task_id ≡ t.parent_task_id
  unfolding edited
  edited_parent t = ground (arith, k.same_parent t)

  find-edited :
      (id : ℕ) (ts : List Task) (t : Task)
      → task_by_id id ts ≡ some t
      → task_by_id id (update_where p f ts) ≡ some (edited t)
  unfolding find update_where edited
  find-edited id [] t h = cc
  find-edited id (x ∷ ts) t h = ground (arith, edited_id x, find-edited id ts t)

  find-edited_none :
      (id : ℕ) (ts : List Task)
      → task_by_id id ts ≡ none
      → task_by_id id (update_where p f ts) ≡ none
  unfolding find update_where edited
  find-edited_none id [] h = refl
  find-edited_none id (x ∷ ts) h = ground (arith, edited_id x, find-edited_none id ts)

  any-edited :
      (id : ℕ) (ts : List Task)
      → any (λ u. u.id == id) (update_where p f ts) ≡ any (λ u. u.id == id) ts
  unfolding any update_where edited
  any-edited id [] = refl
  any-edited id (x ∷ ts) = ground (arith, edited_id x, any-edited id ts)

  chain_depth-edited :
      (limit : ℕ) (ts : List Task) (c : Option ℕ)
      → chain_depth limit (update_where p f ts) c ≡ chain_depth limit ts c
  chain_depth-edited zero ts c = unfold chain_depth in refl
  chain_depth-edited (suc limit) ts none = unfold chain_depth in refl
  chain_depth-edited (suc limit) ts (some id) = elim (Option-cases (task_by_id id ts)) [
    | inl e ↦
        chain_depth-missing (suc limit) id _ (find-edited_none id ts e)
        ∙ sym (chain_depth-missing (suc limit) id ts e)
    | inr (t, e) ↦ rw (chain_depth-suc limit id ts t e) (
        rw (chain_depth-suc limit id _ (edited t) (find-edited id ts t e))
          (rw (edited_parent t) (ap suc (chain_depth-edited limit ts t.parent_task_id))))
  ]

  pub IsChained-edited :
      (ts : List Task) (next : ℕ) → IsChained ts next → IsChained (update_where p f ts) next
  unfolding edited
  IsChained-edited ts next c = record {
    below =
        λ t m. let (s, n, e) = update_where-In p f ts t m in rw e (rw (edited_id s) (c.below s n));
    parents = λ t q m h.
        let (s, n, e) = update_where-In p f ts t m in
        any-edited q ts ∙ c.parents s q n (sym (edited_parent s) ∙ rw e at h);
    short = λ limit t m.
        let (s, n, e) = update_where-In p f ts t m in
        rw (chain_depth-edited limit ts (some t.id)) (rw e (rw (edited_id s) (c.short limit s n)));
  }

set_tasks-HasChains :
    (p : Task → Bool) (f : Task → Task)
    → KeepsLinks f
    → Preserves HasChains (set_tasks (update_where p f))
unfolding set_tasks
set_tasks-HasChains p f k = record { at = λ db c. IsChained-edited p f k db.tasks db.next_task c }

claimed_row-KeepsLinks : (now : ℕ) (worker : String) → KeepsLinks (claimed_row now worker)
unfolding claimed_row
claimed_row-KeepsLinks now worker = record { same_id = λ t. refl; same_parent = λ t. refl }

completed_row-KeepsLinks :
    (now : ℕ) (path : Option String) (cost : Option ℕ) → KeepsLinks (completed_row now path cost)
unfolding completed_row
completed_row-KeepsLinks now path cost = record { same_id = λ t. refl; same_parent = λ t. refl }

failed_row-KeepsLinks :
    (error : String) (retryable : Bool) → KeepsLinks (failed_row error retryable)
unfolding failed_row
failed_row-KeepsLinks error retryable = record { same_id = λ t. refl; same_parent = λ t. refl }

unblocked_row-KeepsLinks : KeepsLinks unblocked_row
unfolding unblocked_row
unblocked_row-KeepsLinks = record { same_id = λ t. refl; same_parent = λ t. refl }

ruleset chain_rules = (
  preserves_rules, set_tasks-HasChains, claimed_row-KeepsLinks, completed_row-KeepsLinks,
  failed_row-KeepsLinks, unblocked_row-KeepsLinks,
)

take_task-HasChains :
    (now : ℕ) (worker : String) (row : Option Task) → Preserves HasChains (take_task now worker row)
unfolding take_task
take_task-HasChains now worker none = search chain_rules
take_task-HasChains now worker (some t) = search chain_rules

claim_next-HasChains :
    (now : ℕ) (worker : String) (category : Option String)
    → Preserves HasChains (claim_next now worker category)
claim_next-HasChains now worker category =
    unfold claim_next in search (preserves_rules, take_task-HasChains)

update_in_progress-HasChains :
    (id : ℕ) (f : Task → Task) → KeepsLinks f → Preserves HasChains (update_in_progress id f)
unfolding update_in_progress
update_in_progress-HasChains id f k = search (preserves_rules, set_tasks-HasChains)

insert_parent :
    (req : TaskCreateRequest) (db : Db) (p : ℕ)
    → insert_violates req db ≡ false
    → req.parent_task_id ≡ some p
    → any (λ u. u.id == p) db.tasks ≡ true
unfolding insert_violates
insert_parent req db p h e = ground arith

insert_task-HasChains :
    (now : ℕ) (req : TaskCreateRequest) (db : Db)
    → HasChains db
    → chain_depth 10 db.tasks req.parent_task_id < 3
    → HasChains (insert_task now req db).1
unfolding insert_task
insert_task-HasChains now req db c d = elim (Bool-cases (insert_violates req db)) [
  | inl e ↦ rw e c
  | inr e ↦
      rw e (IsChained-append db.tasks db.next_task c _ (refl, λ p q. insert_parent req db p e q, d))
]

module _ (cfg : Config) (now : ℕ) (auth : AuthContext) where
  binding-HasChains :
      (actor site : String) (enforce : Bool)
      → Preserves HasChains (check_caller_binding cfg now auth actor site enforce)
  binding-HasChains actor site enforce = record {
    at = λ db c.
        subst HasChains (sym (check_caller_binding_frame cfg now auth actor site enforce db)) c;
  }

  owner_binding-HasChains :
      (row : Option Task) (site : String)
      → Preserves HasChains (owner_binding cfg now auth row site)
  unfolding owner_binding
  owner_binding-HasChains none site = search preserves_rules
  owner_binding-HasChains (some t) site = elim (Option-cases t.claimed_by) [
    | inl f ↦ rw f (record { at = λ db c. c })
    | inr (owner, f) ↦ rw f (binding-HasChains owner site true)
  ]

  check_task_owner-HasChains :
      (id : ℕ) (site : String) → Preserves HasChains (check_task_owner cfg now auth id site)
  unfolding check_task_owner
  check_task_owner-HasChains id site = search (preserves_rules, owner_binding-HasChains)

  can_claim-HasChains : (name : String) → Preserves HasChains (peer_can_claim_tasks name)
  unfolding peer_can_claim_tasks
  can_claim-HasChains name = record { at = λ db c. c }

  -- The walk of ten steps at most sees the whole chain, so its test bounds the new row's chain.
  depth_checked-HasChains :
      (req : TaskCreateRequest)
      → Preserves HasChains (
          gets (λ db. chain_depth 10 db.tasks req.parent_task_id) >>= λ depth.
          raise_if (leb 3 depth) 400 >> insert_task now req)
  depth_checked-HasChains req = record {
    at = λ db c. elim (Bool-cases (leb 3 (chain_depth 10 db.tasks req.parent_task_id))) [
      | inl e ↦ rw e c
      | inr e ↦ rw e (insert_task-HasChains now req db c (ground arith))
    ];
  }

  task_create-HasChains :
      (req : TaskCreateRequest) → Preserves HasChains (task_create cfg now auth req)
  unfolding task_create
  task_create-HasChains req =
      search (preserves_rules, binding-HasChains, depth_checked-HasChains) depth 9

  task_claim-HasChains :
      (worker : String) (category : Option String)
      → Preserves HasChains (task_claim cfg now auth worker category)
  unfolding task_claim
  task_claim-HasChains worker category =
      search (preserves_rules, binding-HasChains, can_claim-HasChains, claim_next-HasChains) depth 9

  task_complete-HasChains :
      (id : ℕ) (path : Option String) (cost : Option ℕ)
      → Preserves HasChains (task_complete cfg now auth id path cost)
  unfolding task_complete
  task_complete-HasChains id path cost =
      search (chain_rules, check_task_owner-HasChains, update_in_progress-HasChains) depth 9

  task_fail-HasChains :
      (id : ℕ) (error : String) (retryable : Bool)
      → Preserves HasChains (task_fail cfg now auth id error retryable)
  unfolding task_fail
  task_fail-HasChains id error retryable =
      search (chain_rules, check_task_owner-HasChains, update_in_progress-HasChains) depth 9

  post-HasChains : (m : Message) → Preserves HasChains (post_message m)
  unfolding post_message
  post-HasChains m = record { at = λ db c. c }

  task_unblock-HasChains :
      (id : ℕ) (evidence posted_by : String)
      → Preserves HasChains (task_unblock cfg now auth id evidence posted_by)
  unfolding task_unblock
  task_unblock-HasChains id evidence posted_by =
      search (chain_rules, binding-HasChains, post-HasChains) depth 12

  serve_keeps : (call : TaskCall) → Preserves HasChains (serve cfg now auth call)
  unfolding serve
  serve_keeps (create req) = search (chain_rules, task_create-HasChains)
  serve_keeps (claim worker category) = search (chain_rules, task_claim-HasChains)
  serve_keeps (complete id path cost) = task_complete-HasChains id path cost
  serve_keeps (fail id error retryable) = search (chain_rules, task_fail-HasChains)
  serve_keeps (unblock id evidence posted_by) = task_unblock-HasChains id evidence posted_by

  -- Every request to the queue keeps ids below the counter, parents in the table, and every chain of
  -- parents at three tasks or fewer however far it is walked, so no chain of parents is a loop.
  pub serve-HasChains :
      (call : TaskCall) (db : Db) → HasChains db → HasChains (serve cfg now auth call db).1
  serve-HasChains call db h = (serve_keeps call).at db h
