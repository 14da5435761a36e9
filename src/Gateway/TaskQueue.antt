-- ===== src/Gateway/TaskQueue.antt =====
-- The statements of the work queue `claude_tasks` of src/swarph_cli/gateway/server.py: its rows, the
-- choice of the next task, and the updates that the handlers of Tasks make.
use swarph_cli.Prelude.{
  ℕ, zero, suc, ◌+◌, String, Option, none, some, Bool, true, false, not, ◌&&◌, ◌||◌, List, [], ◌∷◌,
  ◌++◌, ltb, ◌==◌, if◌then◌else◌, string_eq, nat_eq, option_eq, find, any, where_rows, update_where,
}
use swarph_cli.Prelude.Python.{Value, dict, end, get_or_null, has_key}
use swarph_cli.Prelude.Times.{isoformat, text_leb}
use swarph_cli.Gateway.Db.{
  Db, Task, TaskStatus, pending, in_progress, done, failed, stale, cancelled, Peer, Message,
}
use swarph_cli.Gateway.Monad.{Result, Handler, ok, http, pure, gets, raise_if, modify, ◌>>=◌, ◌>>◌}
use swarph_cli.Gateway.Auth.{truthy}

-- `status = s` in SQL
abbrev pub has_status : TaskStatus → Task → Bool
has_status s t = elim s [
  | pending ↦ elim t.status [ pending ↦ true | _ ↦ false ]
  | in_progress ↦ elim t.status [ in_progress ↦ true | _ ↦ false ]
  | done ↦ elim t.status [ done ↦ true | _ ↦ false ]
  | failed ↦ elim t.status [ failed ↦ true | _ ↦ false ]
  | stale ↦ elim t.status [ stale ↦ true | _ ↦ false ]
  | cancelled ↦ elim t.status [ cancelled ↦ true | _ ↦ false ]
]

abbrev pub valid_categories : List String
valid_categories = "research" ∷ "audit" ∷ "survey" ∷ "doc" ∷ "debug" ∷ "commander_approved" ∷ []

pub record TaskCreateRequest : Type 0 where
  pub task_id : String
  pub category : String
  pub spec_json : String
  pub priority : ℕ
  pub cost_cap_usd : Option ℕ
  pub not_before : Option String
  pub added_by : String
  pub parent_task_id : Option ℕ
  pub thread_id : Option String

-- The row of a primary key.
abbrev pub task_by_id : ℕ → List Task → Option Task
task_by_id id tasks = find (λ t. t.id == id) tasks

-- `_chain_depth`: the walk to the root, `limit` steps at most (`max_depth` in the source).
unfoldable pub chain_depth : ℕ → List Task → Option ℕ → ℕ
chain_depth zero tasks current = 0
chain_depth (suc limit) tasks current = elim current [
  | none ↦ 0
  | some id ↦ elim (task_by_id id tasks) [
    | none ↦ 0
    | some t ↦ suc (chain_depth limit tasks t.parent_task_id)
  ]
]

-- Whether the row keeps the table's UNIQUE and FOREIGN KEY constraints.
unfoldable pub insert_violates : TaskCreateRequest → Db → Bool
insert_violates req db =
    any (λ t. t.task_id == req.task_id) db.tasks
    || (elim req.parent_task_id [ none ↦ false | some p ↦ not (any (λ t. t.id == p) db.tasks) ])
    || (elim req.thread_id [ none ↦ false | some u ↦ not (has_key db.thread_uuids u) ])

-- `_insert_task`, as `POST /tasks` calls it: an IntegrityError is a 409 there.
unfoldable pub insert_task : ℕ → TaskCreateRequest → Handler ℕ
insert_task now req = do
  clash ← gets (insert_violates req)
  raise_if clash 409
  id ← gets (λ db. db.next_task)
  modify λ db. record db {
    tasks =
        db.tasks
        ++ record {
          id = db.next_task;
          task_id = req.task_id;
          category = req.category;
          status = pending;
          priority = req.priority;
          cost_cap_usd = req.cost_cap_usd;
          not_before = req.not_before;
          added_by = req.added_by;
          added_at = now;
          claimed_by = none;
          claimed_at = none;
          completed_at = none;
          attempts = 0;
          last_error = none;
          spec_json = req.spec_json;
          output_path = none;
          cost_actual_usd = none;
          parent_task_id = req.parent_task_id;
          thread_id = req.thread_id;
        }
          ∷ [];
    next_task = db.next_task + 1;
  }
  pure id

-- The peer's advertised capabilities, `{}` where it is unknown or its column holds no JSON.
unfoldable pub peer_capabilities : String → List Peer → Value
unfolding find
peer_capabilities name peers = elim (find (λ p. p.name == name) peers) [
  | none ↦ dict end
  | some p ↦ elim p.capabilities [ none ↦ dict end | some v ↦ v ]
]

unfoldable pub peer_is_ratified : String → List Peer → Bool
unfolding find
peer_is_ratified name peers = elim (find (λ p. p.name == name) peers) [
  | none ↦ false
  | some p ↦ p.ratified
]

-- The verdict on a ratified peer from its capabilities: those that are JSON but no object have no
-- `get` (a 500).
unfoldable pub capability_verdict : Value → Result Bool
unfolding truthy get_or_null
capability_verdict caps = if not (truthy caps) then ok true else (elim caps [
  | dict d ↦ ok (elim (get_or_null "can_claim_tasks" d) [ Value.bool b ↦ b | _ ↦ true ])
  | _ ↦ http 500
])

-- `_peer_can_claim_tasks`
unfoldable pub peer_can_claim_tasks : String → Handler Bool
unfolding peer_capabilities peer_is_ratified
peer_can_claim_tasks name db = (
  if not (peer_is_ratified name db.peers)
      then ok false
      else capability_verdict (peer_capabilities name db.peers),
  db,
)

-- `WHERE status='pending' AND (not_before IS NULL OR not_before <= now) [AND category = ?]`.
-- `not_before` is the client's text, and SQLite compares it with the text of `now`. An empty category is
-- no filter.
unfoldable pub is_claimable : ℕ → Option String → Task → Bool
is_claimable now category t =
    has_status pending t
    && (elim t.not_before [ none ↦ true | some b ↦ text_leb b (isoformat now) ])
    && (elim category [ none ↦ true | some c ↦ c == "" || t.category == c ])

-- `ORDER BY priority DESC, added_at ASC`: whether `a` comes strictly before `b`.
unfoldable pub comes_before : Task → Task → Bool
comes_before a b =
    ltb b.priority a.priority || a.priority == b.priority && ltb a.added_at b.added_at

-- `… LIMIT 1`. Rows that tie are served in the order of the table.
unfoldable pub first_in_order : List Task → Option Task
unfolding comes_before
first_in_order [] = none
first_in_order (t ∷ rest) = elim (first_in_order rest) [
  | none ↦ some t
  | some u ↦ if comes_before u t then some u else some t
]

unfoldable pub next_claimable : ℕ → Option String → List Task → Option Task
unfolding is_claimable where_rows first_in_order
next_claimable now category tasks = first_in_order (where_rows (is_claimable now category) tasks)

-- The row that the claim leaves.
unfoldable pub claimed_row : ℕ → String → Task → Task
claimed_row now worker t = record t {
  status = in_progress;
  claimed_by = some worker;
  claimed_at = some now;
  attempts = t.attempts + 1;
}

-- The row that `task_complete` leaves.
unfoldable pub completed_row : ℕ → Option String → Option ℕ → Task → Task
completed_row now output_path cost t = record t {
  status = done;
  completed_at = some now;
  output_path = output_path;
  cost_actual_usd = cost;
}

-- `new_status` of `task_fail`
unfoldable pub failed_status : Bool → TaskStatus
failed_status retryable = if retryable then pending else failed

-- The row that `task_fail` leaves.
unfoldable pub failed_row : String → Bool → Task → Task
unfolding failed_status
failed_row error retryable t = record t {
  status = failed_status retryable;
  last_error = some error;
  claimed_by = none;
  claimed_at = none;
}

-- The row that `task_unblock` leaves.
unfoldable pub unblocked_row : Task → Task
unblocked_row t = record t { not_before = none; status = pending }

unfoldable pub set_tasks : (List Task → List Task) → Handler (Unit {0})
set_tasks f = modify λ db. record db { tasks = f db.tasks }

-- The UPDATE of the row that the SELECT of a claim found.
unfoldable pub take_task : ℕ → String → Option Task → Handler (Option Task)
take_task now worker none = pure none
take_task now worker (some t) =
    set_tasks (update_where (λ u. u.id == t.id) (claimed_row now worker))
    >> pure (some (claimed_row now worker t))

-- `INSERT INTO claude_messages`
unfoldable pub post_message : Message → Handler (Unit {0})
post_message m = modify λ db. record db { messages = db.messages ++ m ∷ [] }

-- The transaction of `task_claim`, under BEGIN IMMEDIATE.
unfoldable pub claim_next : ℕ → String → Option String → Handler (Option Task)
unfolding take_task
claim_next now worker category = do
  row ← gets (λ db. next_claimable now category db.tasks)
  take_task now worker row

-- `UPDATE … WHERE id=? AND status='in_progress'`, 404 where no row was changed.
unfoldable pub update_in_progress : ℕ → (Task → Task) → Handler (Unit {0})
unfolding set_tasks any update_where
update_in_progress id f = do
  found ← gets (λ db. any (λ t. t.id == id && has_status in_progress t) db.tasks)
  set_tasks (update_where (λ t. t.id == id && has_status in_progress t) f)
  raise_if (not found) 404
