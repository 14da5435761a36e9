-- ===== src/Delivery/Operations.antt =====
-- The operations of `DeliveryQueue` in src/swarph_cli/delivery_queue.py. `now` is `time.time()`.
use Prim.Native.String.{◌++◌ as join}
use swarph_cli.Prelude.{
  ℕ, ◌+◌, String, Option, none, some, Bool, not, ◌&&◌, List, [], ◌∷◌, ◌++◌, leb, ◌==◌,
  if◌then◌else◌, any, count, update_first, remove_first, string_eq, nat_eq,
}
use swarph_cli.Prelude.Text.{decimal}
use swarph_cli.Prelude.Python.{Value, Fields, nonempty_str}
use swarph_cli.Delivery.Entries.{
  Eligibility, cannot_evaluate, unassigned, claimed, capacity_refused, owed, not_evaluated,
  over_capacity, expired, eligibility_of, obligation_of, is_eligible, is_claimable, is_claimed, Job,
  Entry, DeliveryQueue, Result, done, refused, wake_for, entry_of,
}

-- `_persist`
abbrev pub persist : DeliveryQueue → DeliveryQueue
persist q = record q { file = q.live }

-- A change of the pending entries, persisted.
unfoldable pub set_pending : (List Entry → List Entry) → DeliveryQueue → DeliveryQueue
set_pending f q = persist (record q { live = record q.live { pending = f q.live.pending } })

-- A change of one entry in place.
unfoldable pub change : ℕ → (Entry → Entry) → DeliveryQueue → DeliveryQueue
unfolding set_pending
change dm_id f q = set_pending (update_first (λ e. e.id == dm_id) f) q

-- A drained message, as far as the queue reads it.
pub record Dm : Type 0 where
  pub id : ℕ
  pub from_node : Value
  pub kind : String
  pub thread_id : Value
  pub content : String

unfoldable pub new_entry : ℕ → Dm → Entry
unfolding wake_for
new_entry now dm = record {
  id = dm.id;
  from = dm.from_node;
  kind = dm.kind;
  thread_id = dm.thread_id;
  content = dm.content;
  wake = wake_for dm.kind dm.thread_id;
  queued_at = now;
  eligibility = cannot_evaluate;
  eligibility_reason = "awaiting policy evaluation";
  obligation_state = not_evaluated;
  service_state = unassigned;
  job = none;
  expiry_reason = none;
  capacity_refusal = none;
}

-- `enqueue`
unfoldable pub enqueue : ℕ → Dm → DeliveryQueue → DeliveryQueue
unfolding new_entry set_pending
enqueue now dm q =
    if any (λ e. e.id == dm.id) q.live.pending
    then q
    else set_pending (λ pending. pending ++ new_entry now dm ∷ []) q

-- `any_wake`
unfoldable pub any_wake : DeliveryQueue → Bool
any_wake q = any (λ (e : Entry). e.wake) q.live.pending

unfoldable pub evaluated : Eligibility → String → Entry → Entry
unfolding obligation_of
evaluated state reason e = record e {
  eligibility = state;
  eligibility_reason = reason;
  obligation_state = obligation_of state;
}

-- `record_eligibility`
unfoldable pub record_eligibility :
    ℕ → String → String → DeliveryQueue → Result (Unit {0}) × DeliveryQueue
record_eligibility dm_id state reason q =
    if reason == "" then (refused, q) else (elim (eligibility_of state) [
      | none ↦ (refused, q)
      | some s ↦ elim (entry_of dm_id q.live.pending) [
        | none ↦ (refused, q)
        | some e ↦ (done tt, change dm_id (evaluated s reason) q)
      ]
    ])

unfoldable pub expire : String → Entry → Entry
expire reason e = record e { obligation_state = expired; expiry_reason = some reason }

-- `record_expired`
unfoldable pub record_expired : ℕ → String → DeliveryQueue → Result (Unit {0}) × DeliveryQueue
record_expired dm_id reason q =
    if reason == "" then (refused, q) else (elim (entry_of dm_id q.live.pending) [
      | none ↦ (refused, q)
      | some e ↦
          if is_claimed e.service_state
          then (refused, q)
          else (done tt, change dm_id (expire reason) q)
    ])

-- `sum(entry.get("service_state") == "claimed" for entry in self._pending)`
unfoldable pub active : List Entry → ℕ
active pending = count (λ (e : Entry). is_claimed e.service_state) pending

unfoldable pub refuse_capacity : ℕ → ℕ → Entry → Entry
refuse_capacity in_service max_active e = record e {
  service_state = capacity_refused;
  obligation_state = over_capacity;
  capacity_refusal = some (in_service, max_active);
}

-- `int(prior.get("fencing_token", 0)) + 1`
unfoldable pub next_token : Option Job → ℕ
next_token none = 1
next_token (some j) = j.fencing_token + 1

unfoldable pub new_job : String → String → Entry → Job
unfolding next_token decimal
new_job source destination e = record {
  job_id = join "dm-" (decimal e.id);
  source_dm_id = e.id;
  source_peer = source;
  destination_peer = destination;
  fencing_token = next_token e.job;
}

unfoldable pub assign : Job → Entry → Entry
assign j e = record e {
  job = some j;
  service_state = claimed;
  obligation_state = owed;
  capacity_refusal = none;
}

-- The claim of an eligible entry that may be active already; `done none` is the capacity refusal.
unfoldable pub claim_entry :
    String → String → ℕ → Entry → DeliveryQueue → Result (Option Job) × DeliveryQueue
claim_entry source destination max_active e q =
    let in_service = active q.live.pending in
    let job = new_job source destination e in
    if is_claimed e.service_state
    then (elim e.job [
      | none ↦ (refused, q)
      | some j ↦ if j.destination_peer == destination then (done (some j), q) else (refused, q)
    ])
    else if leb max_active in_service
    then (done none, change e.id (refuse_capacity in_service max_active) q)
    else (done (some job), change e.id (assign job) q)

-- `claim_for_service`
unfoldable pub claim_for_service :
    ℕ → String → ℕ → DeliveryQueue → Result (Option Job) × DeliveryQueue
claim_for_service dm_id destination max_active q =
    if leb 1 max_active && not (destination == "")
    then (elim (entry_of dm_id q.live.pending) [
      | none ↦ (refused, q)
      | some e ↦ elim (nonempty_str e.from) [
        | none ↦ (refused, q)
        | some source ↦
            if is_eligible e.eligibility && is_claimable e.obligation_state
            then claim_entry source destination max_active e q
            else (refused, q)
      ]
    ])
    else (refused, q)

-- The receipt is recorded and the entry leaves the ledger.
unfoldable pub acknowledge : ℕ → Fields → DeliveryQueue → DeliveryQueue
acknowledge dm_id receipt q = persist (record q {
  live = record q.live {
    receipts = q.live.receipts ++ receipt ∷ [];
    pending = remove_first (λ e. e.id == dm_id) q.live.pending;
  };
})

-- `bump_deferred`
unfoldable pub bump_deferred : DeliveryQueue → DeliveryQueue
bump_deferred q =
    persist (record q { live = record q.live { deferred_ticks = q.live.deferred_ticks + 1 } })

-- `reset_deferred`
unfoldable pub reset_deferred : DeliveryQueue → DeliveryQueue
reset_deferred q =
    if q.live.deferred_ticks == 0
    then q
    else persist (record q { live = record q.live { deferred_ticks = 0 } })
