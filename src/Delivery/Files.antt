-- ===== src/Delivery/Files.antt =====
-- The file of the ledger in src/swarph_cli/delivery_queue.py: `_persist`, `_load` and the migration of
-- entries. The file is held as the object that json.loads reads from it.
use Prim.Native.String.{◌++◌ as join}
use swarph_cli.Prelude.{ℕ, String, Option, none, some, List, [], map, string_eq, nat_eq}
use swarph_cli.Prelude.Text.{decimal}
use swarph_cli.Prelude.Python.{Value, Fields, null, bool, int, str, dict, end, field}
use swarph_cli.Delivery.Entries.{
  Eligibility, eligible, ineligible, cannot_evaluate, ServiceState, unassigned, claimed,
  capacity_refused, Obligation, owed, not_eligible, not_evaluated, over_capacity, expired, Job,
  job_dict, Entry, Ledger,
}

-- The value of a key of the file that is to be a list.
pub data Member : Type 0 where
  absent : Member
  not_a_list : Member
  items : List Value → Member

pub record FileObject : Type 0 where
  pub pending : Member
  pub receipts : Member
  pub deferred_ticks : Option Value

-- `unreadable` stands for an OSError, for bytes that are no JSON and for JSON that is no object.
pub data QueueFile : Type 0 where
  no_file : QueueFile
  unreadable : QueueFile
  object : FileObject → QueueFile

-- The attributes of a DeliveryQueue.
pub record Loaded : Type 0 where
  pub pending : List Fields
  pub receipts : List Fields
  pub deferred_ticks : Value

abbrev pub nothing_loaded : Loaded
nothing_loaded = record { pending = []; receipts = []; deferred_ticks = int 0 }

abbrev pub eligibility_text : Eligibility → String
eligibility_text eligible = "eligible"
eligibility_text ineligible = "ineligible"
eligibility_text cannot_evaluate = "cannot_evaluate"

abbrev pub service_text : ServiceState → String
service_text unassigned = "unassigned"
service_text claimed = "claimed"
service_text capacity_refused = "capacity_refused"

abbrev pub obligation_text : Obligation → String
obligation_text owed = "owed"
obligation_text not_eligible = "ineligible"
obligation_text not_evaluated = "cannot_evaluate"
obligation_text over_capacity = "capacity_refused"
obligation_text expired = "expired"

abbrev pub job_value : Option Job → Value
job_value none = null
job_value (some j) = dict (job_dict j)

-- The keys that an entry has only sometimes.
unfoldable pub capacity_field : Option (ℕ × ℕ) → Fields
capacity_field none = end
capacity_field (some (active, max_active)) =
    field "capacity_refusal"
      (str (
        join "service capacity exhausted: "
          (join (decimal active) (join "/" (join (decimal max_active) " active")))))
      end

unfoldable pub expiry_field : Option String → Fields → Fields
expiry_field none rest = rest
expiry_field (some reason) rest = field "expiry_reason" (str reason) rest

-- An entry as the dict that the code keeps.
unfoldable pub entry_dict : Entry → Fields
entry_dict e = field "id" (int e.id) (
    field "from" e.from (
      field "kind" (str e.kind) (
        field "thread_id" e.thread_id (
          field "content" (str e.content) (
            field "wake" (bool e.wake) (
              field "queued_at" (int e.queued_at) (
                field "eligibility" (str (eligibility_text e.eligibility)) (
                  field "eligibility_reason" (str e.eligibility_reason) (
                    field "obligation_state" (str (obligation_text e.obligation_state)) (
                      field "service_state" (str (service_text e.service_state)) (
                        field "job" (job_value e.job) (
                          field "source_read_state" (str "unread") (
                            expiry_field e.expiry_reason
                              (capacity_field e.capacity_refusal))))))))))))))

-- The queue's attributes.
unfoldable pub in_memory : Ledger → Loaded
in_memory l = record {
  pending = map entry_dict l.pending;
  receipts = l.receipts;
  deferred_ticks = int l.deferred_ticks;
}

-- `_persist`
unfoldable pub persisted : Loaded → QueueFile
persisted q = object (record {
  pending = items (map dict q.pending);
  receipts = items (map dict q.receipts);
  deferred_ticks = some q.deferred_ticks;
})
