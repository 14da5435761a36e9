-- ===== src/Delivery/Entries.antt =====
-- The data of src/swarph_cli/delivery_queue.py: an owed message, the job that claims it, the ledger
-- in memory and on disk.
use Prim.Native.String.{◌++◌ as join}
use swarph_cli.Prelude.{
  ℕ, String, Option, none, some, Bool, true, false, ◌&&◌, List, ◌==◌, if◌then◌else◌, find,
  string_eq, nat_eq, ◌≡◌, refl, ◌⊎◌, inl, inr,
}
use swarph_cli.Prelude.Python.{Value, Fields, null, int, str, dict, end, field}

pub data Eligibility : Type 0 where
  eligible : Eligibility
  ineligible : Eligibility
  cannot_evaluate : Eligibility

pub data ServiceState : Type 0 where
  unassigned : ServiceState
  claimed : ServiceState
  capacity_refused : ServiceState

-- The states of an obligation: `not_eligible`, `not_evaluated` and `over_capacity` are spelled
-- "ineligible", "cannot_evaluate" and "capacity_refused" in the file.
pub data Obligation : Type 0 where
  owed : Obligation
  not_eligible : Obligation
  not_evaluated : Obligation
  over_capacity : Obligation
  expired : Obligation

-- `state in _ELIGIBILITY`
abbrev pub eligibility_of : String → Option Eligibility
eligibility_of s =
    if s == "eligible"
    then some eligible
    else if s == "ineligible"
    then some ineligible
    else if s == "cannot_evaluate"
    then some cannot_evaluate
    else none

-- `"owed" if state == "eligible" else state`
unfoldable pub obligation_of : Eligibility → Obligation
obligation_of eligible = owed
obligation_of ineligible = not_eligible
obligation_of cannot_evaluate = not_evaluated

abbrev pub is_eligible : Eligibility → Bool
is_eligible eligible = true
is_eligible _ = false

-- `in {"owed", "capacity_refused"}`
abbrev pub is_claimable : Obligation → Bool
is_claimable owed = true
is_claimable over_capacity = true
is_claimable _ = false

abbrev pub is_claimed : ServiceState → Bool
is_claimed claimed = true
is_claimed _ = false

-- A claim; its `reply_provenance` names the destination peer alone.
pub record Job : Type 0 where
  pub job_id : String
  pub source_dm_id : ℕ
  pub source_peer : String
  pub destination_peer : String
  pub fencing_token : ℕ

pub record Entry : Type 0 where
  pub id : ℕ
  pub from : Value
  pub kind : String
  pub thread_id : Value
  pub content : String
  pub wake : Bool
  pub queued_at : ℕ
  pub eligibility : Eligibility
  pub eligibility_reason : String
  pub obligation_state : Obligation
  pub service_state : ServiceState
  pub job : Option Job
  pub expiry_reason : Option String
  pub capacity_refusal : Option (ℕ × ℕ)

-- What the file holds.
pub record Ledger : Type 0 where
  pub pending : List Entry
  pub receipts : List Fields
  pub deferred_ticks : ℕ

-- `DeliveryQueue`: the ledger in memory, and the file as `_persist` left it last.
pub record DeliveryQueue : Type 0 where
  pub live : Ledger
  pub file : Ledger

pub data Result (A : Type 0) : Type 0 where
  done : A → Result A
  refused : Result A

pub Result-cases : {A : Type 0} (r : Result A) → (r ≡ refused) ⊎ ((a : A) × (r ≡ done a))
Result-cases refused = inl refl
Result-cases (done a) = inr (a, refl)

-- `reply_provenance` of a claim
unfoldable pub provenance : String → Value
provenance peer = dict (
    field "peer" (str peer)
      (field "actor" (str "service") (field "actor_id" (str (join peer "/service")) end)))

-- The claim as the dict that the code keeps.
unfoldable pub job_dict : Job → Fields
unfolding provenance
job_dict j = field "job_id" (str j.job_id) (
    field "source_dm_id" (int j.source_dm_id) (
      field "source_peer" (str j.source_peer) (
        field "destination_peer" (str j.destination_peer) (
          field "fencing_token" (int j.fencing_token)
            (field "reply_provenance" (provenance j.destination_peer) end)))))

-- `wake_for`
unfoldable pub wake_for : String → Value → Bool
wake_for kind thread_id =
    if kind == "question"
    then true
    else if kind == "unblock"
    then true
    else kind == "answer" && (elim thread_id [ null ↦ false | _ ↦ true ])

-- `_entry`: the first entry with the id
unfoldable pub entry_of : ℕ → List Entry → Option Entry
entry_of dm_id pending = find (λ (e : Entry). e.id == dm_id) pending
