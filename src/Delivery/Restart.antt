-- ===== src/Delivery/Restart.antt =====
-- What a restart reads back from the ledger's file (src/swarph_cli/delivery_queue.py).
use swarph_cli.Prelude.{ℕ, some, true, List, [], ◌∷◌, map, ◌≡◌, refl, string_eq, option_eq, nat_eq}
use swarph_cli.Prelude.Python.{Fields, str, dict, get, get_or_null, has_key}
use swarph_cli.Delivery.Entries.{
  Eligibility, eligible, ineligible, cannot_evaluate, ServiceState, unassigned, claimed,
  capacity_refused, Obligation, owed, not_eligible, not_evaluated, over_capacity, expired, Entry,
  Ledger, DeliveryQueue,
}
use swarph_cli.Delivery.Steps
use swarph_cli.Delivery.Steps.{Operation}
use swarph_cli.Delivery.Invariant.{IsLedger, serve-IsLedger}
use swarph_cli.Delivery.Files.{
  eligibility_text, service_text, obligation_text, entry_dict, in_memory, persisted,
}
use swarph_cli.Delivery.Loading.{
  set_default, with_defaults, is_one_of, eligibilities, service_states, obligation_states,
  has_states, migrate_entry, map_all, dict_of, int_of, load_object, load,
}

with_defaults-entry_dict : (now : ℕ) (e : Entry) → with_defaults now (entry_dict e) ≡ entry_dict e
unfolding with_defaults set_default entry_dict get
with_defaults-entry_dict now e = refl

is_eligibility : (x : Eligibility) → is_one_of eligibilities (str (eligibility_text x)) ≡ true
unfolding has_key
is_eligibility eligible = refl
is_eligibility ineligible = refl
is_eligibility cannot_evaluate = refl

is_service_state : (x : ServiceState) → is_one_of service_states (str (service_text x)) ≡ true
unfolding has_key
is_service_state unassigned = refl
is_service_state claimed = refl
is_service_state capacity_refused = refl

is_obligation_state :
    (x : Obligation) → is_one_of obligation_states (str (obligation_text x)) ≡ true
unfolding has_key
is_obligation_state owed = refl
is_obligation_state not_eligible = refl
is_obligation_state not_evaluated = refl
is_obligation_state over_capacity = refl
is_obligation_state expired = refl

has_states-entry_dict : (e : Entry) → has_states (entry_dict e) ≡ true
unfolding has_states entry_dict get_or_null get
has_states-entry_dict e =
    rw (is_eligibility e.eligibility, is_service_state e.service_state)
      (is_obligation_state e.obligation_state)

migrate_entry-entry_dict :
    (now : ℕ) (e : Entry) → migrate_entry now (dict (entry_dict e)) ≡ some (entry_dict e)
unfolding migrate_entry entry_dict get
migrate_entry-entry_dict now e = rw (with_defaults-entry_dict now e, has_states-entry_dict e) refl

migrate_all :
    (now : ℕ) (es : List Entry)
    → map_all (migrate_entry now) (map dict (map entry_dict es)) ≡ some (map entry_dict es)
unfolding map_all
migrate_all now [] = refl
migrate_all now (e ∷ es) = rw (map_all, migrate_entry-entry_dict now e, migrate_all now es) refl

dict_all : (rs : List Fields) → map_all dict_of (map dict rs) ≡ some rs
unfolding map_all
dict_all [] = refl
dict_all (r ∷ rs) = rw (dict_all rs) refl

load-persisted : (now : ℕ) (l : Ledger) → load now (persisted (in_memory l)) ≡ in_memory l
unfolding load load_object persisted in_memory int_of
load-persisted now l =
    rw (load, load_object, migrate_all now l.pending) (rw (dict_all l.receipts) refl)

-- The operations, one after the other.
unfoldable pub serve_all : List Operation → DeliveryQueue → DeliveryQueue
serve_all [] q = q
serve_all (op ∷ ops) q = serve_all ops (Steps.serve op q)

serve_all-IsLedger :
    (ops : List Operation) (q : DeliveryQueue) → IsLedger q → IsLedger (serve_all ops q)
unfolding serve_all
serve_all-IsLedger [] q l = l
serve_all-IsLedger (op ∷ ops) q l =
    serve_all-IsLedger ops (Steps.serve op q) (serve-IsLedger op q l)

-- A process that starts again after any operations loads from the file the queue that was in memory:
-- every entry, every receipt and the ticks, with no field changed; from a ledger that is well formed.
pub load-serve_all :
    (now : ℕ) (ops : List Operation) (q : DeliveryQueue)
    → IsLedger q
    → load now (persisted (in_memory (serve_all ops q).file)) ≡ in_memory (serve_all ops q).live
load-serve_all now ops q l =
    rw (serve_all-IsLedger ops q l).saved (load-persisted now (serve_all ops q).live)
