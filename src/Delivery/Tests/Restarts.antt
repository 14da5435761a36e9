-- ===== src/Delivery/Tests/Restarts.antt =====
-- Restarts of the ledger of src/swarph_cli/delivery_queue.py at concrete files.
use swarph_cli.Prelude.{
  ℕ, String, none, some, true, [], ◌∷◌, ◌≡◌, refl, string_eq, option_eq, nat_eq,
}
use swarph_cli.Prelude.Python.{
  Value, Fields, null, int, str, dict, end, field, get, get_or_null, has_key, value_eq,
}
use swarph_cli.Delivery.Fixtures.{two_entries, two_entries-IsLedger}
use swarph_cli.Delivery.Steps.{claim, lapse}
use swarph_cli.Delivery.Files.{object, items, absent, in_memory, persisted, nothing_loaded}
use swarph_cli.Delivery.Loading.{
  set_default, add_field, owed_by, with_defaults, has_states, migrate_entry, map_all, load_object,
  load,
}
use swarph_cli.Delivery.Restart.{serve_all, load-serve_all}
use swarph_cli.Delivery.Migration.{migrate_entry-keeps}

-- An entry of a daemon that knew no policy.
abbrev old : Fields
old = field "id" (int 7) (field "content" (str "c") end)

abbrev migrated : Fields
migrated = field "id" (int 7) (
    field "content" (str "c") (
      field "queued_at" (int 3) (
        field "eligibility" (str "cannot_evaluate") (
          field "eligibility_reason" (str "awaiting policy evaluation") (
            field "obligation_state" (str "cannot_evaluate") (
              field "service_state" (str "unassigned")
                (field "job" null (field "source_read_state" (str "unread") end))))))))

old_run : migrate_entry 3 (dict old) ≡ some migrated
unfolding migrate_entry with_defaults set_default add_field owed_by has_states get get_or_null
    has_key value_eq
old_run = refl

-- One entry without an id, and the queue starts empty.
bad_run :
    load 3 (
      object (record {
        pending = items (dict old ∷ dict end ∷ []);
        receipts = absent;
        deferred_ticks = some (int 2);
      }))
    ≡ nothing_loaded
unfolding load load_object map_all migrate_entry with_defaults set_default add_field owed_by
    has_states get get_or_null has_key value_eq
bad_run = refl

load-serve_all_example :
    let q = serve_all (claim 8 "bob" 2 ∷ lapse 7 "late" ∷ []) two_entries in
    load 9 (persisted (in_memory q.file)) ≡ in_memory q.live
load-serve_all_example =
    load-serve_all 9 (claim 8 "bob" 2 ∷ lapse 7 "late" ∷ []) two_entries two_entries-IsLedger

migrate_entry-keeps_example :
    (e : Fields) × (dict old ≡ dict e)
    × ((k : String) (w : Value) → get k e ≡ some w → get k migrated ≡ some w)
    × (get "eligibility" e ≡ none → get "eligibility" migrated ≡ some (str "cannot_evaluate"))
    × (has_states migrated ≡ true)
    × ((later : ℕ) → migrate_entry later (dict migrated) ≡ some migrated)
migrate_entry-keeps_example = migrate_entry-keeps 3 (dict old) migrated old_run
