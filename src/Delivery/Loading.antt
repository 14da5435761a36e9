-- ===== src/Delivery/Loading.antt =====
-- Reading the ledger's file: `_load` and `_migrate_entry` of src/swarph_cli/delivery_queue.py.
use Prim.Native.Char.{code}
use swarph_cli.Prelude.{
  ℕ, zero, suc, ◌+◌, ◌*◌, ◌-◌, String, Option, none, some, Bool, true, false, ◌&&◌, List, [], ◌∷◌,
  leb, ◌==◌, if◌then◌else◌, string_eq, nat_eq, ◌≡◌, refl,
}
use swarph_cli.Prelude.Text.{strip}
use swarph_cli.Prelude.Python.{
  Value, Fields, null, bool, int, neg, str, dict, end, field, get, get_or_null, value_eq, has_key,
}
use swarph_cli.Delivery.Files.{
  Member, absent, not_a_list, items, FileObject, QueueFile, no_file, unreadable, object, Loaded,
  nothing_loaded,
}

unfoldable pub add_field : String → Value → Fields → Fields
add_field key v end = field key v end
add_field key v (field k w rest) = field k w (add_field key v rest)

-- `d.setdefault(key, v)`
unfoldable pub set_default : String → Value → Fields → Fields
set_default key v d = elim (get key d) [ none ↦ add_field key v d | some _ ↦ d ]

-- The default of `obligation_state`.
unfoldable pub owed_by : Value → Value
owed_by v = if value_eq v (str "eligible") then str "owed" else v

unfoldable pub with_defaults : ℕ → Fields → Fields
with_defaults now e =
    let timed = set_default "queued_at" (int now) e in
    let judged = set_default "eligibility" (str "cannot_evaluate") timed in
    let explained = set_default "eligibility_reason" (str "awaiting policy evaluation") judged in
    let stated =
      set_default "obligation_state" (owed_by (get_or_null "eligibility" explained)) explained in
    let served = set_default "service_state" (str "unassigned") stated in
    let assigned = set_default "job" null served in
    set_default "source_read_state" (str "unread") assigned

-- `v in names`; `false` also for a dict, where it raises.
abbrev pub is_one_of : List String → Value → Bool
is_one_of names (str s) = has_key names s
is_one_of names _ = false

abbrev pub eligibilities : List String
eligibilities = "eligible" ∷ "ineligible" ∷ "cannot_evaluate" ∷ []

abbrev pub service_states : List String
service_states = "unassigned" ∷ "claimed" ∷ "capacity_refused" ∷ []

abbrev pub obligation_states : List String
obligation_states = "owed" ∷ "ineligible" ∷ "cannot_evaluate" ∷ "capacity_refused" ∷ "expired" ∷ []

unfoldable pub has_states : Fields → Bool
has_states e =
    is_one_of eligibilities (get_or_null "eligibility" e)
    && is_one_of service_states (get_or_null "service_state" e)
    && is_one_of obligation_states (get_or_null "obligation_state" e)

-- `_migrate_entry`; `none` raises.
unfoldable pub migrate_entry : ℕ → Value → Option Fields
migrate_entry now (dict e) = elim (get "id" e) [
  | none ↦ none
  | some _ ↦ if has_states (with_defaults now e) then some (with_defaults now e) else none
]
migrate_entry now _ = none

-- `f` of each row, unless one raises.
unfoldable pub map_all : {A B : Type 0} → (A → Option B) → List A → Option (List B)
map_all f [] = some []
map_all f (x ∷ xs) =
    let rest = map_all f xs in
    elim (f x) [ none ↦ none | some y ↦ elim rest [ none ↦ none | some ys ↦ some (y ∷ ys) ] ]

-- `dict(v)`: of the texts only the empty one is read.
abbrev pub dict_of : Value → Option Fields
dict_of (dict d) = some d
dict_of (str s) = if s == "" then some end else none
dict_of _ = none

-- The decimal digits that are left, after the number `n`; one underscore may stand between two digits.
-- `after_digit` says that a digit came right before.
unfoldable pub digits_value : Bool → ℕ → String → Option ℕ
digits_value after_digit n String.[] = if after_digit then some n else none
digits_value after_digit n (String.◌∷◌ c s) =
    let digit = digits_value true (n * 10 + (code c - b'0')) s in
    let separator = digits_value false n s in
    if leb b'0' (code c) && leb (code c) b'9'
    then digit
    else if code c == b'_' && after_digit
    then separator
    else none

-- `-n`
abbrev negated : ℕ → Value
negated zero = int 0
negated (suc n) = neg n

abbrev signed : String → Option Value
signed String.[] = none
signed (String.◌∷◌ c s) =
    if code c == b'-'
    then (elim (digits_value false 0 s) [ none ↦ none | some n ↦ some (negated n) ])
    else if code c == b'+'
    then (elim (digits_value false 0 s) [ none ↦ none | some n ↦ some (int n) ])
    else elim (digits_value false 0 (String.◌∷◌ c s)) [ none ↦ none | some n ↦ some (int n) ]

-- `int(v)`; `none` raises.
unfoldable pub int_of : Value → Option Value
int_of (bool true) = some (int 1)
int_of (bool false) = some (int 0)
int_of (int n) = some (int n)
int_of (neg n) = some (neg n)
int_of (str s) = signed (strip s)
int_of _ = none

-- `data.get(key, [])`, where it is a list.
abbrev pub rows_of : Member → Option (List Value)
rows_of absent = some []
rows_of not_a_list = none
rows_of (items vs) = some vs

abbrev pub ticks_of : Option Value → Option Value
ticks_of none = int_of (int 0)
ticks_of (some v) = int_of v

infixl 5 ◌>>=◌
abbrev ◌>>=◌ : {A B : Type 0} → Option A → (A → Option B) → Option B
◌>>=◌ none f = none
◌>>=◌ (some a) f = f a

-- `_load` of an object; `none` raises.
unfoldable pub load_object : ℕ → FileObject → Option Loaded
load_object now o = do
  pending ← rows_of o.pending
  receipts ← rows_of o.receipts
  entries ← map_all (migrate_entry now) pending
  dicts ← map_all dict_of receipts
  ticks ← ticks_of o.deferred_ticks
  some (record { pending = entries; receipts = dicts; deferred_ticks = ticks })

-- `_load`
unfoldable pub load : ℕ → QueueFile → Loaded
load now no_file = nothing_loaded
load now unreadable = nothing_loaded
load now (object o) = elim (load_object now o) [ none ↦ nothing_loaded | some q ↦ q ]

int_of_examples :
    (int_of (str " 1_0\n") ≡ some (int 10))
    × (int_of (str "-7") ≡ some (neg 6))
    × (int_of (str "1__0") ≡ none)
    × (int_of (str "") ≡ none)
    × (int_of (dict end) ≡ none)
unfolding int_of digits_value strip
int_of_examples = (refl, refl, refl, refl, refl)
