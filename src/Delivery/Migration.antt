-- ===== src/Delivery/Migration.antt =====
-- What `_migrate_entry` of src/swarph_cli/delivery_queue.py makes of an entry of an older file.
use swarph_cli.Prelude.{
  ℕ, String, none, some, true, false, ◌≡◌, refl, ◌∙◌, inl, inr, Bool-cases, Option-cases, ◌==◌,
  eq_refl, string_eq, option_eq,
}
use swarph_cli.Prelude.Python.{Value, Fields, null, str, int, dict, end, field, get, get_or_null}
use swarph_cli.Delivery.Loading.{
  add_field, set_default, owed_by, with_defaults, has_states, migrate_entry,
}

record HasField (k : String) (w : Value) (d : Fields) : Type 0 where
  is_there : get k d ≡ some w

record HasKey (k : String) (d : Fields) : Type 0 where
  value : Value
  holds : HasField k value d

get-add_field :
    (k key : String) (v w : Value) (d : Fields)
    → get k d ≡ some w
    → get k (add_field key v d) ≡ some w
unfolding get add_field
get-add_field k key v w end h = cc
get-add_field k key v w (field l u rest) h = elim (Bool-cases (l == k)) [
  | inl e ↦ rw e (rw e at h)
  | inr e ↦ rw e (get-add_field k key v w rest (rw e at h))
]

get-add_field_new :
    (key : String) (v : Value) (d : Fields)
    → get key d ≡ none
    → get key (add_field key v d) ≡ some v
unfolding get add_field
get-add_field_new key v end h = rw (eq_refl key) refl
get-add_field_new key v (field l u rest) h = elim (Bool-cases (l == key)) [
  | inl e ↦ absurd (let h' = rw e at h in cc)
  | inr e ↦ rw e (get-add_field_new key v rest (rw e at h))
]

get-add_field_other :
    (k key : String) (v : Value) (d : Fields)
    → (key == k) ≡ false
    → get k (add_field key v d) ≡ get k d
unfolding get add_field
get-add_field_other k key v end n = rw n refl
get-add_field_other k key v (field l u rest) n = elim (Bool-cases (l == k)) [
  | inl e ↦ rw e refl
  | inr e ↦ rw e (get-add_field_other k key v rest n)
]

set_default-HasField :
    {k : String} {w : Value} {d : Fields} (key : String) (v : Value)
    → HasField k w d
    → HasField k w (set_default key v d)
unfolding set_default
set_default-HasField {k} {w} {d} key v h = elim (Option-cases (get key d)) [
  | inl e ↦ record { is_there = rw (set_default, e) (get-add_field k key v w d h.is_there) }
  | inr (u, e) ↦ record { is_there = rw (set_default, e) h.is_there }
]

get-set_default_new :
    (key : String) (v : Value) (d : Fields)
    → get key d ≡ none
    → get key (set_default key v d) ≡ some v
unfolding set_default
get-set_default_new key v d h = rw (set_default, h) (get-add_field_new key v d h)

get-set_default_other :
    (k key : String) (v : Value) (d : Fields)
    → (key == k) ≡ false
    → get k (set_default key v d) ≡ get k d
unfolding set_default
get-set_default_other k key v d n = elim (Option-cases (get key d)) [
  | inl e ↦ rw (set_default, e) (get-add_field_other k key v d n)
  | inr (u, e) ↦ rw (set_default, e) refl
]

set_default-HasKey :
    {k : String} {d : Fields} (key : String) (v : Value)
    → HasKey k d
    → HasKey k (set_default key v d)
set_default-HasKey key v h = record { value = h.value; holds = set_default-HasField key v h.holds }

set_default-HasKey_new : (key : String) (v : Value) (d : Fields) → HasKey key (set_default key v d)
set_default-HasKey_new key v d = elim (Option-cases (get key d)) [
  | inl e ↦ record { value = v; holds = record { is_there = get-set_default_new key v d e } }
  | inr (u, e) ↦ record { value = u; holds = set_default-HasField key v (record { is_there = e }) }
]

set_default_there : {k : String} {d : Fields} → HasKey k d → (v : Value) → set_default k v d ≡ d
unfolding set_default
set_default_there {k} {d} h v = rw (set_default, h.holds.is_there) refl

-- The keys that `_migrate_entry` fills in.
record IsComplete (d : Fields) : Type 0 where
  queued_at : HasKey "queued_at" d
  eligibility : HasKey "eligibility" d
  reason : HasKey "eligibility_reason" d
  obligation_state : HasKey "obligation_state" d
  service_state : HasKey "service_state" d
  job : HasKey "job" d
  read_state : HasKey "source_read_state" d

with_defaults-IsComplete : (now : ℕ) (e : Fields) → IsComplete (with_defaults now e)
unfolding with_defaults
with_defaults-IsComplete now e = record {
  queued_at = set_default-HasKey _ _ (
      set_default-HasKey _ _ (
        set_default-HasKey _ _ (
          set_default-HasKey _ _
            (set_default-HasKey _ _ (set_default-HasKey _ _ (set_default-HasKey_new _ _ _))))));
  eligibility = set_default-HasKey _ _ (
      set_default-HasKey _ _ (
        set_default-HasKey _ _
          (set_default-HasKey _ _ (set_default-HasKey _ _ (set_default-HasKey_new _ _ _)))));
  reason = set_default-HasKey _ _ (
      set_default-HasKey _ _
        (set_default-HasKey _ _ (set_default-HasKey _ _ (set_default-HasKey_new _ _ _))));
  obligation_state =
      set_default-HasKey _ _
        (set_default-HasKey _ _ (set_default-HasKey _ _ (set_default-HasKey_new _ _ _)));
  service_state = set_default-HasKey _ _ (set_default-HasKey _ _ (set_default-HasKey_new _ _ _));
  job = set_default-HasKey _ _ (set_default-HasKey_new _ _ _);
  read_state = set_default-HasKey_new _ _ _;
}

with_defaults-there : (now : ℕ) (d : Fields) → IsComplete d → with_defaults now d ≡ d
unfolding with_defaults
with_defaults-there now d c =
    rw
      (
        with_defaults,
        set_default_there c.queued_at (int now),
        set_default_there c.eligibility (str "cannot_evaluate"),
        set_default_there c.reason (str "awaiting policy evaluation"),
        set_default_there c.obligation_state (owed_by (get_or_null "eligibility" d)),
        set_default_there c.service_state (str "unassigned"),
        set_default_there c.job null,
      )
      (set_default_there c.read_state (str "unread"))

with_defaults-eligibility :
    (now : ℕ) (e : Fields)
    → get "eligibility" e ≡ none
    → get "eligibility" (with_defaults now e) ≡ some (str "cannot_evaluate")
unfolding with_defaults
with_defaults-eligibility now e h =
    let still = get-set_default_other "eligibility" "queued_at" (int now) e refl ∙ h in
    let given = get-set_default_new "eligibility" (str "cannot_evaluate") _ still in
    (set_default-HasField _ _ (
      set_default-HasField _ _ (
        set_default-HasField _ _ (
          set_default-HasField _ _
            (set_default-HasField _ _ (record { is_there = given })))))).is_there

get-with_defaults :
    (now : ℕ) (k : String) (w : Value) (e : Fields)
    → get k e ≡ some w
    → get k (with_defaults now e) ≡ some w
unfolding with_defaults
get-with_defaults now k w e h =
    (set_default-HasField _ _ (
      set_default-HasField _ _ (
        set_default-HasField _ _ (
          set_default-HasField _ _ (
            set_default-HasField _ _ (
              set_default-HasField _ _
                (set_default-HasField _ _ (record { is_there = h })))))))).is_there

-- What a migrated entry is: it has every field of the entry in the file, with the same value; its three
-- states are among those that the queue knows; it is judged `cannot_evaluate` where the file does not say;
-- and migrated again, at any time, it stays as it is. Whenever the migration does not raise.
pub migrate_entry-keeps :
    (now : ℕ) (v : Value) (d : Fields)
    → migrate_entry now v ≡ some d
    → (e : Fields) × (v ≡ dict e)
      × ((k : String) (w : Value) → get k e ≡ some w → get k d ≡ some w)
      × (get "eligibility" e ≡ none → get "eligibility" d ≡ some (str "cannot_evaluate"))
      × (has_states d ≡ true)
      × ((later : ℕ) → migrate_entry later (dict d) ≡ some d)
unfolding migrate_entry
migrate_entry-keeps now (dict e) d h = elim (Option-cases (get "id" e)) [
  | inl n ↦ absurd (let h' = rw (migrate_entry, n) at h in cc)
  | inr (id, n) ↦ elim (Bool-cases (has_states (with_defaults now e))) [
    | inr b ↦ absurd (let h' = rw (migrate_entry, n, b) at h in cc)
    | inl b ↦
        let same : with_defaults now e ≡ d = let h' = rw (migrate_entry, n, b) at h in cc in
        rw (← same) (
          e,
          refl,
          (λ k w. get-with_defaults now k w e),
          with_defaults-eligibility now e,
          b,
          λ later.
              rw
                (
                  migrate_entry,
                  get-with_defaults now "id" id e n,
                  with_defaults-there later (with_defaults now e) (with_defaults-IsComplete now e),
                  b,
                )
                refl,
        )
  ]
]
migrate_entry-keeps now _ d h = cc
