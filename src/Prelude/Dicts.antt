-- ===== src/Prelude/Dicts.antt =====
-- Python's `==` on dicts with unique keys.
use Prim.Native.String.{String}
use mathlib.Core.Path.{◌≡◌, refl, sym, subst}
use mathlib.Core.Bool.{Bool, true, false, ◌&&◌}
use mathlib.Core.Logic.{inl, inr}
use mathlib.Core.Option.{none}
use native.Mathlib.Omega.{arith}
use swarph_cli.Prelude.Tests.{◌==◌, nat_eq, string_eq, option_eq, eq_iff, eq_refl, Bool-cases}
use swarph_cli.Prelude.Python.{
  Value, Fields, null, bool, int, neg, str, dict, end, field, get, get_or_null, size, value_eq,
  fields_in,
}

-- Keys are unique, in every dict inside too.
unfoldable mutual
  pub IsValue : Value → Type 0
  IsValue (dict d) = IsDict d
  IsValue _ = Unit

  pub IsDict : Fields → Type 0
  IsDict end = Unit
  IsDict (field k v rest) = (get k rest ≡ none) × IsValue v × IsDict rest

-- A key that `d` lacks may be put in front of the other side.
fields_in-field :
    (d b : Fields) (k : String) (v : Value)
    → get k d ≡ none
    → fields_in d b ≡ true
    → fields_in d (field k v b) ≡ true
unfolding fields_in get
fields_in-field end b k v absent h = refl
fields_in-field (field l w rest) b k v absent h = elim (Bool-cases (l == k)) [
  | inl e ↦ absurd (let h' = rw e at absent in cc)
  | inr e ↦ ground (arith, fields_in-field rest b k v (rw e at absent), eq_iff l k, eq_iff k l)
]

both : {a b : Bool} → a ≡ true → b ≡ true → (a && b) ≡ true
both h k = ground (arith, h, k)

-- A dict is equal to itself.
mutual
  unfolding value_eq fields_in get IsValue IsDict

  pub value_eq_refl : (v : Value) → IsValue v → value_eq v v ≡ true
  value_eq_refl null w = refl
  value_eq_refl (bool true) w = refl
  value_eq_refl (bool false) w = refl
  value_eq_refl (int n) w = eq_refl n
  value_eq_refl (neg n) w = eq_refl n
  value_eq_refl (str s) w = eq_refl s
  value_eq_refl (dict d) w = both (eq_refl (size d)) (fields_in_refl d w)

  pub fields_in_refl : (d : Fields) → IsDict d → fields_in d d ≡ true
  fields_in_refl end w = refl
  fields_in_refl (field k v rest) w =
      rw (eq_refl k)
        (both (value_eq_refl v w.1) (fields_in-field rest rest k v w.0 (fields_in_refl rest w.2)))

get_or_null-first :
    (k key : String) (v : Value) (rest : Fields)
    → (k == key) ≡ true
    → get_or_null key (field k v rest) ≡ v
unfolding get_or_null get
get_or_null-first k key v rest e = ground (arith, e)

get_or_null-next :
    (k key : String) (v : Value) (rest : Fields)
    → (k == key) ≡ false
    → get_or_null key (field k v rest) ≡ get_or_null key rest
unfolding get_or_null get
get_or_null-next k key v rest e = ground (arith, e)

-- What a dict holds under a key is a value with unique keys.
pub get_or_null-IsValue : (d : Fields) (key : String) → IsDict d → IsValue (get_or_null key d)
unfolding IsDict get_or_null get
get_or_null-IsValue end key w = tt
get_or_null-IsValue (field k v rest) key w = elim (Bool-cases (k == key)) [
  | inl e ↦ subst IsValue (sym (get_or_null-first k key v rest e)) w.1
  | inr e ↦ subst IsValue (sym (get_or_null-next k key v rest e)) (get_or_null-IsValue rest key w.2)
]
