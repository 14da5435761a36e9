-- ===== src/Prelude/Python.antt =====
-- Values of Python as `json` reads them, `dict` by `dict`, with `==`, `isinstance` and `get`.
use Prim.Native.Nat.{ℕ, suc}
use Prim.Native.String.{String}
use mathlib.Core.Path.{◌≡◌, refl}
use mathlib.Core.Bool.{Bool, true, false, ◌&&◌, ◌||◌}
use mathlib.Core.Option.{Option, none, some}
use mathlib.Core.List.{List, [], ◌∷◌}
use swarph_cli.Prelude.Tests.{leb, ◌==◌, if◌then◌else◌, nat_eq, string_eq, option_eq}

-- `int n` is n and `neg n` is -(n + 1). Lists and floats occur in none of the objects modelled.
mutual
  pub data Value : Type 0 where
    null : Value
    bool : Bool → Value
    int : ℕ → Value
    neg : ℕ → Value
    str : String → Value
    dict : Fields → Value

  pub data Fields : Type 0 where
    end : Fields
    field : String → Value → Fields → Fields

-- `d.get(key)`, `none` for a missing key.
unfoldable pub get : String → Fields → Option Value
get key end = none
get key (field k v rest) = if k == key then some v else get key rest

-- `d.get(key)`, with Python's `None` for a missing key.
unfoldable pub get_or_null : String → Fields → Value
unfolding get
get_or_null key d = elim (get key d) [ none ↦ null | some v ↦ v ]

unfoldable pub size : Fields → ℕ
size end = 0
size (field k v rest) = suc (size rest)

abbrev one_if : Bool → ℕ
one_if true = 1
one_if false = 0

-- The number that an `int` or a `bool` (which is an `int`) stands for: `True == 1`.
abbrev number : Value → Option ℕ
number (bool b) = some (one_if b)
number (int n) = some n
number _ = none

-- Python's `==`. Two dicts are equal when they have as many keys and each key of the one has an
-- equal value in the other; keys are unique.
unfoldable mutual
  unfolding get size

  pub value_eq : Value → Value → Bool
  value_eq null null = true
  value_eq (bool a) v = number (bool a) == number v
  value_eq (int a) v = number (int a) == number v
  value_eq (neg a) (neg b) = a == b
  value_eq (str a) (str b) = a == b
  value_eq (dict a) (dict b) = size a == size b && fields_in a b
  value_eq _ _ = false

  pub fields_in : Fields → Fields → Bool
  fields_in end b = true
  fields_in (field k v rest) b =
      (elim (get k b) [ none ↦ false | some w ↦ value_eq v w ]) && fields_in rest b

-- `isinstance(v, int)`: a bool is an int.
abbrev pub is_int : Value → Bool
is_int (bool _) = true
is_int (int _) = true
is_int (neg _) = true
is_int _ = false

-- `isinstance(v, int) and not isinstance(v, bool)`
abbrev pub is_strict_int : Value → Bool
is_strict_int (int _) = true
is_strict_int (neg _) = true
is_strict_int _ = false

-- `isinstance(v, int) and v >= 1`
abbrev pub is_positive_int : Value → Bool
is_positive_int (bool b) = b
is_positive_int (int n) = leb 1 n
is_positive_int _ = false

-- `isinstance(v, str) and v`: a text that is not empty.
abbrev pub nonempty_str : Value → Option String
nonempty_str (str s) = if s == "" then none else some s
nonempty_str _ = none

-- `set(d) <= keys`, and `keys <= set(d)`
unfoldable pub has_key : List String → String → Bool
has_key [] key = false
has_key (k ∷ ks) key = k == key || has_key ks key

unfoldable pub keys_within : Fields → List String → Bool
unfolding has_key
keys_within end ks = true
keys_within (field k v rest) ks = has_key ks k && keys_within rest ks

unfoldable pub has_all : List String → Fields → Bool
unfolding get
has_all [] d = true
has_all (k ∷ ks) d = (elim (get k d) [ none ↦ false | some _ ↦ true ]) && has_all ks d

-- `set(d) == keys`
unfoldable pub keys_are : List String → Fields → Bool
unfolding keys_within has_all
keys_are ks d = keys_within d ks && has_all ks d

true_is_one : value_eq (bool true) (int 1) ≡ true
unfolding value_eq
true_is_one = refl

dicts_ignore_order :
    value_eq
      (dict (field "a" null (field "b" (int 2) end)))
      (dict (field "b" (int 2) (field "a" null end)))
    ≡ true
unfolding value_eq
dicts_ignore_order = refl
