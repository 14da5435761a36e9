-- ===== src/Prelude/Values.antt =====
-- What Python's `==` says about texts and numbers, and `set(d) == keys` about a dict's keys.
use Prim.Native.Nat.{ℕ}
use Prim.Native.String.{String}
use mathlib.Core.Path.{◌≡◌, refl, subst}
use mathlib.Core.Bool.{true, false}
use mathlib.Core.Logic.{◌≢◌, inl, inr}
use mathlib.Core.Option.{none, some}
use mathlib.Core.List.{List, ◌∷◌}
use native.Mathlib.Omega.{arith}
use swarph_cli.Prelude.Tests.{◌==◌, nat_eq, string_eq, option_eq, eq_iff, eq_refl, Bool-cases}
use swarph_cli.Prelude.Python.{
  Value, Fields, null, bool, int, neg, str, dict, end, field, get, get_or_null, value_eq,
  is_strict_int, has_key, keys_within, has_all, keys_are,
}

-- What equals a text is that text.
pub value_eq-str : (v : Value) (s : String) → value_eq v (str s) ≡ true → v ≡ str s
unfolding value_eq
value_eq-str (str t) s h = ground (arith, eq_iff t s)
value_eq-str null s h = cc
value_eq-str (bool b) s h = ground arith
value_eq-str (int n) s h = ground arith
value_eq-str (neg n) s h = cc
value_eq-str (dict d) s h = cc

pub str-value_eq : (s : String) (v : Value) → value_eq (str s) v ≡ true → v ≡ str s
unfolding value_eq
str-value_eq s (str t) h = ground (arith, eq_iff s t)
str-value_eq s null h = cc
str-value_eq s (bool b) h = cc
str-value_eq s (int n) h = cc
str-value_eq s (neg n) h = cc
str-value_eq s (dict d) h = cc

pub value_eq_str_refl : (s : String) → value_eq (str s) (str s) ≡ true
unfolding value_eq
value_eq_str_refl s = eq_refl s

-- The other way round, where one side is a number.
pub value_eq-int_flip : (n : ℕ) (v : Value) → value_eq (int n) v ≡ true → value_eq v (int n) ≡ true
unfolding value_eq
value_eq-int_flip n null h = ground arith
value_eq-int_flip n (bool true) h = ground arith
value_eq-int_flip n (bool false) h = ground arith
value_eq-int_flip n (int m) h = ground arith
value_eq-int_flip n (neg m) h = ground arith
value_eq-int_flip n (str t) h = ground arith
value_eq-int_flip n (dict d) h = ground arith

pub value_eq_int_refl : (m n : ℕ) → m ≡ n → value_eq (int m) (int n) ≡ true
unfolding value_eq
value_eq_int_refl m n e = ground (arith, eq_iff m n)

-- Ints that are no bools are equal only where they are the same.
pub value_eq-strict :
    (v w : Value) → is_strict_int v ≡ true → is_strict_int w ≡ true → value_eq v w ≡ true → v ≡ w
unfolding value_eq
value_eq-strict (int a) (int b) p q h = ground (arith, eq_iff a b)
value_eq-strict (neg a) (neg b) p q h = ground (arith, eq_iff a b)
value_eq-strict (int a) (neg b) p q h = ground arith
value_eq-strict (neg a) (int b) p q h = cc
value_eq-strict (int a) null p q h = cc
value_eq-strict (int a) (bool b) p q h = cc
value_eq-strict (int a) (str b) p q h = cc
value_eq-strict (int a) (dict b) p q h = cc
value_eq-strict (neg a) null p q h = cc
value_eq-strict (neg a) (bool b) p q h = cc
value_eq-strict (neg a) (str b) p q h = cc
value_eq-strict (neg a) (dict b) p q h = cc
value_eq-strict null w p q h = cc
value_eq-strict (bool a) w p q h = cc
value_eq-strict (str a) w p q h = cc
value_eq-strict (dict a) w p q h = cc

pub value_eq_strict_refl : (v : Value) → is_strict_int v ≡ true → value_eq v v ≡ true
unfolding value_eq
value_eq_strict_refl (int a) p = eq_refl a
value_eq_strict_refl (neg a) p = eq_refl a
value_eq_strict_refl null p = refl
value_eq_strict_refl (bool a) p = cc
value_eq_strict_refl (str a) p = cc
value_eq_strict_refl (dict a) p = cc

-- A key of a dict is among the names that its keys are within.
keys_within-has_key :
    (d : Fields) (ks : List String) (k : String)
    → keys_within d ks ≡ true
    → has_key ks k ≡ false
    → get k d ≡ none
unfolding keys_within get
keys_within-has_key end ks k h q = refl
keys_within-has_key (field l v d) ks k h q = elim (Bool-cases (l == k)) [
  | inl e ↦ absurd (
      let same : l ≡ k = (eq_iff l k).0 e in
      let there : has_key ks l ≡ true = ground arith in
      let h' = subst (λ m. has_key ks m ≡ true) same there in cc)
  | inr e ↦ ground (arith, e, keys_within-has_key d ks k)
]

has_all-get :
    (ks : List String) (d : Fields) (k : String) → has_all (k ∷ ks) d ≡ true → get k d ≢ none
unfolding has_all
has_all-get ks d k h e = ground arith

-- A dict with a key outside of a set of names has not those keys.
pub keys_are-other :
    (ks ls : List String) (k : String) (d : Fields)
    → has_key ls k ≡ false
    → keys_are (k ∷ ks) d ≡ true
    → keys_are ls d ≡ false
unfolding keys_are
keys_are-other ks ls k d q h = elim (Bool-cases (keys_within d ls)) [
  | inl e ↦ absurd (has_all-get ks d k (ground arith) (keys_within-has_key d ls k e q))
  | inr e ↦ rw e refl
]

pub get_or_null-some :
    (key : String) (d : Fields) (v : Value) → get key d ≡ some v → get_or_null key d ≡ v
unfolding get_or_null
get_or_null-some key d v e = rw (get_or_null, e) refl
