-- ===== src/Prelude/Updates.antt =====
-- Updates and removals of one row, against the searches and the counts of the table.
use Prim.Native.Nat.{◌+◌, ◌≤◌}
use mathlib.Core.Bool.{Bool, true, false}
use mathlib.Core.List.{List, [], ◌∷◌, ◌++◌}
use mathlib.Core.Option.{some}
use native.Mathlib.Omega.{arith}
use mathlib.Core.Path.{◌≡◌, refl}
use mathlib.Core.Logic.{◌⊎◌, inl, inr}
use swarph_cli.Prelude.Tests.{if◌then◌else◌, Bool-cases}
use swarph_cli.Prelude.Lists.{where_rows, count, any, find, update_first, remove_first, All}

module _ {A : Type 0} (p : A → Bool) (f : A → A) where
  pub any-update_first :
      (g : A → Bool)
      → ((a : A) → g (f a) ≡ g a)
      → (xs : List A) → any g (update_first p f xs) ≡ any g xs
  unfolding any update_first
  any-update_first g h [] = refl
  any-update_first g h (x ∷ xs) =
      let same = h x in let rest = any-update_first g h xs in ground arith

  pub All-update_first :
      (P : A → Type 0)
      → ((a : A) → p a ≡ true → P a → P (f a))
      → (xs : List A) → All P xs
      → All P (update_first p f xs)
  unfolding update_first
  All-update_first P h [] t = tt
  All-update_first P h (x ∷ xs) t = elim (Bool-cases (p x)) [
    | inl e ↦ rw e (h x e t.0, t.1)
    | inr e ↦ rw e (t.0, All-update_first P h xs t.1)
  ]

  pub count-update_first :
      (g : A → Bool) (xs : List A) → count g (update_first p f xs) ≤ count g xs + 1
  unfolding count update_first
  count-update_first g [] = omega arith
  count-update_first g (x ∷ xs) = let rest = count-update_first g xs in ground arith

  -- A change to rows that do not pass `g` adds none to those that do.
  pub count-update_first_le :
      (g : A → Bool)
      → ((a : A) → g (f a) ≡ true → g a ≡ true)
      → (xs : List A) → count g (update_first p f xs) ≤ count g xs
  unfolding count update_first
  count-update_first_le g h [] = omega arith
  count-update_first_le g h (x ∷ xs) = elim (Bool-cases (g (f x))) [
    | inl e ↦ let before = h x e in let rest = count-update_first_le g h xs in ground arith
    | inr e ↦ let rest = count-update_first_le g h xs in ground arith
  ]

  pub find-update_first :
      (g : A → Bool)
      → ((a : A) → g (f a) ≡ g a)
      → (xs : List A) (b : A) → find g (update_first p f xs) ≡ some b
      → (a : A) × (find g xs ≡ some a) × ((b ≡ a) ⊎ ((b ≡ f a) × (p a ≡ true)))
  unfolding find update_first
  find-update_first g h [] b e = cc
  find-update_first g h (x ∷ xs) b e = elim (Bool-cases (g x)) [
    | inl t ↦ elim (Bool-cases (p x)) [
      | inl m ↦ let same = h x in (x, ground arith, inr (ground arith, m))
      | inr m ↦ (x, ground arith, inl (ground arith))
    ]
    | inr t ↦ elim (Bool-cases (p x)) [
      | inl m ↦ let same = h x in (b, ground arith, inl refl)
      | inr m ↦ let (a, q, r) = find-update_first g h xs b (ground arith) in (a, ground arith, r)
    ]
  ]

module _ {A : Type 0} (p : A → Bool) where
  pub any-remove_first :
      (g : A → Bool) (xs : List A) → any g xs ≡ false → any g (remove_first p xs) ≡ false
  unfolding any remove_first
  any-remove_first g [] h = h
  any-remove_first g (x ∷ xs) h = ground (arith, any-remove_first g xs)

  -- Removing a row keeps those that could not be it.
  pub any-remove_first_other :
      (g : A → Bool)
      → ((a : A) → p a ≡ true → g a ≡ false)
      → (xs : List A) → any g (remove_first p xs) ≡ any g xs
  unfolding any remove_first
  any-remove_first_other g h [] = refl
  any-remove_first_other g h (x ∷ xs) = elim (Bool-cases (p x)) [
    | inl e ↦ let other = h x e in ground arith
    | inr e ↦ let rest = any-remove_first_other g h xs in ground arith
  ]

  pub All-remove_first : (P : A → Type 0) (xs : List A) → All P xs → All P (remove_first p xs)
  unfolding remove_first
  All-remove_first P [] t = tt
  All-remove_first P (x ∷ xs) t = elim (Bool-cases (p x)) [
    | inl e ↦ rw e t.1
    | inr e ↦ rw e (t.0, All-remove_first P xs t.1)
  ]

  pub count-remove_first : (g : A → Bool) (xs : List A) → count g (remove_first p xs) ≤ count g xs
  unfolding count remove_first
  count-remove_first g [] = omega arith
  count-remove_first g (x ∷ xs) = let rest = count-remove_first g xs in ground arith

  pub find-remove_first :
      (g : A → Bool)
      → ((a : A) → p a ≡ true → g a ≡ false)
      → (xs : List A) → find g (remove_first p xs) ≡ find g xs
  unfolding find remove_first
  find-remove_first g h [] = refl
  find-remove_first g h (x ∷ xs) = elim (Bool-cases (p x)) [
    | inl e ↦ let other = h x e in ground arith
    | inr e ↦ let rest = find-remove_first g h xs in ground arith
  ]

pub All-append_one :
    {A : Type 0} (P : A → Type 0) (xs : List A) (y : A) → All P xs → P y → All P (xs ++ y ∷ [])
All-append_one P [] y h q = (q, tt)
All-append_one P (x ∷ xs) y h q = (h.0, All-append_one P xs y h.1 q)

pub count-append_one :
    {A : Type 0} (p : A → Bool) (xs : List A) (y : A)
    → count p (xs ++ y ∷ []) ≡ count p xs + (if p y then 1 else 0)
unfolding count
count-append_one p [] y = ground arith
count-append_one p (x ∷ xs) y = ground (arith, count-append_one p xs y)

pub where_rows-any :
    {A : Type 0} (p g : A → Bool) (xs : List A) → any g xs ≡ false → any g (where_rows p xs) ≡ false
unfolding any where_rows
where_rows-any p g [] h = h
where_rows-any p g (x ∷ xs) h = ground (arith, where_rows-any p g xs)
