-- ===== src/Prelude/Lists.antt =====
-- Tables as lists of rows: counting, searching, updating in place and removing, by a test.
use Prim.Native.Nat.{ℕ, zero, suc, ◌+◌}
use mathlib.Core.Bool.{Bool, true, false, ◌||◌}
use mathlib.Core.List.{List, [], ◌∷◌, ◌++◌}
use mathlib.Core.Option.{Option, none, some}
use native.Mathlib.Omega.{arith}
use mathlib.Core.Path.{◌≡◌, refl}
use mathlib.Core.Logic.{◌⊎◌, inl, inr}
use swarph_cli.Prelude.Tests.{if◌then◌else◌, Bool-cases}

module _ {ℓ} {A : Type ℓ} where
  abbrev pub length : List A → ℕ
  length [] = 0
  length (x ∷ xs) = suc (length xs)

  abbrev pub take : ℕ → List A → List A
  take zero xs = []
  take (suc n) [] = []
  take (suc n) (x ∷ xs) = x ∷ take n xs

  -- `sum(p(x) for x in xs)`
  unfoldable pub count : (A → Bool) → List A → ℕ
  count p [] = 0
  count p (x ∷ xs) = (if p x then 1 else 0) + count p xs

  -- `any(p(x) for x in xs)`
  unfoldable pub any : (A → Bool) → List A → Bool
  any p [] = false
  any p (x ∷ xs) = p x || any p xs

  -- The first row that passes.
  unfoldable pub find : (A → Bool) → List A → Option A
  find p [] = none
  find p (x ∷ xs) = if p x then some x else find p xs

  -- `UPDATE … WHERE p`: every row that passes.
  unfoldable pub update_where : (A → Bool) → (A → A) → List A → List A
  update_where p f [] = []
  update_where p f (x ∷ xs) = (if p x then f x else x) ∷ update_where p f xs

  -- The rows that pass (`SELECT … WHERE p`).
  unfoldable pub where_rows : (A → Bool) → List A → List A
  where_rows p [] = []
  where_rows p (x ∷ xs) = let rest = where_rows p xs in if p x then x ∷ rest else rest

  -- The first row that passes is changed: an assignment through a reference found by a loop.
  unfoldable pub update_first : (A → Bool) → (A → A) → List A → List A
  update_first p f [] = []
  update_first p f (x ∷ xs) = if p x then f x ∷ xs else x ∷ update_first p f xs

  -- The first row that passes is removed.
  unfoldable pub remove_first : (A → Bool) → List A → List A
  remove_first p [] = []
  remove_first p (x ∷ xs) = if p x then xs else x ∷ remove_first p xs

-- `P` of every row.
abbrev pub All {ℓ κ} : {A : Type ℓ} → (A → Type κ) → List A → Type κ
All P [] = Unit
All P (x ∷ xs) = P x × All P xs

-- The row stands in the table.
abbrev pub In : {A : Type 0} → A → List A → Type 0
In a [] = ⊥
In a (x ∷ xs) = (a ≡ x) ⊎ In a xs

module _ {A : Type 0} where
  pub All-In : (P : A → Type 0) (xs : List A) (a : A) → All P xs → In a xs → P a
  All-In P [] a h m = absurd m
  All-In P (x ∷ xs) a h (inl e) = rw e h.0
  All-In P (x ∷ xs) a h (inr m) = All-In P xs a h.1 m

  pub All-map : (P Q : A → Type 0) (xs : List A) → ((a : A) → P a → Q a) → All P xs → All Q xs
  All-map P Q [] f h = tt
  All-map P Q (x ∷ xs) f h = (f x h.0, All-map P Q xs f h.1)

  pub find-In : (p : A → Bool) (xs : List A) (a : A) → find p xs ≡ some a → In a xs × (p a ≡ true)
  unfolding find
  find-In p [] a h = cc
  find-In p (x ∷ xs) a h = elim (Bool-cases (p x)) [
    | inl e ↦ ground arith
    | inr e ↦ ground (arith, find-In p xs a)
  ]

  -- A search fails exactly when no row passes.
  pub find-any : (p : A → Bool) (xs : List A) → any p xs ≡ false → find p xs ≡ none
  unfolding find any
  find-any p [] h = refl
  find-any p (x ∷ xs) h = ground (arith, find-any p xs)

  pub any-find : (p : A → Bool) (xs : List A) → any p xs ≡ true → (a : A) × (find p xs ≡ some a)
  unfolding find any
  any-find p [] h = cc
  any-find p (x ∷ xs) h = elim (Bool-cases (p x)) [
    | inl e ↦ (x, ground arith)
    | inr e ↦ let (a, f) = any-find p xs (ground arith) in (a, ground arith)
  ]

  pub any-In : (p : A → Bool) (xs : List A) (a : A) → In a xs → p a ≡ true → any p xs ≡ true
  unfolding any
  any-In p [] a h e = absurd h
  any-In p (x ∷ xs) a (inl q) e = rw (← q, e)
  any-In p (x ∷ xs) a (inr m) e = ground (arith, any-In p xs a m e)

  pub find-append :
      (p : A → Bool) (xs ys : List A) (a : A) → find p xs ≡ some a → find p (xs ++ ys) ≡ some a
  unfolding find
  find-append p [] ys a h = cc
  find-append p (x ∷ xs) ys a h = ground (arith, find-append p xs ys a)

  pub find-append_none :
      (p : A → Bool) (xs ys : List A) → any p xs ≡ false → find p (xs ++ ys) ≡ find p ys
  unfolding find any
  find-append_none p [] ys h = refl
  find-append_none p (x ∷ xs) ys h = ground (arith, find-append_none p xs ys)

  pub any-append : (p : A → Bool) (xs ys : List A) → any p (xs ++ ys) ≡ (any p xs || any p ys)
  unfolding any
  any-append p [] ys = refl
  any-append p (x ∷ xs) ys = ground (arith, any-append p xs ys)

  pub where_rows-In :
      (p : A → Bool) (xs : List A) (a : A) → In a (where_rows p xs) → In a xs × (p a ≡ true)
  unfolding where_rows
  where_rows-In p [] a h = absurd h
  where_rows-In p (x ∷ xs) a h = elim (Bool-cases (p x)) [
    | inl e ↦
        let h' : (a ≡ x) ⊎ In a (where_rows p xs) = rw e at h in
        elim h' [
          | inl q ↦ (inl q, rw q e)
          | inr m ↦ let (m', q) = where_rows-In p xs a m in (inr m', q)
        ]
    | inr e ↦ let (m, q) = where_rows-In p xs a (rw e at h) in (inr m, q)
  ]

  pub In-where_rows :
      (p : A → Bool) (xs : List A) (a : A) → In a xs → p a ≡ true → In a (where_rows p xs)
  unfolding where_rows
  In-where_rows p [] a m e = m
  In-where_rows p (x ∷ xs) a (inl q) e = rw (← q, e) (inl refl)
  In-where_rows p (x ∷ xs) a (inr m) e = elim (Bool-cases (p x)) [
    | inl passes ↦ rw passes (inr (In-where_rows p xs a m e))
    | inr fails ↦ rw fails (In-where_rows p xs a m e)
  ]

  -- A row of an updated table is a row of the old one, changed if it passed.
  pub update_where-In :
      (p : A → Bool) (f : A → A) (xs : List A) (b : A)
      → In b (update_where p f xs)
      → (a : A) × In a xs × (b ≡ (if p a then f a else a))
  unfolding update_where
  update_where-In p f [] b h = absurd h
  update_where-In p f (x ∷ xs) b (inl q) = (x, inl refl, q)
  update_where-In p f (x ∷ xs) b (inr m) =
      let (a, m', q) = update_where-In p f xs b m in (a, inr m', q)

  pub In-append : (xs ys : List A) (a : A) → In a (xs ++ ys) → In a xs ⊎ In a ys
  In-append [] ys a h = inr h
  In-append (x ∷ xs) ys a (inl q) = inl (inl q)
  In-append (x ∷ xs) ys a (inr m) = elim (In-append xs ys a m) [
    | inl l ↦ inl (inr l)
    | inr r ↦ inr r
  ]

  pub where_rows-nil : (p : A → Bool) (xs : List A) → any p xs ≡ false → where_rows p xs ≡ []
  unfolding any where_rows
  where_rows-nil p [] h = refl
  where_rows-nil p (x ∷ xs) h = ground (arith, where_rows-nil p xs)

  pub any-where_rows : (p : A → Bool) (xs : List A) → where_rows p xs ≡ [] → any p xs ≡ false
  unfolding any where_rows
  any-where_rows p [] h = refl
  any-where_rows p (x ∷ xs) h = ground (arith, any-where_rows p xs)
