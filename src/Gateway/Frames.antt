-- ===== src/Gateway/Frames.antt =====
-- Rules for what a handler leaves alone, one for each way to build a handler. `view` is the part of
-- the database that is watched.
use swarph_cli.Prelude.{ℕ, Bool, true, false, Option, none, some, if◌then◌else◌, ◌≡◌, refl, ◌∙◌}
use swarph_cli.Gateway.Db.{Db}
use swarph_cli.Gateway.Monad.{
  Result, Handler, ok, http, pure, raise, gets, or_raise, raise_if, when, modify, ◌>>=◌,
}

-- `m` never changes what `view` shows.
pub record Keeps {A V : Type 0} (view : Db → V) (m : Handler A) : Type 0 where
  pub at : (db : Db) → view (m db).1 ≡ view db

-- What a run has left: the view as it was, if it raised.
abbrev pub Left : {A V : Type 0} → (Db → V) → Db → Result A × Db → Type 0
Left view db (ok _, db') = Unit
Left view db (http _, db') = view db' ≡ view db

-- `m` leaves the view alone where it raises.
pub record Atomic {A V : Type 0} (view : Db → V) (m : Handler A) : Type 0 where
  pub at : (db : Db) → Left view db (m db)

-- `m` never raises.
pub record Total {A : Type 0} (m : Handler A) : Type 0 where
  pub at : (db : Db) → (a : A) × ((m db).0 ≡ ok a)

module _ {A V : Type 0} (view : Db → V) where
  Left-alone : (r : Result A) (db db' : Db) → view db' ≡ view db → Left view db (r, db')
  Left-alone (ok a) db db' h = tt
  Left-alone (http code) db db' h = h

  Left-total : (r : Result A) (db db' : Db) → ((a : A) × (r ≡ ok a)) → Left view db (r, db')
  Left-total (ok a) db db' h = tt
  Left-total (http code) db db' (a, h) = cc

  Left-from :
      (db db1 : Db) (run : Result A × Db)
      → view db1 ≡ view db
      → Left view db1 run
      → Left view db run
  Left-from db db1 (ok a, db') same h = tt
  Left-from db db1 (http code, db') same h = h ∙ same

module _ {A V : Type 0} {view : Db → V} where
  pub Keeps-pure : (a : A) → Keeps view (pure a)
  Keeps-pure a = record { at = λ db. refl }

  pub Keeps-raise : (code : ℕ) → Keeps {A = A} view (raise code)
  Keeps-raise code = record { at = λ db. refl }

  pub Keeps-gets : (f : Db → A) → Keeps view (gets f)
  Keeps-gets f = record { at = λ db. refl }

  pub Keeps-or_raise : (o : Option A) (code : ℕ) → Keeps view (or_raise o code)
  Keeps-or_raise none code = record { at = λ db. refl }
  Keeps-or_raise (some a) code = record { at = λ db. refl }

  pub Keeps-if :
      (b : Bool) (m n : Handler A) → Keeps view m → Keeps view n → Keeps view (if b then m else n)
  Keeps-if true m n km kn = km
  Keeps-if false m n km kn = kn

  pub Atomic-if :
      (b : Bool) (m n : Handler A)
      → Atomic view m
      → Atomic view n
      → Atomic view (if b then m else n)
  Atomic-if true m n km kn = km
  Atomic-if false m n km kn = kn

  pub Atomic-Keeps : (m : Handler A) → Keeps view m → Atomic view m
  Atomic-Keeps m k = record { at = λ db. let (r, db') = m db in Left-alone view r db db' (k.at db) }

  pub Atomic-Total : (m : Handler A) → Total m → Atomic view m
  Atomic-Total m t = record { at = λ db. let (r, db') = m db in Left-total view r db db' (t.at db) }

pub Keeps-raise_if :
    {V : Type 0} {view : Db → V} (c : Bool) (code : ℕ) → Keeps view (raise_if c code)
Keeps-raise_if c code = record { at = λ db. refl }

module _ {A : Type 0} where
  pub Total-pure : (a : A) → Total (pure a)
  Total-pure a = record { at = λ db. (a, refl) }

  pub Total-gets : (f : Db → A) → Total (gets f)
  Total-gets f = record { at = λ db. (f db, refl) }

pub Total-modify : (f : Db → Db) → Total (modify f)
Total-modify f = record { at = λ db. (tt, refl) }

module _ {A B V : Type 0} (view : Db → V) where
  then-Left :
      (r : Result A) (f : A → Handler B) (db db1 : Db)
      → Left view db (r, db1)
      → ((a : A) → Total (f a))
      → Left view db (((λ _. (r, db1)) >>= f) db)
  then-Left (ok a) f db db1 h t = Left-total view (f a db1).0 db (f a db1).1 ((t a).at db1)
  then-Left (http code) f db db1 h t = h

module _ {A B V : Type 0} {view : Db → V} where
  Keeps-rest :
      (r : Result A) (f : A → Handler B) (db db1 : Db)
      → view db1 ≡ view db
      → ((a : A) → Keeps view (f a))
      → view (((λ _. (r, db1)) >>= f) db).1 ≡ view db
  Keeps-rest (ok a) f db db1 h k = (k a).at db1 ∙ h
  Keeps-rest (http code) f db db1 h k = h

  pub Keeps-bind :
      (m : Handler A) (f : A → Handler B)
      → Keeps view m
      → ((a : A) → Keeps view (f a))
      → Keeps view (m >>= f)
  Keeps-bind m f km kf = record {
    at = λ db. let (r, db1) = m db in Keeps-rest r f db db1 (km.at db) kf;
  }

  Atomic-rest :
      (r : Result A) (f : A → Handler B) (db db1 : Db)
      → view db1 ≡ view db
      → ((a : A) → Atomic view (f a))
      → Left view db (((λ _. (r, db1)) >>= f) db)
  Atomic-rest (ok a) f db db1 h k = Left-from view db db1 (f a db1) h ((k a).at db1)
  Atomic-rest (http code) f db db1 h k = h

  -- What may change the view and what may raise: the changes come last.
  pub Atomic-bind :
      (m : Handler A) (f : A → Handler B)
      → Keeps view m
      → ((a : A) → Atomic view (f a))
      → Atomic view (m >>= f)
  Atomic-bind m f km kf = record {
    at = λ db. let (r, db1) = m db in Atomic-rest r f db db1 (km.at db) kf;
  }

  pub Atomic-then :
      (m : Handler A) (f : A → Handler B)
      → Atomic view m
      → ((a : A) → Total (f a))
      → Atomic view (m >>= f)
  Atomic-then m f am tf = record {
    at = λ db. let (r, db1) = m db in then-Left view r f db db1 (am.at db) tf;
  }

pub Keeps-when :
    {V : Type 0} {view : Db → V} (c : Bool) (m : Handler (Unit {0}))
    → Keeps view m
    → Keeps view (when c m)
Keeps-when true m k = record { at = k.at }
Keeps-when false m k = record { at = λ db. refl }

pub Atomic-when :
    {V : Type 0} {view : Db → V} (c : Bool) (m : Handler (Unit {0}))
    → Atomic view m
    → Atomic view (when c m)
Atomic-when true m k = record { at = k.at }
Atomic-when false m k = record { at = λ db. tt }

pub ruleset keeps_rules = (
  Keeps-pure, Keeps-raise, Keeps-gets, Keeps-or_raise, Keeps-raise_if, Keeps-if, Keeps-when,
  Keeps-bind,
)

pub ruleset atomic_rules = (
  keeps_rules, Atomic-if, Atomic-when, Atomic-bind, Atomic-Keeps, Atomic-Total, Total-pure,
  Total-gets, Total-modify,
)

-- `m` takes databases with `P` to databases with `P`, whether it returns or raises.
pub record Preserves {A : Type 0} (P : Db → Type 0) (m : Handler A) : Type 0 where
  pub at : (db : Db) → P db → P (m db).1

module _ {A : Type 0} {P : Db → Type 0} where
  pub Preserves-pure : (a : A) → Preserves P (pure a)
  Preserves-pure a = record { at = λ db h. h }

  pub Preserves-raise : (code : ℕ) → Preserves {A = A} P (raise code)
  Preserves-raise code = record { at = λ db h. h }

  pub Preserves-gets : (f : Db → A) → Preserves P (gets f)
  Preserves-gets f = record { at = λ db h. h }

  pub Preserves-or_raise : (o : Option A) (code : ℕ) → Preserves P (or_raise o code)
  Preserves-or_raise none code = record { at = λ db h. h }
  Preserves-or_raise (some a) code = record { at = λ db h. h }

  pub Preserves-if :
      (b : Bool) (m n : Handler A)
      → Preserves P m
      → Preserves P n
      → Preserves P (if b then m else n)
  Preserves-if true m n km kn = km
  Preserves-if false m n km kn = kn

pub Preserves-raise_if : {P : Db → Type 0} (c : Bool) (code : ℕ) → Preserves P (raise_if c code)
Preserves-raise_if c code = record { at = λ db h. h }

module _ {A B : Type 0} {P : Db → Type 0} where
  preserved_rest :
      (r : Result A) (f : A → Handler B) (db db1 : Db)
      → P db1
      → ((a : A) → Preserves P (f a))
      → P (((λ _. (r, db1)) >>= f) db).1
  preserved_rest (ok a) f db db1 h k = (k a).at db1 h
  preserved_rest (http code) f db db1 h k = h

  pub Preserves-bind :
      (m : Handler A) (f : A → Handler B)
      → Preserves P m
      → ((a : A) → Preserves P (f a))
      → Preserves P (m >>= f)
  Preserves-bind m f km kf = record {
    at = λ db h. let (r, db1) = m db in preserved_rest r f db db1 (km.at db h) kf;
  }

pub Preserves-map_two :
    {A B C : Type 0} {P : Db → Type 0} (m : Handler A) (n : Handler B) (g : A → B → C)
    → Preserves P m
    → Preserves P n
    → Preserves P (m >>= λ a. n >>= λ b. pure (g a b))
Preserves-map_two m n g km kn =
    Preserves-bind m _ km λ a. Preserves-bind n _ kn λ b. Preserves-pure (g a b)

pub Preserves-when :
    {P : Db → Type 0} (c : Bool) (m : Handler (Unit {0})) → Preserves P m → Preserves P (when c m)
Preserves-when true m k = record { at = k.at }
Preserves-when false m k = record { at = λ db h. h }

pub ruleset preserves_rules = (
  Preserves-pure, Preserves-raise, Preserves-gets, Preserves-or_raise, Preserves-raise_if,
  Preserves-if, Preserves-when, Preserves-bind,
)
