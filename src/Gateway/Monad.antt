-- ===== src/Gateway/Monad.antt =====
-- A request handler: it returns or raises `HTTPException(code)`, over the database. Each statement
-- commits by itself (`isolation_level=None`), so what was written before a raise stays written.
use swarph_cli.Prelude.{ℕ, Bool, Option, none, some, if◌then◌else◌}
use swarph_cli.Gateway.Db.{Db}

pub data Result (A : Type 0) : Type 0 where
  ok : A → Result A
  http : ℕ → Result A

abbrev pub Handler : Type 0 → Type 0
Handler A = Db → Result A × Db

module _ {A : Type 0} where
  abbrev pub pure : A → Handler A
  pure a db = (ok a, db)

  -- `raise HTTPException(code)`
  abbrev pub raise : ℕ → Handler A
  raise code db = (http code, db)

  -- A read.
  abbrev pub gets : (Db → A) → Handler A
  gets f db = (ok (f db), db)

  -- `if row is None: raise HTTPException(code)`
  abbrev pub or_raise : Option A → ℕ → Handler A
  or_raise none code = raise code
  or_raise (some a) code = pure a

infixl 5 ◌>>=◌ ◌>>◌
abbrev pub ◌>>=◌ : {A B : Type 0} → Handler A → (A → Handler B) → Handler B
◌>>=◌ m f db = let (r, db') = m db in elim r [ ok a ↦ f a db' | http code ↦ (http code, db') ]

abbrev pub ◌>>◌ : {A B : Type 0} → Handler A → Handler B → Handler B
m >> k = m >>= λ _. k

abbrev pub raise_if : Bool → ℕ → Handler (Unit {0})
raise_if c code db = (if c then http code else ok tt, db)

abbrev pub when : Bool → Handler (Unit {0}) → Handler (Unit {0})
when c m db = if c then m db else (ok tt, db)

-- A write.
abbrev pub modify : (Db → Db) → Handler (Unit {0})
modify f db = (ok tt, f db)
