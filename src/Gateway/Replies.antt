-- ===== src/Gateway/Replies.antt =====
-- A rule for what holds of the reply and the database after the handlers of
-- src/swarph_cli/gateway/server.py.
use swarph_cli.Prelude.{ℕ, ◌≡◌, ◌⊎◌, inl, inr, refl}
use swarph_cli.Gateway.Db.{Db}
use swarph_cli.Gateway.Monad.{Handler, Result, ok, http, ◌>>=◌}

pub Reply-cases :
    {A : Type 0} (r : Result A) → ((a : A) × (r ≡ ok a)) ⊎ ((code : ℕ) × (r ≡ http code))
Reply-cases (ok a) = inl (a, refl)
Reply-cases (http code) = inr (code, refl)

-- What holds of every reply of two steps and the database beside it.
pub bind_reply :
    {A B : Type 0} (m : Handler A) (k : A → Handler B) (db : Db) (Q : Result B → Db → Type 0)
    → ((code : ℕ) → Q (http code) (m db).1)
    → ((a : A) → Q (k a (m db).1).0 (k a (m db).1).1)
    → Q ((m >>= k) db).0 ((m >>= k) db).1
bind_reply m k db Q h f = elim (Reply-cases (m db).0) [
  | inl (a, e) ↦ rw (◌>>=◌, e) (f a)
  | inr (code, e) ↦ rw (◌>>=◌, e) (h code)
]
