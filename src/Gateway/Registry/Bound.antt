-- ===== src/Gateway/Registry/Bound.antt =====
-- Rules for what holds of the database after a handler of src/swarph_cli/gateway/server.py that starts
-- with the caller binding and its guards.
use swarph_cli.Prelude.{ℕ, String, Bool, true, false, List, ◌≡◌, ◌⊎◌, inl, inr, refl, sym, subst}
use swarph_cli.Gateway.Db.{Db, BindingEvent}
use swarph_cli.Gateway.Monad.{Handler, Result, http, raise_if, ◌>>=◌, ◌>>◌}
use swarph_cli.Gateway.Replies.{Reply-cases, bind_reply}
use swarph_cli.Gateway.Config.{Config}
use swarph_cli.Gateway.Auth.{AuthContext, check_caller_binding}
use swarph_cli.Gateway.Auth.Binding.{check_caller_binding_frame}

bind_step :
    {A B : Type 0} (m : Handler A) (k : A → Handler B) (db : Db)
    → ((m >>= k) db).1 ≡ (m db).1 ⊎ ((a : A) × (((m >>= k) db).1 ≡ (k a (m db).1).1))
bind_step m k db = elim (Reply-cases (m db).0) [
  | inl (a, e) ↦ inr (a, rw (◌>>=◌, e) refl)
  | inr (code, e) ↦ inl (rw (◌>>=◌, e) refl)
]

-- A property of the database holds after two steps, if after each of them.
pub bind_keeps :
    {A B : Type 0} (m : Handler A) (k : A → Handler B) (db : Db) (P : Db → Type 0)
    → P (m db).1
    → ((a : A) → P (k a (m db).1).1)
    → P ((m >>= k) db).1
bind_keeps m k db P h f = elim (bind_step m k db) [
  | inl e ↦ subst P (sym e) h
  | inr (a, e) ↦ subst P (sym e) (f a)
]

pub guard_keeps :
    {B : Type 0} (c : Bool) (code : ℕ) (k : Handler B) (db : Db) (P : Db → Type 0)
    → P db
    → (c ≡ false → P (k db).1)
    → P ((raise_if c code >> k) db).1
guard_keeps true code k db P h f = h
guard_keeps false code k db P h f = f refl

module _ (cfg : Config) (now : ℕ) (auth : AuthContext) where
  binding-same :
      (actor site : String) (db : Db) (P : Db → Type 0)
      → ((events : List BindingEvent) → P (record db { binding_events = events }))
      → P (check_caller_binding cfg now auth actor site true db).1
  binding-same actor site db P f =
      subst P (sym (check_caller_binding_frame cfg now auth actor site true db)) (f _)

  -- The binding changes only its own events.
  pub bound :
      {B : Type 0} (actor site : String) (k : Handler B) (db : Db) (P : Db → Type 0)
      → ((events : List BindingEvent) → P (record db { binding_events = events }))
      → ((events : List BindingEvent) → P (k (record db { binding_events = events })).1)
      → P ((check_caller_binding cfg now auth actor site true >>= λ _. k) db).1
  bound actor site k db P h f =
      bind_keeps (check_caller_binding cfg now auth actor site true) (λ _. k) db P
        (binding-same actor site db P h) (λ _. binding-same actor site db (λ x. P (k x).1) f)

  -- The same, of the reply too.
  pub bound_reply :
      {B : Type 0} (actor site : String) (k : Handler B) (db : Db) (Q : Result B → Db → Type 0)
      → ((code : ℕ) (events : List BindingEvent)
          → Q (http code) (record db { binding_events = events }))
      → ((events : List BindingEvent)
          → let x = record db { binding_events = events } in Q (k x).0 (k x).1)
      → let z = (check_caller_binding cfg now auth actor site true >>= λ _. k) db in Q z.0 z.1
  bound_reply actor site k db Q h f =
      bind_reply (check_caller_binding cfg now auth actor site true) (λ _. k) db Q
        (λ code. binding-same actor site db (Q (http code)) (h code))
        (λ _. binding-same actor site db (λ x. Q (k x).0 (k x).1) f)
