-- ===== src/Gateway/Auth/Binding.antt =====
-- The caller binding: when it refuses, and what it records.
use swarph_cli.Prelude.{
  ℕ, String, Bool, true, ◌&&◌, ◌==◌, ◌≡◌, ◌≢◌, option_eq, [], ◌∷◌, ◌++◌, Bool-cases, inl, inr,
  if◌then◌else◌, string_eq, arith, eq_iff,
}
use swarph_cli.Gateway.Db.{Db}
use swarph_cli.Gateway.Monad.{ok, http}
use swarph_cli.Gateway.Config.{Config}
use swarph_cli.Gateway.Auth.{
  AuthContext, shared_token, per_peer_token, user_identity, cell_join, check_caller_binding,
}

module _ (cfg : Config) where
  -- A caller with a per-peer token that names another actor is refused with 403 exactly when
  -- identities are enforced at the site and by the configuration; refused or not, the mismatch is
  -- recorded, and nothing else of the database changes.
  pub check_caller_binding-mismatch :
      (now : ℕ) (peer : String) (gen : ℕ) (actor site : String) (enforce : Bool) (db : Db)
      → peer ≢ actor
      → check_caller_binding cfg now (per_peer_token peer gen) actor site enforce db ≡ (
        (if enforce && cfg.caller_binding_enforce then http 403 else ok tt),
        record db {
          binding_events =
              db.binding_events
              ++ record {
                time = now;
                peer = peer;
                event_type = "caller_binding_mismatch";
                site = site;
                claimed_actor = actor;
              }
                ∷ [];
        },
      )
  unfolding check_caller_binding
  check_caller_binding-mismatch now peer gen actor site enforce db h =
      ground (arith, eq_iff peer actor)

  -- All that the binding writes is its record.
  pub check_caller_binding_frame :
      (now : ℕ) (auth : AuthContext) (actor site : String) (enforce : Bool) (db : Db)
      → let db' = (check_caller_binding cfg now auth actor site enforce db).1 in
        db' ≡ record db { binding_events = db'.binding_events }
  unfolding check_caller_binding
  check_caller_binding_frame now shared_token actor site enforce db = ground arith
  check_caller_binding_frame now (per_peer_token p g) actor site enforce db =
      elim (Bool-cases (p == actor)) [ inl e ↦ ground arith | inr e ↦ ground arith ]
  check_caller_binding_frame now (user_identity _ _ _) actor site enforce db = ground arith
  check_caller_binding_frame now (cell_join _) actor site enforce db = ground arith

  -- A caller bound to one peer that names another is refused wherever identities are enforced.
  pub check_caller_binding_refuses :
      (now : ℕ) (peer : String) (gen : ℕ) (actor site : String) (db : Db)
      → peer ≢ actor
      → cfg.caller_binding_enforce ≡ true
      → (check_caller_binding cfg now (per_peer_token peer gen) actor site true db).0 ≡ http 403
  unfolding check_caller_binding
  check_caller_binding_refuses now peer gen actor site db h e = ground (arith, eq_iff peer actor)
