-- ===== src/Gateway/Registry/Actors.antt =====
-- Whom a request to the registry of src/swarph_cli/gateway/server.py acts for, and the caller binding.
use swarph_cli.Prelude.{
  ℕ, String, true, [], ◌∷◌, ◌++◌, ◌==◌, not, ◌≡◌, ◌≢◌, refl, ap, ◌∙◌, string_eq,
}
use swarph_cli.Gateway.Db.{Db}
use swarph_cli.Gateway.Monad.{Handler, http, raise_if, ◌>>=◌, ◌>>◌}
use swarph_cli.Gateway.Config.{Config}
use swarph_cli.Gateway.Auth.{per_peer_token, check_caller_binding}
use swarph_cli.Gateway.Auth.Binding.{check_caller_binding-mismatch}
use swarph_cli.Gateway.Registry.{
  Call, register_peer, ratify_peer, deregister_peer, unrevoke_peer, register, ratify, deregister,
  unrevoke, peers_register, peer_ratify, peer_deregister, peer_unrevoke, serve,
}

-- The peer in whose name the request acts: the one that registers or leaves, or the witness.
abbrev pub actor_of : Call → String
actor_of (register_peer raw req) = req.name
actor_of (ratify_peer name req) = req.ratified_by
actor_of (deregister_peer name) = name
actor_of (unrevoke_peer name req) = req.witness

abbrev pub site_of : Call → String
site_of (register_peer raw req) = "peers_register_mint"
site_of (ratify_peer name req) = "peer_ratify"
site_of (deregister_peer name) = "peer_deregister"
site_of (unrevoke_peer name req) = "peer_unrevoke"

module _ (cfg : Config) (now : ℕ) (peer : String) (gen : ℕ) where
  -- The database with the mismatch recorded, and nothing else changed.
  abbrev pub with_mismatch : Call → Db → Db
  with_mismatch c db = record db {
    binding_events =
        db.binding_events
        ++ record {
          time = now;
          peer = peer;
          event_type = "caller_binding_mismatch";
          site = site_of c;
          claimed_actor = actor_of c;
        }
          ∷ [];
  }

  -- A handler behind the binding does not run.
  bound_out :
      {A : Type 0} (k : Handler A) (c : Call) (db : Db)
      → cfg.caller_binding_enforce ≡ true
      → peer ≢ actor_of c
      → ((check_caller_binding cfg now (per_peer_token peer gen) (actor_of c) (site_of c) true
            >>= λ _. k)
          db).1
        ≡ with_mismatch c db
  bound_out k c db enforced other =
      let refused =
        check_caller_binding-mismatch cfg now peer gen (actor_of c) (site_of c) true db other in
      let run : check_caller_binding cfg now (per_peer_token peer gen) (actor_of c) (site_of c) true
            db
          ≡ (http 403, with_mismatch c db) =
        refused ∙ rw enforced refl in
      ap (λ z. (((λ _. z) >>= λ _. k) db).1) run

  -- Where identities are enforced, a caller with a token of its own changes nothing of the registry in
  -- the name of another peer, as the peer that registers or leaves or as the witness: whatever it asks,
  -- all that changes is the record of the mismatch.
  pub serve-mismatch :
      (c : Call) (db : Db)
      → cfg.caller_binding_enforce ≡ true
      → peer ≢ actor_of c
      → serve cfg now (per_peer_token peer gen) c db ≡ with_mismatch c db
  unfolding serve peers_register peer_ratify peer_deregister peer_unrevoke
  serve-mismatch (register_peer raw req) db e h =
      bound_out (register cfg now (per_peer_token peer gen) raw req) (register_peer raw req) db e h
  serve-mismatch (ratify_peer name req) db e h =
      bound_out
        (raise_if (not req.ratified) 400
          >> (raise_if (req.ratified_by == name) 400
              >> ratify cfg now (per_peer_token peer gen) name req))
        (ratify_peer name req) db e h
  serve-mismatch (deregister_peer name) db e h =
      bound_out (deregister cfg now (per_peer_token peer gen) name) (deregister_peer name) db e h
  serve-mismatch (unrevoke_peer name req) db e h =
      bound_out
        (raise_if (req.witness == name) 403 >> unrevoke cfg now (per_peer_token peer gen) name req)
        (unrevoke_peer name req) db e h
