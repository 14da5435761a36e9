-- ===== src/Gateway/Tests/Peers.antt =====
-- The registry of peers of src/swarph_cli/gateway/server.py at a peer whose token was revoked.
use swarph_cli.Prelude.{
  none, some, true, false, List, [], ◌∷◌, ◌≡◌, ◌⊎◌, ◌≢◌, String, eq_iff, refl, find, any, count,
  update_where, string_eq, nat_eq, option_eq,
}
use swarph_cli.Prelude.Python.{null}
use swarph_cli.Gateway.Db.{Db}
use swarph_cli.Gateway.Monad.{ok}
use swarph_cli.Gateway.Auth.{shared_token, per_peer_token, is_revoked, check_caller_binding}
use swarph_cli.Gateway.Fixtures.{test_config, one_peer, test_peer}
use swarph_cli.Gateway.PeerRows.{
  PatchRequest, UnrevokeRequest, RegisterRequest, minted, registered, peer_row, is_ratified,
  max_token, max_revocation, high_water_mark, new_generation, upsert_peer,
}
use swarph_cli.Gateway.Registry.{
  deregister_peer, register_peer, unrevoke_peer, ratify_peer, Request, register, peers_register,
  serve, unrevoke, peer_unrevoke,
}
use swarph_cli.Gateway.Registry.Revoked.{IsUnrevoke, serve-is_revoked}
use swarph_cli.Gateway.Registry.Ratified.{IsRatify, serve-is_ratified}
use swarph_cli.Gateway.Registry.Actors.{with_mismatch, serve-mismatch}
use swarph_cli.Gateway.Registry.Minted.{IsFresh, peers_register-IsFresh}

-- `bob` is ratified and holds a token; a token of `ada` was revoked.
abbrev two_peers : Db
two_peers = record one_peer {
  peers = test_peer "bob" true ∷ test_peer "ada" false ∷ [];
  revocations =
      record {
        peer = "ada";
        key_generation = 2;
        action = "revoke";
        actor = "ada";
        reason = some "deregister";
        witness_dm_id = none;
        created_at = 1;
      }
      ∷ [];
}

abbrev unrevoke_request : UnrevokeRequest
unrevoke_request = record {
  key_generation = 2;
  witness = "bob";
  reason = none;
  witness_dm_id = none;
}

abbrev patch : PatchRequest
patch = record {
  ratified = true;
  ratified_by = "bob";
  reason = none;
  witness_dm_id = none;
  dm_exists = true;
}

abbrev registration : RegisterRequest
registration = record {
  name = "ada";
  url = "http://ada";
  capabilities = null;
  defer_token_mint = false;
}

ada_revoked : is_revoked two_peers.revocations "ada" 2 ≡ true
unfolding is_revoked
ada_revoked = refl

ada_live :
    is_revoked
      (serve test_config 5 shared_token
        (unrevoke_peer "ada" unrevoke_request)
        two_peers).revocations
      "ada"
      2
    ≡ false
unfolding is_revoked serve peer_unrevoke unrevoke peer_row find max_token check_caller_binding
ada_live = refl

ada_out : is_ratified "ada" two_peers ≡ false
unfolding is_ratified peer_row find
ada_out = refl

ada_registered :
    (peers_register test_config 5 shared_token "raw" registration two_peers).0
    ≡ ok (registered false (some "raw") minted false)
unfolding peers_register register new_generation high_water_mark max_token max_revocation
    upsert_peer is_ratified peer_row find any update_where count check_caller_binding
ada_registered = refl

serve-is_revoked_example :
    let c = unrevoke_peer "ada" unrevoke_request in
    (is_revoked (serve test_config 5 shared_token c two_peers).revocations "ada" 2 ≡ true)
    ⊎ IsUnrevoke c "ada" 2 two_peers
serve-is_revoked_example =
    serve-is_revoked test_config 5 shared_token (unrevoke_peer "ada" unrevoke_request) two_peers
      "ada" 2 ada_revoked

serve-is_ratified_example :
    let after = serve test_config 5 shared_token (ratify_peer "ada" patch) two_peers in
    (is_ratified "ada" after ≡ false)
    ⊎ IsRatify test_config 5 shared_token (ratify_peer "ada" patch) "ada" two_peers after
serve-is_ratified_example =
    serve-is_ratified test_config 5 shared_token (ratify_peer "ada" patch) two_peers "ada" ada_out

peers_register-IsFresh_example :
    IsFresh "ada" two_peers
      (peers_register test_config 5 shared_token "raw" registration two_peers).1
peers_register-IsFresh_example =
    peers_register-IsFresh test_config 5 shared_token "raw" registration two_peers
      (registered false (some "raw") minted false) "raw" ada_registered refl

-- After its ratification, `ada` is asked to be deregistered, by herself and by `bob`, and registers anew.
abbrev later_requests : List Request
later_requests =
    record { now = 6; auth = shared_token; call = deregister_peer "ada" }
    ∷ record { now = 7; auth = shared_token; call = register_peer "raw" registration }
    ∷ record { now = 8; auth = per_peer_token "bob" 1; call = deregister_peer "ada" }
    ∷ []

bob-eve : ◌≢◌ {A = String} "eve" "bob"
bob-eve e = let h : false ≡ true = (eq_iff "eve" "bob").1 e in cc

-- `eve` ratifies `ada` in the name of `bob`.
serve-mismatch_example :
    serve test_config 5 (per_peer_token "eve" 1) (ratify_peer "ada" patch) two_peers
    ≡ with_mismatch test_config 5 "eve" 1 (ratify_peer "ada" patch) two_peers
serve-mismatch_example =
    serve-mismatch test_config 5 "eve" 1 (ratify_peer "ada" patch) two_peers refl bob-eve
