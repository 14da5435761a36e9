-- ===== src/Gateway/Tests/Rights.antt =====
-- The groups of src/swarph_cli/gateway/server.py at concrete data.
use swarph_cli.Prelude.{
  String, none, some, true, false, ◌&&◌, ◌==◌, ◌≡◌, ◌⊎◌, refl, ap, In, any, where_rows, string_eq,
  nat_eq, option_eq,
}
use swarph_cli.Gateway.Db.{Peer, ChannelMember, GroupGrant, GroupMember}
use swarph_cli.Gateway.Fixtures.{test_config, one_peer}
use swarph_cli.Gateway.Auth.{per_peer_token}
use swarph_cli.Gateway.Groups
use swarph_cli.Gateway.Grants
use swarph_cli.Gateway.Grants.{authz_check}
use swarph_cli.Gateway.Groups.Audit.{Outcome, serve-Outcome}
use swarph_cli.Gateway.Groups.Virtual.{IsComputed, serve-IsComputed}
use swarph_cli.Gateway.Groups.Access.{Grants, authz_check-allows, authz_check-ratified}

serve-Outcome_example :
    Outcome test_config (Grants.group_actor (per_peer_token "ada" 1) none) one_peer (
      Groups.serve test_config 9
        (per_peer_token "ada" 1)
        none
        (Groups.add_grant "ALL" "quota" "board" "read")
        one_peer)
serve-Outcome_example =
    serve-Outcome test_config 9 (per_peer_token "ada" 1) none
      (Groups.add_grant "ALL" "quota" "board" "read") one_peer

check_run :
    authz_check "bob" "quota" "read-board" one_peer
    ≡ record { allow = true; via_group = some "ALL"; level = some "read" }
unfolding authz_check where_rows
check_run = refl

-- An empty filter of a check passes every grant of the peer.
check_run_unfiltered :
    authz_check "bob" "" "" one_peer
    ≡ record { allow = true; via_group = some "ALL"; level = some "read" }
unfolding authz_check where_rows
check_run_unfiltered = refl

authz_check-allows_example :
    ((◌≡◌ {A = String} "quota" "channel")
      × (any
            (λ (m : ChannelMember). m.channel == "read-board" && m.peer == "bob")
            one_peer.channel_members
          ≡ true))
    ⊎ ((g : GroupGrant) × Grants "bob" "quota" "read-board" one_peer g
          (authz_check "bob" "quota" "read-board" one_peer))
authz_check-allows_example =
    authz_check-allows "bob" "quota" "read-board" one_peer (ap (λ a. a.allow) check_run)

no_stored_all : any (λ (m : GroupMember). Grants.is_virtual m.group) one_peer.group_members ≡ false
unfolding any
no_stored_all = refl

authz_check-ratified_example :
    (p : Peer) × In p one_peer.peers × (p.name ≡ "bob") × (p.ratified ≡ true) × (p.enabled ≡ true)
authz_check-ratified_example =
    authz_check-ratified "bob" "quota" "read-board" one_peer no_stored_all
      (ap (λ a. a.allow) check_run) (ap (λ a. a.via_group) check_run)

serve-IsComputed_example :
    IsComputed
      (Groups.serve test_config 9
        (per_peer_token "ada" 1)
        none
        (Groups.add_member "ALL" "mallory")
        one_peer).1
serve-IsComputed_example =
    serve-IsComputed test_config 9 (per_peer_token "ada" 1) none (Groups.add_member "ALL" "mallory")
      one_peer no_stored_all
