-- ===== src/Gateway/Tests/Rooms.antt =====
-- The channels of src/swarph_cli/gateway/server.py at concrete data.
use swarph_cli.Prelude.{none, false, ◌≡◌, refl, any, find, string_eq, nat_eq, option_eq}
use swarph_cli.Gateway.Db.{Channel}
use swarph_cli.Gateway.Fixtures.{test_config, one_peer}
use swarph_cli.Gateway.Auth.{per_peer_token, is_operator}
use swarph_cli.Gateway.Channels
use swarph_cli.Gateway.Channels.Membership.{HasOwners, serve-HasOwners}
use swarph_cli.Gateway.Channels.Gates.{IsOutside, serve-IsOutside}

one_peer-HasOwners : HasOwners one_peer
unfolding find
one_peer-HasOwners = ((_, refl, refl, refl), tt)

serve-HasOwners_example :
    HasOwners
      (Channels.serve test_config 9
        (per_peer_token "bob" 1)
        (Channels.join "announcements" (record { peer = "bob"; wake_policy = none }))
        one_peer).1
serve-HasOwners_example =
    serve-HasOwners test_config 9 (per_peer_token "bob" 1)
      (Channels.join "announcements" (record { peer = "bob"; wake_policy = none })) one_peer
      one_peer-HasOwners

abbrev war_room : Channel
war_room = record {
  name = "war-room";
  kind = "group";
  visibility = "invite";
  description = none;
  created_by = "ada";
  created_at = 1;
}

one_peer-IsOutside : IsOutside "war-room" "bob" war_room one_peer
unfolding find any
one_peer-IsOutside = record { found = refl; invite = refl; outside = refl }

serve-IsOutside_example :
    IsOutside "war-room" "bob" war_room
      (Channels.serve test_config 9
        (per_peer_token "bob" 1)
        (Channels.join "war-room" (record { peer = "bob"; wake_policy = none }))
        one_peer).1
serve-IsOutside_example =
    serve-IsOutside "war-room" "bob" war_room test_config 9 (per_peer_token "bob" 1)
      (Channels.join "war-room" (record { peer = "bob"; wake_policy = none })) one_peer
      one_peer-IsOutside

abbrev announce_request : Channels.ChannelCreateRequest
announce_request = record {
  name = "news";
  kind = "announce";
  visibility = none;
  description = none;
  created_by = "bob";
}

bob_no_operator : is_operator (per_peer_token "bob" 1) ≡ false
unfolding is_operator
bob_no_operator = refl
