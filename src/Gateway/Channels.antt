-- ===== src/Gateway/Channels.antt =====
-- The channels of src/swarph_cli/gateway/server.py: create, join, leave and the two listings. The
-- bounds on the lengths of `created_by` and `peer` are those of their request types.
pub mod Membership
pub mod Gates
use swarph_cli.Prelude.{
  ℕ, String, Option, none, some, Bool, true, false, not, ◌&&◌, ◌||◌, List, [], ◌∷◌, ◌++◌, ltb, leb,
  ◌==◌, if◌then◌else◌, string_eq, nat_eq, find, any, count, length, where_rows, update_where,
}
use swarph_cli.Prelude.Text.{codes}
use swarph_cli.Prelude.Python.{has_key}
use swarph_cli.Gateway.Db.{Db, Channel, ChannelMember}
use swarph_cli.Gateway.Monad.{
  Result, Handler, ok, http, pure, raise, gets, or_raise, raise_if, modify, ◌>>=◌, ◌>>◌,
}
use swarph_cli.Gateway.Config.{Config}
use swarph_cli.Gateway.Auth.{AuthContext, is_operator, check_caller_binding}

abbrev pub valid_channel_kinds : List String
valid_channel_kinds = "announce" ∷ "topic" ∷ "group" ∷ []

abbrev pub valid_channel_visibility : List String
valid_channel_visibility = "open" ∷ "invite" ∷ []

abbrev pub valid_wake_policies : List String
valid_wake_policies = "mentions_only" ∷ "here_and_mentions" ∷ "all" ∷ "muted" ∷ []

abbrev pub reserved_channel_names : List String
reserved_channel_names = "announcements" ∷ "grok" ∷ "rho" ∷ "watchtower" ∷ []

-- A character of `_CHANNEL_NAME_CHARS`
abbrev pub is_name_char : ℕ → Bool
is_name_char c = leb b'a' c && leb c b'z' || leb b'0' c && leb c b'9' || c == b'-' || c == b'_'

unfoldable pub is_channel_name : String → Bool
is_channel_name name =
    leb 1 (length (codes name))
    && leb (length (codes name)) 64
    && not (any (λ c. not (is_name_char c)) (codes name))

-- `value or default`: an absent or empty text takes the default.
unfoldable pub or_default : Option String → String → String
or_default none default = default
or_default (some s) default = if s == "" then default else s

pub record ChannelCreateRequest : Type 0 where
  pub name : String
  pub kind : String
  pub visibility : Option String
  pub description : Option String
  pub created_by : String

pub record ChannelJoinRequest : Type 0 where
  pub peer : String
  pub wake_policy : Option String

abbrev pub is_channel : String → Channel → Bool
is_channel name c = c.name == name

abbrev pub is_member : String → String → ChannelMember → Bool
is_member name peer m = m.channel == name && m.peer == peer

-- The transaction of create: both rows, or 409 and neither, where a primary key is taken.
unfoldable pub insert_channel : ℕ → ChannelCreateRequest → String → Handler (Unit {0})
insert_channel now req visibility db =
    if any (is_channel req.name) db.channels
      || any (is_member req.name req.created_by) db.channel_members
    then (http 409, db)
    else (
      ok tt,
      record db {
        channels =
            db.channels
            ++ record {
              name = req.name;
              kind = req.kind;
              visibility = visibility;
              description = req.description;
              created_by = req.created_by;
              created_at = now;
            }
              ∷ [];
        channel_members =
            db.channel_members
            ++ record {
              channel = req.name;
              peer = req.created_by;
              wake_policy = "mentions_only";
              allow_broadcast = req.kind == "announce";
              joined_at = now;
            }
              ∷ [];
      },
    )

abbrev pub with_policy : String → ChannelMember → ChannelMember
with_policy wake_policy m = record m { wake_policy = wake_policy }

-- `INSERT … ON CONFLICT(channel, peer) DO UPDATE SET wake_policy`
unfoldable pub upsert_member :
    ℕ → String → String → String → List ChannelMember → List ChannelMember
upsert_member now name peer wake_policy members =
    if any (is_member name peer) members
    then update_where (is_member name peer) (with_policy wake_policy) members
    else members
      ++ record {
        channel = name;
        peer = peer;
        wake_policy = wake_policy;
        allow_broadcast = false;
        joined_at = now;
      }
        ∷ []

-- A change of the table of members.
unfoldable pub set_members : (List ChannelMember → List ChannelMember) → Handler (Unit {0})
set_members f = modify λ db. record db { channel_members = f db.channel_members }

-- The join of a channel that was found, or not: 404, and 403 for an invite channel that the peer is
-- not in yet.
unfoldable pub join_channel : ℕ → String → String → String → Option Channel → Handler (Unit {0})
join_channel now name peer wake_policy none = raise 404
join_channel now name peer wake_policy (some ch) = do
  already ← gets (λ db. any (is_member name peer) db.channel_members)
  raise_if (ch.visibility == "invite" && not already) 403
  set_members (upsert_member now name peer wake_policy)

module _ (cfg : Config) where
  -- `POST /channels`
  unfoldable pub channel_create : ℕ → AuthContext → ChannelCreateRequest → Handler (Unit {0})
  channel_create now auth req = do
    check_caller_binding cfg now auth req.created_by "channel_create" true
    raise_if (not (is_channel_name req.name)) 400
    raise_if (not (has_key valid_channel_kinds req.kind)) 400
    let visibility = or_default req.visibility "open"
    raise_if (not (has_key valid_channel_visibility visibility)) 400
    raise_if
        ((req.kind == "announce" || has_key reserved_channel_names req.name)
          && not (is_operator auth))
        403
    insert_channel now req visibility

  -- `POST /channels/{name}/join`
  unfoldable pub channel_join : ℕ → AuthContext → String → ChannelJoinRequest → Handler (Unit {0})
  channel_join now auth name req = do
    check_caller_binding cfg now auth req.peer "channel_join" true
    let wake_policy = or_default req.wake_policy "mentions_only"
    raise_if (not (has_key valid_wake_policies wake_policy)) 400
    ch ← gets (λ db. find (is_channel name) db.channels)
    join_channel now name req.peer wake_policy ch

  -- `POST /channels/{name}/leave`
  unfoldable pub channel_leave : ℕ → AuthContext → String → String → Handler (Unit {0})
  channel_leave now auth name peer = do
    check_caller_binding cfg now auth peer "channel_leave" true
    set_members (where_rows (λ m. not (is_member name peer m)))

-- One entry of `GET /channels`: the channel, `member_count` and, for a peer, `is_member`.
pub record ChannelEntry : Type 0 where
  pub channel : Channel
  pub member_count : ℕ
  pub is_member : Option Bool

unfoldable pub channel_entry : Option String → List ChannelMember → Channel → ChannelEntry
channel_entry peer members c = record {
  channel = c;
  member_count = count (λ m. m.channel == c.name) members;
  is_member = elim peer [
    | none ↦ none
    | some p ↦
        if p == "" then none else some (any (λ m. m.peer == p && m.channel == c.name) members)
  ];
}

-- `GET /channels/{name}/members`, in the order of the table.
unfoldable pub channel_member_list : String → Handler (List ChannelMember)
channel_member_list name = do
  found ← gets (λ db. any (is_channel name) db.channels)
  raise_if (not found) 404
  gets (λ db. where_rows (λ m. m.channel == name) db.channel_members)

-- A request that changes the channels, and the handler that it reaches.
pub data ChannelCall : Type 0 where
  create : ChannelCreateRequest → ChannelCall
  join : String → ChannelJoinRequest → ChannelCall
  leave : String → String → ChannelCall

unfoldable pub serve : Config → ℕ → AuthContext → ChannelCall → Handler (Unit {0})
serve cfg now auth (create req) = channel_create cfg now auth req
serve cfg now auth (join name req) = channel_join cfg now auth name req
serve cfg now auth (leave name peer) = channel_leave cfg now auth name peer
