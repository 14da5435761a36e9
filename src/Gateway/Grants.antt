-- ===== src/Gateway/Grants.antt =====
-- The rows of the groups of rights of src/swarph_cli/gateway/server.py: who is in a group, which
-- grants a peer holds, the check that every subsystem calls, and the audited writes.
use Prim.Native.String.{◌++◌ as join, compare}
use Prim.Native.Nat.{Ordering}
use swarph_cli.Prelude.{
  ℕ, String, Option, none, some, Bool, true, false, not, ◌&&◌, ◌||◌, List, [], ◌∷◌, ◌++◌, map, ltb,
  leb, ◌==◌, if◌then◌else◌, string_eq, nat_eq, any, count, length, where_rows,
}
use swarph_cli.Prelude.Text.{codes, strip, decimal}
use swarph_cli.Prelude.Python.{has_key}
use swarph_cli.Gateway.Db.{Db, Peer, ChannelMember, Group, GroupMember, GroupGrant, GroupAudit}
use swarph_cli.Gateway.Monad.{Handler, gets, raise_if, modify, ◌>>=◌}
use swarph_cli.Gateway.Auth.{AuthContext, per_peer_token}

-- `name in _GROUP_VIRTUAL`
abbrev pub is_virtual : String → Bool
is_virtual name = name == "ALL"

-- `_GRANT_LEVEL_RANK.get(level, 0)`
abbrev pub level_rank : String → ℕ
level_rank level =
    if level == "member"
    then 1
    else if level == "read"
    then 1
    else if level == "propose"
    then 2
    else if level == "write"
    then 2
    else if level == "execute"
    then 3
    else if level == "admin"
    then 4
    else 0

-- `(asserted or "").strip() or "anonymous"`
unfoldable pub asserted_actor : Option String → String
unfolding strip
asserted_actor none = "anonymous"
asserted_actor (some s) = if strip s == "" then "anonymous" else strip s

-- `_group_actor`
unfoldable pub group_actor : AuthContext → Option String → String
unfolding asserted_actor
group_actor (per_peer_token peer gen) asserted =
    if peer == "" then asserted_actor asserted else peer
group_actor _ asserted = asserted_actor asserted

-- A character of `[a-zA-Z0-9_.-]`
abbrev pub is_group_char : ℕ → Bool
is_group_char c =
    leb b'a' c && leb c b'z'
    || leb b'A' c && leb c b'Z'
    || leb b'0' c && leb c b'9'
    || c == b'_'
    || c == b'.'
    || c == b'-'

unfoldable pub is_group_name : String → Bool
is_group_name name =
    leb 1 (length (codes name))
    && leb (length (codes name)) 64
    && not (any (λ c. not (is_group_char c)) (codes name))

-- `_all_peers`: the members of ALL, ratified and enabled
unfoldable pub all_peers : List Peer → List String
all_peers peers = map (λ (p : Peer). p.name) (where_rows (λ p. p.ratified && p.enabled) peers)

-- `_peer_groups`
unfoldable pub peer_groups : String → Db → List String
unfolding all_peers has_key
peer_groups peer db =
    let out =
      map (λ (m : GroupMember). m.group) (where_rows (λ m. m.peer == peer) db.group_members) in
    if not (has_key out "ALL") && has_key (all_peers db.peers) peer then out ++ "ALL" ∷ [] else out

-- A filter of the query: an empty one is left out.
abbrev pub passes : String → String → Bool
passes filter value = filter == "" || value == filter

-- `_group_grants_for`
unfoldable pub group_grants_for : String → String → String → Db → List GroupGrant
unfolding peer_groups has_key
group_grants_for peer grant_type target db =
    where_rows
      (λ (g : GroupGrant).
        has_key (peer_groups peer db) g.group
        && passes grant_type g.grant_type
        && passes target g.target)
      db.group_grants

-- The tuples `(rank, level)` of two levels, compared.
unfoldable pub level_below : String → String → Bool
level_below a b =
    ltb (level_rank a) (level_rank b)
    || level_rank a == level_rank b && (elim (compare a b) [ Ordering.lt ↦ true | _ ↦ false ])

-- `max(rows, key=…)` of at least one row: the first of the greatest.
unfoldable pub best_grant : GroupGrant → List GroupGrant → GroupGrant
unfolding level_below
best_grant best [] = best
best_grant best (g ∷ gs) = best_grant (if level_below best.level g.level then g else best) gs

pub record Answer : Type 0 where
  pub allow : Bool
  pub via_group : Option String
  pub level : Option String

abbrev pub deny : Answer
deny = record { allow = false; via_group = none; level = none }

abbrev pub by_grant : List GroupGrant → Answer
by_grant [] = deny
by_grant (g ∷ gs) =
    let best = best_grant g gs in
    record { allow = true; via_group = some best.group; level = some best.level }

-- `POST /authz/check`
unfoldable pub authz_check : String → String → String → Db → Answer
unfolding group_grants_for best_grant
authz_check peer grant_type target db =
    if grant_type == "board"
    then deny
    else if grant_type == "channel"
        && any (λ (m : ChannelMember). m.channel == target && m.peer == peer) db.channel_members
    then record { allow = true; via_group = none; level = some "member" }
    else by_grant (group_grants_for peer grant_type target db)

-- `_group_audit`; the detail of a deletion counts what went with the group.
unfoldable pub audited :
    ℕ
    → String
    → String
    → String
    → Option String
    → Option String
    → Option String
    → Option String
    → Option String
    → GroupAudit
audited now actor action group target_peer grant_type target level detail = record {
  actor = actor;
  action = action;
  group = group;
  target_peer = target_peer;
  grant_type = grant_type;
  target = target;
  level = level;
  detail = detail;
  at = now;
}

-- A change of the tables, and its audit row.
unfoldable pub write_audited : (Db → Db) → (Db → GroupAudit) → Handler (Unit {0})
write_audited f row = modify λ db. record (f db) { group_audit = (f db).group_audit ++ row db ∷ [] }

unfoldable pub cascade : String → Db → String
unfolding decimal
cascade name db =
    let members = decimal (count (λ (m : GroupMember). m.group == name) db.group_members) in
    let grants = decimal (count (λ (g : GroupGrant). g.group == name) db.group_grants) in
    join "cascade:" (join members (join " members," (join grants " grants")))

abbrev pub is_group : String → Group → Bool
is_group name g = g.name == name

abbrev pub is_membership : String → String → GroupMember → Bool
is_membership name peer m = m.group == name && m.peer == peer

abbrev pub is_grant : String → String → String → GroupGrant → Bool
is_grant name grant_type target g =
    g.group == name && g.grant_type == grant_type && g.target == target

-- A test of the database, and the error that it raises.
abbrev pub raise_where : (Db → Bool) → ℕ → Handler (Unit {0})
raise_where test code = gets test >>= λ c. raise_if c code
