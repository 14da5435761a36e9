-- ===== src/Gateway/Channels/Membership.antt =====
-- Who is in a channel and who may broadcast, whatever is asked of the channels of
-- src/swarph_cli/gateway/server.py.
use swarph_cli.Prelude.{
  ℕ, String, Option, none, some, Bool, true, false, List, [], ◌∷◌, ◌++◌, ◌==◌, ◌≡◌, refl, sym,
  subst, ◌∙◌, arith, string_eq, nat_eq, find, any, where_rows, update_where, All, All-append_one,
  find-append, find-append_none, Bool-cases, inl, inr, eq_iff,
}
use swarph_cli.Gateway.Db.{Db, Channel, ChannelMember}
use swarph_cli.Gateway.Frames.{Preserves, preserves_rules}
use swarph_cli.Gateway.Config.{Config}
use swarph_cli.Gateway.Auth.{AuthContext, check_caller_binding}
use swarph_cli.Gateway.Auth.Binding.{check_caller_binding_frame}
use swarph_cli.Gateway.Channels.{
  ChannelCreateRequest, is_channel, is_member, insert_channel, with_policy, upsert_member,
  set_members, join_channel, channel_create, channel_join, channel_leave, ChannelCall, create, join,
  leave, serve,
}

-- A member that may broadcast made the announce channel it is in.
abbrev pub Broadcasts : List Channel → Bool → String → String → Type 0
Broadcasts channels false name peer = Unit
Broadcasts channels true name peer =
    (c : Channel) × (find (is_channel name) channels ≡ some c)
    × (c.kind ≡ "announce")
    × (c.created_by ≡ peer)

abbrev pub MemberOk : List Channel → ChannelMember → Type 0
MemberOk channels m = Broadcasts channels m.allow_broadcast m.channel m.peer

abbrev pub HasOwners : Db → Type 0
HasOwners db = All (MemberOk db.channels) db.channel_members

Broadcasts-append :
    (channels : List Channel) (new : Channel) (b : Bool) (name peer : String)
    → Broadcasts channels b name peer
    → Broadcasts (channels ++ new ∷ []) b name peer
Broadcasts-append channels new false name peer h = h
Broadcasts-append channels new true name peer (c, f, k, p) =
    (c, find-append (is_channel name) channels (new ∷ []) c f, k, p)

members-append :
    (channels : List Channel) (new : Channel) (members : List ChannelMember)
    → All (MemberOk channels) members
    → All (MemberOk (channels ++ new ∷ [])) members
members-append channels new [] h = tt
members-append channels new (m ∷ ms) h = (
  Broadcasts-append channels new m.allow_broadcast m.channel m.peer h.0,
  members-append channels new ms h.1,
)

-- The creator of an announce channel may broadcast, no other creator.
Broadcasts-new :
    (channels : List Channel) (new : Channel) (announce : Bool)
    → any (is_channel new.name) channels ≡ false
    → (new.kind == "announce") ≡ announce
    → Broadcasts (channels ++ new ∷ []) announce new.name new.created_by
unfolding find
Broadcasts-new channels new false fresh k = tt
Broadcasts-new channels new true fresh k = (
  new,
  find-append_none (is_channel new.name) channels (new ∷ []) fresh
      ∙ ground (arith, eq_iff new.name new.name),
  (eq_iff new.kind "announce").0 k,
  refl,
)

policy-MemberOk :
    (channels : List Channel) (p : ChannelMember → Bool) (wake_policy : String)
    (members : List ChannelMember)
    → All (MemberOk channels) members
    → All (MemberOk channels) (update_where p (with_policy wake_policy) members)
unfolding update_where
policy-MemberOk channels p wake_policy [] h = tt
policy-MemberOk channels p wake_policy (m ∷ ms) h = elim (Bool-cases (p m)) [
  | inl e ↦ rw e (h.0, policy-MemberOk channels p wake_policy ms h.1)
  | inr e ↦ rw e (h.0, policy-MemberOk channels p wake_policy ms h.1)
]

rest-MemberOk :
    (channels : List Channel) (p : ChannelMember → Bool) (members : List ChannelMember)
    → All (MemberOk channels) members
    → All (MemberOk channels) (where_rows p members)
unfolding where_rows
rest-MemberOk channels p [] h = tt
rest-MemberOk channels p (m ∷ ms) h = elim (Bool-cases (p m)) [
  | inl e ↦ rw e (h.0, rest-MemberOk channels p ms h.1)
  | inr e ↦ rw e (rest-MemberOk channels p ms h.1)
]

insert-HasOwners :
    (now : ℕ) (req : ChannelCreateRequest) (visibility : String)
    → Preserves HasOwners (insert_channel now req visibility)
unfolding insert_channel
insert-HasOwners now req visibility = record {
  at = λ db h. elim (Bool-cases (any (is_channel req.name) db.channels)) [
    | inl e ↦ rw e h
    | inr e ↦ elim (Bool-cases (any (is_member req.name req.created_by) db.channel_members)) [
      | inl t ↦ rw (e, t) h
      | inr t ↦
          rw (e, t)
            (All-append_one (MemberOk _) db.channel_members _
              (members-append db.channels _ db.channel_members h)
              (Broadcasts-new db.channels _ (req.kind == "announce") e refl))
    ]
  ];
}

upsert-HasOwners :
    (now : ℕ) (name peer wake_policy : String)
    → Preserves HasOwners (set_members (upsert_member now name peer wake_policy))
unfolding set_members upsert_member
upsert-HasOwners now name peer wake_policy = record {
  at = λ db h. elim (Bool-cases (any (is_member name peer) db.channel_members)) [
    | inl e ↦
        rw e (policy-MemberOk db.channels (is_member name peer) wake_policy db.channel_members h)
    | inr e ↦ rw e (All-append_one (MemberOk db.channels) db.channel_members _ h tt)
  ];
}

join-HasOwners :
    (now : ℕ) (name peer wake_policy : String) (ch : Option Channel)
    → Preserves HasOwners (join_channel now name peer wake_policy ch)
unfolding join_channel
join-HasOwners now name peer wake_policy none = search preserves_rules
join-HasOwners now name peer wake_policy (some ch) =
    search (preserves_rules, upsert-HasOwners) depth 9

leave-HasOwners : (p : ChannelMember → Bool) → Preserves HasOwners (set_members (where_rows p))
unfolding set_members
leave-HasOwners p = record { at = λ db h. rest-MemberOk db.channels p db.channel_members h }

module _ (cfg : Config) (now : ℕ) (auth : AuthContext) where
  binding-HasOwners :
      (actor site : String) (enforce : Bool)
      → Preserves HasOwners (check_caller_binding cfg now auth actor site enforce)
  binding-HasOwners actor site enforce = record {
    at = λ db h.
        subst HasOwners (sym (check_caller_binding_frame cfg now auth actor site enforce db)) h;
  }

  serve_keeps : (call : ChannelCall) → Preserves HasOwners (serve cfg now auth call)
  unfolding serve channel_create channel_join channel_leave
  serve_keeps (create req) = search (preserves_rules, binding-HasOwners, insert-HasOwners) depth 12
  serve_keeps (join name req) = search (preserves_rules, binding-HasOwners, join-HasOwners) depth 12
  serve_keeps (leave name peer) =
      search (preserves_rules, binding-HasOwners, leave-HasOwners) depth 12

  -- Whatever is asked of the channels, the only members that may broadcast are the creators of
  -- announce channels in their own channel: joining, leaving and joining again never grants it.
  pub serve-HasOwners :
      (call : ChannelCall) (db : Db) → HasOwners db → HasOwners (serve cfg now auth call db).1
  serve-HasOwners call db h = (serve_keeps call).at db h
