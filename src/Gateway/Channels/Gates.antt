-- ===== src/Gateway/Channels/Gates.antt =====
-- Invite channels, and the channels that only the operator creates, in
-- src/swarph_cli/gateway/server.py.
use swarph_cli.Prelude.{
  where_rows-any, ℕ, String, some, Bool, true, false, not, ◌&&◌, ◌||◌, List, [], ◌∷◌, ◌==◌, ◌≡◌,
  refl, ap, sym, subst, ◌∙◌, arith, string_eq, nat_eq, find, any, where_rows, update_where,
  find-append, any-append, find-any, Bool-cases, Option-cases, inl, inr, eq_iff,
}
use swarph_cli.Prelude.Python.{has_key}
use swarph_cli.Gateway.Db.{Db, Channel, ChannelMember}
use swarph_cli.Gateway.Monad.{gets, raise_if, ◌>>=◌, ◌>>◌}
use swarph_cli.Gateway.Frames.{Keeps, keeps_rules, Preserves, preserves_rules}
use swarph_cli.Gateway.Config.{Config}
use swarph_cli.Gateway.Auth.{AuthContext, is_operator, check_caller_binding}
use swarph_cli.Gateway.Auth.Binding.{check_caller_binding_frame}
use swarph_cli.Gateway.Channels.{
  reserved_channel_names, ChannelCreateRequest, is_channel, is_member, insert_channel, with_policy,
  upsert_member, set_members, join_channel, channel_create, channel_join, channel_leave,
  ChannelCall, create, join, leave, serve,
}

-- `name` is an invite channel that `peer` is not in.
pub record IsOutside (name peer : String) (ch : Channel) (db : Db) : Type 0 where
  pub found : find (is_channel name) db.channels ≡ some ch
  pub invite : ch.visibility ≡ "invite"
  pub outside : any (is_member name peer) db.channel_members ≡ false

same_name : (a b p q : String) → (a == b && p == q) ≡ true → (a ≡ b) × (p ≡ q)
same_name a b p q h = (ground (arith, eq_iff a b), ground (arith, eq_iff p q))

update-any :
    (name peer wake_policy : String) (p : ChannelMember → Bool) (members : List ChannelMember)
    → any (is_member name peer) (update_where p (with_policy wake_policy) members)
      ≡ any (is_member name peer) members
unfolding any update_where
update-any name peer wake_policy p [] = refl
update-any name peer wake_policy p (m ∷ ms) =
    let rest = update-any name peer wake_policy p ms in
    elim (Bool-cases (p m)) [ inl e ↦ rw (e, rest) refl | inr e ↦ rw (e, rest) refl ]

module _ (name peer : String) (ch : Channel) where
  abbrev Outside : Db → Type 0
  Outside db = IsOutside name peer ch db

  -- A row of a channel that does not exist yet is no row of this one.
  other_channel :
      (joined joiner : String) (db : Db)
      → Outside db
      → any (is_channel joined) db.channels ≡ false
      → (any (is_member name peer) db.channel_members
          || (joined == name && joiner == peer || false))
        ≡ false
  other_channel joined joiner db h e = elim (Bool-cases (joined == name)) [
    | inl s ↦
        let gone =
          find-any (is_channel name) db.channels
            (subst (λ n. any (is_channel n) db.channels ≡ false) ((eq_iff joined name).0 s) e) in
        absurd (let found = h.found in cc)
    | inr s ↦ ground (arith, h.outside)
  ]

  insert-IsOutside :
      (now : ℕ) (req : ChannelCreateRequest) (visibility : String)
      → Preserves Outside (insert_channel now req visibility)
  unfolding insert_channel any
  insert-IsOutside now req visibility = record {
    at = λ db h. elim (Bool-cases (any (is_channel req.name) db.channels)) [
      | inl e ↦ rw e h
      | inr e ↦ elim (Bool-cases (any (is_member req.name req.created_by) db.channel_members)) [
        | inl t ↦ rw (e, t) h
        | inr t ↦
            rw (e, t)
              (record {
                found = find-append (is_channel name) db.channels _ ch h.found;
                invite = h.invite;
                outside =
                    any-append (is_member name peer) db.channel_members _
                    ∙ other_channel req.name req.created_by db h e;
              })
      ]
    ];
  }

  rejoined :
      (now : ℕ) (joined joiner wake_policy : String) (db : Db)
      → Outside db
      → any (is_member joined joiner) db.channel_members ≡ true
      → Outside (record db {
        channel_members = upsert_member now joined joiner wake_policy db.channel_members;
      })
  unfolding upsert_member
  rejoined now joined joiner wake_policy db h a = record {
    found = h.found;
    invite = h.invite;
    outside =
        rw a (
          update-any name peer wake_policy (is_member joined joiner) db.channel_members
          ∙ h.outside);
  }

  joined_new :
      (now : ℕ) (joined joiner wake_policy : String) (db : Db)
      → Outside db
      → any (is_member joined joiner) db.channel_members ≡ false
      → (any (is_member name peer) db.channel_members
          || (joined == name && joiner == peer || false))
        ≡ false
      → Outside (record db {
        channel_members = upsert_member now joined joiner wake_policy db.channel_members;
      })
  unfolding upsert_member any
  joined_new now joined joiner wake_policy db h a new = record {
    found = h.found;
    invite = h.invite;
    outside = rw a (any-append (is_member name peer) db.channel_members _ ∙ new);
  }

  -- A row of an open channel is no row of this one.
  open_channel :
      (joined joiner : String) (c : Channel) (db : Db)
      → Outside db
      → find (is_channel joined) db.channels ≡ some c
      → (c.visibility == "invite") ≡ false
      → (any (is_member name peer) db.channel_members
          || (joined == name && joiner == peer || false))
        ≡ false
  open_channel joined joiner c db h e v = elim (Bool-cases (joined == name)) [
    | inl s ↦
        let here =
          subst (λ n. find (is_channel n) db.channels ≡ some c) ((eq_iff joined name).0 s) e in
        let found = h.found in
        let one : c ≡ ch = cc in
        absurd (
          let closed =
            (eq_iff c.visibility "invite").1 (ap (λ (x : Channel). x.visibility) one ∙ h.invite) in
          cc)
    | inr s ↦ ground (arith, h.outside)
  ]

  -- A join is of this channel by this peer, and refused, or adds another row.
  join-IsOutside :
      (now : ℕ) (joined joiner wake_policy : String) (db : Db)
      → Outside db
      → Outside
          (join_channel now joined joiner wake_policy (find (is_channel joined) db.channels) db).1
  unfolding join_channel set_members
  join-IsOutside now joined joiner wake_policy db h =
      elim (Option-cases (find (is_channel joined) db.channels)) [
        | inl e ↦ rw e h
        | inr (c, e) ↦ elim (Bool-cases (any (is_member joined joiner) db.channel_members)) [
          | inl a ↦ elim (Bool-cases (c.visibility == "invite")) [
            | inl v ↦ rw (e, a, v) (rejoined now joined joiner wake_policy db h a)
            | inr v ↦ rw (e, a, v) (rejoined now joined joiner wake_policy db h a)
          ]
          | inr a ↦ elim (Bool-cases (c.visibility == "invite")) [
            | inl v ↦ rw (e, a, v) h
            | inr v ↦
                rw (e, a, v)
                  (joined_new now joined joiner wake_policy db h a
                    (open_channel joined joiner c db h e v))
          ]
        ]
      ]

  leave-IsOutside : (p : ChannelMember → Bool) → Preserves Outside (set_members (where_rows p))
  unfolding set_members
  leave-IsOutside p = record {
    at = λ db h. record {
      found = h.found;
      invite = h.invite;
      outside = where_rows-any p (is_member name peer) db.channel_members h.outside;
    };
  }

  module _ (cfg : Config) (now : ℕ) (auth : AuthContext) where
    binding-IsOutside :
        (actor site : String) (enforce : Bool)
        → Preserves Outside (check_caller_binding cfg now auth actor site enforce)
    binding-IsOutside actor site enforce = record {
      at = λ db h.
          subst Outside (sym (check_caller_binding_frame cfg now auth actor site enforce db))
            (record { found = h.found; invite = h.invite; outside = h.outside });
    }

    joining-IsOutside :
        (joined joiner wake_policy : String)
        → Preserves Outside (
            gets (λ db. find (is_channel joined) db.channels)
            >>= join_channel now joined joiner wake_policy)
    joining-IsOutside joined joiner wake_policy = record {
      at = λ db h. join-IsOutside now joined joiner wake_policy db h;
    }

    serve_keeps : (call : ChannelCall) → Preserves Outside (serve cfg now auth call)
    unfolding serve channel_create channel_join channel_leave
    serve_keeps (create req) =
        search (preserves_rules, binding-IsOutside, insert-IsOutside) depth 12
    serve_keeps (join joined req) =
        search (preserves_rules, binding-IsOutside, joining-IsOutside) depth 12
    serve_keeps (leave left leaver) =
        search (preserves_rules, binding-IsOutside, leave-IsOutside) depth 12

    -- Nobody gets into an invite channel by themselves: a peer that is not in it is not in it after
    -- any create, join or leave, whoever asks.
    pub serve-IsOutside :
        (call : ChannelCall) (db : Db) → Outside db → Outside (serve cfg now auth call db).1
    serve-IsOutside call db h = (serve_keeps call).at db h

module _ (cfg : Config) (now : ℕ) (auth : AuthContext) (req : ChannelCreateRequest) where
  abbrev channels : Db → List Channel
  channels db = db.channels

  gated :
      (visibility : String) (gate : Bool)
      → gate ≡ true
      → Keeps channels (raise_if gate 403 >> insert_channel now req visibility)
  gated visibility true h = record { at = λ db. refl }
  gated visibility false h = cc

  binding-Keeps :
      (actor site : String) (enforce : Bool)
      → Keeps channels (check_caller_binding cfg now auth actor site enforce)
  binding-Keeps actor site enforce = record {
    at = λ db. ap channels (check_caller_binding_frame cfg now auth actor site enforce db);
  }

  -- Who is not the operator creates no announce channel and none of a reserved name.
  channel_create-gated :
      (db : Db)
      → is_operator auth ≡ false
      → (req.kind == "announce" || has_key reserved_channel_names req.name) ≡ true
      → (channel_create cfg now auth req db).1.channels ≡ db.channels
  unfolding channel_create
  channel_create-gated db not_operator special =
      let gate : ((req.kind == "announce" || has_key reserved_channel_names req.name)
            && not (is_operator auth))
          ≡ true =
        ground arith in
      let keeps : Keeps channels (channel_create cfg now auth req) =
        search (keeps_rules, binding-Keeps, gated) depth 12 in
      keeps.at db
