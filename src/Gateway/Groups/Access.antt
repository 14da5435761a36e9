-- ===== src/Gateway/Groups/Access.antt =====
-- The answers of `authz_check` in src/swarph_cli/gateway/server.py against the tables of grants,
-- members and peers.
use swarph_cli.Prelude.{
  ℕ, ◌≤◌, String, none, some, Bool, true, false, ◌&&◌, ◌||◌, List, [], ◌∷◌, ◌++◌, map, ◌==◌, ◌≡◌,
  refl, sym, ◌∙◌, subst, arith, if◌then◌else◌, string_eq, nat_eq, any, where_rows, where_rows-In,
  any-In, All, In, Bool-cases, ◌⊎◌, inl, inr, eq_iff, ltb,
}
use swarph_cli.Prelude.Python.{has_key}
use swarph_cli.Gateway.Db.{Db, Peer, ChannelMember, GroupMember, GroupGrant}
use swarph_cli.Gateway.Grants.{
  is_virtual, level_rank, all_peers, peer_groups, passes, group_grants_for, level_below, best_grant,
  Answer, by_grant, authz_check,
}

below_rank : (a b : String) → level_below a b ≡ true → level_rank a ≤ level_rank b
unfolding level_below
below_rank a b h = elim (Bool-cases (ltb (level_rank a) (level_rank b))) [
  | inl e ↦ lt (level_rank a) (level_rank b) e
  | inr e ↦
      same (level_rank a) (level_rank b)
        (rest (ltb (level_rank a) (level_rank b)) (level_rank a == level_rank b) _ e h)
]
  where
    lt : (m n : ℕ) → ltb m n ≡ true → m ≤ n
    lt m n h = ground arith

    same : (m n : ℕ) → (m == n) ≡ true → m ≤ n
    same m n h = ground arith

    rest : (x y z : Bool) → x ≡ false → (x || y && z) ≡ true → y ≡ true
    rest x y z e h = ground arith

not_below_rank : (a b : String) → level_below a b ≡ false → level_rank b ≤ level_rank a
unfolding level_below
not_below_rank a b h =
    least (level_rank a) (level_rank b) (first (ltb (level_rank a) (level_rank b)) _ h)
  where
    first : (x y : Bool) → (x || y) ≡ false → x ≡ false
    first x y h = ground arith

    least : (m n : ℕ) → ltb m n ≡ false → n ≤ m
    least m n h = ground arith

-- No row ranks above the chosen one, which is one of them.
abbrev Tops : GroupGrant → List GroupGrant → Type 0
Tops best rows = All (λ g. level_rank g.level ≤ level_rank best.level) rows

abbrev better : GroupGrant → GroupGrant → GroupGrant
better b g = if level_below b.level g.level then g else b

better-rank :
    (b g : GroupGrant)
    → (level_rank b.level ≤ level_rank (better b g).level)
      × (level_rank g.level ≤ level_rank (better b g).level)
      × (((better b g) ≡ b) ⊎ ((better b g) ≡ g))
better-rank b g = elim (Bool-cases (level_below b.level g.level)) [
  | inl e ↦ rw e (below_rank b.level g.level e, omega arith, inr refl)
  | inr e ↦ rw e (omega arith, not_below_rank b.level g.level e, inl refl)
]

best_grant-rank :
    (b : GroupGrant) (gs : List GroupGrant)
    → (level_rank b.level ≤ level_rank (best_grant b gs).level) × Tops (best_grant b gs) gs
unfolding best_grant
best_grant-rank b [] = (omega arith, tt)
best_grant-rank b (g ∷ gs) =
    let (top, rest) = best_grant-rank (better b g) gs in
    let (old, new, _) = better-rank b g in (omega arith, (omega arith, rest))

best_grant-In : (b : GroupGrant) (gs : List GroupGrant) → In (best_grant b gs) (b ∷ gs)
unfolding best_grant
best_grant-In b [] = inl refl
best_grant-In b (g ∷ gs) = elim (best_grant-In (better b g) gs) [
  | inl q ↦ elim ((better-rank b g).2) [ inl e ↦ inl (q ∙ e) | inr e ↦ inr (inl (q ∙ e)) ]
  | inr m ↦ inr (inr m)
]

-- What a grant that answers a check is.
pub record Grants (peer grant_type target : String) (db : Db) (g : GroupGrant) (a : Answer)
    : Type 0 where
  pub stored : In g db.group_grants
  pub held : has_key (peer_groups peer db) g.group ≡ true
  pub of_type : passes grant_type g.grant_type ≡ true
  pub of_target : passes target g.target ≡ true
  pub via : a.via_group ≡ some g.group
  pub at_level : a.level ≡ some g.level
  pub highest : Tops g (group_grants_for peer grant_type target db)

parts : (x y z : Bool) → (x && y && z) ≡ true → (x ≡ true) × (y ≡ true) × (z ≡ true)
parts true true true h = (refl, refl, refl)
parts true true false h = cc
parts true false z h = cc
parts false y z h = cc

by_grant-Grants :
    (peer grant_type target : String) (db : Db) (rows : List GroupGrant)
    → group_grants_for peer grant_type target db ≡ rows
    → (by_grant rows).allow ≡ true
    → (g : GroupGrant) × Grants peer grant_type target db g (by_grant rows)
unfolding group_grants_for
by_grant-Grants peer grant_type target db [] e h = cc
by_grant-Grants peer grant_type target db (r ∷ rs) e h =
    let (top, rest) = best_grant-rank r rs in
    let test = λ (g : GroupGrant).
      has_key (peer_groups peer db) g.group
      && passes grant_type g.grant_type
      && passes target g.target in
    let (stored, passed) =
      where_rows-In test db.group_grants (best_grant r rs) (rw e (best_grant-In r rs)) in
    let (held, of_type, of_target) = parts _ _ _ passed in
    (
      best_grant r rs,
      record {
        stored = stored;
        held = held;
        of_type = of_type;
        of_target = of_target;
        via = refl;
        at_level = refl;
        highest = rw e (top, rest);
      },
    )

-- A check is answered with yes only to a direct member of the channel it asks about, or by a stored
-- grant of a group of the peer that passes the filters of the check; the answer names that group and
-- the grant's level, and no grant that passes has a higher level.
pub authz_check-allows :
    (peer grant_type target : String) (db : Db)
    → (authz_check peer grant_type target db).allow ≡ true
    → ((grant_type ≡ "channel")
        × (any (λ (m : ChannelMember). m.channel == target && m.peer == peer) db.channel_members
            ≡ true))
      ⊎ ((g : GroupGrant) × Grants peer grant_type target db g
            (authz_check peer grant_type target db))
unfolding authz_check
authz_check-allows peer grant_type target db h = elim (Bool-cases (grant_type == "board")) [
  | inl b ↦ absurd (let h' = rw b at h in cc)
  | inr b ↦ elim (Bool-cases (grant_type == "channel")) [
    | inl c ↦
        elim (Bool-cases
          (any (λ (m : ChannelMember). m.channel == target && m.peer == peer) db.channel_members)) [
            | inl m ↦ inl ((eq_iff grant_type "channel").0 c, m)
            | inr m ↦ inr (
                rw (b, c, m) (by_grant-Grants peer grant_type target db _ refl (rw (b, c, m) at h)))
          ]
    | inr c ↦ inr (rw (b, c) (by_grant-Grants peer grant_type target db _ refl (rw (b, c) at h)))
  ]
]

has_key-map :
    {A : Type 0} (f : A → String) (xs : List A) (k : String)
    → has_key (map f xs) k ≡ true
    → (x : A) × In x xs × (f x ≡ k)
unfolding has_key
has_key-map f [] k h = cc
has_key-map f (x ∷ xs) k h = elim (Bool-cases (f x == k)) [
  | inl e ↦ (x, inl refl, (eq_iff (f x) k).0 e)
  | inr e ↦ let (y, m, q) = has_key-map f xs k (ground (arith, h)) in (y, inr m, q)
]

has_key-append :
    (ks : List String) (k last : String)
    → has_key (ks ++ last ∷ []) k ≡ true
    → (has_key ks k ≡ true) ⊎ (last ≡ k)
unfolding has_key
has_key-append [] k last h = inr (ground (arith, eq_iff last k))
has_key-append (x ∷ ks) k last h = elim (Bool-cases (x == k)) [
  | inl e ↦ inl (ground arith)
  | inr e ↦ elim (has_key-append ks k last (ground arith)) [
    | inl m ↦ inl (ground arith)
    | inr q ↦ inr q
  ]
]

abbrev stored_groups : String → Db → List String
stored_groups peer db =
    map (λ (m : GroupMember). m.group) (where_rows (λ m. m.peer == peer) db.group_members)

not_stored :
    (peer : String) (db : Db)
    → any (λ (m : GroupMember). is_virtual m.group) db.group_members ≡ false
    → has_key (stored_groups peer db) "ALL" ≡ false
not_stored peer db none_stored = elim (Bool-cases (has_key (stored_groups peer db) "ALL")) [
  | inr e ↦ e
  | inl e ↦
      let (m, within, named) =
        has_key-map (λ (m : GroupMember). m.group)
          (where_rows (λ m. m.peer == peer) db.group_members) "ALL" e in
      let (stored, _) = where_rows-In (λ m. m.peer == peer) db.group_members m within in
      let found =
        any-In (λ (m : GroupMember). is_virtual m.group) db.group_members m stored
          ((eq_iff m.group "ALL").1 named) in
      absurd cc
]

in_all :
    (peer : String) (db : Db)
    → any (λ (m : GroupMember). is_virtual m.group) db.group_members ≡ false
    → has_key (peer_groups peer db) "ALL" ≡ true
    → has_key (all_peers db.peers) peer ≡ true
unfolding peer_groups
in_all peer db none_stored held = elim (Bool-cases (has_key (all_peers db.peers) peer)) [
  | inl e ↦ e
  | inr e ↦
      let absent = not_stored peer db none_stored in
      let listed : has_key (stored_groups peer db) "ALL" ≡ true = rw (absent, e) at held in
      absurd cc
]

all_peers-ratified :
    (peers : List Peer) (peer : String)
    → has_key (all_peers peers) peer ≡ true
    → (p : Peer) × In p peers × (p.name ≡ peer) × (p.ratified ≡ true) × (p.enabled ≡ true)
unfolding all_peers
all_peers-ratified peers peer h =
    let (p, within, named) =
      has_key-map (λ (p : Peer). p.name) (where_rows (λ p. p.ratified && p.enabled) peers) peer h in
    let (stored, both) = where_rows-In (λ p. p.ratified && p.enabled) peers p within in
    (p, stored, named, ground arith, ground arith)

direct-via :
    (peer grant_type target : String) (db : Db)
    → grant_type ≡ "channel"
    → any (λ (m : ChannelMember). m.channel == target && m.peer == peer) db.channel_members ≡ true
    → (authz_check peer grant_type target db).via_group ≡ none
unfolding authz_check
direct-via peer grant_type target db c m = rw (c, m) refl

-- The rights of ALL reach ratified and enabled peers alone: where no membership of ALL is stored, a
-- peer whose check is answered through ALL is registered, ratified and enabled.
pub authz_check-ratified :
    (peer grant_type target : String) (db : Db)
    → any (λ (m : GroupMember). is_virtual m.group) db.group_members ≡ false
    → (authz_check peer grant_type target db).allow ≡ true
    → (authz_check peer grant_type target db).via_group ≡ some "ALL"
    → (p : Peer) × In p db.peers × (p.name ≡ peer) × (p.ratified ≡ true) × (p.enabled ≡ true)
authz_check-ratified peer grant_type target db none_stored allowed via =
    elim (authz_check-allows peer grant_type target db allowed) [
      | inl (c, m) ↦ absurd (let direct = direct-via peer grant_type target db c m in cc)
      | inr (g, r) ↦
          let named : g.group ≡ "ALL" = some_inj (sym r.via ∙ via) in
          all_peers-ratified db.peers peer (
            in_all peer db none_stored
              (subst (λ n. has_key (peer_groups peer db) n ≡ true) named r.held))
    ]
  where
    some_inj : {x y : String} → some x ≡ some y → x ≡ y
    some_inj h = cc
