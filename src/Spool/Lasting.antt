-- ===== src/Spool/Lasting.antt =====
-- What lasts in a spool of src/swarph_cli/peer_executor.py: accepted receipts, and the order of fences.
use swarph_cli.Prelude.{
  ◌<◌, String, some, ◌≡◌, refl, sym, ap, subst, ◌∙◌, arith, ◌⊎◌, inl, inr, Bool-cases, Option-cases,
  ◌==◌, eq_iff, string_eq,
}
use swarph_cli.Prelude.Python.{Value, Fields, str}
use swarph_cli.Delivery.Entries.{done}
use swarph_cli.Spool.Files.{Claim, PeerSpool, empty_spool, write_atomic}
use swarph_cli.Spool.Envelopes.{canonical_id}
use swarph_cli.Spool.Results.{is_accepted, accepted_receipt}
use swarph_cli.Spool.Requests.{Run, here, next}
use swarph_cli.Spool.Changes.{
  Change, queued, started, claimed, taken_over, produced, received, Changes, nothing, change,
  IsSpool,
}
use swarph_cli.Spool.Steps.{HasDigests, cut-Changes}
use swarph_cli.Spool.Invariant.{put_kept, empty-IsSpool, Run-IsSpool}

canonical_text : (v : Value) (id : String) → canonical_id v ≡ some id → v ≡ str id
unfolding canonical_id
canonical_text v id h = ground arith

-- The claim is the same one, or a later one.
abbrev pub Follows : Claim → Claim → Type 0
Follows c d = (d ≡ c) ⊎ (c.fencing_token < d.fencing_token)

Follows-trans : (a b c : Claim) → Follows a b → Follows b c → Follows a c
Follows-trans a b c (inl p) (inl q) = inl (q ∙ p)
Follows-trans a b c (inl p) (inr q) = inr (subst (λ x. x.fencing_token < c.fencing_token) p q)
Follows-trans a b c (inr p) (inl q) = inr (subst (λ x. a.fencing_token < x.fencing_token) (sym q) p)
Follows-trans a b c (inr p) (inr q) = inr (omega arith)

-- A claim of the job follows `c`.
record HasLater (id : String) (c : Claim) (s : PeerSpool) : Type 0 where
  now : Claim
  claims : s.claims id ≡ some now
  follows : Follows c now

module _ (sha256 : String → String) where
  Change-receipt :
      (id : String) (r : Fields) (s t : PeerSpool)
      → Change sha256 s t
      → s.receipts id ≡ some r
      → t.receipts id ≡ some r
  unfolding write_atomic
  Change-receipt id r s t (queued _ _ _ _) h = h
  Change-receipt id r s t (started _ _ _) h = h
  Change-receipt id r s t (claimed _ _ _ _ _ _ _) h = h
  Change-receipt id r s t (taken_over _ _ _ _ _ _ _ _) h = h
  Change-receipt id r s t (produced _ _ _ _) h = h
  Change-receipt id r s t (received k x n _ _) h = put_kept k x s.receipts id r n h

  Changes-receipt :
      (id : String) (r : Fields) {s t : PeerSpool}
      → Changes sha256 s t
      → s.receipts id ≡ some r
      → t.receipts id ≡ some r
  Changes-receipt id r nothing h = h
  Changes-receipt id r (change c rest) h = Changes-receipt id r rest (Change-receipt id r _ _ c h)

  Run-receipt :
      (id : String) (r : Fields) {s t : PeerSpool}
      → HasDigests sha256
      → IsSpool sha256 s
      → Run sha256 s t
      → s.receipts id ≡ some r
      → t.receipts id ≡ some r
  Run-receipt id r digests ok here h = h
  Run-receipt id r digests ok (next n q run) h =
      Changes-receipt id r (cut-Changes sha256 n q _ digests (Run-IsSpool sha256 digests ok run))
        (Run-receipt id r digests ok run h)

  Change-HasLater :
      (id : String) (c : Claim) (s t : PeerSpool)
      → Change sha256 s t
      → HasLater id c s
      → HasLater id c t
  unfolding write_atomic
  Change-HasLater id c s t (queued _ _ _ _) h = record {
    now = h.now;
    claims = h.claims;
    follows = h.follows;
  }
  Change-HasLater id c s t (started _ _ _) h = record {
    now = h.now;
    claims = h.claims;
    follows = h.follows;
  }
  Change-HasLater id c s t (claimed k job d r n e one) h = record {
    now = h.now;
    claims = put_kept k d s.claims id h.now n h.claims;
    follows = h.follows;
  }
  Change-HasLater id c s t (taken_over k job prior d r p e one) h = elim (Bool-cases (k == id)) [
    | inl e ↦
        let same = (eq_iff k id).0 e in
        let is_prior : h.now ≡ prior = let q = sym h.claims ∙ ap s.claims (sym same) ∙ p in cc in
        record {
          now = d;
          claims = rw e refl;
          follows = Follows-trans c h.now d h.follows (rw is_prior (inr (omega arith)));
        }
    | inr e ↦ record { now = h.now; claims = rw e h.claims; follows = h.follows }
  ]
  Change-HasLater id c s t (produced _ _ _ _) h = record {
    now = h.now;
    claims = h.claims;
    follows = h.follows;
  }
  Change-HasLater id c s t (received _ _ _ _ _) h = record {
    now = h.now;
    claims = h.claims;
    follows = h.follows;
  }

  Changes-HasLater :
      (id : String) (c : Claim) {s t : PeerSpool}
      → Changes sha256 s t
      → HasLater id c s
      → HasLater id c t
  Changes-HasLater id c nothing h = h
  Changes-HasLater id c (change x rest) h =
      Changes-HasLater id c rest (Change-HasLater id c _ _ x h)

  Run-HasLater :
      (id : String) (c : Claim) {s t : PeerSpool}
      → HasDigests sha256
      → IsSpool sha256 s
      → Run sha256 s t
      → HasLater id c s
      → HasLater id c t
  Run-HasLater id c digests ok here h = h
  Run-HasLater id c digests ok (next n q run) h =
      Changes-HasLater id c (cut-Changes sha256 n q _ digests (Run-IsSpool sha256 digests ok run))
        (Run-HasLater id c digests ok run h)

  -- A receipt that is accepted once is accepted, the same, after any further calls, finished or cut by a
  -- crash: in every spool that calls made from an empty one, where SHA-256 digests are 64 hex digits.
  pub accepted_receipt-lasts :
      (s t : PeerSpool) (id : String) (r : Fields)
      → HasDigests sha256
      → Run sha256 empty_spool s
      → Run sha256 s t
      → accepted_receipt sha256 id s ≡ done (some r)
      → accepted_receipt sha256 id t ≡ done (some r)
  unfolding accepted_receipt
  accepted_receipt-lasts s t id r digests before after h =
      elim (Option-cases (canonical_id (str id))) [
        | inl e ↦ absurd (let h' = rw (accepted_receipt, e) at h in cc)
        | inr (name, e) ↦ elim (Option-cases (s.receipts id)) [
          | inl f ↦ absurd (let h' = rw (accepted_receipt, e, f) at h in cc)
          | inr (x, f) ↦ elim (Bool-cases (is_accepted sha256 x s)) [
            | inr a ↦ absurd (let h' = rw (accepted_receipt, e, f, a) at h in cc)
            | inl a ↦
                let same : x ≡ r = let h' = rw (accepted_receipt, e, f, a) at h in cc in
                let ok = Run-IsSpool sha256 digests (empty-IsSpool sha256) before in
                let there = Run-receipt id x digests ok after f in
                let (_, still) = (Run-IsSpool sha256 digests ok after).accepted id x there in
                rw (accepted_receipt, e, there, still) (ap (λ v. done (some v)) same)
          ]
        ]
      ]

  -- A job that has a claim has one ever after, whatever calls are made or cut by a crash: the same claim,
  -- or one with a greater fencing token; from an empty spool, where SHA-256 digests are 64 hex digits.
  pub claims-follow :
      (s t : PeerSpool) (id : String) (c : Claim)
      → HasDigests sha256
      → Run sha256 empty_spool s
      → Run sha256 s t
      → s.claims id ≡ some c
      → (d : Claim) × (t.claims id ≡ some d) × Follows c d
  claims-follow s t id c digests before after h =
      let ok = Run-IsSpool sha256 digests (empty-IsSpool sha256) before in
      let later =
        Run-HasLater id c digests ok after (record { now = c; claims = h; follows = inl refl }) in
      (later.now, later.claims, later.follows)
