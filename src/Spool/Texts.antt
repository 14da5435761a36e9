-- ===== src/Spool/Texts.antt =====
-- The outputs that accepted receipts of src/swarph_cli/peer_executor.py rest on.
use swarph_cli.Prelude.{
  String, Option, none, some, Bool, true, false, ◌&&◌, ◌≡◌, refl, subst, arith, inl, inr,
  Bool-cases, Option-cases, ◌==◌, if◌then◌else◌, string_eq,
}
use swarph_cli.Prelude.Python.{Fields, int, str, get_or_null, value_eq}
use swarph_cli.Prelude.Values.{str-value_eq}
use swarph_cli.Delivery.Entries.{done}
use swarph_cli.Spool.Files.{Claim, Output, PeerSpool, empty_spool, output_name, write_atomic}
use swarph_cli.Spool.Envelopes.{canonical_id, persisted_schema, envelope_digest}
use swarph_cli.Spool.Results.{output_digest, matches_files, is_accepted, accepted_receipt}
use swarph_cli.Spool.Requests.{Run, here, next}
use swarph_cli.Spool.Changes.{
  Change, queued, started, claimed, taken_over, produced, received, Changes, nothing, change,
}
use swarph_cli.Spool.Steps.{HasDigests, cut-Changes}
use swarph_cli.Spool.Invariant.{empty-IsSpool, Run-IsSpool}

last_of_five : (a b c d e : Bool) → (a && b && c && d && e) ≡ true → e ≡ true
last_of_five a b c d e h = ground (arith, h)

module _ (sha256 : String → String) where
  -- Every output has the digest of its text.
  abbrev pub HasTexts : PeerSpool → Type 0
  HasTexts s =
      (name : String) (o : Output)
      → s.outputs name ≡ some o
      → o.output_digest ≡ output_digest sha256 o.text

  Change-HasTexts : (s t : PeerSpool) → Change sha256 s t → HasTexts s → HasTexts t
  unfolding write_atomic
  Change-HasTexts s t (queued _ _ _ _) h = h
  Change-HasTexts s t (started _ _ _) h = h
  Change-HasTexts s t (claimed _ _ _ _ _ _ _) h = h
  Change-HasTexts s t (taken_over _ _ _ _ _ _ _ _) h = h
  Change-HasTexts s t (received _ _ _ _ _) h = h
  Change-HasTexts s t (produced name out n d) h = λ k o e. elim (Bool-cases (name == k)) [
    | inl q ↦
        let same : out ≡ o = let e' = rw q at e in cc in
        subst (λ x. x.output_digest ≡ output_digest sha256 x.text) same d
    | inr q ↦ h k o (rw q at e)
  ]

  Changes-HasTexts : {s t : PeerSpool} → Changes sha256 s t → HasTexts s → HasTexts t
  Changes-HasTexts nothing h = h
  Changes-HasTexts (change c rest) h = Changes-HasTexts rest (Change-HasTexts _ _ c h)

  pub Run-HasTexts : {s : PeerSpool} → HasDigests sha256 → Run sha256 empty_spool s → HasTexts s
  Run-HasTexts digests here = λ name o e. absurd (cc)
  Run-HasTexts digests (next n r run) =
      Changes-HasTexts
        (cut-Changes sha256 n r _ digests (Run-IsSpool sha256 digests (empty-IsSpool sha256) run))
        (Run-HasTexts digests run)

  matches-digest :
      (legacy : Bool) (r : Fields) (x : Option Fields) (y : Option Claim) (z : Option Output)
      → matches_files sha256 legacy r x y z ≡ true
      → (o : Output) × (z ≡ some o) × (get_or_null "output_digest" r ≡ str o.output_digest)
  unfolding matches_files
  matches-digest legacy r (some job) (some c) (some o) h = (
    o,
    refl,
    str-value_eq o.output_digest _ (
        last_of_five
          (value_eq (get_or_null "destination_peer" r) (get_or_null "destination_peer" job))
          (value_eq (get_or_null "source_dm_id" r) (get_or_null "source_dm_id" job))
          (value_eq (get_or_null "fencing_token" r) (int c.fencing_token))
          (if legacy then true else (elim (envelope_digest sha256 job) [
            | none ↦ false
            | some digest ↦ value_eq (get_or_null "envelope_digest" r) (str digest)
          ]))
          (value_eq (str o.output_digest) (get_or_null "output_digest" r)) h),
  )
  matches-digest legacy r (some job) (some c) none h = cc
  matches-digest legacy r (some job) none z h = cc
  matches-digest legacy r none y z h = cc

  is_accepted-output :
      (r : Fields) (s : PeerSpool)
      → is_accepted sha256 r s ≡ true
      → (job : String) × (o : Output) × (canonical_id (get_or_null "job_id" r) ≡ some job)
        × (s.outputs (output_name job (get_or_null "fencing_token" r)) ≡ some o)
        × (get_or_null "output_digest" r ≡ str o.output_digest)
  unfolding is_accepted
  is_accepted-output r s h = elim (Option-cases (persisted_schema r)) [
    | inl p ↦ absurd (let h' = rw (is_accepted, p) at h in cc)
    | inr (legacy, p) ↦ elim (Option-cases (canonical_id (get_or_null "job_id" r))) [
      | inl n ↦ absurd (let h' = rw (is_accepted, p, n) at h in cc)
      | inr (id, n) ↦
          let (o, stands, digest) =
            matches-digest legacy r (s.running id) (s.claims id)
              (s.outputs (output_name id (get_or_null "fencing_token" r)))
              (rw (is_accepted, p, n) at h) in
          (id, o, n, stands, digest)
    ]
  ]

  -- A receipt that is accepted has an output, in the file of its job and fencing token, whose text has
  -- the digest of the receipt.
  pub accepted_receipt-output :
      (id : String) (r : Fields) (s : PeerSpool)
      → HasTexts s
      → accepted_receipt sha256 id s ≡ done (some r)
      → (job : String) × (o : Output) × (canonical_id (get_or_null "job_id" r) ≡ some job)
        × (s.outputs (output_name job (get_or_null "fencing_token" r)) ≡ some o)
        × (get_or_null "output_digest" r ≡ str (output_digest sha256 o.text))
  unfolding accepted_receipt
  accepted_receipt-output id r s texts h = elim (Option-cases (canonical_id (str id))) [
    | inl e ↦ absurd (let h' = rw (accepted_receipt, e) at h in cc)
    | inr (c, e) ↦ elim (Option-cases (s.receipts id)) [
      | inl f ↦ absurd (let h' = rw (accepted_receipt, e, f) at h in cc)
      | inr (x, f) ↦ elim (Bool-cases (is_accepted sha256 x s)) [
        | inr a ↦ absurd (let h' = rw (accepted_receipt, e, f, a) at h in cc)
        | inl a ↦
            let same : x ≡ r = let h' = rw (accepted_receipt, e, f, a) at h in cc in
            let (job, o, named, stands, digest) =
              is_accepted-output r s (subst (λ y. is_accepted sha256 y s ≡ true) same a) in
            (
              job,
              o,
              named,
              stands,
              subst (λ d. get_or_null "output_digest" r ≡ str d) (texts _ o stands) digest,
            )
      ]
    ]
  ]
