-- ===== src/Spool/Invariant.antt =====
-- The files of a spool of src/swarph_cli/peer_executor.py fit together after any calls and crashes.
use swarph_cli.Prelude.{
  String, Option, none, some, Bool, true, ◌==◌, ◌≡◌, ◌≢◌, refl, sym, ap, subst, ◌∙◌, arith,
  Bool-cases, eq_iff, ◌⊎◌, inl, inr, string_eq,
}
use swarph_cli.Prelude.Python.{Fields, get_or_null}
use swarph_cli.Spool.Files.{
  Claim, Output, PeerSpool, put, take_out, empty_spool, output_name, write_atomic, write_claim,
  write_receipt,
}
use swarph_cli.Spool.Envelopes.{canonical_id}
use swarph_cli.Spool.Results.{matches_files, is_accepted}
use swarph_cli.Spool.Requests.{Run, here, next}
use swarph_cli.Spool.Changes.{
  Change, queued, started, claimed, taken_over, produced, received, Changes, nothing, change,
  IsSpool,
}
use swarph_cli.Spool.Evidence.{is_accepted-intro, is_accepted-schema, is_accepted-files}
use swarph_cli.Spool.Steps.{HasDigests, cut-Changes}

module _ {A : Type 0} where
  pub put_cases :
      (name : String) (a : A) (files : String → Option A) (k : String) (x : A)
      → put name a files k ≡ some x
      → ((name ≡ k) × (a ≡ x)) ⊎ ((name ≢ k) × (files k ≡ some x))
  put_cases name a files k x h = elim (Bool-cases (name == k)) [
    | inl e ↦ inl ((eq_iff name k).0 e, ground (arith, e))
    | inr e ↦ inr (λ same. ground (arith, eq_iff name k), ground (arith, e))
  ]

  pub put-none :
      (name : String) (a : A) (files : String → Option A) (k : String)
      → put name a files k ≡ none
      → files k ≡ none
  put-none name a files k h = elim (Bool-cases (name == k)) [
    | inl e ↦ absurd (ground arith)
    | inr e ↦ ground arith
  ]

  pub put_other :
      (name : String) (a : A) (files : String → Option A) (k : String)
      → name ≢ k
      → put name a files k ≡ files k
  put_other name a files k h = elim (Bool-cases (name == k)) [
    | inl e ↦ absurd (h ((eq_iff name k).0 e))
    | inr e ↦ rw e refl
  ]

  -- What a file holds stays, where the file that is written was not there.
  pub put_kept :
      (name : String) (a : A) (files : String → Option A) (k : String) (x : A)
      → files name ≡ none
      → files k ≡ some x
      → put name a files k ≡ some x
  put_kept name a files k x n h =
      put_other name a files k (λ e. let h' = sym n ∙ ap files e ∙ h in cc) ∙ h

  pub take_out-some :
      (name : String) (files : String → Option A) (k : String) (x : A)
      → take_out name files k ≡ some x
      → (name ≢ k) × (files k ≡ some x)
  take_out-some name files k x h = elim (Bool-cases (name == k)) [
    | inl e ↦ absurd (ground arith)
    | inr e ↦ (λ same. ground (arith, eq_iff name k), ground arith)
  ]

module _ (sha256 : String → String) where
  -- The three files that a receipt rests on.
  record Rests (r : Fields) (id : String) (s : PeerSpool) : Type 0 where
    job : Fields
    claim : Claim
    output : Output
    runs : s.running id ≡ some job
    claims : s.claims id ≡ some claim
    stands : s.outputs (output_name id (get_or_null "fencing_token" r)) ≡ some output

  matches-some :
      (legacy : Bool) (r : Fields) (x : Option Fields) (y : Option Claim) (z : Option Output)
      → matches_files sha256 legacy r x y z ≡ true
      → (job : Fields) × (c : Claim) × (o : Output) × (x ≡ some job) × (y ≡ some c) × (z ≡ some o)
  unfolding matches_files
  matches-some legacy r (some job) (some c) (some o) h = (job, c, o, refl, refl, refl)
  matches-some legacy r (some job) (some c) none h = cc
  matches-some legacy r (some job) none z h = cc
  matches-some legacy r none y z h = cc

  -- A receipt is accepted as long as the three files stay.
  pub is_accepted-kept :
      (r : Fields) (id : String) (s t : PeerSpool)
      → canonical_id (get_or_null "job_id" r) ≡ some id
      → ((job : Fields) → s.running id ≡ some job → t.running id ≡ some job)
      → ((c : Claim) → s.claims id ≡ some c → t.claims id ≡ some c)
      → ((name : String) (o : Output) → s.outputs name ≡ some o → t.outputs name ≡ some o)
      → is_accepted sha256 r s ≡ true
      → is_accepted sha256 r t ≡ true
  is_accepted-kept r id s t named run cl out h =
      let (legacy, schema) = is_accepted-schema sha256 r s h in
      let m = is_accepted-files sha256 r s legacy id schema named h in
      let (job, c, o, p, q, w) = matches-some legacy r _ _ _ m in
      is_accepted-intro sha256 r t legacy id schema named
        (rw (run job p, cl c q, out _ o w) (rw (p, q, w) at m))

  -- An accepted receipt is of a running job with a claim.
  pub accepted-claim :
      (r : Fields) (id : String) (s : PeerSpool)
      → canonical_id (get_or_null "job_id" r) ≡ some id
      → is_accepted sha256 r s ≡ true
      → (job : Fields) × (c : Claim) × (s.running id ≡ some job) × (s.claims id ≡ some c)
  accepted-claim r id s named acc =
      let (legacy, schema) = is_accepted-schema sha256 r s acc in
      let (job, c, o, p, q, w) =
        matches-some legacy r _ _ _ (is_accepted-files sha256 r s legacy id schema named acc) in
      (job, c, p, q)

  claim_written :
      (s : PeerSpool) (id : String) (job : Fields) (c : Claim)
      → s.running id ≡ some job
      → s.receipts id ≡ none
      → IsSpool sha256 s
      → IsSpool sha256 (write_atomic (write_claim id c) s)
  unfolding write_atomic
  claim_written s id job c r e ok = record {
    apart = ok.apart;
    fresh = λ k h.
        let (no_claim, no_receipt) = ok.fresh k h in
        (
          put_other id c s.claims k (λ same. let h' = sym r ∙ ap s.running same ∙ h in cc)
              ∙ no_claim,
          no_receipt,
        );
    accepted = λ k x h.
        let (named, a) = ok.accepted k x h in
        let other : id ≢ k = λ same. let h' = sym e ∙ ap s.receipts same ∙ h in cc in
        (
          named,
          is_accepted-kept x k s _ named (λ _ q. q) (λ d q. put_other id c s.claims k other ∙ q)
              (λ _ _ q. q) a,
        );
  }

  receipt_written :
      (s : PeerSpool) (id : String) (r : Fields)
      → canonical_id (get_or_null "job_id" r) ≡ some id
      → is_accepted sha256 r s ≡ true
      → IsSpool sha256 s
      → IsSpool sha256 (write_atomic (write_receipt id r) s)
  unfolding write_atomic
  receipt_written s id r named acc ok =
      let (job, c, p, q) = accepted-claim r id s named acc in
      record {
        apart = ok.apart;
        fresh = λ k h.
            let (no_claim, no_receipt) = ok.fresh k h in
            (
              no_claim,
              put_other id r s.receipts k (λ same. let h' = sym p ∙ ap s.running same ∙ h in cc)
                  ∙ no_receipt,
            );
        accepted = λ k x h. elim (put_cases id r s.receipts k x h) [
          | inl (same, new) ↦ (
            ap (λ v. canonical_id (get_or_null "job_id" v)) (sym new) ∙ named ∙ ap some same,
            subst (λ v. is_accepted sha256 v (write_atomic (write_receipt id r) s) ≡ true) new
                (is_accepted-kept r id s _ named (λ _ e. e) (λ _ e. e) (λ _ _ e. e) acc),
          )
          | inr (_, old) ↦
              let (n, a) = ok.accepted k x old in
              (n, is_accepted-kept x k s _ n (λ _ e. e) (λ _ e. e) (λ _ _ e. e) a)
        ];
      }

  pub Change-IsSpool : (s t : PeerSpool) → IsSpool sha256 s → Change sha256 s t → IsSpool sha256 t
  unfolding write_atomic
  Change-IsSpool s t ok (queued id job p r) = record {
    apart = λ k x h. elim (put_cases id job s.pending k x h) [
      | inl q ↦ subst (λ n. s.running n ≡ none) q.0 r
      | inr q ↦ ok.apart k x q.1
    ];
    fresh = ok.fresh;
    accepted = λ k x h.
        let (named, a) = ok.accepted k x h in
        (named, is_accepted-kept x k s _ named (λ _ e. e) (λ _ e. e) (λ _ _ e. e) a);
  }
  Change-IsSpool s t ok (started id job p) = record {
    apart = λ k x h.
        let (other, q) = take_out-some id s.pending k x h in
        put_other id job s.running k other ∙ ok.apart k x q;
    fresh = λ k h. ok.fresh k (put-none id job s.running k h);
    accepted = λ k x h.
        let (named, a) = ok.accepted k x h in
        (
          named,
          is_accepted-kept x k s _ named
              (λ j e. put_kept id job s.running k j (ok.apart id job p) e) (λ _ e. e) (λ _ _ e. e)
              a,
        );
  }
  Change-IsSpool s t ok (claimed id job c r n e one) = claim_written s id job c r e ok
  Change-IsSpool s t ok (taken_over id job prior c r n e one) = claim_written s id job c r e ok
  Change-IsSpool s t ok (produced name out n d) = record {
    apart = ok.apart;
    fresh = ok.fresh;
    accepted = λ k x h.
        let (named, a) = ok.accepted k x h in
        (
          named,
          is_accepted-kept x k s _ named (λ _ e. e) (λ _ e. e)
              (λ f o e. put_kept name out s.outputs f o n e) a,
        );
  }
  Change-IsSpool s t ok (received id r n named acc) = receipt_written s id r named acc ok

  pub Changes-IsSpool : {s t : PeerSpool} → Changes sha256 s t → IsSpool sha256 s → IsSpool sha256 t
  Changes-IsSpool nothing ok = ok
  Changes-IsSpool (change c rest) ok = Changes-IsSpool rest (Change-IsSpool _ _ ok c)

  pub empty-IsSpool : IsSpool sha256 empty_spool
  empty-IsSpool = record {
    apart = λ id job h. cc;
    fresh = λ id h. (refl, refl);
    accepted = λ id r h. absurd (cc);
  }

  pub Run-IsSpool :
      {s t : PeerSpool} → HasDigests sha256 → IsSpool sha256 s → Run sha256 s t → IsSpool sha256 t
  Run-IsSpool digests ok here = ok
  Run-IsSpool digests ok (next n r run) =
      let before = Run-IsSpool digests ok run in
      Changes-IsSpool (cut-Changes sha256 n r _ digests before) before
