-- ===== src/Delivery/Fits.antt =====
-- When a receipt is one for a claim: what the two ways out of the ledger of
-- src/swarph_cli/delivery_queue.py let pass.
use swarph_cli.Prelude.{
  ℕ, String, List, ◌||◌, none, Bool, some, true, false, false, ◌&&◌, ◌≡◌, refl, ap, subst, ◌∙◌,
  arith, [], ◌∷◌, Bool-cases, Option-cases, inl, inr, string_eq, nat_eq, option_eq,
}
use swarph_cli.Prelude.Python.{
  keys_are, Value, Fields, int, str, dict, get, get_or_null, value_eq, is_strict_int,
  is_positive_int, has_all,
}
use swarph_cli.Prelude.Values.{value_eq_int_refl, value_eq-strict}
use swarph_cli.Delivery.Entries.{Job, job_dict}
use swarph_cli.Delivery.Digest.{is_digest}
use swarph_cli.Delivery.Receipts.{
  is_receipt, id_of, agree, claim_fields, spool_required, as_dict, legacy_ref_fields, is_text,
  is_source_ref, spool_ref, fits_claim,
}

-- The receipt names the message, the claim's job and its destination, with Python's `==`, and an output
-- by its digest.
pub record IsReceiptOf (r : Fields) (id : ℕ) (j : Job) : Type 0 where
  pub message : value_eq (get_or_null "source_dm_id" r) (int id) ≡ true
  pub job_id : value_eq (get_or_null "job_id" r) (str j.job_id) ≡ true
  pub destination : value_eq (get_or_null "destination_peer" r) (str j.destination_peer) ≡ true
  pub digest : is_digest (get_or_null "output_digest" r) ≡ true

-- A service receipt carries the claim's fencing token.
pub record IsServiceReceipt (r : Fields) (id : ℕ) (j : Job) : Type 0 where
  pub receipt : IsReceiptOf r id j
  pub fence : value_eq (get_or_null "fencing_token" r) (int j.fencing_token) ≡ true

-- A receipt of the spool carries it in its `source_ref`.
pub record IsSpoolReceipt (r : Fields) (id : ℕ) (j : Job) : Type 0 where
  pub receipt : IsReceiptOf r id j
  pub ref : Fields
  pub sourced : get_or_null "source_ref" r ≡ dict ref
  pub fence : value_eq (int j.fencing_token) (get_or_null "queue_claim_fence" ref) ≡ true

parts : (a b : Bool) → (a && b) ≡ true → (a ≡ true) × (b ≡ true)
parts true true h = (refl, refl)
parts true false h = cc
parts false b h = cc

three : (a b c : Bool) → (a && b && c) ≡ true → (a ≡ true) × (c ≡ true)
three a b c h = ground (arith, h)

seven :
    (a b c d e f g : Bool)
    → (a && b && c && d && e && f && g) ≡ true
    → (c ≡ true) × (e ≡ true) × (f ≡ true)
seven a b c d e f g h = ground (arith, h)

id_of-some : (v : Value) (n : ℕ) → id_of v ≡ some n → v ≡ int n
id_of-some (int m) n h = ground arith
id_of-some _ n h = cc

is_receipt-digest :
    (r : Fields) → is_receipt r ≡ true → is_digest (get_or_null "output_digest" r) ≡ true
unfolding is_receipt
is_receipt-digest r h = ground arith

agree-first :
    (k : String) (ks : List String) (r d : Fields)
    → agree (k ∷ ks) r d ≡ true
    → (value_eq (get_or_null k r) (get_or_null k d) ≡ true) × (agree ks r d ≡ true)
unfolding agree
agree-first k ks r d h = parts (value_eq (get_or_null k r) (get_or_null k d)) (agree ks r d) h

agree-claim :
    (r d : Fields)
    → agree claim_fields r d ≡ true
    → (value_eq (get_or_null "job_id" r) (get_or_null "job_id" d) ≡ true)
      × (value_eq (get_or_null "destination_peer" r) (get_or_null "destination_peer" d) ≡ true)
      × (value_eq (get_or_null "fencing_token" r) (get_or_null "fencing_token" d) ≡ true)
agree-claim r d h =
    let (job, h1) = agree-first _ _ r d h in
    let (_, h2) = agree-first _ _ r d h1 in
    let (peer, h3) = agree-first _ _ r d h2 in
    let (fence, _) = agree-first _ _ r d h3 in (job, peer, fence)

agree-names :
    (r d : Fields)
    → agree ("job_id" ∷ "source_dm_id" ∷ "destination_peer" ∷ []) r d ≡ true
    → (value_eq (get_or_null "job_id" r) (get_or_null "job_id" d) ≡ true)
      × (value_eq (get_or_null "destination_peer" r) (get_or_null "destination_peer" d) ≡ true)
agree-names r d h =
    let (job, h1) = agree-first _ _ r d h in
    let (_, h2) = agree-first _ _ r d h1 in let (peer, _) = agree-first _ _ r d h2 in (job, peer)

job_dict_values :
    (j : Job)
    → (get_or_null "job_id" (job_dict j) ≡ str j.job_id)
      × (get_or_null "destination_peer" (job_dict j) ≡ str j.destination_peer)
      × (get_or_null "fencing_token" (job_dict j) ≡ int j.fencing_token)
unfolding job_dict get_or_null get
job_dict_values j = (refl, refl, refl)

names-IsReceiptOf :
    (r : Fields) (id : ℕ) (j : Job)
    → value_eq (get_or_null "job_id" r) (get_or_null "job_id" (job_dict j)) ≡ true
    → value_eq (get_or_null "destination_peer" r) (get_or_null "destination_peer" (job_dict j))
      ≡ true
    → value_eq (get_or_null "source_dm_id" r) (int id) ≡ true
    → is_digest (get_or_null "output_digest" r) ≡ true
    → IsReceiptOf r id j
names-IsReceiptOf r id j job peer message digest =
    let (job_value, peer_value, _) = job_dict_values j in
    record {
      message = message;
      job_id = subst (λ v. value_eq (get_or_null "job_id" r) v ≡ true) job_value job;
      destination =
          subst (λ v. value_eq (get_or_null "destination_peer" r) v ≡ true) peer_value peer;
      digest = digest;
    }

pub agree-IsServiceReceipt :
    (r : Fields) (id : ℕ) (j : Job)
    → is_receipt r ≡ true
    → id_of (get_or_null "source_dm_id" r) ≡ some id
    → agree claim_fields r (job_dict j) ≡ true
    → IsServiceReceipt r id j
agree-IsServiceReceipt r id j ok n h =
    let (job, peer, fence) = agree-claim r (job_dict j) h in
    let (_, _, fence_value) = job_dict_values j in
    record {
      receipt =
          names-IsReceiptOf r id j job peer (rw (id_of-some _ id n) (value_eq_int_refl id id refl))
            (is_receipt-digest r ok);
      fence = subst (λ v. value_eq (get_or_null "fencing_token" r) v ≡ true) fence_value fence;
    }

as_dict-some : (v : Value) (d : Fields) → as_dict v ≡ some d → v ≡ dict d
as_dict-some (dict e) d h = ground arith
as_dict-some _ d h = cc

spool_ref-some :
    (r ref : Fields)
    → spool_ref r ≡ some ref
    → (get_or_null "source_ref" r ≡ dict ref)
      × (is_source_ref ref r ≡ true)
      × (is_digest (get_or_null "output_digest" r) ≡ true)
unfolding spool_ref
spool_ref-some r ref h = elim (Bool-cases (has_all spool_required r)) [
  | inr n ↦ absurd (let h' = rw (spool_ref, n) at h in cc)
  | inl n ↦ elim (Option-cases (as_dict (get_or_null "source_ref" r))) [
    | inl a ↦ absurd (let h' = rw (spool_ref, n, a) at h in cc)
    | inr (d, a) ↦
        elim (Bool-cases (
          is_source_ref d r
          && is_positive_int (get_or_null "fencing_token" r)
          && is_digest (get_or_null "output_digest" r))) [
            | inr c ↦ absurd (let h' = rw (spool_ref, n, a, c) at h in cc)
            | inl c ↦
                let same : d ≡ ref = let h' = rw (spool_ref, n, a, c) at h in cc in
                let (ok, digest) =
                  three (is_source_ref d r) (is_positive_int (get_or_null "fencing_token" r))
                    (is_digest (get_or_null "output_digest" r)) c in
                (
                  as_dict-some _ ref (a ∙ ap some same),
                  subst (λ x. is_source_ref x r ≡ true) same ok,
                  digest,
                )
          ]
  ]
]

is_source_ref-message :
    (ref r : Fields)
    → is_source_ref ref r ≡ true
    → (is_strict_int (get_or_null "source_dm_id" ref) ≡ true)
      × (value_eq (get_or_null "queue_entry_id" ref) (get_or_null "source_dm_id" ref) ≡ true)
      × (value_eq (get_or_null "source_dm_id" r) (get_or_null "source_dm_id" ref) ≡ true)
unfolding is_source_ref
is_source_ref-message ref r h =
    seven (keys_are legacy_ref_fields ref || keys_are ("source_peer" ∷ legacy_ref_fields) ref)
      (is_strict_int (get_or_null "queue_entry_id" ref))
      (is_strict_int (get_or_null "source_dm_id" ref))
      (is_strict_int (get_or_null "queue_claim_fence" ref))
      (value_eq (get_or_null "queue_entry_id" ref) (get_or_null "source_dm_id" ref))
      (value_eq (get_or_null "source_dm_id" r) (get_or_null "source_dm_id" ref))
      (elim (get "source_peer" ref) [ none ↦ true | some v ↦ is_text v ]) h

fits_claim-parts :
    (ref r : Fields) (j : Job)
    → fits_claim ref r j ≡ true
    → (agree ("job_id" ∷ "source_dm_id" ∷ "destination_peer" ∷ []) r (job_dict j) ≡ true)
      × (value_eq (int j.fencing_token) (get_or_null "queue_claim_fence" ref) ≡ true)
unfolding fits_claim
fits_claim-parts ref r j h = ground arith

pub fits_claim-IsSpoolReceipt :
    (r ref : Fields) (id : ℕ) (j : Job)
    → spool_ref r ≡ some ref
    → id_of (get_or_null "queue_entry_id" ref) ≡ some id
    → fits_claim ref r j ≡ true
    → IsSpoolReceipt r id j
fits_claim-IsSpoolReceipt r ref id j a n h =
    let (sourced, ok, digest) = spool_ref-some r ref a in
    let (strict, same, message) = is_source_ref-message ref r ok in
    let (names, fence) = fits_claim-parts ref r j h in
    let (job, peer) = agree-names r (job_dict j) names in
    let entry = id_of-some _ id n in
    let source : int id ≡ get_or_null "source_dm_id" ref =
      value_eq-strict (int id) _ refl strict (rw entry at same) in
    record {
      receipt = names-IsReceiptOf r id j job peer (rw source message) digest;
      ref = ref;
      sourced = sourced;
      fence = fence;
    }
