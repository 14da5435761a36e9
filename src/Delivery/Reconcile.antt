-- ===== src/Delivery/Reconcile.antt =====
-- `reconcile_spool_receipt` of src/swarph_cli/delivery_queue.py, called again with one receipt.
use swarph_cli.Prelude.{
  ℕ, some, Bool, true, false, ◌&&◌, ◌||◌, List, [], ◌∷◌, ◌++◌, ◌≡◌, refl, sym, subst, ◌∙◌, arith,
  ◌==◌, if◌then◌else◌, any, remove_first, any-append, find-any, Bool-cases, Option-cases, inl, inr,
  nat_eq, string_eq,
}
use swarph_cli.Prelude.Python.{Value, Fields, dict, get_or_null}
use swarph_cli.Prelude.Dicts.{IsValue, IsDict, value_eq_refl, get_or_null-IsValue}
use swarph_cli.Delivery.Entries.{Entry, DeliveryQueue, done, refused, entry_of}
use swarph_cli.Delivery.Operations.{acknowledge}
use swarph_cli.Delivery.Receipts.{
  id_of, as_dict, active_job, spool_ref, is_recorded, fits_claim, reconcile_spool_receipt,
}
use swarph_cli.Delivery.Invariant.{IsLedger}
use swarph_cli.Delivery.Obligations.{removed_gone}

-- What a receipt that was accepted has gone through.
record Accepted (r : Fields) (q q' : DeliveryQueue) : Type 0 where
  ref : Fields
  dm_id : ℕ
  checked : spool_ref r ≡ some ref
  named : id_of (get_or_null "queue_entry_id" ref) ≡ some dm_id
  left : q' ≡ acknowledge dm_id r q

not_new : (b : Bool) → ¬ ((if b then done false else refused) ≡ done true)
not_new true h = cc
not_new false h = cc

accepted :
    (r : Fields) (q : DeliveryQueue)
    → (reconcile_spool_receipt r q).0 ≡ done true
    → Accepted r q (reconcile_spool_receipt r q).1
unfolding reconcile_spool_receipt
accepted r q h = elim (Option-cases (spool_ref r)) [
  | inl a ↦ absurd (let h' = rw (reconcile_spool_receipt, a) at h in cc)
  | inr (ref, a) ↦ elim (Option-cases (id_of (get_or_null "queue_entry_id" ref))) [
    | inl i ↦ absurd (
        let h' = rw (reconcile_spool_receipt, a, i) at h in
        not_new (is_recorded ref r q.live.receipts) h')
    | inr (dm_id, i) ↦ elim (Option-cases (entry_of dm_id q.live.pending)) [
      | inl n ↦ absurd (
          let h' = rw (reconcile_spool_receipt, a, i, n) at h in
          not_new (is_recorded ref r q.live.receipts) h')
      | inr (e, n) ↦ elim (Option-cases (active_job e)) [
        | inl o ↦ absurd (let h' = rw (reconcile_spool_receipt, a, i, n, o) at h in cc)
        | inr (j, o) ↦ elim (Bool-cases (fits_claim ref r j)) [
          | inl g ↦ record {
            ref = ref;
            dm_id = dm_id;
            checked = a;
            named = i;
            left = rw (reconcile_spool_receipt, a, i, n, o, g) refl;
          }
          | inr g ↦ absurd (let h' = rw (reconcile_spool_receipt, a, i, n, o, g) at h in cc)
        ]
      ]
    ]
  ]
]

spool_ref_is : (r ref : Fields) → spool_ref r ≡ some ref → get_or_null "source_ref" r ≡ dict ref
unfolding spool_ref
spool_ref_is r ref h = from_dict (get_or_null "source_ref" r) ref (given r ref h)
  where
    from_dict : (v : Value) (d : Fields) → as_dict v ≡ some d → v ≡ dict d
    from_dict v d h = ground arith

    given :
        (r ref : Fields) → spool_ref r ≡ some ref → as_dict (get_or_null "source_ref" r) ≡ some ref
    given r ref h = ground (arith, h)

last_found : (a : Bool) {x y : Bool} → x ≡ true → y ≡ true → (a || (x && y || false)) ≡ true
last_found a h k = ground (arith, h, k)

-- A receipt that was just recorded is found again.
recorded :
    (r ref : Fields) (receipts : List Fields)
    → IsDict r
    → spool_ref r ≡ some ref
    → is_recorded ref r (receipts ++ r ∷ []) ≡ true
unfolding is_recorded any
recorded r ref receipts w a =
    any-append _ receipts (r ∷ [])
    ∙ last_found _
        (rw (spool_ref_is r ref a) (
          value_eq_refl (dict ref)
            (subst IsValue (spool_ref_is r ref a) (get_or_null-IsValue r "source_ref" w))))
        (value_eq_refl (get_or_null "output_digest" r) (get_or_null-IsValue r "output_digest" w))

again :
    (r : Fields) (q : DeliveryQueue) (ref : Fields) (dm_id : ℕ)
    → IsDict r
    → IsLedger q
    → spool_ref r ≡ some ref
    → id_of (get_or_null "queue_entry_id" ref) ≡ some dm_id
    → reconcile_spool_receipt r (acknowledge dm_id r q) ≡ (done false, acknowledge dm_id r q)
unfolding reconcile_spool_receipt acknowledge entry_of
again r q ref dm_id w l a i =
    let gone =
      find-any (λ (e : Entry). e.id == dm_id) (remove_first (λ e. e.id == dm_id) q.live.pending)
        (removed_gone dm_id q.live.pending l.unique) in
    rw (reconcile_spool_receipt, a, i, gone, recorded r ref q.live.receipts w a) refl

-- Reconciling a spool receipt again is an acknowledgement without effect: once it was accepted, the
-- same receipt is answered with False and the queue stays as it is.
pub reconcile_spool_receipt-again :
    (r : Fields) (q : DeliveryQueue)
    → IsDict r
    → IsLedger q
    → (reconcile_spool_receipt r q).0 ≡ done true
    → let q' = (reconcile_spool_receipt r q).1 in reconcile_spool_receipt r q' ≡ (done false, q')
reconcile_spool_receipt-again r q w l h =
    let a = accepted r q h in
    subst (λ q'. reconcile_spool_receipt r q' ≡ (done false, q')) (sym a.left)
      (again r q a.ref a.dm_id w l a.checked a.named)
