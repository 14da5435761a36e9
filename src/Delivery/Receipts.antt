-- ===== src/Delivery/Receipts.antt =====
-- The two ways out of the ledger in src/swarph_cli/delivery_queue.py: a service receipt and a
-- validated receipt of the spool. Both take a dict (`isinstance(receipt, dict)` holds).
use swarph_cli.Prelude.{
  ℕ, String, Option, none, some, Bool, true, false, ◌&&◌, ◌||◌, List, [], ◌∷◌, if◌then◌else◌, any,
  string_eq, nat_eq,
}
use swarph_cli.Prelude.Python.{
  Value, Fields, int, str, dict, get, get_or_null, value_eq, is_strict_int, is_positive_int,
  nonempty_str, has_all, keys_are,
}
use swarph_cli.Delivery.Entries.{
  is_claimed, Job, Entry, DeliveryQueue, Result, done, refused, job_dict, entry_of,
}
use swarph_cli.Delivery.Digest.{is_digest}
use swarph_cli.Delivery.Operations.{acknowledge}

abbrev pub required : List String
required =
    "job_id" ∷ "source_dm_id" ∷ "destination_peer" ∷ "fencing_token" ∷ "output_digest"
    ∷ "reply_provenance" ∷ []

-- The number of an id that is a strict int; no entry has a negative one.
abbrev pub id_of : Value → Option ℕ
id_of (int n) = some n
id_of _ = none

-- The checks of a receipt by itself: its keys and the types of its values.
unfoldable pub is_receipt : Fields → Bool
unfolding keys_are get_or_null is_digest
is_receipt r =
    (keys_are required r || keys_are ("source_peer" ∷ required) r)
    && is_strict_int (get_or_null "source_dm_id" r)
    && is_positive_int (get_or_null "fencing_token" r)
    && is_digest (get_or_null "output_digest" r)

-- The claim of an entry in service.
unfoldable pub active_job : Entry → Option Job
active_job e = if is_claimed e.service_state then e.job else none

-- `receipt[field] == job.get(field)`, for each field of the list
unfoldable pub agree : List String → Fields → Fields → Bool
unfolding get_or_null value_eq
agree [] r job = true
agree (key ∷ keys) r job = value_eq (get_or_null key r) (get_or_null key job) && agree keys r job

abbrev pub claim_fields : List String
claim_fields =
    "job_id" ∷ "source_dm_id" ∷ "destination_peer" ∷ "fencing_token" ∷ "reply_provenance" ∷ []

-- `remove_on_receipt`
unfoldable pub remove_on_receipt : Fields → DeliveryQueue → Result (Unit {0}) × DeliveryQueue
remove_on_receipt r q =
    if is_receipt r
    then (elim (id_of (get_or_null "source_dm_id" r)) [
      | none ↦ (refused, q)
      | some dm_id ↦ elim (entry_of dm_id q.live.pending) [
        | none ↦ (refused, q)
        | some e ↦ elim (active_job e) [
          | none ↦ (refused, q)
          | some j ↦
              if agree claim_fields r (job_dict j)
              then (done tt, acknowledge dm_id r q)
              else (refused, q)
        ]
      ]
    ])
    else (refused, q)

abbrev pub spool_required : List String
spool_required =
    "job_id" ∷ "source_dm_id" ∷ "destination_peer" ∷ "fencing_token" ∷ "output_digest"
    ∷ "source_ref" ∷ []

abbrev pub legacy_ref_fields : List String
legacy_ref_fields = "queue_entry_id" ∷ "source_dm_id" ∷ "queue_claim_fence" ∷ []

abbrev pub as_dict : Value → Option Fields
as_dict (dict d) = some d
as_dict _ = none

abbrev pub is_text : Value → Bool
is_text v = elim (nonempty_str v) [ none ↦ false | some _ ↦ true ]

-- The checks of a `source_ref` against its receipt.
unfoldable pub is_source_ref : Fields → Fields → Bool
unfolding keys_are get_or_null get value_eq
is_source_ref ref r =
    (keys_are legacy_ref_fields ref || keys_are ("source_peer" ∷ legacy_ref_fields) ref)
    && is_strict_int (get_or_null "queue_entry_id" ref)
    && is_strict_int (get_or_null "source_dm_id" ref)
    && is_strict_int (get_or_null "queue_claim_fence" ref)
    && value_eq (get_or_null "queue_entry_id" ref) (get_or_null "source_dm_id" ref)
    && value_eq (get_or_null "source_dm_id" r) (get_or_null "source_dm_id" ref)
    && (elim (get "source_peer" ref) [ none ↦ true | some v ↦ is_text v ])

-- The checks of a spool receipt by itself; the answer is its `source_ref`.
unfoldable pub spool_ref : Fields → Option Fields
unfolding has_all get_or_null is_source_ref is_digest
spool_ref r =
    if has_all spool_required r
    then (elim (as_dict (get_or_null "source_ref" r)) [
      | none ↦ none
      | some ref ↦
          if is_source_ref ref r
            && is_positive_int (get_or_null "fencing_token" r)
            && is_digest (get_or_null "output_digest" r)
          then some ref
          else none
    ])
    else none

-- The receipt has been recorded already.
unfoldable pub is_recorded : Fields → Fields → List Fields → Bool
unfolding get_or_null value_eq
is_recorded ref r receipts =
    any
      (λ accepted.
        value_eq (get_or_null "source_ref" accepted) (dict ref)
        && value_eq (get_or_null "output_digest" accepted) (get_or_null "output_digest" r))
      receipts

-- The receipt and its `source_ref` fit the claim.
unfoldable pub fits_claim : Fields → Fields → Job → Bool
unfolding agree get_or_null get value_eq job_dict
fits_claim ref r j =
    agree ("job_id" ∷ "source_dm_id" ∷ "destination_peer" ∷ []) r (job_dict j)
    && value_eq (int j.fencing_token) (get_or_null "queue_claim_fence" ref)
    && (elim (get "source_peer" ref) [ none ↦ true | some v ↦ value_eq v (str j.source_peer) ])

-- `reconcile_spool_receipt`
unfoldable pub reconcile_spool_receipt : Fields → DeliveryQueue → Result Bool × DeliveryQueue
reconcile_spool_receipt r q = elim (spool_ref r) [
  | none ↦ (refused, q)
  | some ref ↦ elim (id_of (get_or_null "queue_entry_id" ref)) [
    | none ↦ (if is_recorded ref r q.live.receipts then done false else refused, q)
    | some dm_id ↦ elim (entry_of dm_id q.live.pending) [
      | none ↦ (if is_recorded ref r q.live.receipts then done false else refused, q)
      | some e ↦ elim (active_job e) [
        | none ↦ (refused, q)
        | some j ↦ if fits_claim ref r j then (done true, acknowledge dm_id r q) else (refused, q)
      ]
    ]
  ]
]
