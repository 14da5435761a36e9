-- ===== src/Spool/Envelopes.antt =====
-- The validation of jobs and receipts in src/swarph_cli/peer_executor.py. `sha256 s` is
-- `hashlib.sha256(s.encode("utf-8")).hexdigest()`.
use swarph_cli.Prelude.{
  String, Option, none, some, Bool, true, false, not, ◌&&◌, ◌||◌, List, [], ◌∷◌, leb, ◌==◌,
  if◌then◌else◌, any, length, string_eq, nat_eq,
}
use swarph_cli.Prelude.Text.{codes}
use swarph_cli.Prelude.Python.{
  Value, Fields, int, str, dict, get, get_or_null, value_eq, is_strict_int, is_positive_int,
  keys_within, keys_are,
}
use swarph_cli.Prelude.Json.{dumps}
use swarph_cli.Delivery.Digest.{is_digest}

-- `value == Path(value).name` on POSIX: no separator, and not the current directory.
unfoldable pub is_file_name : String → Bool
is_file_name s = not (s == "") && not (s == ".") && not (any (λ c. c == b'/') (codes s))

-- `_canonical_id`; `none` raises.
unfoldable pub canonical_id : Value → Option String
canonical_id (str s) = if is_file_name s then some s else none
canonical_id _ = none

abbrev pub is_canonical : Value → Bool
is_canonical v = elim (canonical_id v) [ none ↦ false | some _ ↦ true ]

abbrev pub job_fields : List String
job_fields = "schema_version" ∷ "job_id" ∷ "source_dm_id" ∷ "destination_peer" ∷ "delivery_ref" ∷ []

-- A short reference on one line.
abbrev pub is_reference : Value → Bool
is_reference (str s) =
    not (s == "")
    && leb (length (codes s)) 256
    && not (any (λ c. c == 10) (codes s))
    && not (any (λ c. c == 13) (codes s))
is_reference _ = false

-- `_validate_job` returns.
unfoldable pub is_job : Fields → Bool
is_job job =
    keys_within job job_fields
    && value_eq (get_or_null "schema_version" job) (int 1)
    && is_canonical (get_or_null "job_id" job)
    && is_canonical (get_or_null "destination_peer" job)
    && is_strict_int (get_or_null "source_dm_id" job)
    && is_reference (get_or_null "delivery_ref" job)

abbrev pub ref_fields : List String
ref_fields = "queue_entry_id" ∷ "source_dm_id" ∷ "queue_claim_fence" ∷ []

abbrev pub is_strict_positive : Value → Bool
is_strict_positive (int n) = leb 1 n
is_strict_positive _ = false

-- `_validate_source_ref` returns the reference.
unfoldable pub is_source_ref : Fields → Value → Bool
is_source_ref ref source_dm_id =
    (keys_are ref_fields ref || keys_are ("source_peer" ∷ ref_fields) ref)
    && is_strict_positive (get_or_null "queue_entry_id" ref)
    && is_strict_positive (get_or_null "source_dm_id" ref)
    && is_strict_positive (get_or_null "queue_claim_fence" ref)
    && value_eq (get_or_null "queue_entry_id" ref) (get_or_null "source_dm_id" ref)
    && value_eq (get_or_null "source_dm_id" ref) source_dm_id
    && (elim (get "source_peer" ref) [ none ↦ true | some v ↦ is_canonical v ])

abbrev pub legacy_fields : List String
legacy_fields =
    "job_id" ∷ "source_dm_id" ∷ "destination_peer" ∷ "fencing_token" ∷ "output_digest"
    ∷ "source_ref" ∷ []

abbrev pub receipt_fields : List String
receipt_fields = "payload_digest" ∷ "envelope_digest" ∷ legacy_fields

-- `_validate_receipt_fields` returns, for a dict.
unfoldable pub has_receipt_fields : List String → Fields → Bool
has_receipt_fields required r =
    keys_are required r
    && is_canonical (get_or_null "job_id" r)
    && is_canonical (get_or_null "destination_peer" r)
    && is_positive_int (get_or_null "fencing_token" r)
    && is_strict_int (get_or_null "source_dm_id" r)
    && is_digest (get_or_null "output_digest" r)
    && (elim (get_or_null "source_ref" r) [
      | dict ref ↦ is_source_ref ref (get_or_null "source_dm_id" r)
      | _ ↦ false
    ])

-- `_validate_receipt` returns.
unfoldable pub is_new_receipt : Fields → Bool
is_new_receipt r =
    has_receipt_fields receipt_fields r
    && is_digest (get_or_null "payload_digest" r)
    && is_digest (get_or_null "envelope_digest" r)

-- `_validate_persisted_receipt`: whether it uses the legacy schema, `none` where it raises.
unfoldable pub persisted_schema : Fields → Option Bool
persisted_schema r =
    if keys_are legacy_fields r
    then (if has_receipt_fields legacy_fields r then some true else none)
    else if is_new_receipt r
    then some false
    else none

module _ (sha256 : String → String) where
  -- `envelope_digest`; `none` where the job is not valid.
  unfoldable pub envelope_digest : Fields → Option String
  envelope_digest job = if is_job job then some (sha256 (dumps (dict job))) else none

  -- `receipt_digest`
  unfoldable pub receipt_digest : Fields → Option String
  receipt_digest r = elim (persisted_schema r) [
    | none ↦ none
    | some _ ↦ some (sha256 (dumps (dict r)))
  ]
