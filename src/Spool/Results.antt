-- ===== src/Spool/Results.antt =====
-- The methods of `PeerSpool` in src/swarph_cli/peer_executor.py that a claim's holder calls: outputs,
-- receipts and their validation.
use swarph_cli.Prelude.{
  ℕ, String, Option, none, some, Bool, true, false, ◌&&◌, [], ◌∷◌, leb, ◌==◌, if◌then◌else◌,
  string_eq, nat_eq, option_eq,
}
use swarph_cli.Prelude.Python.{
  Value, Fields, int, str, dict, end, field, get, get_or_null, value_eq,
}
use swarph_cli.Delivery.Entries.{Result, done, refused}
use swarph_cli.Delivery.Digest.{is_digest}
use swarph_cli.Spool.Files.{Claim, Output, PeerSpool, write_text, write_receipt, output_name}
use swarph_cli.Spool.Envelopes.{
  canonical_id, is_job, is_source_ref, is_new_receipt, persisted_schema, envelope_digest,
}
use swarph_cli.Spool.Claims.{Call, refuse, are_names}

-- The running job and its claim are the peer's at this token; the answer is the job.
unfoldable pub held : String → ℕ → Option Fields → Option Claim → Option Fields
held peer token (some job) (some c) =
    if value_eq (get_or_null "destination_peer" job) (str peer)
      && c.destination_peer == peer
      && c.fencing_token == token
    then some job
    else none
held peer token _ _ = none

-- The guards that `write_output`, `produce_receipt` and `claimed_job` share.
unfoldable pub held_job : String → String → ℕ → PeerSpool → Option Fields
held_job id peer token s =
    if are_names id peer && leb 1 token then held peer token (s.running id) (s.claims id) else none

-- `claimed_job`
unfoldable pub claimed_job : String → String → ℕ → PeerSpool → Result Fields
claimed_job id peer token s = elim (held_job id peer token s) [
  | none ↦ refused
  | some job ↦ if is_job job then done job else refused
]

-- Two outputs are equal as dicts.
unfoldable pub same_output : Output → Output → Bool
same_output a b =
    a.job_id == b.job_id
    && value_eq a.source_dm_id b.source_dm_id
    && a.destination_peer == b.destination_peer
    && a.fencing_token == b.fencing_token
    && a.text == b.text
    && a.output_digest == b.output_digest

module _ (sha256 : String → String) where
  -- `output_digest`
  abbrev pub output_digest : String → String
  output_digest text = sha256 text

  -- The output of a claim on a job with this source.
  unfoldable pub new_output : String → String → ℕ → String → Value → Output
  new_output id peer token text source_dm_id = record {
    job_id = id;
    source_dm_id = source_dm_id;
    destination_peer = peer;
    fencing_token = token;
    text = text;
    output_digest = output_digest text;
  }

  -- `write_output`
  unfoldable pub write_output : String → String → ℕ → String → PeerSpool → Call Output
  write_output id peer token text s = elim (held_job id peer token s) [
    | none ↦ refuse
    | some job ↦ elim (s.outputs (output_name id (int token))) [
      | some _ ↦ refuse
      | none ↦ elim (get "source_dm_id" job) [
        | none ↦ refuse
        | some source ↦
            let out = new_output id peer token text source in
            (done out, write_text (output_name id (int token)) out ∷ [])
      ]
    ]
  ]

  -- What `_validate_accepted_receipt` compares once it has read the three files; the flag says that the
  -- receipt has the legacy schema.
  unfoldable pub matches_files : Bool → Fields → Option Fields → Option Claim → Option Output → Bool
  matches_files legacy r (some job) (some c) (some out) =
      value_eq (get_or_null "destination_peer" r) (get_or_null "destination_peer" job)
      && value_eq (get_or_null "source_dm_id" r) (get_or_null "source_dm_id" job)
      && value_eq (get_or_null "fencing_token" r) (int c.fencing_token)
      && (if legacy then true else (elim (envelope_digest sha256 job) [
        | none ↦ false
        | some digest ↦ value_eq (get_or_null "envelope_digest" r) (str digest)
      ]))
      && value_eq (str out.output_digest) (get_or_null "output_digest" r)
  matches_files _ _ _ _ _ = false

  -- `_validate_accepted_receipt` returns.
  unfoldable pub is_accepted : Fields → PeerSpool → Bool
  is_accepted r s = elim (persisted_schema r) [
    | none ↦ false
    | some legacy ↦ elim (canonical_id (get_or_null "job_id" r)) [
      | none ↦ false
      | some id ↦
          matches_files legacy r (s.running id) (s.claims id)
            (s.outputs (output_name id (get_or_null "fencing_token" r)))
    ]
  ]

  -- The receipt that `produce_receipt` builds.
  unfoldable pub new_receipt :
      String → String → ℕ → String → Fields → String → String → Value → Fields
  new_receipt id peer token text ref payload_digest envelope_hash source_dm_id =
      field "job_id" (str id) (
        field "source_dm_id" source_dm_id (
          field "destination_peer" (str peer) (
            field "fencing_token" (int token) (
              field "output_digest" (str (output_digest text)) (
                field "payload_digest" (str payload_digest) (
                  field "envelope_digest" (str envelope_hash)
                    (field "source_ref" (dict ref) end)))))))

  -- From the receipt on: the one that is stored, or the writes that are missing.
  unfoldable pub finish :
      String → Fields → Output → String → Option Fields → Option Output → PeerSpool → Call Fields
  finish id r out name (some stored) _ s =
      if is_accepted stored s && value_eq (dict stored) (dict r) then (done stored, []) else refuse
  finish id r out name none (some old) s =
      if same_output old out then (done r, write_receipt id r ∷ []) else refuse
  finish id r out name none none s = (done r, write_text name out ∷ write_receipt id r ∷ [])

  -- The checks of the digests, the provenance and the envelope.
  unfoldable pub can_produce : String → String → Fields → Value → Fields → Bool
  can_produce payload_digest envelope_hash ref source job =
      is_digest (str payload_digest)
      && is_digest (str envelope_hash)
      && is_source_ref ref source
      && envelope_digest sha256 job == some envelope_hash

  -- `produce_receipt`
  unfoldable pub produce_receipt :
      String → String → ℕ → String → Fields → String → String → PeerSpool → Call Fields
  produce_receipt id peer token text ref payload_digest envelope_hash s =
      elim (held_job id peer token s) [
        | none ↦ refuse
        | some job ↦ elim (get "source_dm_id" job) [
          | none ↦ refuse
          | some source ↦
              if can_produce payload_digest envelope_hash ref source job
              then finish id
                  (new_receipt id peer token text ref payload_digest envelope_hash source)
                  (new_output id peer token text source) (output_name id (int token))
                  (s.receipts id) (s.outputs (output_name id (int token))) s
              else refuse
        ]
      ]

  -- The claim, the job and the output that a receipt names fit it.
  unfoldable pub fits_receipt : Fields → Option Fields → Option Claim → Option Output → Bool
  fits_receipt r (some job) (some c) (some out) =
      value_eq (str c.destination_peer) (get_or_null "destination_peer" r)
      && value_eq (int c.fencing_token) (get_or_null "fencing_token" r)
      && value_eq (get_or_null "destination_peer" job) (get_or_null "destination_peer" r)
      && value_eq (get_or_null "source_dm_id" job) (get_or_null "source_dm_id" r)
      && (elim (envelope_digest sha256 job) [
        | none ↦ false
        | some digest ↦ value_eq (get_or_null "envelope_digest" r) (str digest)
      ])
      && value_eq out.source_dm_id (get_or_null "source_dm_id" r)
      && value_eq (str out.destination_peer) (get_or_null "destination_peer" r)
      && value_eq (int out.fencing_token) (get_or_null "fencing_token" r)
      && value_eq (str out.output_digest) (get_or_null "output_digest" r)
  fits_receipt _ _ _ _ = false

  -- `accept_receipt`
  unfoldable pub accept_receipt : Fields → PeerSpool → Call (Unit {0})
  accept_receipt r s =
      if is_new_receipt r
      then (elim (canonical_id (get_or_null "job_id" r)) [
        | none ↦ refuse
        | some id ↦
            if fits_receipt r (s.running id) (s.claims id)
              (s.outputs (output_name id (get_or_null "fencing_token" r)))
            then (elim (s.receipts id) [
              | some _ ↦ refuse
              | none ↦ (done tt, write_receipt id r ∷ [])
            ])
            else refuse
      ])
      else refuse

  -- `accepted_receipt`
  unfoldable pub accepted_receipt : String → PeerSpool → Result (Option Fields)
  accepted_receipt id s = elim (canonical_id (str id)) [
    | none ↦ refused
    | some _ ↦ elim (s.receipts id) [
      | none ↦ done none
      | some r ↦ if is_accepted r s then done (some r) else refused
    ]
  ]

  -- `receipt_accepted`
  unfoldable pub receipt_accepted : String → PeerSpool → Bool
  receipt_accepted id s = elim (accepted_receipt id s) [ done (some _) ↦ true | _ ↦ false ]

  -- `accepted_result`
  unfoldable pub accepted_result : String → PeerSpool → Result (Option (Fields × Output))
  accepted_result id s = elim (accepted_receipt id s) [
    | refused ↦ refused
    | done none ↦ done none
    | done (some r) ↦ elim (s.outputs (output_name id (get_or_null "fencing_token" r))) [
      | none ↦ refused
      | some out ↦
          if value_eq out.source_dm_id (get_or_null "source_dm_id" r)
            && value_eq (str out.destination_peer) (get_or_null "destination_peer" r)
            && value_eq (int out.fencing_token) (get_or_null "fencing_token" r)
            && value_eq (str out.output_digest) (get_or_null "output_digest" r)
          then done (some (r, out))
          else refused
    ]
  ]
