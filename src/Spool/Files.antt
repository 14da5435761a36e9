-- ===== src/Spool/Files.antt =====
-- The directories of `PeerSpool` in src/swarph_cli/peer_executor.py, and the writes that change them.
-- The jobs' locks make the calls on one job follow each other; a crash may cut a call between writes.
use Prim.Native.String.{◌++◌ as join}
use swarph_cli.Prelude.{
  ℕ, String, Option, none, some, true, false, List, [], ◌∷◌, ◌==◌, if◌then◌else◌, string_eq,
}
use swarph_cli.Prelude.Text.{decimal}
use swarph_cli.Prelude.Python.{Value, Fields, bool, int}

-- A claim, as `_new_claim` makes it.
pub record Claim : Type 0 where
  pub job_id : String
  pub destination_peer : String
  pub fencing_token : ℕ
  pub lease_expires_at : ℕ

-- A service's result, as it is written before a receipt.
pub record Output : Type 0 where
  pub job_id : String
  pub source_dm_id : Value
  pub destination_peer : String
  pub fencing_token : ℕ
  pub text : String
  pub output_digest : String

-- A directory by the names of its files; the suffix `.json` is left out.
abbrev pub Directory : Type 0 → Type 0
Directory A = String → Option A

abbrev pub put : {A : Type 0} → String → A → Directory A → Directory A
put name a files k = if name == k then some a else files k

abbrev pub take_out : {A : Type 0} → String → Directory A → Directory A
take_out name files k = if name == k then none else files k

pub record PeerSpool : Type 0 where
  pub pending : Directory Fields
  pub running : Directory Fields
  pub claims : Directory Claim
  pub outputs : Directory Output
  pub receipts : Directory Fields

abbrev pub empty_spool : PeerSpool
empty_spool = record {
  pending = λ _. none;
  running = λ _. none;
  claims = λ _. none;
  outputs = λ _. none;
  receipts = λ _. none;
}

-- `f"{fencing_token}"`; the code has tested that it is a positive int.
abbrev token_text : Value → String
token_text (bool true) = "True"
token_text (bool false) = "False"
token_text (int n) = decimal n
token_text _ = ""

-- `_output_path`
unfoldable pub output_name : String → Value → String
output_name job_id token = join job_id (join "." (token_text token))

-- An atomic change of one file.
pub data Write : Type 0 where
  write_job : String → Fields → Write
  -- `os.replace(pending, running)`
  move_job : String → Fields → Write
  write_claim : String → Claim → Write
  write_text : String → Output → Write
  write_receipt : String → Fields → Write

unfoldable pub write_atomic : Write → PeerSpool → PeerSpool
write_atomic (write_job id job) s = record s { pending = put id job s.pending }
write_atomic (move_job id job) s = record s {
  pending = take_out id s.pending;
  running = put id job s.running;
}
write_atomic (write_claim id c) s = record s { claims = put id c s.claims }
write_atomic (write_text name o) s = record s { outputs = put name o s.outputs }
write_atomic (write_receipt id r) s = record s { receipts = put id r s.receipts }

unfoldable pub write_all : List Write → PeerSpool → PeerSpool
write_all [] s = s
write_all (w ∷ ws) s = write_all ws (write_atomic w s)
