-- ===== src/Gateway/Db.antt =====
-- The tables of src/swarph_cli/gateway/schema.sql that the modelled handlers read and write.
-- A timestamp is the number of microseconds that its ISO text names; a JSON column is held parsed.
use swarph_cli.Prelude.{ℕ, String, Option, List, Bool}
use swarph_cli.Prelude.Python.{Value}

pub data TaskStatus : Type 0 where
  pending in_progress done failed stale cancelled : TaskStatus

-- claude_tasks
pub record Task : Type 0 where
  pub id : ℕ
  pub task_id : String
  pub category : String
  pub status : TaskStatus
  pub priority : ℕ
  pub cost_cap_usd : Option ℕ
  pub not_before : Option String
  pub added_by : String
  pub added_at : ℕ
  pub claimed_by : Option String
  pub claimed_at : Option ℕ
  pub completed_at : Option ℕ
  pub attempts : ℕ
  pub last_error : Option String
  pub spec_json : String
  pub output_path : Option String
  pub cost_actual_usd : Option ℕ
  pub parent_task_id : Option ℕ
  pub thread_id : Option String

-- The `prompt` column: the producer's text, or the JSON object that a subscription chat packs.
pub data StoredPrompt : Type 0 where
  text : String → StoredPrompt
  packed :
      (user_prompt : String) (system_prompt response_schema purpose : Option String) → StoredPrompt

pub data JobStatus : Type 0 where
  pending claimed done failed : JobStatus

-- council_jobs
pub record CouncilJob : Type 0 where
  pub id : ℕ
  pub debate_id : String
  pub role : String
  pub prompt : StoredPrompt
  pub model : String
  pub status : JobStatus
  pub claimed_by : Option String
  pub attempts : ℕ
  pub max_attempts : ℕ
  pub created_at : ℕ
  pub claimed_at : Option ℕ
  pub completed_at : Option ℕ
  pub result_json : Option String
  pub error : Option String

-- claude_peers; `capabilities` is `none` where the column holds no JSON.
pub record Peer : Type 0 where
  pub name : String
  pub capabilities : Option Value
  pub enabled : Bool
  pub ratified : Bool
  pub url : String
  pub registered_at : ℕ
  pub last_seen : Option ℕ
  pub ratified_at : Option ℕ
  pub ratified_by : Option String
  pub ratification_reason : Option String
  pub owner : Value

-- peer_tokens, and the append-only peer_token_revocations in the order of their ids
pub record PeerToken : Type 0 where
  pub peer : String
  pub key_generation : ℕ
  pub token_sha256 : String
  pub minted_at : ℕ

pub record Revocation : Type 0 where
  pub peer : String
  pub key_generation : ℕ
  pub action : String
  pub actor : String
  pub reason : Option String
  pub witness_dm_id : Option ℕ
  pub created_at : ℕ

-- peer_ratifications
pub record Ratification : Type 0 where
  pub peer : String
  pub ratified_by : String
  pub ratified_at : ℕ
  pub reason : Option String
  pub witness_dm_id : Option ℕ
  pub binding_regime : String

-- peer_health_events, as the caller binding writes them
pub record BindingEvent : Type 0 where
  pub time : ℕ
  pub peer : String
  pub event_type : String
  pub site : String
  pub claimed_actor : String

-- claude_messages, as the task handlers write them
pub record Message : Type 0 where
  pub from_node : String
  pub to_node : String
  pub kind : String
  pub content : String
  pub related_task_id : Option ℕ
  pub created_at : ℕ

pub record Channel : Type 0 where
  pub name : String
  pub kind : String
  pub visibility : String
  pub description : Option String
  pub created_by : String
  pub created_at : ℕ

pub record ChannelMember : Type 0 where
  pub channel : String
  pub peer : String
  pub wake_policy : String
  pub allow_broadcast : Bool
  pub joined_at : ℕ

pub record Group : Type 0 where
  pub name : String
  pub description : String
  pub kind : String
  pub created_by : String
  pub created_at : ℕ

pub record GroupMember : Type 0 where
  pub group : String
  pub peer : String
  pub added_by : String
  pub added_at : ℕ

pub record GroupGrant : Type 0 where
  pub group : String
  pub grant_type : String
  pub target : String
  pub level : String
  pub added_by : String
  pub added_at : ℕ

pub record GroupAudit : Type 0 where
  pub actor : String
  pub action : String
  pub group : String
  pub target_peer : Option String
  pub grant_type : Option String
  pub target : Option String
  pub level : Option String
  pub detail : Option String
  pub at : ℕ

-- The database. `next_task` and `next_job` are the AUTOINCREMENT counters of their tables.
pub record Db : Type 0 where
  pub tasks : List Task
  pub next_task : ℕ
  pub thread_uuids : List String
  pub council_jobs : List CouncilJob
  pub next_job : ℕ
  pub peers : List Peer
  pub peer_tokens : List PeerToken
  pub revocations : List Revocation
  pub ratifications : List Ratification
  pub binding_events : List BindingEvent
  pub messages : List Message
  pub channels : List Channel
  pub channel_members : List ChannelMember
  pub groups : List Group
  pub group_members : List GroupMember
  pub group_grants : List GroupGrant
  pub group_audit : List GroupAudit
