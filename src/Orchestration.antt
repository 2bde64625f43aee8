-- ===== src/Orchestration.antt =====
-- One orchestrated turn (backend/app/services/agents/orchestrator_service.py): its trace tables and what
-- the agents exchange. The input and the output that a trace row previews are left out, and a cost in
-- dollars is a number of the smallest unit.
pub mod Recorder
pub mod Handoff
pub mod Steps
pub mod Findings
pub mod Terminal
pub mod Turn
pub mod Closed
pub mod Executed
pub mod Concluded
pub mod Counted
pub mod Capped
pub mod Costs
pub mod Recorded
pub mod Accounted
pub mod Drained
use gummy_os.Common.{ℕ, String, Text, Bool, List, Option}
use gummy_os.Models.{RunTrigger, RunStatus, StepStatus, AgentMessageRole}
use gummy_os.Tools.{Value}
use gummy_os.Tools.Executor.{ToolOutcome}

pub record AgentRun : Type 0 where
  pub id : ℕ
  pub user_id : ℕ
  pub conversation_id : Option ℕ
  pub trigger : RunTrigger
  pub status : RunStatus
  pub error : Option Text
  pub cost_tokens : ℕ
  pub cost_usd : ℕ
  pub finished : Bool

pub record AgentStep : Type 0 where
  pub id : ℕ
  pub run_id : ℕ
  pub agent_key : String
  pub seq : ℕ
  pub status : StepStatus
  pub error : Option Text
  pub cost_tokens : ℕ
  pub cost_usd : ℕ
  pub finished : Bool

pub record AgentMessage : Type 0 where
  pub run_id : ℕ
  pub from_agent : String
  pub to_agent : Option String
  pub role : AgentMessageRole
  pub seq : ℕ

-- The trace tables, and the state `L` of everything that the agents' handlers reach.
pub record Trace (L : Type 0) : Type 0 where
  pub runs : List AgentRun
  pub steps : List AgentStep
  pub messages : List AgentMessage
  pub next_id : ℕ
  pub handlers : L

-- The keys of `output` that the orchestrator reads; a key that is missing has its default.
pub record Output : Type 0 where
  pub reply : Text
  pub digest : Option Text
  pub model : Text
  pub input_tokens : ℕ
  pub output_tokens : ℕ
  pub memories_used : ℕ
  pub web_sources : List Value
  pub grounding_memories : List Text
  pub evidence_missing : Bool
  pub search_status : Text
  pub tools_used : List (String × ToolOutcome)

pub record AgentResult : Type 0 where
  pub output : Output
  pub proposed_actions : List Value
  pub proposed_memories : List Value
  pub citations : List Value
  pub tokens : ℕ
  pub usd : ℕ

pub record AgentHandoff : Type 0 where
  pub source_agent : String
  pub target_agent : String
  pub relevant_findings : List Text

-- An entry of the scratch: the terminal step's entries carry no hand-off.
pub record Scratch : Type 0 where
  pub agent_key : String
  pub output : Output
  pub handoff : Option AgentHandoff

-- What differs between the tasks of a turn.
pub record AgentTask : Type 0 where
  pub run_id : ℕ
  pub agent_key : String
  pub intent : Text
  pub scratch : List Scratch
