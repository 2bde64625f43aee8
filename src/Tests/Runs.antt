-- ===== src/Tests/Runs.antt =====
-- backend/app/services/agents/orchestrator_service.py with agents that answer by their key.
use gummy_os.Common.{
  ℕ, suc, ◌≤◌, ◌≡◌, refl, Text, codes, strip, lstrip_of, is_decimal, true, false, List, [], ◌∷◌,
  length, none, some, arith, Result, ok, err,
}
use gummy_os.Models.{PlanShape}
use gummy_os.Routing.{RoutingDecision, Rationale}
use gummy_os.Orchestration.{Trace, AgentResult, AgentTask}
use gummy_os.Orchestration.Handoff.{extract_findings}
use gummy_os.Orchestration.Terminal.{TurnEvent, Calls}
use gummy_os.Orchestration.Turn.{OrchestrationResult, orchestrate_stream, orchestrate}
use gummy_os.Orchestration.Executed.{GathersAll}
use gummy_os.Orchestration.Concluded.{IsConcluded, orchestrate_stream-IsConcluded}
use gummy_os.Orchestration.Capped.{orchestrate_stream-capped}
use gummy_os.Orchestration.Accounted.{IsAccounted, orchestrate_stream-IsAccounted}
use gummy_os.Orchestration.Drained.{drain, orchestrate-drains_stream}

abbrev answer_with : Text → AgentResult
answer_with reply = record {
  output = record {
    reply = reply;
    digest = none;
    model = codes "small";
    input_tokens = 3;
    output_tokens = 4;
    memories_used = 0;
    web_sources = [];
    grounding_memories = [];
    evidence_missing = false;
    search_status = [];
    tools_used = [];
  };
  proposed_actions = [];
  proposed_memories = [];
  citations = [];
  tokens = 7;
  usd = 2;
}

abbrev career_reply : Text
career_reply = codes "- An internship at Acme\n- A fellowship"

-- The state counts the calls of agents.
abbrev answer_task : AgentTask → ℕ → Result Text AgentResult × ℕ
answer_task task l = (ok (answer_with career_reply), suc l)

abbrev answer_all : List AgentTask → ℕ → List (Result Text AgentResult) × ℕ
answer_all [] l = ([], l)
answer_all (task ∷ rest) l =
    let (outcomes, l') = answer_all rest (suc l) in (ok (answer_with career_reply) ∷ outcomes, l')

answer_all-GathersAll : GathersAll answer_all
answer_all-GathersAll [] l = refl
answer_all-GathersAll (task ∷ rest) l = omega (arith, answer_all-GathersAll rest (suc l))

abbrev agents : Calls ℕ Text
agents = record {
  build = λ l. (ok tt, l);
  dispatch = answer_task;
  gather = answer_all;
  prepare = λ task l. (ok (some task.intent), l);
  has_tools = λ key. false;
  run_tool_loop = λ key prepared l. (([], err (codes "no tool")), l);
  stream = λ prepared l. ((codes "Read " ∷ codes "this." ∷ [], ok tt), suc l);
  finish = λ prepared response. answer_with response.text;
  system_tokens = λ prepared. length prepared;
  estimate_tokens = λ text. length text;
  default_model = codes "small";
  supports_tool_calling = true;
  supports_streaming = true;
  synthesize_parallel = λ results failures l. (codes "Both.", l);
}

abbrev career_then_learning : RoutingDecision
career_then_learning = record {
  plan_shape = PlanShape.pipeline;
  steps =
      record { agent_key = "career"; intent = some (codes "Find internships") }
      ∷ record { agent_key = "learning"; intent = some (codes "make a plan") }
      ∷ [];
  rationale = Rationale.compound ("career" ∷ "learning" ∷ []);
  confidence = 90;
  matched_keywords = [];
}

abbrev quiet : Trace ℕ
quiet = record { runs = []; steps = []; messages = []; next_id = 1; handlers = 0 }

abbrev quiet-IsConcluded : IsConcluded quiet
quiet-IsConcluded = record { runs = tt; steps = tt }

abbrev question : Text
question = codes "Find internships, then make a plan"

abbrev turn : (List TurnEvent × Result Text OrchestrationResult) × Trace ℕ
turn = orchestrate_stream agents true 1 2 question career_then_learning quiet

abbrev turn_result : OrchestrationResult
turn_result = record {
  reply = codes "Read this.";
  run_id = 1;
  proposed_actions = [];
  proposed_memories = [];
  citations = [];
  tokens = 14;
  usd = 4;
  agent_key = "learning";
  web_sources = [];
  grounding_memories = [];
  model = codes "small";
  memories_used = 0;
  input_tokens = 3;
  output_tokens = 4;
}

turn-returns : turn.0.1 ≡ ok turn_result
unfolding orchestrate_stream strip
turn-returns = refl

orchestrate_stream-IsConcluded_example : IsConcluded turn.1
orchestrate_stream-IsConcluded_example =
    orchestrate_stream-IsConcluded agents question answer_all-GathersAll true 1 2
      career_then_learning quiet quiet-IsConcluded

orchestrate_stream-capped_example : length turn.1.steps ≤ 8
orchestrate_stream-capped_example =
    orchestrate_stream-capped agents question true 1 2 career_then_learning quiet

orchestrate_stream-IsAccounted_example : IsAccounted turn_result turn.1
orchestrate_stream-IsAccounted_example =
    orchestrate_stream-IsAccounted agents question true 1 2 career_then_learning quiet turn_result
      refl turn-returns

orchestrate-drains_stream_example :
    orchestrate agents 1 2 question career_then_learning quiet ≡ drain turn
orchestrate-drains_stream_example =
    orchestrate-drains_stream agents question 1 2 career_then_learning quiet

career_findings :
    extract_findings career_reply ≡ codes "An internship at Acme" ∷ codes "A fellowship" ∷ []
unfolding extract_findings strip lstrip_of is_decimal
career_findings = refl
