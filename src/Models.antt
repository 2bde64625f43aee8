-- ===== src/Models.antt =====
-- The enumerations of backend/app/models/enums.py that the modelled services use.

pub data PermissionTier : Type 0 where
  green yellow red : PermissionTier

pub data ApprovalStatus : Type 0 where
  pending approved rejected expired : ApprovalStatus

pub data ToolDecision : Type 0 where
  allowed blocked pending : ToolDecision

pub data ToolRunStatus : Type 0 where
  succeeded failed not_executed : ToolRunStatus

pub data TaskStatus : Type 0 where
  pending in_progress blocked done cancelled : TaskStatus

pub data GoalStatus : Type 0 where
  active completed archived : GoalStatus

pub data AutomationKind : Type 0 where
  reminder goal_check_in digest : AutomationKind

pub data AutomationSchedule : Type 0 where
  once daily weekly : AutomationSchedule

pub data AutomationStatus : Type 0 where
  active paused completed failed : AutomationStatus

pub data AutomationRunStatus : Type 0 where
  running succeeded failed : AutomationRunStatus

pub data MemoryStatus : Type 0 where
  active archived superseded : MemoryStatus

pub data GoalPriority : Type 0 where
  low medium high : GoalPriority

pub data PlanShape : Type 0 where
  single pipeline parallel : PlanShape

pub data AgentContext : Type 0 where
  general career learning research builder : AgentContext

pub data RunTrigger : Type 0 where
  chat scheduler : RunTrigger

pub data RunStatus : Type 0 where
  running succeeded failed : RunStatus

pub data StepStatus : Type 0 where
  running succeeded failed skipped : StepStatus

pub data AgentMessageRole : Type 0 where
  task result error : AgentMessageRole
