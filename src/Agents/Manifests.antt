-- ===== src/Agents/Manifests.antt =====
-- The built-in agents (backend/app/services/agents/manifests.py).
use gummy_os.Common.{codes, List, [], ◌∷◌}
use gummy_os.Models.{PermissionTier}
use gummy_os.Agents.{AgentManifest}

abbrev general_agent : AgentManifest
general_agent = record {
  key = "general";
  ceiling = PermissionTier.green;
  tools =
      "calculator" ∷ "current_time" ∷ "memory_read" ∷ "file_search" ∷ "file_list" ∷ "git_status"
      ∷ "git_log" ∷ "git_diff" ∷ "workspace_read" ∷ "workspace_list" ∷ [];
  keywords = [];
  priority = 0;
}

abbrev recall_agent : AgentManifest
recall_agent = record {
  key = "recall";
  ceiling = PermissionTier.green;
  tools = "memory_read" ∷ [];
  keywords =
      codes "remember"
      ∷ codes "recall"
      ∷ codes "memory"
      ∷ codes "memories"
      ∷ codes "what do you know"
      ∷ codes "what do you remember"
      ∷ [];
  priority = 0;
}

abbrev career_agent : AgentManifest
career_agent = record {
  key = "career";
  ceiling = PermissionTier.green;
  tools =
      "calculator" ∷ "current_time" ∷ "memory_read" ∷ "file_search" ∷ "file_list" ∷ "web_search"
      ∷ "http_fetch" ∷ [];
  keywords =
      codes "resume"
      ∷ codes "cv"
      ∷ codes "internship"
      ∷ codes "internships"
      ∷ codes "job"
      ∷ codes "jobs"
      ∷ codes "application"
      ∷ codes "applications"
      ∷ codes "apply"
      ∷ codes "linkedin"
      ∷ codes "salary"
      ∷ codes "compensation"
      ∷ codes "career"
      ∷ codes "interview"
      ∷ codes "interviews"
      ∷ codes "recruiter"
      ∷ codes "hiring"
      ∷ codes "cover letter"
      ∷ codes "portfolio"
      ∷ codes "opportunity"
      ∷ codes "opportunities"
      ∷ codes "fresher"
      ∷ codes "freshers"
      ∷ codes "graduate"
      ∷ codes "placement"
      ∷ codes "placements"
      ∷ codes "vacancy"
      ∷ codes "vacancies"
      ∷ codes "opening"
      ∷ codes "openings"
      ∷ codes "scholarship"
      ∷ codes "scholarships"
      ∷ codes "certification"
      ∷ codes "certifications"
      ∷ codes "hackathon"
      ∷ codes "hackathons"
      ∷ codes "exam"
      ∷ codes "exams"
      ∷ [];
  priority = 5;
}

abbrev learning_agent : AgentManifest
learning_agent = record {
  key = "learning";
  ceiling = PermissionTier.green;
  tools =
      "calculator" ∷ "current_time" ∷ "memory_read" ∷ "file_search" ∷ "file_list" ∷ "web_search"
      ∷ "http_fetch" ∷ [];
  keywords =
      codes "teach"
      ∷ codes "learn"
      ∷ codes "learning"
      ∷ codes "study"
      ∷ codes "course"
      ∷ codes "courses"
      ∷ codes "topic"
      ∷ codes "explain"
      ∷ codes "tutorial"
      ∷ codes "understand"
      ∷ codes "concept"
      ∷ codes "curriculum"
      ∷ codes "lesson"
      ∷ [];
  priority = 4;
}

abbrev planner_agent : AgentManifest
planner_agent = record {
  key = "planner";
  ceiling = PermissionTier.green;
  tools = "calculator" ∷ "current_time" ∷ "memory_read" ∷ "file_search" ∷ "file_list" ∷ [];
  keywords =
      codes "goal"
      ∷ codes "goals"
      ∷ codes "milestone"
      ∷ codes "milestones"
      ∷ codes "timeline"
      ∷ codes "plan"
      ∷ codes "planning"
      ∷ codes "schedule"
      ∷ codes "execution"
      ∷ codes "deadline"
      ∷ codes "roadmap"
      ∷ [];
  priority = 1;
}

abbrev memory_agent : AgentManifest
memory_agent = record {
  key = "memory";
  ceiling = PermissionTier.green;
  tools = "calculator" ∷ "current_time" ∷ "memory_read" ∷ "file_search" ∷ "file_list" ∷ [];
  keywords =
      codes "memory"
      ∷ codes "memories"
      ∷ codes "remember"
      ∷ codes "recall"
      ∷ codes "history"
      ∷ codes "profile"
      ∷ codes "what do you know"
      ∷ codes "know about me"
      ∷ [];
  priority = 2;
}

abbrev research_agent : AgentManifest
research_agent = record {
  key = "research";
  ceiling = PermissionTier.green;
  tools =
      "calculator" ∷ "current_time" ∷ "memory_read" ∷ "file_search" ∷ "file_list" ∷ "web_search"
      ∷ "http_fetch" ∷ [];
  keywords =
      codes "research"
      ∷ codes "compare"
      ∷ codes "comparison"
      ∷ codes "analyze"
      ∷ codes "analysis"
      ∷ codes "investigate"
      ∷ codes "market"
      ∷ codes "trend"
      ∷ codes "trends"
      ∷ codes "evaluate"
      ∷ codes "vs"
      ∷ codes "versus"
      ∷ [];
  priority = 3;
}

abbrev automation_agent : AgentManifest
automation_agent = record {
  key = "automation";
  ceiling = PermissionTier.green;
  tools = "current_time" ∷ "memory_read" ∷ "automation_create" ∷ "automation_list" ∷ [];
  keywords =
      codes "remind"
      ∷ codes "reminder"
      ∷ codes "remind me"
      ∷ codes "schedule"
      ∷ codes "scheduled"
      ∷ codes "recurring"
      ∷ codes "every day"
      ∷ codes "every week"
      ∷ codes "daily"
      ∷ codes "weekly"
      ∷ codes "automation"
      ∷ codes "automate"
      ∷ codes "check in"
      ∷ codes "check-in"
      ∷ codes "notify"
      ∷ codes "alert me"
      ∷ codes "tomorrow"
      ∷ [];
  priority = 6;
}

abbrev engineer_agent : AgentManifest
engineer_agent = record {
  key = "engineer";
  ceiling = PermissionTier.red;
  tools =
      "calculator" ∷ "current_time" ∷ "memory_read" ∷ "file_search" ∷ "file_list" ∷ "git_status"
      ∷ "git_log" ∷ "git_diff" ∷ "workspace_read" ∷ "workspace_list" ∷ "workspace_write"
      ∷ "shell_exec" ∷ "http_fetch" ∷ [];
  keywords =
      codes "code"
      ∷ codes "repo"
      ∷ codes "repository"
      ∷ codes "git"
      ∷ codes "commit"
      ∷ codes "diff"
      ∷ codes "branch"
      ∷ codes "build"
      ∷ codes "compile"
      ∷ codes "test"
      ∷ codes "tests"
      ∷ codes "debug"
      ∷ codes "refactor"
      ∷ codes "script"
      ∷ codes "terminal"
      ∷ codes "command"
      ∷ codes "install"
      ∷ codes "dependency"
      ∷ codes "lint"
      ∷ [];
  priority = 7;
}

abbrev pub builtin_manifests : List AgentManifest
builtin_manifests =
    general_agent ∷ recall_agent ∷ career_agent ∷ learning_agent ∷ planner_agent ∷ memory_agent
    ∷ research_agent ∷ automation_agent ∷ engineer_agent ∷ []
