-- ===== src/Orchestration/Handoff.antt =====
-- What one agent hands to the next: `_extract_findings` and `_build_handoff` of
-- backend/app/services/agents/orchestrator_service.py, and what the prompt reads of the scratch
-- (handlers/grounding.py). White space and digits are those of the Latin-1 range.
use gummy_os.Common.{
  ℕ, String, Text, strip, lstrip_of, is_decimal, is_digit_code, Bool, true, false, ◌&&◌, ◌||◌, ◌==◌,
  leb, ltb, List, [], ◌∷◌, ◌++◌, map, take, filter, length, none, some, if◌then◌else◌,
}
use gummy_os.Orchestration.{Output, AgentResult, AgentHandoff, Scratch}

abbrev pub max_handoff_findings : ℕ
max_handoff_findings = 6

abbrev pub max_finding_chars : ℕ
max_finding_chars = 220

-- A line break of `str.splitlines` in one code point.
unfoldable is_line_break : ℕ → Bool
is_line_break c = leb 10 c && leb c 13 || leb 28 c && leb c 30 || c == 133

-- `str.splitlines`; a carriage return takes the line feed after it along.
unfoldable pub split_lines : Text → List Text
unfolding is_line_break
split_lines [] = []
split_lines (c ∷ s) =
    let rest = split_lines s in
    if is_line_break c
    then elim s [ [] ↦ [] ∷ rest | d ∷ t ↦ if c == 13 && d == 10 then rest else [] ∷ rest ]
    else elim s [
      | [] ↦ (c ∷ []) ∷ []
      | d ∷ t ↦ elim rest [ [] ↦ (c ∷ []) ∷ [] | line ∷ more ↦ (c ∷ line) ∷ more ]
    ]

unfoldable pub is_bullet : ℕ → Bool
is_bullet c = c == 45 || c == 42 || c == 8226

-- `line[1] in ")."`
unfoldable pub is_number_mark : ℕ → Bool
is_number_mark c = c == 41 || c == 46

unfoldable pub is_numbered : Text → Bool
unfolding is_number_mark
is_numbered (a ∷ b ∷ c ∷ rest) = is_digit_code a && is_number_mark b
is_numbered line = false

unfoldable pub is_marked : Text → Bool
unfolding is_bullet is_numbered
is_marked [] = false
is_marked (a ∷ rest) = is_bullet a || is_numbered (a ∷ rest)

unfoldable pub is_mark : ℕ → Bool
unfolding is_bullet is_number_mark
is_mark c = is_bullet c || is_decimal c || is_number_mark c

-- What a line that is not blank adds.
unfoldable pub bullet_of : Text → List Text
unfolding is_marked is_mark
bullet_of line =
    let cleaned = strip (lstrip_of is_mark line) in
    if is_marked line && ltb 3 (length cleaned) then take max_finding_chars cleaned ∷ [] else []

-- The loop over the lines, with its `break`.
unfoldable pub collect_bullets : List Text → (lines : List Text) → List Text
unfolding bullet_of
collect_bullets bullets [] = bullets
collect_bullets bullets (raw ∷ rest) = elim (strip raw) [
  | [] ↦ collect_bullets bullets rest
  | c ∷ s ↦
      let kept = bullets ++ bullet_of (c ∷ s) in
      let further = collect_bullets kept rest in
      if leb max_handoff_findings (length kept) then kept else further
]

unfoldable add_code : ℕ → List Text → List Text
add_code c [] = (c ∷ []) ∷ []
add_code c (piece ∷ rest) = (c ∷ piece) ∷ rest

-- `reply.split(". ")`; `dot` is a full stop just before.
unfoldable pub split_sentences : (dot : Bool) → Text → List Text
unfolding add_code
split_sentences false [] = [] ∷ []
split_sentences true [] = (46 ∷ []) ∷ []
split_sentences false (c ∷ s) =
    let after_stop = split_sentences true s in
    let after_text = split_sentences false s in
    if c == 46 then after_stop else add_code c after_text
split_sentences true (c ∷ s) =
    let after_stop = split_sentences true s in
    let after_text = split_sentences false s in
    if c == 32
    then [] ∷ after_text
    else if c == 46
    then add_code 46 after_stop
    else add_code 46 (add_code c after_text)

unfoldable pub sentences_of : List Text → List Text
sentences_of pieces = filter (λ x. ltb 20 (length x)) (map strip pieces)

unfoldable pub extract_findings : (reply : Text) → List Text
unfolding split_lines collect_bullets split_sentences sentences_of
extract_findings reply = elim (collect_bullets [] (split_lines reply)) [
  | [] ↦ map (take max_finding_chars) (take 3 (sentences_of (split_sentences false reply)))
  | bullet ∷ more ↦ bullet ∷ more
]

unfoldable pub build_handoff : (source_agent target_agent : String) → AgentResult → AgentHandoff
unfolding extract_findings
build_handoff source_agent target_agent result = record {
  source_agent = source_agent;
  target_agent = target_agent;
  relevant_findings = extract_findings result.output.reply;
}

-- `AgentHandoff.render`, by its fields, or a bare digest.
pub data Finding : Type 0 where
  handed : AgentHandoff → Finding
  digest : Text → Finding

unfoldable pub digest_of : Output → List Finding
digest_of output = elim output.digest [
  | none ↦ []
  | some text ↦ elim text [ [] ↦ [] | c ∷ s ↦ Finding.digest (c ∷ s) ∷ [] ]
]

unfoldable pub finding_of : Scratch → List Finding
unfolding digest_of
finding_of entry = elim entry.handoff [
  | none ↦ digest_of entry.output
  | some handoff ↦ elim handoff.relevant_findings [
    | [] ↦ digest_of entry.output
    | finding ∷ more ↦ Finding.handed handoff ∷ []
  ]
]

unfoldable pub findings_of : (scratch : List Scratch) → List Finding
unfolding finding_of
findings_of [] = []
findings_of (entry ∷ rest) = finding_of entry ++ findings_of rest

-- The scratch that `orchestrate_stream` gives the last step.
unfoldable pub terminal_scratch : List (String × AgentResult) → List Scratch
terminal_scratch [] = []
terminal_scratch ((key, r) ∷ rest) =
    record { agent_key = key; output = r.output; handoff = none } ∷ terminal_scratch rest
