-- ===== src/Orchestration/Findings.antt =====
-- What crosses from one agent to the next (backend/app/services/agents/orchestrator_service.py, and
-- handlers/grounding.py for what the prompt reads).
use gummy_os.Common.{
  true, some, ◌+◌, get_elem?, is_digit_code, ◌⊎◌, ℕ, ◌≤◌, ◌<◌, ◌≡◌, Text, strip, lstrip_of, false,
  List, [], ◌∷◌, take, length, All,
}
use gummy_os.Orchestration.Handoff.{split_lines, is_mark, split_sentences}

-- A finding has at least four characters and at most 220.
abbrev pub IsFinding : Text → Type 0
IsFinding s = (4 ≤ length s) × (length s ≤ 220)

-- The line begins as an item of a list: with `-`, `*` or `•`, or with a digit and `)` or `.` and more.
abbrev pub IsItem : Text → Type 0
IsItem [] = ⊥
IsItem (a ∷ []) = (a ≡ 45) ⊎ (a ≡ 42) ⊎ (a ≡ 8226)
IsItem (a ∷ b ∷ []) = (a ≡ 45) ⊎ (a ≡ 42) ⊎ (a ≡ 8226)
IsItem (a ∷ b ∷ c ∷ rest) =
    (a ≡ 45) ⊎ (a ≡ 42) ⊎ (a ≡ 8226) ⊎ ((is_digit_code a ≡ true) × ((b ≡ 41) ⊎ (b ≡ 46)))

-- What stands on an item behind its mark, cut at 220 characters; it had at least four.
pub record IsBullet (lines : List Text) (finding : Text) : Type 0 where
  pub position : ℕ
  pub line : Text
  pub is_there : get_elem? lines position ≡ some line
  pub item : IsItem (strip line)
  pub long : 4 ≤ length (strip (lstrip_of is_mark (strip line)))
  pub content : finding ≡ take 220 (strip (lstrip_of is_mark (strip line)))

-- No line of the reply is an item with four characters behind its mark.
abbrev pub IsPlain : Text → Type 0
IsPlain line = IsItem (strip line) → length (strip (lstrip_of is_mark (strip line))) ≤ 3

-- A sentence, stripped, of more than 20 characters, cut at 220.
pub record IsSentence (sentences : List Text) (finding : Text) : Type 0 where
  pub position : ℕ
  pub sentence : Text
  pub is_there : get_elem? sentences position ≡ some sentence
  pub long : 20 < length (strip sentence)
  pub content : finding ≡ take 220 (strip sentence)

pub record IsHandedOver (reply : Text) (findings : List Text) : Type 0 where
  pub few : length findings ≤ 6
  pub each : All IsFinding findings
  pub origin :
      All (IsBullet (split_lines reply)) findings
      ⊎ (All IsPlain (split_lines reply)
          × (length findings ≤ 3)
          × All (IsSentence (split_sentences false reply)) findings)

-- The lines from a position on.
IsRest : (lines : List Text) (position : ℕ) (rest : List Text) → Type 0
IsRest lines position rest = (i : ℕ) → get_elem? lines (position + i) ≡ get_elem? rest i
