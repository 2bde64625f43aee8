-- ===== src/Routing/Clauses.antt =====
-- The split of a request into clauses, and whether a clause needs an earlier one
-- (backend/app/services/agents/router.py).
use gummy_os.Common.{
  ℕ, zero, suc, ◌-◌, Text, codes, text_eq, lower, starts_with, strip_of, Bool, true, false, ◌||◌,
  ◌==◌, leb, List, [], ◌∷◌, map, any, length, Option, none, some, if◌then◌else◌,
}
use gummy_os.Routing.Keywords.{search_word}

-- COMPOUND_MIN_CLAUSE_CHARS
abbrev min_clause_chars : ℕ
min_clause_chars = 8

abbrev connectives : List Text
connectives =
    codes " and then "
    ∷ codes " then also "
    ∷ codes " and after that "
    ∷ codes " after that "
    ∷ codes ", and then "
    ∷ codes ", then "
    ∷ codes " then "
    ∷ codes ", and "
    ∷ codes " and also "
    ∷ codes " and "
    ∷ codes ";"
    ∷ codes ","
    ∷ []

abbrev sequencing_joins : List Text
sequencing_joins =
    codes "and then"
    ∷ codes "then also"
    ∷ codes "and after that"
    ∷ codes "after that"
    ∷ codes "then"
    ∷ []

-- The alternatives of `_DEPENDENCY_RE`, written out; those of `open_markers` have no `\b` at the end.
abbrev dependency_markers : List Text
dependency_markers =
    codes "based on"
    ∷ codes "using the results"
    ∷ codes "using those"
    ∷ codes "using that"
    ∷ codes "using what"
    ∷ codes "from what"
    ∷ codes "from the results"
    ∷ codes "from those"
    ∷ codes "once you"
    ∷ codes "with those"
    ∷ codes "with that"
    ∷ codes "with the results"
    ∷ codes "for the biggest"
    ∷ codes "for the main"
    ∷ codes "for the top"
    ∷ codes "for the largest"
    ∷ codes "for the weakest"
    ∷ codes "for my biggest"
    ∷ codes "for my main"
    ∷ codes "for my top"
    ∷ codes "for my largest"
    ∷ codes "for my weakest"
    ∷ codes "for that biggest"
    ∷ codes "for that main"
    ∷ codes "for that top"
    ∷ codes "for that largest"
    ∷ codes "for that weakest"
    ∷ codes "the biggest"
    ∷ codes "the main"
    ∷ codes "the top"
    ∷ codes "the largest"
    ∷ codes "the weakest"
    ∷ codes "the best"
    ∷ codes "the first"
    ∷ codes "the company"
    ∷ codes "the companies"
    ∷ codes "the role"
    ∷ codes "the roles"
    ∷ codes "the job"
    ∷ codes "the jobs"
    ∷ codes "the listing"
    ∷ codes "the listings"
    ∷ codes "the result"
    ∷ codes "the results"
    ∷ codes "the option"
    ∷ codes "the options"
    ∷ codes "the gap"
    ∷ codes "the gaps"
    ∷ codes "the one"
    ∷ codes "the ones"
    ∷ codes "those"
    ∷ codes "them"
    ∷ codes "these"
    ∷ codes "each one"
    ∷ codes "each of them"
    ∷ codes "that gap"
    ∷ codes "that role"
    ∷ codes "that company"
    ∷ codes "that topic"
    ∷ codes "that one"
    ∷ codes "that result"
    ∷ []

abbrev open_markers : List Text
open_markers =
    codes "after you" ∷ codes "after research" ∷ codes "after find" ∷ codes "after check" ∷ []

-- The first connective, in order, that stands here; the text is in lower case.
unfoldable connective_at : List Text → (lowered : Text) → Option Text
unfolding starts_with
connective_at [] lowered = none
connective_at (connective ∷ rest) lowered =
    if starts_with connective lowered then some connective else connective_at rest lowered

-- `_CONNECTIVE_CAPTURE_RE.split`: the first clause, and the later ones after their connectives. `skip`
-- characters belong to a connective that was found.
unfoldable split_connectives : (skip : ℕ) → Text → Text × List (Text × Text)
unfolding connective_at lower
split_connectives skip [] = ([], [])
split_connectives (suc k) (c ∷ s) = split_connectives k s
split_connectives zero (c ∷ s) = elim (connective_at connectives (lower (c ∷ s))) [
  | none ↦ let (clause, rest) = split_connectives zero s in (c ∷ clause, rest)
  | some connective ↦
      let (clause, rest) = split_connectives (length connective - 1) s in
      ([], (connective, clause) ∷ rest)
]

abbrev is_clause_edge : ℕ → Bool
is_clause_edge c = c == b' ' || c == b',' || c == b'.' || c == b';'

abbrev is_join_edge : ℕ → Bool
is_join_edge c = c == b' ' || c == b','

-- The clauses that are long enough, with the connective that came before each.
unfoldable keep_clauses : List (Text × Text) → List (Text × Text)
unfolding strip_of
keep_clauses [] = []
keep_clauses ((join, raw) ∷ rest) =
    let clause = strip_of is_clause_edge raw in
    if leb min_clause_chars (length clause)
    then (clause, strip_of is_join_edge join) ∷ keep_clauses rest
    else keep_clauses rest

unfoldable pub segments : (intent : Text) → List (Text × Text)
unfolding split_connectives keep_clauses
segments intent =
    let (clause, rest) = split_connectives 0 intent in keep_clauses (([], clause) ∷ rest)

unfoldable split_clauses : (intent : Text) → List Text
unfolding segments
split_clauses intent = map (λ (c : Text × Text). c.0) (segments intent)

unfoldable pub depends_on_earlier : (clause join : Text) → Bool
unfolding search_word lower text_eq
depends_on_earlier clause join =
    any (text_eq join) sequencing_joins
    || any (λ m. search_word true m none (lower clause)) dependency_markers
    || any (λ m. search_word false m none (lower clause)) open_markers
