-- ===== src/Routing/Planned.antt =====
-- The tasks of a compound request (backend/app/services/agents/router.py).
use mathlib.Core.Path.{subst}
use gummy_os.Common.{
  ℕ, zero, suc, String, ◌==ₛ◌, eq_iff, ◌≡◌, Text, Bool, Bool-cases, true, false, List, [], ◌∷◌,
  ◌++◌, map, take, find-any, All, All-take, lower, some, Option-cases, inl, inr, arith, sorted_set,
}
use gummy_os.Agents.{AgentManifest}
use gummy_os.Agents.Registry as Registry
use gummy_os.Agents.Registry.{has_agent}
use gummy_os.Routing.{specialist_agent_keys}
use gummy_os.Routing.Keywords.{Best, candidate}
use gummy_os.Routing.Clauses.{depends_on_earlier}
use gummy_os.Routing.Best.{IsWinner, best_of-first_max, candidate-key, IsOutcome}
use gummy_os.Routing.Plans.{
  Resolved, best_specialist, fold_clause, fold_last, add_task, resolve_clause, resolve_clauses,
  reverse_onto,
}

-- No two neighbours are the same agent.
abbrev pub IsAlternating : List String → Type 0
IsAlternating [] = Unit
IsAlternating (k ∷ []) = Unit
IsAlternating (k ∷ l ∷ rest) = ((k ==ₛ l) ≡ false) × IsAlternating (l ∷ rest)

module _ (registry : List AgentManifest) where
  abbrev IsKnown : String → Type 0
  IsKnown key = has_agent registry key ≡ true

  candidate-IsKnown :
      (lowered : Text) (key : String) (b : Best)
      → candidate registry lowered key ≡ some b
      → IsKnown b.key
  unfolding candidate has_agent Registry.get
  candidate-IsKnown lowered key b e = elim (Option-cases (Registry.get registry key)) [
    | inl missing ↦ absurd (ground arith)
    | inr (manifest, there) ↦
        rw (candidate-key registry lowered key b e)
          (find-any (λ m. m.key ==ₛ key) registry manifest (unfold Registry.get in there))
  ]

  pub best_specialist-IsKnown :
      (intent : Text) (b : Best) → best_specialist intent registry ≡ some b → IsKnown b.key
  unfolding best_specialist
  best_specialist-IsKnown intent b e =
      let w : IsWinner registry (lower intent) specialist_agent_keys b =
        subst (IsOutcome registry (lower intent) specialist_agent_keys) e
          (best_of-first_max registry (lower intent) specialist_agent_keys) in
      candidate-IsKnown (lower intent) b.key b w.own

  differ_sym :
      (r s : Resolved)
      → (r.agent_key ==ₛ s.agent_key) ≡ false
      → (s.agent_key ==ₛ r.agent_key) ≡ false
  differ_sym r s h = ground (arith, eq_iff r.agent_key s.agent_key, eq_iff s.agent_key r.agent_key)

  -- Known agents, and no agent twice in a row.
  abbrev pub key_of : Resolved → String
  key_of r = r.agent_key

  pub record IsTasks (tasks : List Resolved) : Type 0 where
    pub known : All (λ r. IsKnown r.agent_key) tasks
    pub alternating : IsAlternating (map key_of tasks)

  fold_clause-IsTasks :
      (clause : Text) (more : List Text) (r : Resolved) (rest : List Resolved)
      → IsTasks (r ∷ rest)
      → IsTasks (fold_clause clause more r ∷ rest)
  unfolding fold_clause
  fold_clause-IsTasks clause more r [] h = record { known = h.known; alternating = tt }
  fold_clause-IsTasks clause more r (s ∷ rest) h = record {
    known = h.known;
    alternating = h.alternating;
  }

  fold_last-IsTasks :
      (clause : Text) (resolved : List Resolved)
      → IsTasks resolved
      → IsTasks (fold_last clause resolved)
  unfolding fold_last
  fold_last-IsTasks clause [] h = h
  fold_last-IsTasks clause (r ∷ rest) h = fold_clause-IsTasks clause r.matched r rest h

  add_task-IsTasks :
      (clause : Text) (dependent : Bool) (b : Best) (resolved : List Resolved)
      → IsKnown b.key
      → IsTasks resolved
      → IsTasks (add_task clause dependent b resolved)
  unfolding add_task
  add_task-IsTasks clause dependent b [] known h = record { known = (known, tt); alternating = tt }
  add_task-IsTasks clause dependent b (r ∷ rest) known h =
      elim (Bool-cases (r.agent_key ==ₛ b.key)) [
        | inl same ↦
            rw (same, add_task)
              (fold_clause-IsTasks clause (sorted_set (r.matched ++ b.matched)) r rest h)
        | inr other ↦
            rw (other, add_task)
              (record {
                known = (known, h.known);
                alternating = (
                  ground (arith, eq_iff r.agent_key b.key, eq_iff b.key r.agent_key),
                  h.alternating,
                );
              })
      ]

  resolve_clause-IsTasks :
      (resolved : List Resolved) (clause join : Text)
      → IsTasks resolved
      → IsTasks (resolve_clause registry resolved clause join)
  unfolding resolve_clause
  resolve_clause-IsTasks resolved clause join h =
      elim (Option-cases (best_specialist clause registry)) [
        | inl nobody ↦ rw (nobody, resolve_clause) (fold_last-IsTasks clause resolved h)
        | inr (b, found) ↦
            rw (found, resolve_clause)
              (add_task-IsTasks clause (depends_on_earlier clause join) b resolved
                (best_specialist-IsKnown clause b found) h)
      ]

  pub resolve_clauses-IsTasks :
      (resolved : List Resolved) (clauses : List (Text × Text))
      → IsTasks resolved
      → IsTasks (resolve_clauses registry resolved clauses)
  unfolding resolve_clauses
  resolve_clauses-IsTasks resolved [] h = h
  resolve_clauses-IsTasks resolved ((clause, join) ∷ rest) h =
      resolve_clauses-IsTasks (resolve_clause registry resolved clause join) rest
        (resolve_clause-IsTasks resolved clause join h)

  -- The first agents of two lists differ.
  abbrev pub HeadsDiffer : List Resolved → List Resolved → Type 0
  HeadsDiffer (r ∷ rest) (q ∷ more) = (r.agent_key ==ₛ q.agent_key) ≡ false
  HeadsDiffer rest more = Unit

  pub reverse_onto-IsTasks :
      (tasks acc : List Resolved)
      → IsTasks tasks
      → IsTasks acc
      → HeadsDiffer tasks acc
      → IsTasks (reverse_onto tasks acc)
  unfolding reverse_onto
  reverse_onto-IsTasks [] acc h k differ = k
  reverse_onto-IsTasks (r ∷ []) [] h k differ = record { known = (h.known.0, tt); alternating = tt }
  reverse_onto-IsTasks (r ∷ []) (q ∷ acc) h k differ = record {
    known = (h.known.0, k.known);
    alternating = (differ, k.alternating);
  }
  reverse_onto-IsTasks (r ∷ s ∷ rest) [] h k differ =
      reverse_onto-IsTasks (s ∷ rest) (r ∷ [])
        (record { known = h.known.1; alternating = h.alternating.1 })
        (record { known = (h.known.0, tt); alternating = tt }) (differ_sym r s h.alternating.0)
  reverse_onto-IsTasks (r ∷ s ∷ rest) (q ∷ acc) h k differ =
      reverse_onto-IsTasks (s ∷ rest) (r ∷ q ∷ acc)
        (record { known = h.known.1; alternating = h.alternating.1 })
        (record { known = (h.known.0, k.known); alternating = (differ, k.alternating) })
        (differ_sym r s h.alternating.0)

  take-IsAlternating :
      (n : ℕ) (tasks : List Resolved)
      → IsAlternating (map key_of tasks)
      → IsAlternating (map key_of (take n tasks))
  take-IsAlternating zero tasks h = tt
  take-IsAlternating (suc n) [] h = tt
  take-IsAlternating (suc zero) (r ∷ []) h = tt
  take-IsAlternating (suc (suc n)) (r ∷ []) h = tt
  take-IsAlternating (suc zero) (r ∷ s ∷ rest) h = tt
  take-IsAlternating (suc (suc n)) (r ∷ s ∷ rest) h =
      (h.0, take-IsAlternating (suc n) (s ∷ rest) h.1)

  pub take-IsTasks : (n : ℕ) (tasks : List Resolved) → IsTasks tasks → IsTasks (take n tasks)
  take-IsTasks n tasks h = record {
    known = All-take _ n tasks h.known;
    alternating = take-IsAlternating n tasks h.alternating;
  }
