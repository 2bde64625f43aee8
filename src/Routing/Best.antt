-- ===== src/Routing/Best.antt =====
-- The specialist that the scorer chooses (backend/app/services/agents/router.py).
use gummy_os.Common.{
  String, ◌≡◌, refl, sym, ap, ◌∙◌, Text, Bool, Bool-cases, true, false, ltb, List, [], ◌∷◌, ◌++◌,
  append_assoc, append-nil, All, All-append, All-imp, Option, none, some, Option-cases, inl, inr,
  ◌<◌, ◌≤◌, ◌⊎◌, arith,
}
use mathlib.Core.Path.{subst}
use gummy_os.Agents.{AgentManifest}
use gummy_os.Agents.Registry as Registry
use gummy_os.Routing.Keywords.{min_score, score_specialist, Best, beats, candidate, best_of}

-- The candidate comes out ahead of another, or of none.
unfoldable is_ahead : Option Best → Best → Bool
unfolding beats
is_ahead none b = false
is_ahead (some c) b = beats c.score c.priority (some b)

-- A higher score, or the same score and a higher priority, where the other is a candidate at all.
abbrev pub Outranks : Best → Option Best → Type 0
Outranks b none = Unit
Outranks b (some c) = (c.score < b.score) ⊎ ((c.score ≡ b.score) × (c.priority < b.priority))

-- A lower score, or the same score and no higher priority, where the other is a candidate at all.
abbrev pub Holds : Best → Option Best → Type 0
Holds b none = Unit
Holds b (some c) = (c.score < b.score) ⊎ ((c.score ≡ b.score) × (c.priority ≤ b.priority))

beats-Outranks : (b : Best) (o : Option Best) → beats b.score b.priority o ≡ true → Outranks b o
unfolding beats
beats-Outranks b none h = tt
beats-Outranks b (some c) h = grind arith

behind-Holds : (b : Best) (o : Option Best) → is_ahead o b ≡ false → Holds b o
unfolding beats is_ahead
behind-Holds b none h = tt
behind-Holds b (some c) h = grind arith

module _ (registry : List AgentManifest) (lowered : Text) where
  -- The winner is the first of the best: it outranks the candidates before it, and no later one it.
  pub record IsWinner (keys : List String) (b : Best) : Type 0 where
    pub before : List String
    pub after : List String
    pub split : keys ≡ before ++ b.key ∷ after
    pub own : candidate registry lowered b.key ≡ some b
    pub first : All (λ k. Outranks b (candidate registry lowered k)) before
    pub best : All (λ k. Holds b (candidate registry lowered k)) after

  -- Nobody wins exactly where there is no candidate.
  abbrev pub IsOutcome : List String → Option Best → Type 0
  IsOutcome keys none = All (λ k. candidate registry lowered k ≡ none) keys
  IsOutcome keys (some b) = IsWinner keys b

  -- The same by the comparison of the loop.
  record IsFirst (keys : List String) (b : Best) : Type 0 where
    pub before : List String
    pub after : List String
    pub split : keys ≡ before ++ b.key ∷ after
    pub own : candidate registry lowered b.key ≡ some b
    pub first : All (λ k. beats b.score b.priority (candidate registry lowered k) ≡ true) before
    pub best : All (λ k. is_ahead (candidate registry lowered k) b ≡ false) after

  abbrev IsFolded : List String → Option Best → Type 0
  IsFolded keys none = All (λ k. candidate registry lowered k ≡ none) keys
  IsFolded keys (some b) = IsFirst keys b

  pub candidate-key :
      (key : String) (b : Best) → candidate registry lowered key ≡ some b → b.key ≡ key
  unfolding candidate
  candidate-key key b e = elim (Option-cases (Registry.get registry key)) [
    | inl missing ↦ absurd (ground arith)
    | inr (manifest, there) ↦
        elim (Bool-cases (ltb (score_specialist manifest lowered).0 min_score)) [
          | inl low ↦ absurd (ground arith)
          | inr high ↦ ground arith
        ]
  ]

  -- A key that is ahead of all that came before it.
  front-IsFirst :
      (keys : List String) (key : String) (c : Best)
      → All (λ k. beats c.score c.priority (candidate registry lowered k) ≡ true) keys
      → candidate registry lowered key ≡ some c
      → IsFirst (keys ++ key ∷ []) c
  front-IsFirst keys key c h e =
      let same = candidate-key key c e in
      record {
        before = keys;
        after = [];
        split = ap (λ k. keys ++ k ∷ []) (sym same);
        own = subst (λ k. candidate registry lowered k ≡ some c) (sym same) e;
        first = h;
        best = tt;
      }

  -- A key that is not ahead joins the losers.
  later-IsFirst :
      (keys : List String) (key : String) (b : Best)
      → IsFirst keys b
      → is_ahead (candidate registry lowered key) b ≡ false
      → IsFirst (keys ++ key ∷ []) b
  later-IsFirst keys key b w behind = record {
    before = w.before;
    after = w.after ++ key ∷ [];
    split = ap (◌++ key ∷ []) w.split ∙ append_assoc w.before (b.key ∷ w.after) (key ∷ []);
    own = w.own;
    first = w.first;
    best = All-append _ w.after _ w.best (behind, tt);
  }

  overtakes :
      (c b : Best) (o : Option Best)
      → beats c.score c.priority (some b) ≡ true
      → is_ahead o b ≡ false
      → beats c.score c.priority o ≡ true
  unfolding beats is_ahead
  overtakes c b none h k = refl
  overtakes c b (some d) h k = ground arith

  beaten : (b : Best) (o : Option Best) → beats b.score b.priority o ≡ true → is_ahead o b ≡ false
  unfolding beats is_ahead
  beaten b none h = refl
  beaten b (some d) h = ground arith

  same_ahead : (b : Best) → is_ahead (some b) b ≡ false
  unfolding beats is_ahead
  same_ahead b = ground arith

  -- A key that is ahead of the winner beats all that came before it.
  next-IsFirst :
      (keys : List String) (key : String) (b c : Best)
      → IsFirst keys b
      → candidate registry lowered key ≡ some c
      → beats c.score c.priority (some b) ≡ true
      → IsFirst (keys ++ key ∷ []) c
  next-IsFirst keys key b c w e ahead =
      let over = λ (k : String) (h : is_ahead (candidate registry lowered k) b ≡ false).
        overtakes c b (candidate registry lowered k) ahead h in
      let earlier =
        All-imp _ _ w.before (λ k h. over k (beaten b (candidate registry lowered k) h)) w.first in
      let itself : beats c.score c.priority (candidate registry lowered b.key) ≡ true =
        rw w.own ahead in
      let later = All-imp _ _ w.after over w.best in
      front-IsFirst keys key c
        (rw w.split (All-append _ w.before (b.key ∷ w.after) earlier (itself, later))) e

  nobody : (c : Best) (o : Option Best) → o ≡ none → beats c.score c.priority o ≡ true
  unfolding beats
  nobody c o e = rw e

  ahead_of_none : (b : Best) (o : Option Best) → o ≡ none → is_ahead o b ≡ false
  unfolding is_ahead
  ahead_of_none b o e = rw e

  shift :
      (keys : List String) (key : String) (rest : List String) (o : Option Best)
      → IsFolded ((keys ++ key ∷ []) ++ rest) o
      → IsFolded (keys ++ key ∷ rest) o
  shift keys key rest o = subst (λ ks. IsFolded ks o) (append_assoc keys (key ∷ []) rest)

  best_of-IsFolded :
      (keys rest : List String) (best : Option Best)
      → IsFolded keys best
      → IsFolded (keys ++ rest) (best_of registry lowered best rest)
  unfolding best_of
  best_of-IsFolded keys [] best h = subst (λ ks. IsFolded ks best) (sym (append-nil keys)) h
  best_of-IsFolded keys (key ∷ rest) none h = elim (Option-cases (candidate registry lowered key)) [
    | inl absent ↦
        rw (absent, best_of)
          (shift keys key rest _
            (best_of-IsFolded (keys ++ key ∷ []) rest none (All-append _ keys _ h (absent, tt))))
    | inr (c, there) ↦
        let all_beaten = All-imp _ _ keys (λ k e. nobody c (candidate registry lowered k) e) h in
        rw (there, best_of)
          (shift keys key rest _ (
            best_of-IsFolded (keys ++ key ∷ []) rest (some c)
              (front-IsFirst keys key c all_beaten there)))
  ]
  best_of-IsFolded keys (key ∷ rest) (some b) h =
      elim (Option-cases (candidate registry lowered key)) [
        | inl absent ↦
            rw (absent, best_of)
              (shift keys key rest _ (
                best_of-IsFolded (keys ++ key ∷ []) rest (some b) (
                  later-IsFirst keys key b h
                    (ahead_of_none b (candidate registry lowered key) absent))))
        | inr (c, there) ↦ elim (Bool-cases (beats c.score c.priority (some b))) [
          | inl ahead ↦
              rw (there, ahead, best_of)
                (shift keys key rest _ (
                  best_of-IsFolded (keys ++ key ∷ []) rest (some c)
                    (next-IsFirst keys key b c h there ahead)))
          | inr behind ↦
              rw (there, behind, best_of)
                (shift keys key rest _ (
                  best_of-IsFolded (keys ++ key ∷ []) rest (some b)
                    (later-IsFirst keys key b h (rw there (unfold is_ahead in behind)))))
        ]
      ]

  IsFolded-IsOutcome : (keys : List String) (o : Option Best) → IsFolded keys o → IsOutcome keys o
  IsFolded-IsOutcome keys none h = h
  IsFolded-IsOutcome keys (some b) w = record {
    before = w.before;
    after = w.after;
    split = w.split;
    own = w.own;
    first = All-imp _ _ w.before (λ k h. beats-Outranks b (candidate registry lowered k) h) w.first;
    best = All-imp _ _ w.after (λ k h. behind-Holds b (candidate registry lowered k) h) w.best;
  }

  -- The scorer picks the first of the best specialists, by score and then by priority: where it picks
  -- none, no key is a candidate; otherwise the pick is the candidate of its key, it has a higher score
  -- than the candidate of any key before that one, or the same score and a higher priority, and the
  -- candidate of any later key has a lower score, or the same score and no higher priority.
  pub best_of-first_max : (keys : List String) → IsOutcome keys (best_of registry lowered none keys)
  best_of-first_max keys =
      IsFolded-IsOutcome keys (best_of registry lowered none keys)
        (best_of-IsFolded [] keys none tt)
