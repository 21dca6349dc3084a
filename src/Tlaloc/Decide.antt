-- ===== src/Tlaloc/Decide.antt =====
-- tlaloc/tlaloc/decide.py: how `Decider.next_effect` picks one of the candidates. A probability is of
-- any type `F` with the comparisons and the two operations that the code uses; what `_ask` returns
-- and what the arbiter's model replies are parameters.
pub mod Bounded
use tezcatlipoca.Base.{
  ℕ, Bool, true, false, not, ◌&&◌, ◌||◌, Option, none, some, List, [], ◌∷◌, map, if◌then◌else◌, any,
  find, contains, is_empty, Text, text, text_beq, text_eq,
}

-- a candidate, as the decider reads it
pub record Listed : Type 0 where
  pub id : Text
  pub effect : Text
  pub high_stakes : Bool

-- an answer whose probabilities are all numbers
pub record Answer (F : Type 0) : Type 0 where
  pub is_noul : Bool
  pub noul : Option F
  pub probabilities : List (Text × F)
  -- the empty text where there is none
  pub choice : Text

pub data Source : Type 0 where
  clef llm_arbiter deterministic : Source

pub record Decision : Type 0 where
  pub answer : Text
  pub source : Source
  pub chosen : Option Listed

by_id : Text → List Listed → Option Listed
unfolding find
by_id id = find (λ c. text_beq c.id id)

-- the configured effects, or those that are risky anyway
risky_effects : List Text → List Text
risky_effects [] = text "takedown" ∷ text "lockout" ∷ text "rotate_credlist" ∷ []
risky_effects (e ∷ es) = e ∷ es

is_risky : List Text → Listed → Bool
unfolding risky_effects contains
is_risky effects c = c.high_stakes || contains (risky_effects effects) c.effect

-- with none chosen, whether any is risky
pub high_stakes : List Text → List Listed → Option Text → Bool
unfolding any by_id is_risky
high_stakes effects candidates none = any (is_risky effects) candidates
high_stakes effects candidates (some id) = elim (by_id id candidates) [
  | none ↦ false
  | some c ↦ is_risky effects c
]

module _ {F : Type 0} (less : F → F → Bool) (nought : F) (opposite : F → F) where
  greater_of : F → F → F
  greater_of a b = if less a b then b else a

  -- the first entry of the greatest value
  greatest : Text × F → List (Text × F) → Text × F
  greatest best [] = best
  greatest best (p ∷ ps) = greatest (if less best.1 p.1 then p else best) ps

  -- `opposite yes` is 1.0 - yes
  unfoldable pub top_probability : Answer F → F
  unfolding greatest greater_of
  top_probability a =
      if a.is_noul
      then greater_of (elim a.noul [ none ↦ nought | some y ↦ y ])
          (opposite (elim a.noul [ none ↦ nought | some y ↦ y ]))
      else elim a.probabilities [
        | [] ↦ elim a.noul [ none ↦ nought | some y ↦ greater_of y (opposite y) ]
        | p ∷ ps ↦ (greatest p ps).1
      ]

  unfoldable pub choice_of : Answer F → Option Text
  unfolding greatest
  choice_of a =
      if not (is_empty a.choice)
      then some a.choice
      else elim a.probabilities [ [] ↦ none | p ∷ ps ↦ some (greatest p ps).0 ]

  -- an answer that is not there is an empty one
  no_answer : Answer F
  no_answer = record { is_noul = false; noul = none; probabilities = []; choice = [] }

  -- payload["answers"].get("next_effect") or {}
  unfoldable pub answer_of : Option (Answer F) → Answer F
  unfolding no_answer
  answer_of none = no_answer
  answer_of (some a) = a

-- the reply of the arbiter's model counts only if it names a candidate
arbitrate : List Listed → Option Text → Option Listed
unfolding by_id
arbitrate candidates none = none
arbitrate candidates (some id) = by_id id candidates

unfoldable pub decision : Source → Listed → Decision
decision source c = record { answer = c.id; source = source; chosen = some c }

unfoldable pub hold : Source → Decision
hold source = record { answer = text "hold"; source = source; chosen = none }

-- the arbiter where the stakes are high, or the first candidate
fall_back : List Text → Listed → List Listed → Option Text → Option Text → Decision
unfolding high_stakes arbitrate decision
fall_back effects first candidates picked reply =
    let arbitrated : Decision = elim (arbitrate candidates reply) [
      | none ↦ decision deterministic first
      | some c ↦ decision llm_arbiter c
    ] in
    if high_stakes effects candidates picked then arbitrated else decision deterministic first

-- a choice above theta
confident : List Text → Listed → List Listed → Text → Option Text → Decision
unfolding by_id decision hold fall_back
confident effects first candidates picked reply =
    if text_beq picked (text "hold") then hold clef else elim (by_id picked candidates) [
      | some c ↦ decision clef c
      | none ↦ fall_back effects first candidates (some picked) reply
    ]

module _ {F : Type 0} (less : F → F → Bool) (nought : F) (opposite : F → F) (theta : F)
    (effects : List Text) where
  pick : Listed → List Listed → Bool → Option Text → Option Text → Decision
  unfolding confident fall_back
  pick first candidates above none reply = fall_back effects first candidates none reply
  pick first candidates above (some picked) reply =
      if above
      then confident effects first candidates picked reply
      else fall_back effects first candidates (some picked) reply

  -- next_effect: `payload` is none where clef is unavailable, and some none where it has no answer
  unfoldable pub next_effect : List Listed → Option (Option (Answer F)) → Option Text → Decision
  unfolding pick top_probability choice_of answer_of hold decision
  next_effect [] payload reply = hold deterministic
  next_effect (first ∷ rest) none reply = decision deterministic first
  next_effect (first ∷ rest) (some answer) reply =
      let a = answer_of less nought opposite answer in
      pick first (first ∷ rest) (not (less (top_probability less nought opposite a) theta))
        (choice_of less nought opposite a) reply
