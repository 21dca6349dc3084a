-- ===== src/Tlaloc/Clef.antt =====
-- tlaloc/tlaloc/decide.py: `ClefClient`, which stops asking a model that fails for a while. Times are
-- ticks. A ratio of tokens to characters is of any type `F`: `bigger` is max, `nought` is 0.0,
-- `exceeds chars r n` whether the estimate of chars at r is over n, and `implied real chars` the ratio that is learned. What
-- comes back for a request is a parameter, and so is a payload.
pub mod Load
use tezcatlipoca.Base.{
  ℕ, zero, suc, ◌+◌, Bool, true, false, not, ◌&&◌, ◌||◌, Option, none, some, List, [], ◌∷◌,
  if◌then◌else◌, leb,
}
use tezcatlipoca.Base.Actions.{Result, ok, err}

pub data Reply (Payload : Type 0) : Type 0 where
  -- with the count of tokens that a refusal as too large names
  raised : (real : Option ℕ) → Reply Payload
  malformed : Reply Payload
  answered : (payload : Payload) (input_tokens : Option ℕ) → Reply Payload

pub data ClefError : Type 0 where
  unavailable over_estimate over_budget post_failed malformed_response : ClefError

pub record Settings (F : Type 0) : Type 0 where
  -- enabled, and there is a base_url
  pub configured : Bool
  pub tokens_per_char : F
  pub max_request_tokens : ℕ
  pub failure_threshold : ℕ
  pub cooldown : ℕ

pub record Client (F : Type 0) : Type 0 where
  pub learned_ratio : Option F
  pub calls : ℕ
  pub failures : ℕ
  pub last_input_tokens : Option ℕ
  pub disabled_until : ℕ
  -- how many requests were sent
  pub sent : ℕ

-- one call of `ask`: the time, the characters of the body, the time when the reply is there
pub record Question (Payload : Type 0) : Type 0 where
  pub at : ℕ
  pub chars : ℕ
  pub reply : Reply Payload
  pub after : ℕ

unfoldable pub fresh : {F : Type 0} → Client F
fresh = record {
  learned_ratio = none;
  calls = 0;
  failures = 0;
  last_input_tokens = none;
  disabled_until = 0;
  sent = 0;
}

-- max(1, n)
at_least_one : ℕ → ℕ
at_least_one zero = 1
at_least_one (suc n) = suc n

module _ {F : Type 0} (s : Settings F) where
  available : ℕ → Client F → Bool
  available now c = s.configured && leb c.disabled_until now

  note_failure : ℕ → Client F → Client F
  note_failure now c =
      if leb s.failure_threshold (suc c.failures)
      then record c { disabled_until = now + s.cooldown; failures = 0 }
      else record c { failures = suc c.failures }

  note_success : Client F → Client F
  note_success c = record c { failures = 0 }

  ratio : (F → F → F) → F → Client F → F
  ratio bigger nought c =
      bigger s.tokens_per_char (elim c.learned_ratio [ none ↦ nought | some r ↦ r ])

module _ {F Payload : Type 0} (bigger : F → F → F) (nought : F) (exceeds : ℕ → F → ℕ → Bool)
    (implied : ℕ → ℕ → F) (s : Settings F) where
  -- what a reply does
  settle : ℕ → ℕ → Reply Payload → Client F → Result ClefError Payload × Client F
  unfolding note_failure note_success at_least_one
  settle chars after (raised none) c = (err post_failed, note_failure s after c)
  settle chars after (raised (some zero)) c = (err post_failed, note_failure s after c)
  settle chars after (raised (some (suc real))) c = (
    err over_budget,
    record (note_failure s after c) {
      learned_ratio = some (implied (suc real) (at_least_one chars));
    },
  )
  settle chars after malformed c = (err malformed_response, note_failure s after c)
  settle chars after (answered payload input_tokens) c = (
    ok payload,
    note_success s (record c { calls = suc c.calls; last_input_tokens = input_tokens }),
  )

  unfoldable pub ask : Question Payload → Client F → Result ClefError Payload × Client F
  unfolding available ratio settle
  ask q c =
      if not (available s q.at c)
      then (err unavailable, c)
      else if exceeds q.chars (ratio s bigger nought c) s.max_request_tokens
      then (err over_estimate, c)
      else settle q.chars q.after q.reply (record c { sent = suc c.sent })

  -- the client after some calls
  unfoldable pub ask_all : List (Question Payload) → Client F → Client F
  unfolding ask
  ask_all [] c = c
  ask_all (q ∷ qs) c = ask_all qs (ask q c).1
