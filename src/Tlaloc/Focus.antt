-- ===== src/Tlaloc/Focus.antt =====
-- tlaloc/tlaloc/policy.py: `focus_team`, which draws the team in focus from a bag. Times are ticks;
-- `choose` is what the random generator's `choice` draws from a list at one call.
pub mod Rounds
use tezcatlipoca.Base.{
  ℕ, zero, suc, ◌-◌, Bool, true, false, not, ◌&&◌, ◌||◌, Option, none, some, List, [], ◌∷◌,
  if◌then◌else◌, keep, contains, is_empty, leb, nat_beq, Text, text_beq, text_eq,
}

-- world.meta: the team in focus, since when, and the bag
pub record Meta : Type 0 where
  pub focused_team : Option Text
  -- 0 where it is not set
  pub focus_since : ℕ
  pub focus_bag : List Text

is_current : Option Text → Text → Bool
is_current none t = false
is_current (some c) t = text_beq t c

unfoldable pub without : Option Text → List Text → List Text
unfolding keep is_current
without current = keep (λ t. not (is_current current t))

-- the first list, or the second where the first is empty
or_all : List Text → List Text → List Text
or_all [] ys = ys
or_all (x ∷ xs) ys = x ∷ xs

is_stale_focus : ℕ → ℕ → Meta → Bool
is_stale_focus rotate_after now m =
    nat_beq m.focus_since 0 || leb rotate_after (now - m.focus_since)

is_known : List Text → Option Text → Bool
unfolding contains
is_known teams none = false
is_known teams (some t) = contains teams t

-- what is left in the bag
unfoldable pub left_in_bag : List Text → Meta → List Text
unfolding without keep contains
left_in_bag teams m = without m.focused_team (keep (contains teams) m.focus_bag)

drawn : ℕ → Text → List Text → Meta
unfolding without
drawn now chosen bag = record {
  focused_team = some chosen;
  focus_since = now;
  focus_bag = without (some chosen) bag;
}

-- the bag, or a new one where nothing is left of it
refilled : List Text → Meta → List Text
unfolding left_in_bag or_all without
refilled teams m = or_all (left_in_bag teams m) (or_all (without m.focused_team teams) teams)

is_due : List Text → ℕ → ℕ → Meta → Bool
unfolding is_known is_stale_focus left_in_bag
is_due teams rotate_after now m =
    not (is_known teams m.focused_team)
    || is_stale_focus rotate_after now m
    || is_empty (left_in_bag teams m)

-- focus_team where there are teams; the team in focus is in the state that is returned
unfoldable pub refocus : List Text → ℕ → (List Text → Text) → ℕ → Meta → Meta
unfolding refilled is_due drawn
refocus teams rotate_after choose now m =
    if is_due teams rotate_after now m
    then drawn now (choose (refilled teams m)) (refilled teams m)
    else m

-- focus_team; without teams it raises
unfoldable pub focus_team : List Text → ℕ → (List Text → Text) → ℕ → Meta → Option Meta
unfolding refocus
focus_team [] rotate_after choose now m = none
focus_team (t ∷ ts) rotate_after choose now m = some (refocus (t ∷ ts) rotate_after choose now m)
