-- ===== src/Naming.antt =====
-- common/constants.py: the names and tags that identify a competition and a run. Text is the list
-- of its code points, and competition names are ASCII: `lower` leaves other code points alone.
pub mod Slug
mod Tests
use tezcatlipoca.Base.{
  ℕ, ◌+◌, Bool, true, false, not, ◌&&◌, ◌||◌, List, [], ◌∷◌, ◌++◌, leb, nat_beq, if◌then◌else◌,
  is_empty, map, Text, text,
}

-- str.lower
unfoldable lower_char : ℕ → ℕ
lower_char c = if leb b'A' c && leb c b'Z' then c + 32 else c

unfoldable pub lower : Text → Text
unfolding lower_char
lower = map lower_char

-- the class [a-z0-9-] of the regular expression
unfoldable pub is_slug_char : ℕ → Bool
is_slug_char c = leb b'a' c && leb c b'z' || leb b'0' c && leb c b'9' || nat_beq c b'-'

-- re.sub(r"[^a-z0-9-]+", "-", s): a run of other characters becomes one dash
dash_runs : Bool → Text → Text
unfolding is_slug_char
dash_runs in_run [] = []
dash_runs in_run (c ∷ s) =
    let rest = dash_runs (not (is_slug_char c)) s in
    if is_slug_char c then c ∷ rest else if in_run then rest else b'-' ∷ rest

-- s.lstrip("-"), s.rstrip("-")
lstrip_dash : Text → Text
lstrip_dash [] = []
lstrip_dash (c ∷ s) = let rest = lstrip_dash s in if nat_beq c b'-' then rest else c ∷ s

rstrip_dash : Text → Text
rstrip_dash [] = []
rstrip_dash (c ∷ s) =
    let rest = rstrip_dash s in if nat_beq c b'-' && is_empty rest then [] else c ∷ rest

unfoldable pub comp_slug : Text → Text
unfolding lower dash_runs lstrip_dash rstrip_dash
comp_slug name = rstrip_dash (lstrip_dash (dash_runs false (lower name)))

unfoldable pub comp_tag : Text → Text
unfolding comp_slug
comp_tag name = text "comp-" ++ comp_slug name

abbrev pub tool_tag : Text
tool_tag = text "tezcatlipoca"

-- `run_id` is empty where the source has None or the empty string
unfoldable pub ownership_tags : Text → Text → List Text → List Text
ownership_tags comp run_id extra =
    tool_tag ∷ comp_tag comp ∷ (if is_empty run_id then extra else run_id ∷ extra)
