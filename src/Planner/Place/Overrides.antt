-- ===== src/Planner/Place/Overrides.antt =====
-- multinode/placement_planner.py: the overrides of `compute_placement`: what they give is a dict of
-- teams, and the entries of such a dict are counted among the teams.
use tezcatlipoca.Base.{
  suc, ◌+◌, ◌≤◌, Bool, true, false, not, ◌≡◌, refl, sym, inl, inr, none, some, List, [], ◌∷◌, map,
  arith, All, any, keep, length, contains, Text, text_beq_iff, text_eq,
}
use tezcatlipoca.Base.Actions.{ok, Result-cases}
use tezcatlipoca.Base.Dict.{put, lookup, keys, IsDict, put-IsDict}
use tezcatlipoca.Planner.{Team}
use tezcatlipoca.Planner.Place.{TeamNodes, has_team, by_identifier, resolve_one, resolve_overrides}

-- a key that is no key of a dict has no value
pub contains-lookup : (k : Text) (d : TeamNodes) → lookup k d ≡ none → contains (keys d) k ≡ false
unfolding lookup contains
contains-lookup k [] h = refl
contains-lookup k ((j, w) ∷ d) h = ground (arith, contains-lookup k d)

keep_mono :
    (k : Text) (js ks : List Text)
    → length (keep (contains js) ks) ≤ length (keep (contains (k ∷ js)) ks)
unfolding keep contains
keep_mono k js [] = ground arith
keep_mono k js (i ∷ ks) = ground (arith, keep_mono k js ks)

-- one more key is found once more at least
keep-more :
    (k : Text) (js ks : List Text)
    → contains ks k ≡ true
    → contains js k ≡ false
    → suc (length (keep (contains js) ks)) ≤ length (keep (contains (k ∷ js)) ks)
unfolding keep contains
keep-more k js [] h g = ground arith
keep-more k js (i ∷ ks) h g =
    ground (arith, keep-more k js ks, keep_mono k js ks, text_beq_iff k i, text_beq_iff i k)

-- the keys of the dict are teams
unfoldable pub AreTeams : List Team → TeamNodes → Type 0
AreTeams teams d = All (λ p. contains (map (λ t. t.key) teams) p.0 ≡ true) d

has_team-contains :
    (key : Text) (teams : List Team) → has_team key teams ≡ contains (map (λ t. t.key) teams) key
unfolding has_team any contains
has_team-contains key [] = refl
has_team-contains key (t ∷ ts) = ground (arith, has_team-contains key ts)

put-AreTeams :
    (teams : List Team) (k v : Text) (d : TeamNodes)
    → contains (map (λ t. t.key) teams) k ≡ true
    → AreTeams teams d
    → AreTeams teams (put k v d)
unfolding AreTeams put
put-AreTeams teams k v [] m h = (m, tt)
put-AreTeams teams k v ((j, w) ∷ d) m h = ground (arith, put-AreTeams teams k v d m h.1, h.0)

-- A dict of teams has no more entries than there are teams.
pub dict-teams :
    (teams : List Team) (d : TeamNodes)
    → IsDict d
    → AreTeams teams d
    → length d ≤ length (keep (contains (keys d)) (map (λ t. t.key) teams))
unfolding AreTeams
dict-teams teams [] h a = ground arith
dict-teams teams ((k, v) ∷ d) h a = ground (
  arith,
  dict-teams teams d h.1 a.1,
  keep-more k (keys d) (map (λ t. t.key) teams) a.0 (contains-lookup k d h.0),
)

pub keep-split :
    {A : Type 0} (test : A → Bool) (xs : List A)
    → length (keep test xs) + length (keep (λ x. not (test x)) xs) ≡ length xs
unfolding keep
keep-split test [] = refl
keep-split test (x ∷ xs) = ground (arith, keep-split test xs)

pub length-map : {A B : Type 0} (f : A → B) (xs : List A) → length (map f xs) ≡ length xs
length-map f [] = refl
length-map f (x ∷ xs) = ground (arith, length-map f xs)

resolve_one-eq-ok :
    (known : List Text) (teams : List Team) (ident name : Text) (d d' : TeamNodes)
    → resolve_one known teams ident name d ≡ ok d'
    → (key : Text) × (contains (map (λ t. t.key) teams) key ≡ true)
      × (contains known name ≡ true)
      × (d' ≡ put key name d)
unfolding resolve_one
resolve_one-eq-ok known teams ident name d d' e =
    let key : Text = elim (lookup ident (by_identifier [] teams)) [ none ↦ ident | some k ↦ k ] in
    (key, ground (arith, has_team-contains key teams), ground (arith), ground (arith))

-- What the overrides give is a dict of teams.
pub resolve_overrides-AreTeams :
    (known : List Text) (teams : List Team) (overrides : List (Text × Text)) (d placed : TeamNodes)
    → IsDict d
    → AreTeams teams d
    → resolve_overrides known teams overrides d ≡ ok placed
    → IsDict placed × AreTeams teams placed
unfolding resolve_overrides
resolve_overrides-AreTeams known teams [] d placed h a e =
    let q : d ≡ placed = cc in rw (sym q) (h, a)
resolve_overrides-AreTeams known teams ((ident, name) ∷ rest) d placed h a e =
    elim (Result-cases (resolve_one known teams ident name d)) [
      | inr (x, f) ↦ let q = rw (resolve_overrides, f) at e in cc
      | inl (d', f) ↦
          let one = resolve_one-eq-ok known teams ident name d d' f in
          resolve_overrides-AreTeams known teams rest d' placed
            (rw one.3 (put-IsDict one.0 name d h))
            (rw one.3 (put-AreTeams teams one.0 name d one.1 a)) (rw (resolve_overrides, f) at e)
    ]
