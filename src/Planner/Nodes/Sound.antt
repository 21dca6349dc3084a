-- ===== src/Planner/Nodes/Sound.antt =====
-- multinode/nodes_config.py: the records that `load_nodes_config` returns.
use tezcatlipoca.Base.{
  Text, contains, some, none, ◌≢◌, ◌⊎◌, text_beq_iff, ℕ, suc, Bool, true, false, ◌||◌, ◌≡◌, refl,
  sym, inl, inr, Option, List, [], ◌∷◌, map, arith, All, is_empty, text, text_eq, starts_with,
  Bool-cases, Option-cases,
}
use tezcatlipoca.Base.Actions.{Result, ok, err, Result-cases}
use tezcatlipoca.Planner.{Node}
use tezcatlipoca.Planner.Place.Capacity.{HasOwnNames}
use tezcatlipoca.Planner.Nodes.{
  Entry, Invalid, required, first_missing, all_different, onto_records, check_records, check_all,
  node_of, record_of, read_entry, read_entries, read_nodes, with_balancing, File, no_file,
  unreadable, not_an_object, object, rstrip_slash, load_nodes,
}

-- the name that an item gives
pub entry_name : {W : Type 0} → Option (Entry W) → Option Text
entry_name none = none
entry_name (some e) = some e.name

-- no text is twice in the list
pub AreDifferent : List Text → Type 0
AreDifferent [] = Unit
AreDifferent (t ∷ ts) = All (λ u. u ≢ t) ts × AreDifferent ts

not_among : (t : Text) (ts : List Text) → contains ts t ≡ false → All (λ u. u ≢ t) ts
unfolding contains
not_among t [] h = tt
not_among t (u ∷ us) h =
    ((λ same. let q = (text_beq_iff u t).1 same in ground arith), not_among t us (ground arith))

all_different-AreDifferent : (ts : List Text) → all_different ts ≡ true → AreDifferent ts
unfolding all_different AreDifferent
all_different-AreDifferent [] h = tt
all_different-AreDifferent (t ∷ ts) h =
    (not_among t ts (ground arith), all_different-AreDifferent ts (ground arith))

different-HasOwnNames :
    {W : Type 0} (rs : List (Node W)) → all_different (map (λ r. r.name) rs) ≡ true → HasOwnNames rs
unfolding all_different HasOwnNames
different-HasOwnNames [] h = tt
different-HasOwnNames (r ∷ rs) h = (ground arith, different-HasOwnNames rs (ground arith))

onto-eq-ok :
    {W : Type 0} (r : Result Invalid (Node W)) (rest : Result Invalid (List (Node W)))
    (rs : List (Node W))
    → onto_records r rest ≡ ok rs
    → (first : Node W) × (others : List (Node W)) × (r ≡ ok first)
      × (rest ≡ ok others)
      × (rs ≡ first ∷ others)
unfolding onto_records
onto-eq-ok (err e) rest rs h = cc
onto-eq-ok (ok r) (err e) rs h = cc
onto-eq-ok (ok r) (ok others) rs h = (r, others, refl, refl, cc)

check_records-eq-ok :
    {W : Type 0} (rs rs' : List (Node W))
    → check_records rs ≡ ok rs'
    → (rs ≡ rs')
      × (all_different (map (λ r. r.name) rs) ≡ true)
      × (all_different (map (λ r. r.node) rs) ≡ true)
      × (all_different (map (λ r. r.token_env) rs) ≡ true)
unfolding check_records
check_records-eq-ok rs rs' h = (ground arith, ground arith, ground arith, ground arith)

module _ {W : Type 0} (positive : W → Bool) (one : W) where
  -- a weight above 0 and an endpoint that is an http or https URL
  pub IsUsable : Node W → Type 0
  IsUsable r =
      (positive r.weight ≡ true)
      × ((starts_with (text "http://") r.endpoint || starts_with (text "https://") r.endpoint)
          ≡ true)

  -- what is said of the records that are made of the items
  unfoldable pub IsSound : List (Option (Entry W)) → List (Node W) → Type 0
  IsSound es rs =
      (is_empty rs ≡ false)
      × (map (λ r. some r.name) rs ≡ map entry_name es)
      × HasOwnNames rs
      × AreDifferent (map (λ r. r.node) rs)
      × AreDifferent (map (λ r. r.token_env) rs)
      × All IsUsable rs

  record_of-IsUsable :
      (e : Entry W) (weight : W) (n : Option ℕ) (r : Node W)
      → record_of positive one e weight n ≡ ok r
      → IsUsable r × (r.name ≡ e.name)
  unfolding record_of IsUsable node_of
  record_of-IsUsable e weight n r h = elim (Bool-cases (positive weight)) [
    | inr f ↦ let q = rw (record_of, f) at h in cc
    | inl f ↦ elim (Option-cases n) [
      | inl g ↦ let q = rw (record_of, f, g) at h in cc
      | inr (m, g) ↦
          elim (Bool-cases (
            starts_with (text "http://") (rstrip_slash e.endpoint)
            || starts_with (text "https://") (rstrip_slash e.endpoint))) [
              | inr x ↦ let q = rw (record_of, f, g, x) at h in cc
              | inl x ↦
                  let q : node_of e weight m ≡ r = let s = rw (record_of, f, g, x) at h in cc in
                  rw (sym q) ((f, x), refl)
            ]
    ]
  ]

  read_entries-IsUsable :
      (i : ℕ) (es : List (Option (Entry W))) (rs : List (Node W))
      → read_entries positive one i es ≡ ok rs
      → All IsUsable rs × (map (λ r. some r.name) rs ≡ map entry_name es)
  unfolding read_entries read_entry entry_name
  read_entries-IsUsable i [] rs h = let q : [] ≡ rs = cc in rw (sym q) (tt, refl)
  read_entries-IsUsable i (none ∷ es) rs h =
      let parts =
        onto-eq-ok (read_entry positive one i none) (read_entries positive one (suc i) es) rs h in
      let q = parts.2 in cc
  read_entries-IsUsable i (some e ∷ es) rs h =
      let parts = onto-eq-ok _ _ rs h in
      let later = read_entries-IsUsable (suc i) es parts.1 parts.3 in
      elim (Option-cases (first_missing (required e))) [
        | inr (field, f) ↦ let q = rw (read_entry, f) at parts.2 in cc
        | inl f ↦
            let made = rw (read_entry, f) at parts.2 in
            let usable = record_of-IsUsable e _ _ parts.0 made in
            rw (parts.4, later.1, usable.1) ((usable.0, later.0), refl)
      ]

  not_empty :
      (rs : List (Node W)) (e : Option (Entry W)) (es : List (Option (Entry W)))
      → map (λ r. some r.name) rs ≡ map entry_name (e ∷ es)
      → is_empty rs ≡ false
  not_empty [] e es h = cc
  not_empty (r ∷ rs) e es h = refl

  read_nodes-eq-ok :
      (es : List (Option (Entry W))) (rs : List (Node W))
      → read_nodes positive one es ≡ ok rs
      → IsSound es rs
  unfolding read_nodes check_all IsSound
  read_nodes-eq-ok [] rs h = cc
  read_nodes-eq-ok (e ∷ es) rs h = elim (Result-cases (read_entries positive one 0 (e ∷ es))) [
    | inr (x, f) ↦ let q = rw (read_nodes, f) at h in cc
    | inl (found, f) ↦
        let parts = check_records-eq-ok found rs (rw (read_nodes, f) at h) in
        let each = read_entries-IsUsable 0 (e ∷ es) found f in
        rw (sym parts.0) (
          not_empty found e es each.1,
          each.1,
          different-HasOwnNames found parts.1,
          all_different-AreDifferent _ parts.2,
          all_different-AreDifferent _ parts.3,
          each.0,
        )
  ]

with_balancing-eq-ok :
    {W B : Type 0} (b : B) (r : Result Invalid (List (Node W))) (found : Option (List (Node W) × B))
    → with_balancing b r ≡ ok found
    → (rs : List (Node W)) × (r ≡ ok rs) × (found ≡ some (rs, b))
unfolding with_balancing
with_balancing-eq-ok b (err e) found h = cc
with_balancing-eq-ok b (ok rs) found h = (rs, refl, cc)

-- load_nodes_config returns nothing where there is no file. Where it returns from a file, that
-- holds an object with at least one node; there is a record under the name of each of its items, in
-- order, no two have the same name, the same host or the same variable for their token, each has a
-- weight above 0 and an http or https URL for its endpoint, and the balancing is that of the file.
pub load_nodes-Sound :
    {W B : Type 0}
    → (positive : W → Bool) (one : W) (file : File W B) (found : Option (List (Node W) × B))
    → load_nodes positive one file ≡ ok found
    → ((file ≡ no_file) × (found ≡ none))
      ⊎ ((es : List (Option (Entry W))) × (b : B) × (rs : List (Node W)) × (file ≡ object es b)
          × (found ≡ some (rs, b))
          × IsSound positive one es rs)
unfolding load_nodes
load_nodes-Sound positive one no_file found h = inl (refl, cc)
load_nodes-Sound positive one unreadable found h = cc
load_nodes-Sound positive one not_an_object found h = cc
load_nodes-Sound positive one (object es b) found h =
    let made = with_balancing-eq-ok b _ found h in
    inr (es, b, made.0, refl, made.2, read_nodes-eq-ok positive one es made.0 made.1)
