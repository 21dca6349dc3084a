-- ===== src/Planner/Compute/Raises.antt =====
-- multinode/placement_planner.py: what `compute_placement` raises once all teams have a node.
use tezcatlipoca.Base.{
  ℕ, suc, Bool, true, false, ◌≡◌, refl, inl, inr, List, [], ◌∷◌, arith, find, contains, is_empty,
  length, ltb, Text, text_beq, text_eq, Bool-cases, Option-cases,
}
use tezcatlipoca.Base.Actions.{Result, ok, err, Result-cases}
use tezcatlipoca.Base.Dict.{lookup}
use tezcatlipoca.Vmids.{BlockClash, max_satellites}
use tezcatlipoca.Planner.{Node, Team, Probe}
use tezcatlipoca.Planner.Place.{
  TeamNodes, Refused, no_node, node_names, resolve_one, resolve_overrides, engine_node,
  choose_engine,
}
use tezcatlipoca.Planner.Compute.{
  Placed, SatelliteNode, other_nodes, jump_of, satellites_from, onto_satellites, checked, finish,
  build,
}

-- the refusal for want of a node
unfoldable pub is_no_node : Refused → Bool
is_no_node (no_node ts) = true
is_no_node r = false

unfoldable pub Other : {A : Type 0} → Result Refused A → Type 0
Other (ok a) = Unit
Other (err e) = is_no_node e ≡ false

resolve_one-Other :
    (known : List Text) (teams : List Team) (ident name : Text) (d : TeamNodes)
    → Other (resolve_one known teams ident name d)
unfolding resolve_one Other is_no_node
resolve_one-Other known teams ident name d = ground arith

pub resolve_overrides-Other :
    (known : List Text) (teams : List Team) (overrides : List (Text × Text)) (d : TeamNodes)
    → Other (resolve_overrides known teams overrides d)
unfolding resolve_overrides Other is_no_node
resolve_overrides-Other known teams [] d = tt
resolve_overrides-Other known teams ((ident, name) ∷ rest) d =
    elim (Result-cases (resolve_one known teams ident name d)) [
      | inl (d', e) ↦ rw (resolve_overrides, e) (resolve_overrides-Other known teams rest d')
      | inr (x, e) ↦
          rw (resolve_overrides, e) (rw e at (resolve_one-Other known teams ident name d))
    ]

module _ {W : Type 0} (records : List (Node W)) (teams : List Team) (engine_vmid : ℕ) where
  pub engine_node-Other :
      (prefer : List Text) (probes : Text → Probe) (override : Text) (placed : TeamNodes)
      → Other (engine_node records prefer probes override placed)
  unfolding engine_node Other is_no_node
  engine_node-Other prefer probes override placed = elim (Bool-cases (is_empty override)) [
    | inr e ↦ elim (Bool-cases (contains (node_names records) override)) [
      | inl f ↦ rw (engine_node, e, f) tt
      | inr f ↦ rw (engine_node, e, f) refl
    ]
    | inl e ↦ elim (Option-cases (choose_engine records prefer probes placed)) [
      | inl f ↦ rw (engine_node, e, f) refl
      | inr (r, f) ↦ rw (engine_node, e, f) tt
    ]
  ]

  onto-Other :
      (s : SatelliteNode) (r : Result Refused (List SatelliteNode))
      → Other r
      → Other (onto_satellites s r)
  unfolding onto_satellites Other
  onto-Other s (ok ss) h = tt
  onto-Other s (err e) h = h

  satellites_from-Other :
      (placed : TeamNodes) (slot : ℕ) (seen : List (Text × Text)) (names : List Text)
      → Other (satellites_from records teams engine_vmid placed slot seen names)
  unfolding satellites_from Other is_no_node
  satellites_from-Other placed slot seen [] = tt
  satellites_from-Other placed slot seen (name ∷ names) =
      elim (Option-cases (find (λ r. text_beq r.name name) records)) [
        | inl e ↦ rw (satellites_from, e) refl
        | inr (rec, e) ↦ elim (Option-cases (jump_of rec.jump_mgmt_ip slot)) [
          | inl f ↦ rw (satellites_from, e, f) refl
          | inr (ip, f) ↦ elim (Option-cases (lookup ip seen)) [
            | inr (first, g) ↦ rw (satellites_from, e, f, g) refl
            | inl g ↦
                rw (satellites_from, e, f, g)
                  (onto-Other _ _
                    (satellites_from-Other placed (suc slot) ((ip, name) ∷ seen) names))
          ]
        ]
      ]

  checked-Other : (p : Placed) (r : Result BlockClash (Unit {0})) → Other (checked p r)
  unfolding checked Other is_no_node
  checked-Other p (ok u) = tt
  checked-Other p (err c) = refl

  finish-Other :
      (engine : Text) (others : List Text) (placed : TeamNodes)
      (r : Result Refused (List SatelliteNode))
      → Other r
      → Other (finish records teams engine_vmid engine others placed r)
  unfolding finish Other
  finish-Other engine others placed (err e) h = h
  finish-Other engine others placed (ok ss) h = checked-Other _ _

  pub build-Other :
      (prefer : List Text) (placed : TeamNodes) (r : Result Refused Text)
      → Other r
      → Other (build records teams engine_vmid prefer placed r)
  unfolding build Other is_no_node
  build-Other prefer placed (err e) h = h
  build-Other prefer placed (ok engine) h =
      let others = other_nodes prefer engine placed in
      elim (Bool-cases (ltb max_satellites (length others))) [
        | inl f ↦ rw (build, f) refl
        | inr f ↦
            rw (build, f)
              (finish-Other engine others placed _ (satellites_from-Other placed 1 [] others))
      ]
