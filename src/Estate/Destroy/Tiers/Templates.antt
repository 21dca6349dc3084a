-- ===== src/Estate/Destroy/Tiers/Templates.antt =====
-- estate/destroy.py: templates stay recorded while a clone of theirs does.
use tezcatlipoca.Base.{
  Bool, true, false, not, ◌&&◌, ◌||◌, ◌≡◌, refl, sym, ap, ◌∙◌, ◌⊎◌, inl, inr, Option, none, some,
  List, [], ◌∷◌, arith, if◌then◌else◌, any, contains, is_empty, All, All-map, starts_with, Text,
  text, text_eq, text_beq, Bool-cases, Option-cases,
}
use tezcatlipoca.Base.Actions.{ok, continue-eq-ok}
use tezcatlipoca.Proxmox.{Proxmox}
use tezcatlipoca.Ownership.{World}
use tezcatlipoca.Ownership.Bridges.{bridge_owned_by}
use tezcatlipoca.Estate.Rows.{Row}
use tezcatlipoca.Estate.Rows.Kinds.{rows_of}
use tezcatlipoca.Estate.Destroy.{
  tiers, clone_kinds, kept_when_teams_only, among, clones_remain, Report, no_report, join_reports,
}
use tezcatlipoca.Estate.Destroy.Tiers.{
  Estate, destroy_tier, skip_kind, visit_kind, visit_kinds, visit_tiers, node_bridges,
  destroy_bridge_if_exists, swept, sweep_bridge, sweep_bridges, sweep_node, sweep, is_recorded,
  recorded_nodes, destroy_estate,
}
use tezcatlipoca.Estate.Destroy.Tiers.Conserved.{destroy_tier-reports}

any_same : (f g : Text → Bool) (xs : List Text) → All (λ x. f x ≡ g x) xs → any f xs ≡ any g xs
unfolding any
any_same f g [] h = refl
any_same f g (x ∷ xs) h = ground (arith, h.0, any_same f g xs h.1)

remain_same :
    (nodes : Option (List Text)) (kind : Text) (rows rows' : List Row)
    → All (λ k. rows_of k rows ≡ rows_of k rows') (clone_kinds kind)
    → clones_remain nodes kind rows ≡ clones_remain nodes kind rows'
unfolding clones_remain rows_of
remain_same nodes kind rows rows' h =
    any_same _ _ (clone_kinds kind)
      (All-map _ _ (λ k e. ap (any (among nodes)) e) (clone_kinds kind) h)

mentions : Text → List (List Text) → Bool
unfolding any contains
mentions k = any (λ tier. contains tier k)

module _ (px : Proxmox) (comp run_id : Text) (full : Bool) (nodes : Option (List Text)) where
  visit_kind-other :
      (kind : Text) (r : Report) (e : Estate px) (r' : Report) (k : Text)
      → (visit_kind px comp run_id full nodes kind r e).0 ≡ ok r'
      → text_beq kind k ≡ false
      → rows_of k (visit_kind px comp run_id full nodes kind r e).1.rows ≡ rows_of k e.rows
  unfolding visit_kind skip_kind
  visit_kind-other kind r e r' k h other =
      elim (Bool-cases (not full && kept_when_teams_only kind)) [
        | inl q ↦ rw (visit_kind, q) refl
        | inr q ↦ elim (Bool-cases (clones_remain nodes kind e.rows)) [
          | inl c ↦ rw (visit_kind, q, c) refl
          | inr c ↦
              let tier = destroy_tier px comp run_id kind nodes none e in
              let (s, done, rest, same) =
                continue-eq-ok tier.0 tier.1 (λ s w. (ok (join_reports r s), w))
                  (rw (visit_kind, q, c) at h) in
              rw (visit_kind, q, c)
                (ap (λ x. rows_of k x.rows) same
                  ∙ (destroy_tier-reports px comp run_id kind nodes none e s (λ _. true) k other
                      done).1)
        ]
      ]

  -- with a clone recorded the kind is skipped
  visit_kind-held :
      (kind : Text) (r : Report) (e : Estate px)
      → clones_remain nodes kind e.rows ≡ true
      → (visit_kind px comp run_id full nodes kind r e).1 ≡ e
  unfolding visit_kind skip_kind
  visit_kind-held kind r e c = elim (Bool-cases (not full && kept_when_teams_only kind)) [
    | inl q ↦ rw (visit_kind, q) refl
    | inr q ↦ rw (visit_kind, q, c) refl
  ]

  visit_kinds-other :
      (kinds : List Text) (r : Report) (e : Estate px) (r' : Report) (k : Text)
      → (visit_kinds px comp run_id full nodes kinds r e).0 ≡ ok r'
      → contains kinds k ≡ false
      → rows_of k (visit_kinds px comp run_id full nodes kinds r e).1.rows ≡ rows_of k e.rows
  unfolding visit_kinds contains
  visit_kinds-other [] r e r' k h other = refl
  visit_kinds-other (kind ∷ kinds) r e r' k h other =
      let first = visit_kind px comp run_id full nodes kind r e in
      let (r1, done, rest, same) =
        continue-eq-ok first.0 first.1 (visit_kinds px comp run_id full nodes kinds) h in
      ap (λ x. rows_of k x.rows) same
      ∙ visit_kinds-other kinds r1 first.1 r' k rest (ground arith)
      ∙ visit_kind-other kind r e r1 k done (ground arith)

  visit_tiers-other :
      (ts : List (List Text)) (r : Report) (e : Estate px) (r' : Report) (k : Text)
      → (visit_tiers px comp run_id full nodes ts r e).0 ≡ ok r'
      → mentions k ts ≡ false
      → rows_of k (visit_tiers px comp run_id full nodes ts r e).1.rows ≡ rows_of k e.rows
  unfolding visit_tiers mentions any
  visit_tiers-other [] r e r' k h other = refl
  visit_tiers-other (tier ∷ ts) r e r' k h other =
      let first = visit_kinds px comp run_id full nodes tier r e in
      let (r1, done, rest, same) =
        continue-eq-ok first.0 first.1 (visit_tiers px comp run_id full nodes ts) h in
      ap (λ x. rows_of k x.rows) same
      ∙ visit_tiers-other ts r1 first.1 r' k rest (ground arith)
      ∙ visit_kinds-other tier r e r1 k done (ground arith)

  -- the rows of a template kind stay, if a clone is recorded after the tiers
  abbrev Stays : Text → List (List Text) → Type 0
  Stays kind ts =
      (r : Report) (e : Estate px) (r' : Report)
      → (visit_tiers px comp run_id full nodes ts r e).0 ≡ ok r'
      → clones_remain nodes kind (visit_tiers px comp run_id full nodes ts r e).1.rows ≡ true
      → rows_of kind (visit_tiers px comp run_id full nodes ts r e).1.rows ≡ rows_of kind e.rows

  -- after a tier of other kinds
  after_other :
      (kind : Text) (tier : List Text) (ts : List (List Text))
      → contains tier kind ≡ false
      → Stays kind ts
      → Stays kind (tier ∷ ts)
  unfolding visit_tiers
  after_other kind tier ts other stays r e r' h c =
      let first = visit_kinds px comp run_id full nodes tier r e in
      let (r1, done, rest, same) =
        continue-eq-ok first.0 first.1 (visit_tiers px comp run_id full nodes ts) h in
      ap (λ x. rows_of kind x.rows) same
      ∙ stays r1 first.1 r' rest (sym (ap (λ x. clones_remain nodes kind x.rows) same) ∙ c)
      ∙ visit_kinds-other tier r e r1 kind done other

  -- at its own tier, if no later tier has the kind or its clones
  at_tier :
      (kind : Text) (ts : List (List Text))
      → mentions kind ts ≡ false
      → All (λ k. (text_beq kind k ≡ false) × (mentions k ts ≡ false)) (clone_kinds kind)
      → Stays kind ((kind ∷ []) ∷ ts)
  unfolding visit_tiers visit_kinds
  at_tier kind ts alone apart r e r' h c =
      let here = visit_kind px comp run_id full nodes kind r e in
      let first = visit_kinds px comp run_id full nodes (kind ∷ []) r e in
      let (r1, done, rest, same) =
        continue-eq-ok first.0 first.1 (visit_tiers px comp run_id full nodes ts) h in
      let (r0, visited, _, alike) =
        continue-eq-ok here.0 here.1 (visit_kinds px comp run_id full nodes []) done in
      let last = (visit_tiers px comp run_id full nodes ts r1 first.1).1 in
      let passed : (k : Text)
          → mentions k ts ≡ false
          → rows_of k last.rows ≡ rows_of k here.1.rows =
        λ k m. visit_tiers-other ts r1 first.1 r' k rest m ∙ ap (λ x. rows_of k x.rows) alike in
      let before : clones_remain nodes kind e.rows ≡ clones_remain nodes kind last.rows =
        remain_same nodes kind e.rows last.rows (
          All-map _ _ (λ k m. sym (passed k m.1 ∙ visit_kind-other kind r e r0 k visited m.0))
            (clone_kinds kind) apart) in
      let held =
        visit_kind-held kind r e
          (before ∙ sym (ap (λ x. clones_remain nodes kind x.rows) same) ∙ c) in
      ap (λ x. rows_of kind x.rows) same ∙ passed kind alone ∙ ap (λ x. rows_of kind x.rows) held

  -- the sweep removes bridges and no rows
  swept-rows :
      (node iface : Text) (r : Report) (e : Estate px) (b : Bool × World px)
      → (swept px comp run_id node iface r e b).1.rows ≡ e.rows
  unfolding swept
  swept-rows node iface r e (true, w) = refl
  swept-rows node iface r e (false, w) = refl

  sweep_bridge-rows :
      (node iface comment : Text) (r : Report) (e : Estate px)
      → (sweep_bridge px comp run_id node (iface, comment) (r, e)).1.rows ≡ e.rows
  unfolding sweep_bridge
  sweep_bridge-rows node iface comment r e = either (
      not (starts_with (text "vmbr") iface)
      || not (bridge_owned_by comment comp run_id)
      || is_recorded node iface e.rows)
    where
      either :
          (b : Bool)
          → (if b
              then (r, e)
              else swept px comp run_id node iface r e
                  (destroy_bridge_if_exists px node iface e.world)).1.rows
            ≡ e.rows
      either true = refl
      either false = swept-rows node iface r e (destroy_bridge_if_exists px node iface e.world)

  sweep_bridges-rows :
      (node : Text) (bridges : List (Text × Text)) (found : Report × Estate px)
      → (sweep_bridges px comp run_id node bridges found).1.rows ≡ found.1.rows
  unfolding sweep_bridges
  sweep_bridges-rows node [] found = refl
  sweep_bridges-rows node ((iface, comment) ∷ bridges) (r, e) =
      sweep_bridges-rows node bridges (sweep_bridge px comp run_id node (iface, comment) (r, e))
      ∙ sweep_bridge-rows node iface comment r e

  sweep-rows :
      (ns : List Text) (r : Report) (e : Estate px) → (sweep px comp run_id ns r e).1.rows ≡ e.rows
  unfolding sweep sweep_node
  sweep-rows [] r e = refl
  sweep-rows (node ∷ ns) r e = elim (Option-cases (node_bridges px e.world.state node)) [
    | inl q ↦ rw (sweep, sweep_node, q) refl
    | inr q ↦ rw (sweep, sweep_node, q.1) (sweep-rows ns _ _ ∙ sweep_bridges-rows node q.0 (r, e))
  ]

  golden-Stays : Stays (text "golden") tiers
  unfolding mentions clone_kinds any contains text_beq
  golden-Stays =
      after_other (text "golden") (text "team_box" ∷ text "jump" ∷ []) _ refl
        (at_tier (text "golden") _ refl ((refl, refl), ((refl, refl), tt)))

  engine_template-Stays : Stays (text "engine_template") tiers
  unfolding mentions clone_kinds any contains text_beq
  engine_template-Stays =
      after_other (text "engine_template") (text "team_box" ∷ text "jump" ∷ []) _ refl (
        after_other (text "engine_template") (text "golden" ∷ []) _ refl (
          after_other (text "engine_template") (text "engine" ∷ []) _ refl
            (at_tier (text "engine_template") _ refl ((refl, refl), tt))))

  -- whatever the tiers and the sweep then do
  estate-Stays :
      (kind : Text)
      → Stays kind tiers
      → (e : Estate px) (r : Report) → (destroy_estate px comp run_id full nodes e).0 ≡ ok r
      → clones_remain nodes kind (destroy_estate px comp run_id full nodes e).1.rows ≡ true
      → rows_of kind (destroy_estate px comp run_id full nodes e).1.rows ≡ rows_of kind e.rows
  unfolding destroy_estate
  estate-Stays kind stays e r h c =
      let walked = visit_tiers px comp run_id full nodes tiers no_report e in
      let ns =
        (if is_empty run_id
          then []
          else elim nodes as (λ o. List Text) [ none ↦ recorded_nodes e.rows | some ns ↦ ns ]) in
      let (r1, done, rest, same) = continue-eq-ok walked.0 walked.1 (sweep px comp run_id ns) h in
      let left = ap (λ x. x.rows) same ∙ sweep-rows ns r1 walked.1 in
      ap (rows_of kind) left
      ∙ stays no_report e r1 done (sym (ap (clones_remain nodes kind) left) ∙ c)

  -- When `destroy_estate` returns and a clone of a template kind is still recorded on one of the
  -- nodes asked for, a team box or a jump for the goldens, an engine for the engine templates, then
  -- the recorded rows of that template kind are those of before.
  pub destroy_estate-templates :
      (kind : Text) (e : Estate px) (r : Report)
      → (kind ≡ text "golden") ⊎ (kind ≡ text "engine_template")
      → (destroy_estate px comp run_id full nodes e).0 ≡ ok r
      → clones_remain nodes kind (destroy_estate px comp run_id full nodes e).1.rows ≡ true
      → rows_of kind (destroy_estate px comp run_id full nodes e).1.rows ≡ rows_of kind e.rows
  destroy_estate-templates kind e r (inl g) h c = estate-Stays kind (rw g golden-Stays) e r h c
  destroy_estate-templates kind e r (inr g) h c =
      estate-Stays kind (rw g engine_template-Stays) e r h c
