-- ===== src/Ownership/Roles/Retag.antt =====
-- infra/ownership.py: what is left alone by the destruction of a role template and by a new stamp.
use tezcatlipoca.Base.{
  ℕ, Bool, true, false, ◌≡◌, refl, ◌⊎◌, inl, Option, none, some, List, [], ◌∷◌, ◌++◌, arith,
  is_empty, All, contains, subset, find, Text, text, text_eq, starts_with, subset_refl,
}
use tezcatlipoca.Base.Actions.{Result, ok, err, continue, pure}
use tezcatlipoca.Tags.{parse_vm_tags, join_tags}
use tezcatlipoca.Tags.RoundTrip.{IsTag, parse_vm_tags-join_tags}
use tezcatlipoca.Proxmox.{joined, Config, put_tags, Proxmox}
use tezcatlipoca.Ownership.{owned, marker, unproven, missing, Failure, World, request}
use tezcatlipoca.Ownership.Roles.{
  Occupancy, absent, unreadable, occupied, Skip, vm_occupancy, destroy_role, destroy_role_template,
  may_retag, retag_read, retag_ownership,
}

module _ (px : Proxmox) (node : Text) (vmid : ℕ) where
  never_skips :
      (r : Result Failure (Unit {0})) (w : World px) (skip : Skip)
      → (continue r (λ _. pure {A = Option Skip} none) w).0 ≡ ok (some skip)
      → ⊥
  never_skips (ok u) w skip h = cc
  never_skips (err f) w skip h = cc

  skip_world :
      (expect : List Text) (o : Occupancy) (w : World px) (skip : Skip)
      → (destroy_role px node vmid expect o w).0 ≡ ok (some skip)
      → (destroy_role px node vmid expect o w).1 ≡ w
  unfolding destroy_role
  skip_world expect absent w skip h = refl
  skip_world expect unreadable w skip h = refl
  skip_world expect (occupied owned tags) w skip h = absurd (never_skips _ _ skip h)
  skip_world expect (occupied marker tags) w skip h = absurd (never_skips _ _ skip h)
  skip_world expect (occupied missing tags) w skip h = refl
  skip_world expect (occupied unproven tags) w skip h = refl

  -- When `destroy_role_template` returns a message, for whatever occupant of the vmid, the service
  -- is in the state that it was in and no mutating request has been sent.
  pub destroy_role_template_skip :
      (expect : List Text) (w : World px) (skip : Skip)
      → (destroy_role_template px node vmid expect w).0 ≡ ok (some skip)
      → (destroy_role_template px node vmid expect w).1 ≡ w
  unfolding destroy_role_template
  destroy_role_template_skip expect w skip h =
      skip_world expect (vm_occupancy px w.state node vmid expect) w skip h

  -- the service gives back the tags that it was told to keep
  abbrev pub StoresTags : Type 0
  StoresTags =
      (s : px.State) (tags : Text)
      → (px.send (put_tags node vmid tags) s).0 ≡ true
      → (cfg : Config) × (px.config (px.send (put_tags node vmid tags) s).1 node vmid ≡ some cfg)
        × (cfg.tags ≡ tags)

  -- a VM whose tags contain the ownership set is let be
  retag_satisfied :
      (ownership : List Text) (w : World px) (cfg : Config)
      → px.config w.state node vmid ≡ some cfg
      → subset ownership (parse_vm_tags (joined cfg.tags)) ≡ true
      → retag_ownership px node vmid ownership w ≡ (ok tt, w)
  unfolding retag_ownership retag_read
  retag_satisfied ownership w cfg e h = rw (e, retag_ownership, h)

  -- what the first call has done decides what a second one does
  retag_again :
      (ownership : List Text) (w : World px) (cfg : Config)
      → StoresTags
      → All IsTag ownership
      → px.config w.state node vmid ≡ some cfg
      → (sub may : Bool) → subset ownership (parse_vm_tags (joined cfg.tags)) ≡ sub
      → may_retag (find (starts_with (text "comp-")) ownership) (parse_vm_tags (joined cfg.tags))
        ≡ may
      → (retag_read px node vmid ownership (some cfg) w).0 ≡ ok tt
      → retag_ownership px node vmid ownership (retag_read px node vmid ownership (some cfg) w).1
        ≡ (ok tt, (retag_read px node vmid ownership (some cfg) w).1)
  unfolding retag_read request
  retag_again ownership w cfg stores tags e true may s m h =
      rw (s, retag_read) (retag_satisfied ownership w cfg e s)
  retag_again ownership w cfg stores tags e false false s m h =
      rw (s, retag_read) (rw (m, retag_read) (unfold retag_ownership in rw (e, s, m)))
  retag_again ownership w cfg stores tags e false true s m h =
      let done : (px.send (put_tags node vmid (join_tags ownership)) w.state).0 ≡ true =
        ground arith in
      let after = stores w.state (join_tags ownership) done in
      rw (s, retag_read)
        (rw (m, retag_read)
          (retag_satisfied ownership _ after.0 after.1
            (rw (after.2, parse_vm_tags-join_tags ownership tags) (subset_refl ownership))))

  -- Stamping a VM again changes nothing: if the service keeps the tags that it is told to and the
  -- ownership set consists of tags, then after `retag_ownership` has returned a further call
  -- returns and sends nothing.
  pub retag_ownership_idem :
      (ownership : List Text) (w : World px)
      → StoresTags
      → All IsTag ownership
      → (retag_ownership px node vmid ownership w).0 ≡ ok tt
      → retag_ownership px node vmid ownership (retag_ownership px node vmid ownership w).1
        ≡ (ok tt, (retag_ownership px node vmid ownership w).1)
  unfolding retag_ownership retag_read
  retag_ownership_idem ownership w stores tags h = read (px.config w.state node vmid) refl h
    where
      read :
          (c : Option Config)
          → px.config w.state node vmid ≡ c
          → (retag_read px node vmid ownership c w).0 ≡ ok tt
          → retag_ownership px node vmid ownership (retag_read px node vmid ownership c w).1
            ≡ (ok tt, (retag_read px node vmid ownership c w).1)
      read none e h = cc
      read (some cfg) e h = retag_again ownership w cfg stores tags e _ _ refl refl h

  -- `retag_ownership` with a set that names a competition either changes and sends nothing, or the
  -- VM's tags contain that competition's tag and it sends one request, the new tags of this VM.
  pub retag_ownership_guard :
      (ownership : List Text) (w : World px) (comp : Text)
      → find (starts_with (text "comp-")) ownership ≡ some comp
      → is_empty comp ≡ false
      → ((retag_ownership px node vmid ownership w).1 ≡ w)
        ⊎ ((cfg : Config) × (px.config w.state node vmid ≡ some cfg)
            × (contains (parse_vm_tags (joined cfg.tags)) comp ≡ true)
            × ((retag_ownership px node vmid ownership w).1.sent
                ≡ w.sent ++ put_tags node vmid (join_tags ownership) ∷ []))
  unfolding retag_ownership retag_read request may_retag
  retag_ownership_guard ownership w comp names full = read (px.config w.state node vmid) refl
    where
      read :
          (c : Option Config)
          → px.config w.state node vmid ≡ c
          → ((retag_read px node vmid ownership c w).1 ≡ w)
            ⊎ ((cfg : Config) × (c ≡ some cfg)
                × (contains (parse_vm_tags (joined cfg.tags)) comp ≡ true)
                × ((retag_read px node vmid ownership c w).1.sent
                    ≡ w.sent ++ put_tags node vmid (join_tags ownership) ∷ []))
      read none e = inl refl
      read (some cfg) e = rw names (ground arith)
