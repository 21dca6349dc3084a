-- ===== src/Vmids/Bands.antt =====
-- The bands of vmids that one placement reserves do not meet.
use tezcatlipoca.Base.{ℕ, ◌-◌, ◌≤◌, ◌<◌, ◌≡◌, some, arith, some}
use tezcatlipoca.Vmids.{
  vm_id_for, engine_template_vmid, golden_vmid_for_slot, jump_vmid_for, default_red_vmid,
  default_jump_octet, max_satellites, max_boxes_per_team,
}

-- A team box's vmid determines its team and its position, for positions within the box limit.
pub vm_id_for_injective :
    (a b i j : ℕ)
    → i < max_boxes_per_team
    → j < max_boxes_per_team
    → vm_id_for a i ≡ vm_id_for b j
    → (a ≡ b) × (i ≡ j)
unfolding vm_id_for
vm_id_for_injective a b i j hi hj e = omega arith

-- A golden's vmid determines its slot and its box, for positions within the box limit.
pub golden_vmid_injective :
    (e s t i j : ℕ)
    → i < max_boxes_per_team
    → j < max_boxes_per_team
    → golden_vmid_for_slot e s i ≡ golden_vmid_for_slot e t j
    → (s ≡ t) × (i ≡ j)
unfolding golden_vmid_for_slot
golden_vmid_injective e s t i j hi hj h = omega arith

-- In a placement with `k` satellites, at most four, the bands stand in one order with no overlap:
-- the engine, the jumps of slots 0 to k, the engine template, the goldens of slots 0 to k, red01.
pub bands_ordered :
    (e k slot golden_slot i : ℕ)
    → k ≤ max_satellites
    → slot ≤ k
    → golden_slot ≤ k
    → i < max_boxes_per_team
    → (e < jump_vmid_for e slot)
      × (jump_vmid_for e slot < engine_template_vmid e)
      × (engine_template_vmid e < golden_vmid_for_slot e golden_slot i)
      × (golden_vmid_for_slot e golden_slot i < default_red_vmid e k)
unfolding jump_vmid_for engine_template_vmid golden_vmid_for_slot default_red_vmid
bands_ordered e k slot golden_slot i hk hs hg hi = omega arith

-- Each satellite slot has a default jump address of its own, which lies outside the bands that
-- red01 (240 to 249) and the engine (250 to 254) are chosen from.
pub default_jump_octet_lem :
    (s t : ℕ)
    → 0 < s
    → s ≤ max_satellites
    → 0 < t
    → t ≤ max_satellites
    → (a : ℕ) × (b : ℕ) × (default_jump_octet s ≡ some a)
      × (default_jump_octet t ≡ some b)
      × (0 < a)
      × (a < 240)
      × (a ≡ b → s ≡ t)
unfolding default_jump_octet
default_jump_octet_lem s t hs hs' ht ht' =
    (240 - s, 240 - t, ground arith, ground arith, omega arith, omega arith, λ e. omega arith)
