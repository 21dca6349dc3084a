-- ===== src/Preflight/Addresses/Scan.antt =====
-- What a scan of the running guests finds, guest by guest.
use tezcatlipoca.Base.{
  ℕ, Bool, true, false, not, ◌&&◌, ◌||◌, ◌≡◌, refl, sym, ◌∙◌, inl, inr, Option, none, some, List,
  [], ◌∷◌, arith, if◌then◌else◌, any, contains, is_empty, Text, text_eq, nat_eq, Bool-cases, ◌==◌,
  text_beq_iff,
}
use tezcatlipoca.Base.Dict.{lookup, put, keys, lookup-put}
use tezcatlipoca.Preflight.{Guest}
use tezcatlipoca.Preflight.Addresses.{
  Agent, guest_ipv4s, Takers, is_taken, set_defaults, is_asked, answered, scan_from,
  running_guest_ips,
}

is_taken-put :
    (ip j : Text) (vm : Guest) (takers : Takers)
    → is_taken (put ip vm takers) j ≡ (ip == j || is_taken takers j)
unfolding is_taken
is_taken-put ip j vm takers =
    rw (is_taken, lookup-put ip j vm takers)
      (elim (Bool-cases (ip == j)) [ inl e ↦ rw e refl | inr e ↦ rw e refl ])

is_taken-set_defaults :
    (vm : Guest) (ips : List Text) (takers : Takers) (j : Text)
    → is_taken (set_defaults vm ips takers) j ≡ (contains ips j || is_taken takers j)
unfolding set_defaults contains
is_taken-set_defaults vm [] takers j = refl
is_taken-set_defaults vm (ip ∷ ips) takers j = elim (Bool-cases (is_taken takers ip)) [
  | inl e ↦ rw e (ground (arith, is_taken-set_defaults vm ips takers j, text_beq_iff ip j))
  | inr e ↦ rw e (
      ground
        (arith, is_taken-set_defaults vm ips (put ip vm takers) j, is_taken-put ip j vm takers))
]

pub contains-keys : (takers : Takers) (j : Text) → contains (keys takers) j ≡ is_taken takers j
unfolding is_taken contains lookup
contains-keys [] j = refl
contains-keys ((ip, vm) ∷ takers) j = elim (Bool-cases (ip == j)) [
  | inl e ↦ rw (is_taken, lookup, e) refl
  | inr e ↦ rw (is_taken, lookup, e) (contains-keys takers j)
]

has_ip : Text → Option (List Text) → Bool
unfolding contains
has_ip j none = false
has_ip j (some ips) = contains ips j

is_missing : Option (List Text) → Bool
is_missing none = true
is_missing (some ips) = false

-- one guest: whether it is asked, and what it answers
one-taken :
    (asked : Bool) (o : Option (List Text)) (vm : Guest) (found : Takers × List Guest) (j : Text)
    → is_taken (if asked then answered vm o found else found).0 j
      ≡ (is_taken found.0 j || (asked && has_ip j o))
unfolding answered has_ip
one-taken false o vm found j = ground arith
one-taken true none vm found j = ground arith
one-taken true (some ips) vm found j = ground (arith, is_taken-set_defaults vm ips found.0 j)

is_empty-one :
    (asked : Bool) (o : Option (List Text)) (vm : Guest) (found : Takers × List Guest)
    → is_empty (if asked then answered vm o found else found).1
      ≡ (is_empty found.1 && not (asked && is_missing o))
unfolding answered is_missing
is_empty-one false o vm found = ground arith
is_empty-one true none vm (takers, []) = refl
is_empty-one true none vm (takers, u ∷ us) = refl
is_empty-one true (some ips) vm found = ground arith

module _ (agent : Agent) (skip : List ℕ) (ours : List Text) where
  -- the guest is asked and answers the address
  pub answers : Text → Guest → Bool
  unfolding has_ip
  answers j vm = is_asked skip ours vm && has_ip j (guest_ipv4s agent vm)

  -- the guest is asked and gives no answer
  pub is_silent : Guest → Bool
  unfolding is_missing
  is_silent vm = is_asked skip ours vm && is_missing (guest_ipv4s agent vm)

  scan_from-taken :
      (vms : List Guest) (found : Takers × List Guest) (j : Text)
      → is_taken (scan_from agent skip ours vms found).0 j
        ≡ (is_taken found.0 j || any (answers j) vms)
  unfolding scan_from any answers
  scan_from-taken [] found j = ground arith
  scan_from-taken (vm ∷ vms) found j =
      let asked = is_asked skip ours vm in
      let next = (if asked then answered vm (guest_ipv4s agent vm) found else found) in
      ground (arith, scan_from-taken vms next j, one-taken asked (guest_ipv4s agent vm) vm found j)

  scan_from-silent :
      (vms : List Guest) (found : Takers × List Guest)
      → is_empty (scan_from agent skip ours vms found).1
        ≡ (is_empty found.1 && not (any is_silent vms))
  unfolding scan_from any is_silent
  scan_from-silent [] found = ground arith
  scan_from-silent (vm ∷ vms) found =
      let asked = is_asked skip ours vm in
      let next = (if asked then answered vm (guest_ipv4s agent vm) found else found) in
      ground (arith, scan_from-silent vms next, is_empty-one asked (guest_ipv4s agent vm) vm found)

  -- the addresses that are taken are those that a guest which is asked answers
  pub running_guest_ips-taken :
      (vms : List Guest) (j : Text)
      → is_taken (running_guest_ips agent vms skip ours).0 j ≡ any (answers j) vms
  unfolding running_guest_ips
  running_guest_ips-taken vms j = scan_from-taken vms ([], []) j

  pub running_guest_ips-silent :
      (vms : List Guest)
      → is_empty (running_guest_ips agent vms skip ours).1 ≡ not (any is_silent vms)
  unfolding running_guest_ips
  running_guest_ips-silent vms = scan_from-silent vms ([], [])

any_mono :
    {A : Type 0} (f g : A → Bool) (xs : List A)
    → ((x : A) → f x ≡ true → g x ≡ true)
    → any g xs ≡ false
    → any f xs ≡ false
unfolding any
any_mono f g [] h e = refl
any_mono f g (x ∷ xs) h e = ground (arith, h x, any_mono f g xs h)

-- A scan that skips more finds no more.
module _ (agent : Agent) (skip more : List ℕ) (ours : List Text)
    (skips_more : (v : ℕ) → contains skip v ≡ true → contains more v ≡ true) where
  is_asked-more : (vm : Guest) → is_asked more ours vm ≡ true → is_asked skip ours vm ≡ true
  unfolding is_asked
  is_asked-more vm h = ground (arith, skips_more vm.vmid)

  pub running_guest_ips-more :
      (vms : List Guest) (j : Text)
      → is_taken (running_guest_ips agent vms skip ours).0 j ≡ false
      → is_taken (running_guest_ips agent vms more ours).0 j ≡ false
  unfolding answers
  running_guest_ips-more vms j h =
      running_guest_ips-taken agent more ours vms j
      ∙ any_mono (answers agent more ours j) (answers agent skip ours j) vms
          (λ vm k. ground (arith, is_asked-more vm))
          (sym (running_guest_ips-taken agent skip ours vms j) ∙ h)

  pub running_guest_ips-silent_more :
      (vms : List Guest)
      → is_empty (running_guest_ips agent vms skip ours).1 ≡ true
      → is_empty (running_guest_ips agent vms more ours).1 ≡ true
  unfolding is_silent
  running_guest_ips-silent_more vms h =
      let few : any (is_silent agent skip ours) vms ≡ false =
        ground (arith, running_guest_ips-silent agent skip ours vms) in
      let fewer =
        any_mono (is_silent agent more ours) (is_silent agent skip ours) vms
          (λ vm k. ground (arith, is_asked-more vm)) few in
      ground (arith, running_guest_ips-silent agent more ours vms, fewer)
