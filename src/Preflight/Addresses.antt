-- ===== src/Preflight/Addresses.antt =====
-- infra/collisions.py: the addresses of the management network, who answers them, the choice of one
-- for the engine and for red01, and the gates on the engine's and the jumps'. Python's `int` on a
-- text is the parameter `to_int`, none where it raises.
pub mod Scan
pub mod Chosen
pub mod Found
mod Jumps
use tezcatlipoca.Base.{
  ℕ, suc, ◌-◌, Bool, true, false, not, ◌&&◌, ◌||◌, Option, none, some, List, [], ◌∷◌, ◌++◌, map,
  if◌then◌else◌, any, find, keep, contains, subset, is_empty, nat_beq, leb, Text, text, text_eq,
  nat_eq, starts_with, text_beq,
}
use tezcatlipoca.Base.Actions.{Result, ok, err}
use tezcatlipoca.Base.Dict.{lookup, put, keys}
use tezcatlipoca.Tags.{parse_vm_tags, strip}
use tezcatlipoca.Vmids.{Placement, engine_template_vmid, range_from}
use tezcatlipoca.Preflight.{Share, Plan, Guest, our_tags, numeral}

-- an entry of `ip-addresses`
pub record Address : Type 0 where
  pub ip : Text
  pub kind : Text

-- GET /nodes/{node}/qemu/{vmid}/agent/network-get-interfaces: the addresses of each interface, none
-- where the request raises
abbrev pub Agent : Type 0
Agent = Text → ℕ → Option (List (List Address))

ipv4s_of : List Address → List Text
unfolding keep
ipv4s_of addresses = map (λ a. a.ip) (keep (λ a. text_beq a.kind (text "ipv4")) addresses)

all_ipv4s : List (List Address) → List Text
unfolding ipv4s_of
all_ipv4s [] = []
all_ipv4s (addresses ∷ rest) = ipv4s_of addresses ++ all_ipv4s rest

unfoldable pub guest_ipv4s : Agent → Guest → Option (List Text)
unfolding all_ipv4s
guest_ipv4s agent vm = elim (agent vm.node vm.vmid) [
  | none ↦ none
  | some interfaces ↦ some (all_ipv4s interfaces)
]

-- a guest by the address that it was the first to answer
abbrev pub Takers : Type 0
Takers = List (Text × Guest)

pub is_taken : Takers → Text → Bool
unfolding lookup
is_taken takers ip = elim (lookup ip takers) [ none ↦ false | some vm ↦ true ]

set_defaults : Guest → List Text → Takers → Takers
unfolding is_taken put
set_defaults vm [] takers = takers
set_defaults vm (ip ∷ ips) takers =
    set_defaults vm ips (if is_taken takers ip then takers else put ip vm takers)

-- the guests that the scan asks: no tags stand for a scan that knows none as ours
is_asked : List ℕ → List Text → Guest → Bool
unfolding contains subset
is_asked skip ours vm =
    vm.running
    && not vm.template
    && not (contains skip vm.vmid)
    && not (not (is_empty ours) && subset ours (parse_vm_tags vm.tags))

answered : Guest → Option (List Text) → Takers × List Guest → Takers × List Guest
unfolding set_defaults
answered vm none (takers, unchecked) = (takers, unchecked ++ vm ∷ [])
answered vm (some ips) (takers, unchecked) = (set_defaults vm ips takers, unchecked)

scan_from : Agent → List ℕ → List Text → List Guest → Takers × List Guest → Takers × List Guest
unfolding is_asked answered
scan_from agent skip ours [] found = found
scan_from agent skip ours (vm ∷ vms) found =
    scan_from agent skip ours vms
      (if is_asked skip ours vm then answered vm (guest_ipv4s agent vm) found else found)

-- the takers, and the guests that cannot be asked
unfoldable pub running_guest_ips : Agent → List Guest → List ℕ → List Text → Takers × List Guest
unfolding scan_from
running_guest_ips agent vms skip ours = scan_from agent skip ours vms ([], [])

-- f"{prefix}.{octet}" for the octets of range(start, end + 1)
octets : Text → ℕ → ℕ → List Text
octets prefix start end =
    map (λ octet. prefix ++ text "." ++ numeral octet) (range_from start (suc end - start))

first_free : List Text → List Text → Option Text
unfolding find contains
first_free taken = find (λ ip. not (contains taken ip))

-- RED01_IP_BAND and RED01_LEGACY_IPS
unfoldable pub red_band_ips : List Text
unfolding octets
red_band_ips = octets (text "10.0.0") 240 249

abbrev pub red01_legacy_ips : List Text
red01_legacy_ips = map text ("10.0.0.196" ∷ "10.0.0.197" ∷ "10.0.0.198" ∷ "10.0.0.199" ∷ [])

abbrev pub default_engine_mgmt_ip : Text
default_engine_mgmt_ip = text "10.0.0.250"

-- the addresses that the engine never gets
unfoldable pub never_engine : List Text
unfolding red_band_ips
never_engine = default_engine_mgmt_ip ∷ (red01_legacy_ips ++ red_band_ips)

select : List Text → List Text → Takers × List Guest → Option Text × List Guest
unfolding first_free
select candidates claimed (takers, unchecked) =
    if is_empty unchecked
    then (first_free (keys takers ++ claimed) candidates, unchecked)
    else (none, unchecked)

unfoldable pub select_red_ip :
    Agent → List Guest → List Text → List ℕ → List Text → Option Text × List Guest
unfolding running_guest_ips select red_band_ips
select_red_ip agent vms claimed skip ours =
    select red_band_ips (claimed ++ red01_legacy_ips) (running_guest_ips agent vms skip ours)

-- text.partition("-"), without the separator
partition_dash : Text → Text × Text
partition_dash [] = ([], [])
partition_dash (c ∷ s) =
    let rest = partition_dash s in if nat_beq c b'-' then ([], s) else (c ∷ rest.0, rest.1)

-- text.rsplit(".", 1), none where there is no dot
rsplit_dot : Text → Option (Text × Text)
rsplit_dot [] = none
rsplit_dot (c ∷ s) = elim (rsplit_dot s) [
  | none ↦ if nat_beq c b'.' then some ([], s) else none
  | some parts ↦ some (c ∷ parts.0, parts.1)
]

-- the configured band, none where it is no range
unfoldable pub engine_mgmt_band : Text → Option (Text × Text)
unfolding strip partition_dash
engine_mgmt_band configured =
    let raw = strip configured in
    let (lo, hi) = partition_dash raw in
    if is_empty raw
    then some (text "10.0.0.251", text "10.0.0.254")
    else if not (is_empty (strip lo)) && not (is_empty (strip hi))
    then some (strip lo, strip hi)
    else none

module _ (to_int : Text → Option ℕ) where
  octets_of : Option (Text × Text) → Option (Text × Text) → Option (List Text)
  unfolding octets
  octets_of (some (prefix, start)) (some (high, end)) = elim (to_int start) [
    | none ↦ none
    | some lo ↦ elim (to_int end) [ none ↦ none | some hi ↦ some (octets prefix lo hi) ]
  ]
  octets_of _ _ = none

  engine_candidates : Option (Text × Text) → Option (List Text)
  unfolding octets_of rsplit_dot
  engine_candidates none = none
  engine_candidates (some (lo, hi)) = octets_of (rsplit_dot lo) (rsplit_dot hi)

  select_in :
      Option (List Text) → List Text → Takers × List Guest → Option (Option Text × List Guest)
  unfolding select never_engine
  select_in none claimed found = none
  select_in (some candidates) claimed found =
      some (select candidates (claimed ++ never_engine) found)

  -- with the configured band; none where reading it raises
  unfoldable pub select_engine_ip :
      Agent → Text → List Guest → List Text → List ℕ → List Text → Option (Option Text × List Guest)
  unfolding running_guest_ips engine_mgmt_band engine_candidates select_in
  select_engine_ip agent band vms claimed skip ours =
      let found = running_guest_ips agent vms skip ours in
      if is_empty found.1
      then select_in (engine_candidates (engine_mgmt_band band)) claimed found
      else some (none, found.1)

-- a comp- tag that is not ours; with no tag of ours every one is foreign
foreign_to : Option Text → List Text → Bool
unfolding any
foreign_to own =
    any
      (λ t. starts_with (text "comp-") t && elim own [ none ↦ true | some o ↦ not (text_beq t o) ])

is_own_build : ℕ → Option Text → Guest → Bool
unfolding foreign_to
is_own_build engine_vmid own vm =
    nat_beq vm.vmid (engine_template_vmid engine_vmid)
    && text_beq vm.name (text "engine-template")
    && not vm.template
    && not (foreign_to own (parse_vm_tags vm.tags))

unfoldable pub own_build_vmids : List Guest → ℕ → List Text → List ℕ
unfolding is_own_build keep find
own_build_vmids vms engine_vmid ours =
    let own = find (starts_with (text "comp-")) ours in
    engine_vmid ∷ map (λ vm. vm.vmid) (keep (is_own_build engine_vmid own) vms)

pub data Refused : Type 0 where
  is_answered : (ips : List Text) → Refused
  unverified : (unchecked : List Guest) → Refused

-- whether the operator set the engine's address: the configured text, and whether the environment
-- marks it as the default or as selected
pub record Pin : Type 0 where
  pub configured : Text
  pub is_default : Bool
  pub is_auto_selected : Bool

is_explicit : Pin → Bool
unfolding strip
is_explicit pin =
    not (is_empty (strip pin.configured)) && not pin.is_default && not pin.is_auto_selected

unfoldable pub engine_mgmt_ip_gate :
    Agent → List Guest → ℕ → Text → List Text → Pin → Result Refused (Unit {0})
unfolding running_guest_ips own_build_vmids is_taken is_explicit
engine_mgmt_ip_gate agent vms engine_vmid ip ours pin =
    let (takers, unchecked) =
      running_guest_ips agent vms (own_build_vmids vms engine_vmid ours) ours in
    if is_taken takers ip
    then err (is_answered (ip ∷ []))
    else if is_empty unchecked || is_explicit pin
    then ok tt
    else err (unverified unchecked)
