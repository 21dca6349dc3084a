-- ===== src/Preflight/Addresses/Chosen.antt =====
-- The address that `select_engine_ip` chooses, and the gate on it.
use tezcatlipoca.Base.{
  ℕ, Bool, true, false, not, ◌≡◌, refl, ap, inl, inr, Option, none, some, List, [], ◌∷◌, ◌++◌,
  arith, if◌then◌else◌, find, contains, contains-append, is_empty, Text, text_eq, nat_eq,
  Bool-cases,
}
use tezcatlipoca.Base.Actions.{ok}
use tezcatlipoca.Base.Dict.{keys}
use tezcatlipoca.Preflight.{Guest}
use tezcatlipoca.Preflight.Addresses.{
  Agent, Takers, is_taken, running_guest_ips, first_free, never_engine, select, engine_mgmt_band,
  engine_candidates, select_in, select_engine_ip, own_build_vmids, Pin, engine_mgmt_ip_gate,
}
use tezcatlipoca.Preflight.Addresses.Scan.{
  contains-keys, running_guest_ips-more, running_guest_ips-silent_more,
}

find_test :
    {A : Type 0} (test : A → Bool) (xs : List A) (x : A) → find test xs ≡ some x → test x ≡ true
unfolding find
find_test test [] x h = cc
find_test test (y ∷ ys) x h = elim (Bool-cases (test y)) [
  | inl e ↦ let q : some y ≡ some x = rw (find, e) at h in ground (arith, q)
  | inr e ↦ find_test test ys x (rw (find, e) at h)
]

select_found :
    (candidates claimed : List Text) (found : Takers × List Guest) (ip : Text)
    (unchecked : List Guest)
    → select candidates claimed found ≡ (some ip, unchecked)
    → (is_empty found.1 ≡ true) × (is_taken found.0 ip ≡ false) × (contains claimed ip ≡ false)
unfolding select first_free
select_found candidates claimed (takers, []) ip unchecked h =
    let free =
      find_test (λ j. not (contains (keys takers ++ claimed) j)) candidates ip (ap (λ p. p.0) h) in
    (
      refl,
      ground (arith, free, contains-append (keys takers) claimed ip, contains-keys takers ip),
      ground (arith, free, contains-append (keys takers) claimed ip),
    )
select_found candidates claimed (takers, u ∷ us) ip unchecked h =
    let q : none ≡ some ip = ap (λ p. p.0) h in cc

module _ (to_int : Text → Option ℕ) (agent : Agent) where
  selected :
      (candidates : Option (List Text)) (claimed : List Text) (found : Takers × List Guest)
      (ip : Text) (unchecked : List Guest)
      → (if is_empty found.1
          then select_in to_int candidates claimed found
          else some (none, found.1))
        ≡ some (some ip, unchecked)
      → (is_empty found.1 ≡ true)
        × (is_taken found.0 ip ≡ false)
        × (contains (claimed ++ never_engine) ip ≡ false)
  unfolding select_in
  selected none claimed (takers, []) ip unchecked h = cc
  selected (some candidates) claimed (takers, []) ip unchecked h =
      select_found candidates (claimed ++ never_engine) (takers, []) ip unchecked
        (ap (λ o. elim o [ none ↦ (some ip, unchecked) | some r ↦ r ]) h)
  selected candidates claimed (takers, u ∷ us) ip unchecked h =
      let q : none ≡ some ip = ap (λ o. elim o [ none ↦ none | some r ↦ r.0 ]) h in cc

  -- An address that `select_engine_ip` chose passes `engine_mgmt_ip_gate` over the same machines
  -- and the same answers, whoever is taken to have set it, when the choice left out no machine that
  -- the gate asks. It is not one of those claimed by the caller, nor the default, nor one of red01's
  -- band or legacy addresses.
  pub select_engine_ip-passes :
      (band : Text) (vms : List Guest) (claimed : List Text) (skip : List ℕ) (ours : List Text)
      (ip : Text) (unchecked : List Guest) (engine_vmid : ℕ) (pin : Pin)
      → select_engine_ip to_int agent band vms claimed skip ours ≡ some (some ip, unchecked)
      → ((v : ℕ)
          → contains skip v ≡ true
          → contains (own_build_vmids vms engine_vmid ours) v ≡ true)
      → (engine_mgmt_ip_gate agent vms engine_vmid ip ours pin ≡ ok tt)
        × (contains claimed ip ≡ false)
        × (contains never_engine ip ≡ false)
  unfolding select_engine_ip engine_mgmt_ip_gate
  select_engine_ip-passes band vms claimed skip ours ip unchecked engine_vmid pin h asked =
      let found = running_guest_ips agent vms skip ours in
      let parts =
        selected (engine_candidates to_int (engine_mgmt_band band)) claimed found ip unchecked h in
      let more = own_build_vmids vms engine_vmid ours in
      let untaken = running_guest_ips-more agent skip more ours asked vms ip parts.1 in
      let complete = running_guest_ips-silent_more agent skip more ours asked vms parts.0 in
      (
        rw (untaken, engine_mgmt_ip_gate) (rw complete refl),
        ground (arith, contains-append claimed never_engine ip, parts.2),
        ground (arith, contains-append claimed never_engine ip, parts.2),
      )
