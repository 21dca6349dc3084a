-- ===== src/Preflight/Addresses/Found.antt =====
-- When `select_red_ip` finds an address.
use tezcatlipoca.Base.{
  ℕ, Bool, true, false, not, ◌&&◌, ◌≡◌, ◌↔◌, refl, sym, ◌∙◌, inl, inr, some, List, [], ◌∷◌, ◌++◌,
  arith, any, find, contains, contains-append, is_empty, Text, text_eq, Bool-cases,
}
use tezcatlipoca.Base.Dict.{keys}
use tezcatlipoca.Preflight.{Guest}
use tezcatlipoca.Preflight.Addresses.{
  Agent, Takers, running_guest_ips, first_free, red_band_ips, red01_legacy_ips, select,
  select_red_ip,
}
use tezcatlipoca.Preflight.Addresses.Scan.{
  contains-keys, answers, is_silent, running_guest_ips-taken, running_guest_ips-silent,
}

find-any :
    {A : Type 0} (test : A → Bool) (xs : List A)
    → ((x : A) × (find test xs ≡ some x)) ↔ (any test xs ≡ true)
unfolding find any
find-any test [] = ((λ h. let q = h.1 in cc), λ h. cc)
find-any test (x ∷ xs) = elim (Bool-cases (test x)) [
  | inl e ↦ ((λ h. ground arith), λ h. (x, rw (find, e) refl))
  | inr e ↦
      let rest = find-any test xs in
      (
        (λ h. let later = rest.0 (h.0, rw (find, e) at h.1) in ground arith),
        (λ h. let found = rest.1 (ground arith) in (found.0, rw (find, e) found.1)),
      )
]

any_eq : {A : Type 0} (f g : A → Bool) (xs : List A) → ((x : A) → f x ≡ g x) → any f xs ≡ any g xs
unfolding any
any_eq f g [] h = refl
any_eq f g (x ∷ xs) h = ground (arith, h x, any_eq f g xs h)

select_iff :
    (candidates claimed : List Text) (found : Takers × List Guest)
    → ((ip : Text) × ((select candidates claimed found).0 ≡ some ip)) ↔ (
        (is_empty found.1 ≡ true)
        × (any (λ ip. not (contains (keys found.0 ++ claimed) ip)) candidates ≡ true))
unfolding select first_free
select_iff candidates claimed (takers, []) =
    let found = find-any (λ ip. not (contains (keys takers ++ claimed) ip)) candidates in
    ((λ h. (refl, found.0 h)), λ h. found.1 h.1)
select_iff candidates claimed (takers, u ∷ us) = ((λ h. let q = h.1 in cc), λ h. let q = h.0 in cc)

module _ (agent : Agent) (vms : List Guest) (claimed : List Text) (skip : List ℕ)
    (ours : List Text) where
  -- no guest that is asked answers the address, nor is it claimed, nor a legacy one
  pub is_free : Text → Bool
  unfolding any contains
  is_free ip =
      not (any (answers agent skip ours ip) vms) && not (contains (claimed ++ red01_legacy_ips) ip)

  -- `select_red_ip` finds an address exactly when every guest that it asks gives an answer and some
  -- address of red01's band is free: answered by none of them, not claimed by the caller and not a
  -- legacy address of red01.
  pub select_red_ip_iff :
      ((ip : Text) × ((select_red_ip agent vms claimed skip ours).0 ≡ some ip))
      ↔ ((any (is_silent agent skip ours) vms ≡ false) × (any is_free red_band_ips ≡ true))
  unfolding select_red_ip is_free
  select_red_ip_iff =
      let found = running_guest_ips agent vms skip ours in
      let all = claimed ++ red01_legacy_ips in
      let both = select_iff red_band_ips all found in
      let same : any (λ ip. not (contains (keys found.0 ++ all) ip)) red_band_ips
          ≡ any is_free red_band_ips =
        any_eq _ _ red_band_ips (λ ip. ground (
          arith,
          contains-append (keys found.0) all ip,
          contains-keys found.0 ip,
          running_guest_ips-taken agent skip ours vms ip,
        )) in
      let silent = running_guest_ips-silent agent skip ours vms in
      (
        (λ h. let parts = both.0 h in (ground (arith, silent, parts.0), sym same ∙ parts.1)),
        (λ h. both.1 (ground (arith, silent, h.0), same ∙ h.1)),
      )
