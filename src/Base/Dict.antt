-- ===== src/Base/Dict.antt =====
-- Python's `dict` as the list of its items in insertion order: an assignment to a key that is
-- there keeps the key's place.
use mathlib.Core.Path.{◌≡◌, refl}
use mathlib.Core.Option.{Option, none, some}
use mathlib.Core.List.{List, [], ◌∷◌, map}
use native.Mathlib.Omega.{arith}
use tezcatlipoca.Base.Tests.{if◌then◌else◌}
use tezcatlipoca.Base.Classes.{Eq, ◌==◌}

-- the first of two that is there
abbrev pub or_other {ℓ} : {V : Type ℓ} → Option V → Option V → Option V
or_other none o = o
or_other (some v) o = some v

module _ {ℓ} {K V : Type ℓ} ⦃e : Eq K⦄ where
  -- d.get(k)
  unfoldable pub lookup : K → List (K × V) → Option V
  lookup k [] = none
  lookup k ((j, v) ∷ d) = let rest = lookup k d in if j == k then some v else rest

  -- d[k] = v
  unfoldable pub put : K → V → List (K × V) → List (K × V)
  put k v [] = (k, v) ∷ []
  put k v ((j, w) ∷ d) = let rest = put k v d in if j == k then (j, v) ∷ d else (j, w) ∷ rest

  -- d.pop(k, None)
  unfoldable pub remove : K → List (K × V) → List (K × V)
  remove k [] = []
  remove k ((j, w) ∷ d) = let rest = remove k d in if j == k then rest else (j, w) ∷ rest

  -- d.update(items)
  unfoldable pub update : List (K × V) → List (K × V) → List (K × V)
  unfolding put
  update d [] = d
  update d ((k, v) ∷ items) = update (put k v d) items

  -- the keys are different, as those of a dict are
  abbrev pub IsDict : List (K × V) → Type ℓ
  IsDict [] = Unit
  IsDict ((k, v) ∷ d) = (lookup k d ≡ none) × IsDict d

  abbrev pub keys : List (K × V) → List K
  keys = map (λ p. p.0)

  pub lookup-put :
      (k j : K) (v : V) (d : List (K × V))
      → lookup j (put k v d) ≡ (if k == j then some v else lookup j d)
  unfolding lookup put
  lookup-put k j v [] = refl
  lookup-put k j v ((i, w) ∷ d) =
      ground (arith, e.beq_iff k j, e.beq_iff i k, e.beq_iff i j, lookup-put k j v d)

  pub lookup-remove :
      (k j : K) (d : List (K × V)) → lookup j (remove k d) ≡ (if k == j then none else lookup j d)
  unfolding lookup remove
  lookup-remove k j [] = ground arith
  lookup-remove k j ((i, w) ∷ d) =
      ground (arith, e.beq_iff k j, e.beq_iff i k, e.beq_iff i j, lookup-remove k j d)

  pub put-IsDict : (k : K) (v : V) (d : List (K × V)) → IsDict d → IsDict (put k v d)
  unfolding put lookup
  put-IsDict k v [] h = (refl, tt)
  put-IsDict k v ((i, w) ∷ d) h =
      ground (arith, put-IsDict k v d h.1, lookup-put k i v d, e.beq_iff i k, e.beq_iff k i)

  pub remove-IsDict : (k : K) (d : List (K × V)) → IsDict d → IsDict (remove k d)
  unfolding remove lookup
  remove-IsDict k [] h = tt
  remove-IsDict k ((i, w) ∷ d) h = ground (arith, remove-IsDict k d h.1, lookup-remove k i d)

  pub update-IsDict : (d items : List (K × V)) → IsDict d → IsDict (update d items)
  unfolding update
  update-IsDict d [] h = h
  update-IsDict d ((k, v) ∷ items) h = update-IsDict (put k v d) items (put-IsDict k v d h)

  pub lookup-update :
      (j : K) (d items : List (K × V))
      → IsDict items
      → lookup j (update d items) ≡ or_other (lookup j items) (lookup j d)
  unfolding update lookup
  lookup-update j d [] h = refl
  lookup-update j d ((k, v) ∷ items) h =
      ground (arith, lookup-update j (put k v d) items h.1, lookup-put k j v d, e.beq_iff k j)
