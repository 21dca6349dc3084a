-- ===== src/Tags/RoundTrip.antt =====
-- Tags that are written joined are read back as they were.
use mathlib.Core.List.{map-append}
use tezcatlipoca.Base.{
  ℕ, Bool, true, false, not, ◌&&◌, ◌≡◌, refl, ap, ◌∙◌, List, [], ◌∷◌, ◌++◌, map, arith, nat_beq,
  All, Text, is_empty,
}
use tezcatlipoca.Proxmox.{joined}
use tezcatlipoca.Tags.{
  is_space, lstrip, rstrip, strip, to_comma, split_at, is_comma, present, parse_vm_tags, join_tags,
  tokens,
}

-- A tag as Proxmox admits it: a text that is not empty, with no separator and no white space.
abbrev pub plain_char : ℕ → Bool
plain_char c = not (is_space c) && not (nat_beq c b';') && not (nat_beq c b',')

abbrev pub IsTag : Text → Type 0
IsTag t = (is_empty t ≡ false) × All (λ c. plain_char c ≡ true) t

lstrip_plain : (s : Text) → All (λ c. plain_char c ≡ true) s → lstrip s ≡ s
unfolding lstrip
lstrip_plain [] h = refl
lstrip_plain (c ∷ s) h = ground arith

rstrip_plain : (s : Text) → All (λ c. plain_char c ≡ true) s → rstrip s ≡ s
unfolding rstrip
rstrip_plain [] h = refl
rstrip_plain (c ∷ s) h = ground (arith, rstrip_plain s h.1)

strip_plain : (s : Text) → All (λ c. plain_char c ≡ true) s → strip s ≡ s
unfolding strip
strip_plain s h = rw (lstrip_plain s h) (rstrip_plain s h)

to_comma_plain : (s : Text) → All (λ c. plain_char c ≡ true) s → map to_comma s ≡ s
unfolding to_comma
to_comma_plain [] h = refl
to_comma_plain (c ∷ s) h = ground (arith, to_comma_plain s h.1)

split_one : (sep : ℕ → Bool) (s : Text) → All (λ c. sep c ≡ false) s → split_at sep s ≡ s ∷ []
unfolding split_at
split_one sep [] h = refl
split_one sep (c ∷ s) h = ground (arith, split_one sep s h.1)

split_more :
    (sep : ℕ → Bool) (s : Text) (d : ℕ) (rest : Text)
    → All (λ c. sep c ≡ false) s
    → sep d ≡ true
    → split_at sep (s ++ (d ∷ rest)) ≡ s ∷ split_at sep rest
unfolding split_at
split_more sep [] d rest h e = rw e
split_more sep (c ∷ s) d rest h e = ground (arith, split_more sep s d rest h.1 e)

no_comma : (s : Text) → All (λ c. plain_char c ≡ true) s → All (λ c. is_comma c ≡ false) s
no_comma [] h = tt
no_comma (c ∷ s) h = ground (arith, no_comma s h.1)

no_space : (s : Text) → All (λ c. plain_char c ≡ true) s → All (λ c. is_space c ≡ false) s
no_space [] h = tt
no_space (c ∷ s) h = ground (arith, no_space s h.1)

to_comma_join :
    (t u : Text) (ts : List Text)
    → IsTag t
    → map to_comma (join_tags (t ∷ u ∷ ts)) ≡ t ++ (b',' ∷ map to_comma (join_tags (u ∷ ts)))
unfolding join_tags to_comma
to_comma_join t u ts h = rw (map-append, to_comma_plain t h.1)

split_join :
    (t : Text) (ts : List Text)
    → All IsTag (t ∷ ts)
    → split_at is_comma (map to_comma (join_tags (t ∷ ts))) ≡ t ∷ ts
split_join t [] h =
    unfold join_tags in rw (to_comma_plain t h.0.1) (split_one is_comma t (no_comma t h.0.1))
split_join t (u ∷ ts) h =
    rw (to_comma_join t u ts h.0, split_more is_comma t b',' _ (no_comma t h.0.1) refl)
      (ap (◌∷◌ t) (split_join u ts h.1))

strip-All : (ts : List Text) → All IsTag ts → map strip ts ≡ ts
strip-All [] h = refl
strip-All (t ∷ ts) h = rw (strip_plain t h.0.1, strip-All ts h.1)

present-All : (ts : List Text) → All IsTag ts → present ts ≡ ts
unfolding present
present-All [] h = refl
present-All (t ∷ ts) h = ground (arith, present-All ts h.1)

-- Reading the joined form of tags gives these tags, in order, when none is empty or contains white
-- space or a separator.
pub parse_vm_tags-join_tags :
    (ts : List Text) → All IsTag ts → parse_vm_tags (joined (join_tags ts)) ≡ ts
unfolding parse_vm_tags
parse_vm_tags-join_tags [] h = unfold join_tags in refl
parse_vm_tags-join_tags (t ∷ ts) h =
    rw (split_join t ts h) (ap present (strip-All (t ∷ ts) h) ∙ present-All (t ∷ ts) h)

-- The white-space tokens of a text that begins with a token and a space.
pub tokens_cons : (t rest : Text) → IsTag t → tokens (t ++ (b' ' ∷ rest)) ≡ t ∷ tokens rest
unfolding tokens
tokens_cons t rest h =
    rw (split_more is_space t b' ' rest (no_space t h.1) (unfold is_space in refl))
      (ground (arith, h.0))

pub tokens_one : (t : Text) → IsTag t → tokens t ≡ t ∷ []
unfolding tokens
tokens_one t h = rw (split_one is_space t (no_space t h.1)) (ground (arith, h.0))
