-- ===== src/Tags.antt =====
-- infra/ownership.py: `parse_vm_tags`, and the joined form in which `retag_ownership` writes tags.
pub mod RoundTrip
mod Tests
use tezcatlipoca.Base.{
  ℕ, Bool, true, false, not, ◌||◌, ◌&&◌, List, [], ◌∷◌, ◌++◌, map, leb, nat_beq, if◌then◌else◌,
  is_empty, keep, Text, text,
}
use tezcatlipoca.Proxmox.{RawTags, listed, joined}

-- the white space that str.strip removes
unfoldable pub is_space : ℕ → Bool
is_space c =
    leb 9 c && leb c 13
    || leb 28 c && leb c 32
    || nat_beq c 0x85
    || nat_beq c 0xa0
    || nat_beq c 0x1680
    || leb 0x2000 c && leb c 0x200a
    || nat_beq c 0x2028
    || nat_beq c 0x2029
    || nat_beq c 0x202f
    || nat_beq c 0x205f
    || nat_beq c 0x3000

lstrip : Text → Text
lstrip [] = []
lstrip (c ∷ s) = let rest = lstrip s in if is_space c then rest else c ∷ s

rstrip : Text → Text
rstrip [] = []
rstrip (c ∷ s) = let rest = rstrip s in if is_space c && is_empty rest then [] else c ∷ rest

unfoldable pub strip : Text → Text
unfolding lstrip rstrip
strip s = rstrip (lstrip s)

-- raw.replace(";", ",")
to_comma : ℕ → ℕ
to_comma c = if nat_beq c b';' then b',' else c

-- s.split at every code point that satisfies the test
onto_head : ℕ → List Text → List Text
onto_head c [] = (c ∷ []) ∷ []
onto_head c (w ∷ ws) = (c ∷ w) ∷ ws

split_at : (ℕ → Bool) → Text → List Text
unfolding onto_head
split_at sep [] = [] ∷ []
split_at sep (c ∷ s) = let rest = split_at sep s in if sep c then [] ∷ rest else onto_head c rest

abbrev is_comma : ℕ → Bool
is_comma c = nat_beq c b','

present : List Text → List Text
unfolding keep
present = keep (λ t. not (is_empty t))

-- The set that the source returns, as the list of its members.
unfoldable pub parse_vm_tags : RawTags → List Text
unfolding strip to_comma split_at present
parse_vm_tags (listed raw) = present (map strip raw)
parse_vm_tags (joined raw) = present (map strip (split_at is_comma (map to_comma raw)))

-- ";".join(tags)
unfoldable pub join_tags : List Text → Text
join_tags [] = []
join_tags (t ∷ []) = t
join_tags (t ∷ u ∷ ts) = t ++ (b';' ∷ join_tags (u ∷ ts))

-- comment.split(), which splits at white space and drops the empty parts
unfoldable pub tokens : Text → List Text
unfolding split_at present
tokens s = present (split_at is_space s)
