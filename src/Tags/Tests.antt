-- ===== src/Tags/Tests.antt =====
-- Runs of the tag parser on small inputs.
use tezcatlipoca.Base.{◌≡◌, refl, List, [], ◌∷◌, All, Text, text, arith}
use tezcatlipoca.Proxmox.{joined}
use tezcatlipoca.Tags.{is_space, parse_vm_tags, join_tags, tokens}
use tezcatlipoca.Tags.RoundTrip.{IsTag, parse_vm_tags-join_tags}

mixed_separators :
    parse_vm_tags (joined (text " tezcatlipoca;; comp-cde , run-1"))
    ≡ text "tezcatlipoca" ∷ text "comp-cde" ∷ text "run-1" ∷ []
unfolding parse_vm_tags is_space
mixed_separators = refl

tokens_spaces : tokens (text "  a  b ") ≡ text "a" ∷ text "b" ∷ []
unfolding tokens is_space
tokens_spaces = refl

abbrev two_tags : List Text
two_tags = text "comp-cde" ∷ text "run-1" ∷ []

two_tags-IsTag : All IsTag two_tags
unfolding is_space
two_tags-IsTag = ground arith

parse_vm_tags-join_tags_example : parse_vm_tags (joined (join_tags two_tags)) ≡ two_tags
parse_vm_tags-join_tags_example = parse_vm_tags-join_tags two_tags two_tags-IsTag
