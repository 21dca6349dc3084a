-- ===== src/Naming/Tests.antt =====
-- Runs of the names on small inputs.
use tezcatlipoca.Base.{◌≡◌, refl, text}
use tezcatlipoca.Naming.{comp_slug}

comp_slug_spaces : comp_slug (text "CDE 2026") ≡ text "cde-2026"
unfolding comp_slug
comp_slug_spaces = refl
