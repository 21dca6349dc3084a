-- ===== src/Verifier/Tests.antt =====
-- A scoreboard of one team with a scored and an unscored service.
use tezcatlipoca.Base.{
  Bool, true, false, ◌≡◌, refl, ◌↔◌, Option, none, some, List, [], ◌∷◌, Text, text,
}
use tezcatlipoca.Verifier.{gate_verdict}
use tezcatlipoca.Verifier.Scoreboard.{worded, valued, check_passed, Service, check_services}
use tezcatlipoca.Verifier.Scoreboard.Strict.{IsUp, check_services_iff}

false_word : check_passed (worded (text " False ")) ≡ false
unfolding check_passed tezcatlipoca.Base.text_beq tezcatlipoca.Naming.lower
    tezcatlipoca.Tags.is_space
false_word = refl

abbrev web : Service
web = record {
  name = some (text "web01-http");
  rounds = some (valued true ∷ worded (text "1") ∷ []) ∷ [];
}

abbrev fresh : Service
fresh = record { name = some (text "db01-sql"); rounds = [] }

strict_pass :
    gate_verdict
      (check_services true (text "web01-http" ∷ []) true (some (some (web ∷ fresh ∷ []) ∷ [])))
      []
    ≡ ((text "services(strict)", true) ∷ (text "pins_registered", true) ∷ [], true)
unfolding gate_verdict check_services tezcatlipoca.Base.text_beq tezcatlipoca.Naming.lower
    tezcatlipoca.Tags.is_space
strict_pass = refl

-- without the flag the services do not gate
unscored_pass :
    gate_verdict (check_services false [] true (some (some (fresh ∷ []) ∷ []))) [] ≡ ([], true)
unfolding gate_verdict check_services
unscored_pass = refl

-- a skip passes where the operator waived the gate
waived :
    gate_verdict (check_services true [] false none) (text "services" ∷ [])
    ≡ ((text "services(strict)", false) ∷ [], true)
unfolding gate_verdict check_services tezcatlipoca.Base.text_beq
waived = refl

check_services_iff_example :
    ((gate_verdict
        (check_services true (text "web01-http" ∷ []) true (some (some (web ∷ fresh ∷ []) ∷ [])))
        []).1
      ≡ true)
    ↔ IsUp (text "web01-http" ∷ []) true (some (some (web ∷ fresh ∷ []) ∷ []))
check_services_iff_example =
    check_services_iff (text "web01-http" ∷ []) true (some (some (web ∷ fresh ∷ []) ∷ []))
