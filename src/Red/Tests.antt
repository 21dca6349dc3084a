-- ===== src/Red/Tests.antt =====
-- red01 on a cluster of one VM.
use tezcatlipoca.Base.{ℕ, true, ◌≡◌, refl, ◌↔◌, Option, none, some, List, [], ◌∷◌, Text, text}
use tezcatlipoca.Proxmox.{joined, Vm}
use tezcatlipoca.Red.{ours, another_run, occupant_verdict}
use tezcatlipoca.Red.Ours.{HoldsOurs, occupant_verdict-ours}

abbrev red01 : Vm
red01 = record {
  vmid = 1060;
  name = text "red01";
  tags = joined (text "tezcatlipoca;comp-cde;run-1");
  running = true;
}

abbrev cluster : Option (List Vm)
cluster = some (red01 ∷ [])

abbrev read : Vm → Option Text
read vm = some (text "tezcatlipoca;comp-cde;run-1")

seen_by_another_run : occupant_verdict cluster read 1060 (text "CDE") (text "run-2") ≡ another_run
unfolding occupant_verdict tezcatlipoca.Base.find tezcatlipoca.Tags.parse_vm_tags
    tezcatlipoca.Tags.is_space tezcatlipoca.Base.contains tezcatlipoca.Base.text_beq
    tezcatlipoca.Naming.comp_tag
seen_by_another_run = refl

occupant_verdict-ours_example :
    (occupant_verdict cluster read 1060 (text "CDE") (text "run-1") ≡ ours)
    ↔ HoldsOurs cluster read 1060 (text "CDE") (text "run-1")
occupant_verdict-ours_example =
    occupant_verdict-ours cluster read 1060 (text "CDE") (text "run-1") refl refl
