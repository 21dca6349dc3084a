-- ===== src/RoundLoop/Tests.antt =====
-- A loop that stopped when its engine was rebooted, and one that was paused on purpose.
use tezcatlipoca.Base.{Bool, true, false, ◌≡◌, refl, ◌↔◌, ◌⊎◌, some, []}
use tezcatlipoca.RoundLoop.{
  freshness_window, paused, Payload, round_loop_state, heal_posts, heal_actions,
}
use tezcatlipoca.RoundLoop.Heal.{IsStuck, heal_actions_iff}

abbrev rebooted : Payload
rebooted = record {
  running = some false;
  current_year = some 1;
  round_started = some 1000;
  competition_started = true;
}

abbrev on_purpose : Payload
on_purpose = record rebooted { current_year = some 2026 }

stays_paused : (round_loop_state (some on_purpose) 2000 freshness_window).state ≡ paused
unfolding round_loop_state
stays_paused = refl

heal_actions_iff_example :
    ((heal_actions (some rebooted) 1300 ≡ heal_posts)
      ↔ (◌≡◌ {A = Bool} true true × IsStuck 1300 freshness_window rebooted))
    × ((heal_actions (some rebooted) 1300 ≡ heal_posts) ⊎ (heal_actions (some rebooted) 1300 ≡ []))
heal_actions_iff_example = heal_actions_iff rebooted 1300
