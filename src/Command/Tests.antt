-- ===== src/Command/Tests.antt =====
-- Some command lines, and the theorems on the command applied to them.
use Prim.Native.String.{String}
use warrior_man.Prelude.{
  ℕ, ◌≡◌, ◌⊎◌, ◌↔◌, refl, Bool, true, false, none, some, [], ◌∷◌, ◌==◌, if◌then◌else◌,
}
use warrior_man.Command.{
  sigint, sigusr2, carries_on, positive, is_unread, Run, master_is_alive, parse_command, wait_gone,
}
use warrior_man.Command.Chosen.{FoundDead, carries_on_lem}

-- The process 70 dies before the third probe.
abbrev dies_late : ℕ → ℕ → Bool
dies_late pid i = if pid == 70 then i == 3 else false

abbrev restarted : Run
restarted = parse_command dies_late 1 99 (positive 70) false (some "restart") (some "-d")

restarted_sent : (restarted.sent ≡ (sigint, 70) ∷ []) × (restarted.daemonize ≡ true)
unfolding parse_command wait_gone
restarted_sent = (refl, refl)

status_sent :
    (parse_command dies_late 2 99 (positive 70) true (some "status") none).sent
    ≡ (sigusr2, 70) ∷ (sigusr2, 70) ∷ []
unfolding parse_command
status_sent = refl

carries_on_lem_example : (restarted.outcome ≡ carries_on) ↔ (
    (is_unread (positive 70) ≡ false)
    × (((◌≡◌ {A = String} "restart" "start") × (master_is_alive dies_late 99 70 ≡ false))
        ⊎ ((◌≡◌ {A = String} "restart" "restart") × FoundDead dies_late 5 1 70)))
carries_on_lem_example = carries_on_lem dies_late 1 99 (positive 70) false "restart" (some "-d")
