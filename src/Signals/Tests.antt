-- ===== src/Signals/Tests.antt =====
-- Two signals that come at once, and the theorem on signals applied to them.
use warrior_man.Prelude.{
  ℕ, ◌≡◌, arith, refl, true, Option, none, some, List, [], ◌∷◌, ◌++◌, ◌==◌, if◌then◌else◌,
}
use warrior_man.Signals.{
  Wait, Waiter, fails, gives, calls_of, signal_wait, sig_handler, sig_handlers,
}
use warrior_man.Signals.Handled.{due, signals_of, signals_lem}

-- SIGINT is 2 and SIGUSR1 is 10, both with the handler 1.
abbrev two_handlers : ℕ → Option ℕ
two_handlers n = if n == 2 then some 1 else if n == 10 then some 1 else none

abbrev idle : Waiter
idle = record { pipe = record { bytes = []; room = 100 }; called = [] }

abbrev script : List Wait
script =
    record { comes = 10 ∷ 17 ∷ 2 ∷ []; read = gives 1 }
    ∷ record { comes = []; read = fails true }
    ∷ record { comes = []; read = gives 1024 }
    ∷ []

script_calls : (signal_wait two_handlers idle script).0.called ≡ (1, 10) ∷ (1, 2) ∷ []
unfolding signal_wait calls_of sig_handlers sig_handler
script_calls = refl

signals_lem_example :
    (w' : Waiter) × (signal_wait two_handlers idle script ≡ (w', true))
    × (due two_handlers w' ≡ due two_handlers idle ++ calls_of two_handlers (signals_of script))
signals_lem_example =
    signals_lem two_handlers idle script (tt, (refl, (tt, tt))) (omega arith) (omega arith)
