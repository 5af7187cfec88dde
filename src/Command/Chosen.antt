-- ===== src/Command/Chosen.antt =====
-- Which commands start a server, and what a restart does when none runs.
use Prim.Native.String.{String}
use text.Mathlib.TextEquality.{eq_iff}
use warrior_man.Prelude.{
  ℕ, zero, suc, ◌+◌, ◌≡◌, ◌⊎◌, ◌↔◌, inl, inr, arith, refl, sym, Bool, true, false, Option, some, [],
  ◌∷◌, ◌==◌, if◌then◌else◌, Bool-cases,
}
use warrior_man.Command.{
  sigint, carries_on, exits, crashes, Run, PidFile, is_unread, command_type, set_daemonize,
  read_pid, master_is_alive, wait_gone, with_master, parse_command,
}

type_of_start : (c : String) → command_type (some c) ≡ 1 → c ≡ "start"
unfolding command_type
type_of_start c h = sym ((eq_iff "start" c).0 (ground arith))

type_of_restart : (c : String) → command_type (some c) ≡ 3 → c ≡ "restart"
unfolding command_type
type_of_restart c h = sym ((eq_iff "restart" c).0 (ground arith))

start_type : command_type (some "start") ≡ 1
unfolding command_type
start_type = refl

restart_type : command_type (some "restart") ≡ 3
unfolding command_type
restart_type = refl

-- One of the `k` probes of the process from `i` on finds it dead.
abbrev pub FoundDead : (ℕ → ℕ → Bool) → ℕ → ℕ → ℕ → Type 0
FoundDead gone zero i pid = ⊥
FoundDead gone (suc k) i pid = (gone pid i ≡ true) ⊎ FoundDead gone k (i + 1) pid

module _ (gone : ℕ → ℕ → Bool) where
  wait_gone-FoundDead : (k i pid : ℕ) → wait_gone gone k i pid ≡ true → FoundDead gone k i pid
  unfolding wait_gone
  wait_gone-FoundDead zero i pid h = cc
  wait_gone-FoundDead (suc k) i pid h = elim (Bool-cases (gone pid i)) [
    | inl e ↦ inl e
    | inr e ↦ inr (wait_gone-FoundDead k (i + 1) pid (rw (wait_gone, e) at h))
  ]

  FoundDead-wait_gone : (k i pid : ℕ) → FoundDead gone k i pid → wait_gone gone k i pid ≡ true
  unfolding wait_gone
  FoundDead-wait_gone zero i pid h = elim h [ ]
  FoundDead-wait_gone (suc k) i pid (inl e) = rw (wait_gone, e) refl
  FoundDead-wait_gone (suc k) i pid (inr h) = elim (Bool-cases (gone pid i)) [
    | inl e ↦ rw (wait_gone, e) refl
    | inr e ↦ rw (wait_gone, e) (FoundDead-wait_gone k (i + 1) pid h)
  ]

-- The server starts, by the type of the command.
carries_on_types :
    (alive died : Bool) (rounds t : ℕ) (r : Run)
    → (with_master alive died rounds t r).outcome ≡ carries_on
    → ((t ≡ 1) × (alive ≡ false)) ⊎ ((t ≡ 3) × (died ≡ true))
carries_on_types true true rounds t r h = ground arith
carries_on_types true false rounds t r h = ground arith
carries_on_types false true rounds t r h = ground arith
carries_on_types false false rounds t r h = ground arith

start_carries_on :
    (died : Bool) (rounds : ℕ) (r : Run) → (with_master false died rounds 1 r).outcome ≡ carries_on
start_carries_on died rounds r = refl

restart_carries_on :
    (alive : Bool) (rounds : ℕ) (r : Run) → (with_master alive true rounds 3 r).outcome ≡ carries_on
restart_carries_on true rounds r = refl
restart_carries_on false rounds r = refl

past_usage :
    (b : Bool) (silent r : Run)
    → silent.outcome ≡ exits
    → (if b then silent else r).outcome ≡ carries_on
    → r.outcome ≡ carries_on
past_usage true silent r e h = cc
past_usage false silent r e h = h

past_crash :
    (b : Bool) (crashed r : Run)
    → crashed.outcome ≡ crashes
    → (if b then crashed else r).outcome ≡ carries_on
    → (b ≡ false) × (r.outcome ≡ carries_on)
past_crash true crashed r e h = cc
past_crash false crashed r e h = (refl, h)

-- The process goes on to run the server exactly when the PID file, if there is one, can be read and is not
-- empty, and the command is `start` and no master runs, or it is `restart` and one of the five probes of
-- the master, which is told to stop, finds it dead.
pub carries_on_lem :
    (gone : ℕ → ℕ → Bool) (rounds own : ℕ) (pid_file : PidFile) (daemonize : Bool) (c : String)
    (command2 : Option String)
    → ((parse_command gone rounds own pid_file daemonize (some c) command2).outcome ≡ carries_on)
      ↔ ((is_unread pid_file ≡ false)
          × (((c ≡ "start") × (master_is_alive gone own (read_pid pid_file) ≡ false))
              ⊎ ((c ≡ "restart") × FoundDead gone 5 1 (read_pid pid_file))))
unfolding parse_command
carries_on_lem gone rounds own pid_file daemonize c command2 =
    let silent : Run = record {
      sent = [];
      daemonize = daemonize;
      master_pid = 0;
      outcome = exits;
    } in
    let pid = read_pid pid_file in
    let r = record silent { daemonize = set_daemonize command2 daemonize; master_pid = pid } in
    let t = command_type (some c) in
    let alive = master_is_alive gone own pid in
    let died = wait_gone gone 5 1 pid in
    let crashed : Run = record silent {
      daemonize = set_daemonize command2 daemonize;
      outcome = crashes;
    } in
    let past_file : Bool → Run = λ b. if b then crashed else with_master alive died rounds t r in
    (
      λ h.
          let h₁ = past_usage (t == 0) silent (past_file (is_unread pid_file)) refl h in
          let (readable, h₂) =
            past_crash (is_unread pid_file) crashed (with_master alive died rounds t r) refl h₁ in
          (
            readable,
            elim (carries_on_types alive died rounds t r h₂) [
              | inl (e, a) ↦ inl (type_of_start c e, a)
              | inr (e, d) ↦ inr (type_of_restart c e, wait_gone-FoundDead gone 5 1 pid d)
            ],
          ),
      λ (readable, h). elim h [
        | inl (e, a) ↦ rw (e, a, readable) refl
        | inr (e, d) ↦
            rw (e, readable, FoundDead-wait_gone gone 5 1 pid d) (restart_carries_on alive rounds r)
      ],
    )

-- A `restart` where the PID file is missing, or can be read and names no process, and a probe of the process group 0
-- finds it alive as ever: SIGINT goes to the group 0, that of the caller itself, and a caller that outlives it exits
-- without a server.
pub restart_alone :
    (gone : ℕ → ℕ → Bool) (rounds own : ℕ) (pid_file : PidFile) (daemonize : Bool)
    (command2 : Option String)
    → ((i : ℕ) → gone 0 i ≡ false)
    → read_pid pid_file ≡ 0
    → is_unread pid_file ≡ false
    → let r = parse_command gone rounds own pid_file daemonize (some "restart") command2 in
      (r.sent ≡ (sigint, 0) ∷ []) × (r.outcome ≡ exits)
unfolding parse_command wait_gone
restart_alone gone rounds own pid_file daemonize command2 group pid readable =
    let d : wait_gone gone 5 1 0 ≡ false =
      rw (wait_gone, group 1, group 2, group 3, group 4, group 5) refl in
    rw (pid, readable, d) (refl, refl)
