-- ===== src/Command.antt =====
-- The command line, `parseCommand` of src/worker.c.
--
-- The kernel's answers are a parameter: `gone pid i` says that the probe `i` of the process, a
-- `kill(pid, 0)`, gives -1; the probe 0 is that of `master_is_alive`, the others those of the loop.
mod Chosen
mod Tests
use Prim.Native.String.{String}
use text.Mathlib.Text.{◌==◌ as str_eq}
use warrior_man.Prelude.{
  ℕ, zero, suc, ◌+◌, Bool, true, false, not, ◌&&◌, ◌||◌, Option, none, some, List, [], ◌∷◌, ◌++◌,
  replicate, ◌==◌, if◌then◌else◌,
}

pub data Signal : Type 0 where
  sigint : Signal
  sigusr1 : Signal
  sigusr2 : Signal

-- How the function ends; `interrupted` is an endless display that the user ends, and `crashes` is a read
-- through NULL.
pub data Outcome : Type 0 where
  carries_on : Outcome
  exits : Outcome
  interrupted : Outcome
  crashes : Outcome

pub record Run : Type 0 where
  pub sent : List (Signal × ℕ)
  pub daemonize : Bool
  pub master_pid : ℕ
  pub outcome : Outcome

-- What `atoi` reads in the PID file, if there is one; `unread` is a file for which `wm_file_get_contents` gives
-- NULL, such as an empty one.
pub data PidFile : Type 0 where
  no_file : PidFile
  unread : PidFile
  positive : ℕ → PidFile
  negative : ℕ → PidFile

abbrev pub named : String → ℕ → ℕ → String → ℕ
named name n t command = if str_eq name command then n else t

-- `command_type`
unfoldable pub command_type : Option String → ℕ
command_type none = 0
command_type (some c) =
    named "connections" 6
      (named "status" 5
        (named "reload" 4 (named "restart" 3 (named "stop" 2 (named "start" 1 0 c) c) c) c) c)
      c

abbrev pub set_daemonize : Option String → Bool → Bool
set_daemonize none daemonize = daemonize
set_daemonize (some c) daemonize = if str_eq "-d" c then true else daemonize

-- `_masterPid`
abbrev pub read_pid : PidFile → ℕ
read_pid no_file = 0
read_pid unread = 0
read_pid (positive n) = n
read_pid (negative n) = 0

abbrev pub is_unread : PidFile → Bool
is_unread unread = true
is_unread no_file = false
is_unread (positive n) = false
is_unread (negative n) = false

-- The cases 2 and 3, stop and restart; `died` is what the probes of the loop find.
abbrev pub stops : Bool → ℕ → Run → Run
stops died t r =
    let told = record r { sent = r.sent ++ (sigint, r.master_pid) ∷ []; outcome = exits } in
    if died then (if t == 2 then told else record told { outcome = carries_on }) else told

-- The case 5, where the status file can be read each time and the user ends an endless display after `rounds`
-- rounds.
abbrev pub displays : ℕ → Run → Run
displays rounds r =
    if r.daemonize
    then record r {
      sent = r.sent ++ replicate rounds (sigusr2, r.master_pid);
      outcome = interrupted;
    }
    else record r { sent = r.sent ++ (sigusr2, r.master_pid) ∷ []; outcome = exits }

-- The `switch`.
abbrev pub executes : Bool → ℕ → ℕ → Run → Run
executes died rounds t r =
    if t == 1
    then record r { outcome = carries_on }
    else if t == 2 || t == 3
    then stops died t r
    else if t == 4
    then record r { sent = r.sent ++ (sigusr1, r.master_pid) ∷ []; outcome = exits }
    else if t == 5
    then displays rounds r
    else record r { outcome = exits }

-- The tests on a master that runs or does not, and then the command.
abbrev pub with_master : Bool → Bool → ℕ → ℕ → Run → Run
with_master alive died rounds t r =
    if alive && t == 1
    then record r { outcome = exits }
    else if not alive && not (t == 1) && not (t == 3)
    then record r { outcome = exits }
    else executes died rounds t r

module _ (gone : ℕ → ℕ → Bool) where
  -- `master_is_alive`
  abbrev pub master_is_alive : ℕ → ℕ → Bool
  master_is_alive own pid = not (pid == 0) && not (gone pid 0) && not (own == pid)

  -- The loop over `i`, with the rounds left: the process is found dead.
  unfoldable pub wait_gone : ℕ → ℕ → ℕ → Bool
  wait_gone zero i pid = false
  wait_gone (suc k) i pid = elim (gone pid i) [ true ↦ true | false ↦ wait_gone k (i + 1) pid ]

  -- `parseCommand`
  unfoldable pub parse_command : ℕ → ℕ → PidFile → Bool → Option String → Option String → Run
  unfolding command_type
  parse_command rounds own pid_file daemonize command command2 =
      let silent : Run = record {
        sent = [];
        daemonize = daemonize;
        master_pid = 0;
        outcome = exits;
      } in
      let pid = read_pid pid_file in
      let r = record silent { daemonize = set_daemonize command2 daemonize; master_pid = pid } in
      let t = command_type command in
      if t == 0
      then silent
      else if is_unread pid_file
      then record silent { daemonize = set_daemonize command2 daemonize; outcome = crashes }
      else with_master (master_is_alive own pid) (wait_gone 5 1 pid) rounds t r
