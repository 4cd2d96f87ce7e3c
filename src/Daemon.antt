-- ===== src/Daemon.antt =====
-- internal/sshushd: control.go and helpers.go, the start and stop of the daemons. Processes, files and
-- the network are parameters.
use sshush.Prelude.{
  ℕ, zero, suc, Bool, true, false, not, ◌&&◌, ◌+◌, ◌==◌, Option, none, some, List, [], ◌∷◌, ◌++◌,
  Bytes, codes, is_empty, if◌then◌else◌, leb, ltb,
}
use sshush.Prelude.Text.{trim_space}
use sshush.Prelude.FilePath.{join_path, dir}
use sshush.Paths.{Host, Stat, no_entry, is_directory, is_other}
use sshush.Version.{digits_value, max_int, atoi}
use sshush.ReadyPipe
use sshush.ReadyPipe.{
  Pipe, WaitResult, is_ready, start_failed, not_ready_in_time, already_closed, read_failed,
}

pub record Pid : Type 0 where
  pub negative : Bool
  pub magnitude : ℕ

abbrev in_int : Bool → Option ℕ → Option Pid
in_int minus none = none
in_int minus (some n) =
    if leb n (if minus then max_int + 1 else max_int)
    then some (record { negative = minus && not (n == 0); magnitude = n })
    else none

abbrev unsigned : Bool → Bytes → Option Pid
unsigned minus [] = none
unsigned minus (c ∷ s) = in_int minus (digits_value 0 (c ∷ s))

-- strconv.Atoi; `none` is its error.
unfoldable pub parse_pid : Bytes → Option Pid
unfolding digits_value
parse_pid [] = none
parse_pid (c ∷ s) =
    if c == 45
    then unsigned true s
    else if c == 43
    then unsigned false s
    else unsigned false (c ∷ s)

pub data PidFile : Type 0 where
  missing unreadable : PidFile
  holding : Bytes → PidFile

-- What the calls of packages os and net do and report; `signal` is SIGTERM, `probe` the signal 0.
pub record System (S : Type 0) : Type 0 where
  pub read_pid_file : Bytes → S → PidFile
  pub finds : Pid → Bool
  pub signal : Pid → S → S × Bool
  pub probe : Pid → S → S × Bool
  pub sleep : ℕ → S → S
  pub remove : Bytes → S → S
  pub dials : ℕ → S → S × Bool
  -- checkAlreadyRunning on a socket
  pub answers : Bytes → S → S × Bool
  -- a new pipe, and a child with its arguments and what is added to the environment: what it does to
  -- the pipe until it is over or the time is, and whether the pipe was read to its end
  pub has_pipe : Bool
  pub starts : Bytes → List Bytes → List Bytes → S → S × Option ((Pipe → Pipe) × Bool)

pub data StopError : Type 0 where
  no_pid_file pid_file_unreadable invalid_pid no_process not_signalled : StopError

pub data StartError : Type 0 where
  already_running no_binary no_pipe not_started : StartError
  not_ready : WaitResult → StartError

abbrev found : Stat → Bool
found no_entry = false
found is_directory = true
found is_other = true

abbrev beside : Bytes → Bytes
beside exe = join_path (dir exe) (codes "sshushd")

-- `executable` is what os.Executable gives, `looked_up` what exec.LookPath finds.
unfoldable pub find_binary : Host → Option Bytes → Option Bytes → Option Bytes
unfolding join_path dir
find_binary h none looked_up = looked_up
find_binary h (some exe) looked_up =
    if found (h.stat (beside exe)) then some (beside exe) else looked_up

module _ {S : Type 0} (y : System S) where
  -- The loop that waits for the process, with the number of probes that are left.
  unfoldable pub wait_exit : ℕ → Pid → S → S
  wait_exit zero p s = s
  wait_exit (suc n) p s =
      let (t, alive) = y.probe p s in
      let rest = wait_exit n p (y.sleep 20 t) in if alive then rest else t

  abbrev signalled : Bytes → Pid → S × Bool → S × Option StopError
  signalled path p (s, true) = (y.remove path (wait_exit 50 p s), none)
  signalled path p (s, false) = (s, some not_signalled)

  abbrev stop_process : Bytes → Option Pid → S → S × Option StopError
  stop_process path none s = (s, some invalid_pid)
  stop_process path (some p) s =
      let stopped = signalled path p (y.signal p s) in
      if y.finds p then stopped else (s, some no_process)

  abbrev stop_from : Bytes → PidFile → S → S × Option StopError
  stop_from path missing s = (s, some no_pid_file)
  stop_from path unreadable s = (s, some pid_file_unreadable)
  stop_from path (holding content) s = stop_process path (parse_pid (trim_space content)) s

  unfoldable pub stop_daemon : Bytes → S → S × Option StopError
  unfolding wait_exit parse_pid trim_space
  stop_daemon path s = stop_from path (y.read_pid_file path s) s

  abbrev readiness : WaitResult → Option StartError
  readiness is_ready = none
  readiness (start_failed text) = some (not_ready (start_failed text))
  readiness not_ready_in_time = some (not_ready not_ready_in_time)
  readiness already_closed = some (not_ready already_closed)
  readiness read_failed = some (not_ready read_failed)

  -- The child starts on the attached pipe; it acts after the parent has closed its own write end.
  abbrev handshake : S × Option ((Pipe → Pipe) × Bool) → S × Option StartError
  handshake (s, none) = (s, some not_started)
  handshake (s, some (child, reads)) =
      let pipe = ReadyPipe.close_write (ReadyPipe.attach ReadyPipe.new) in
      (s, readiness (ReadyPipe.wait reads (child pipe)))

  abbrev config_env : Bytes → List Bytes
  config_env path = if is_empty path then [] else (codes "SSHUSH_CONFIG=" ++ path) ∷ []

  abbrev start_binary : List Bytes → Bytes → Option Bytes → S → S × Option StartError
  start_binary args config none s = (s, some no_binary)
  start_binary args config (some path) s =
      let started = handshake (y.starts path args (config_env config) s) in
      if y.has_pipe then started else (s, some no_pipe)

  abbrev unless_running : (S → S × Option StartError) → S × Bool → S × Option StartError
  unless_running start (s, true) = (s, some already_running)
  unless_running start (s, false) = start s

  unfoldable pub start_daemon : Option Bytes → Bytes → Bytes → S → S × Option StartError
  unfolding ReadyPipe.wait ReadyPipe.attach ReadyPipe.close_write ReadyPipe.new
  start_daemon binary config socket s =
      unless_running (start_binary [] config binary) (y.answers socket s)

  -- Whether a process answers under the PID of the file, which counts where it is positive. The error
  -- of strconv.Atoi is dropped here, so that a number out of range is the largest int.
  abbrev probe_positive : Pid → S → S × Bool
  probe_positive p s =
      let probed = y.probe p s in if ltb 0 p.magnitude && y.finds p then probed else (s, false)

  abbrev probe_text : Bytes → S → S × Bool
  probe_text [] s = (s, false)
  probe_text (c ∷ text) s =
      let probed = probe_positive (record { negative = false; magnitude = atoi (c ∷ text) }) s in
      if c == 45 then (s, false) else probed

  abbrev probe_file : PidFile → S → S × Bool
  probe_file missing s = (s, false)
  probe_file unreadable s = (s, false)
  probe_file (holding content) s = probe_text (trim_space content) s

  unfoldable pub start_server_daemon : Option Bytes → Bytes → Bytes → ℕ → S → S × Option StartError
  unfolding atoi trim_space ReadyPipe.wait ReadyPipe.attach ReadyPipe.close_write ReadyPipe.new
  start_server_daemon binary config pid_file port s =
      unless_running
        (λ t. unless_running (start_binary (codes "--server" ∷ []) config binary) (y.dials port t))
        (probe_file (y.read_pid_file pid_file s) s)

  unfoldable pub reload_daemon : Option Bytes → Bytes → Bytes → Bytes → S → S × Option StartError
  unfolding stop_daemon start_daemon
  reload_daemon binary config socket pid_file s =
      start_daemon binary config socket (y.sleep 100 (stop_daemon pid_file s).0)
