-- ===== src/Runtime.antt =====
-- internal/platform/paths.go and shell.go, and internal/runtime/runtime.go: where the program looks for its
-- files. What os.Getenv gives is a function of the variable's name.
use sshush.Prelude.{
  Bool, true, false, not, Option, none, some, [], Bytes, codes, is_empty, if◌then◌else◌,
}
use sshush.Prelude.Text.{trim_space}
use sshush.Prelude.FilePath.{join_path, base}
use sshush.Paths.{Host, Stat, no_entry, is_directory, is_other, expand_home_directory, with_default}
use sshush.Server.ConnLog.{contains_text}

-- The environment, the system, and the shell's and editor's programs that exec.LookPath finds.
pub record Surroundings : Type 0 where
  pub host : Host
  pub getenv : Bytes → Bytes
  pub on_path : Bytes → Bool
  pub is_darwin : Bool

abbrev exists : Stat → Bool
exists no_entry = false
exists is_directory = true
exists is_other = true

abbrev is_regular : Stat → Bool
is_regular no_entry = false
is_regular is_directory = false
is_regular is_other = true

module _ (y : Surroundings) where
  abbrev trimmed_env : Bytes → Bytes
  trimmed_env name = trim_space (y.getenv name)

  abbrev home_config : Bytes → Bytes
  home_config home =
      if is_empty home
      then join_path (codes ".config") (codes "sshush")
      else join_path (join_path home (codes ".config")) (codes "sshush")

  unfoldable pub config_dir : Bytes
  unfolding join_path trim_space
  config_dir =
      let d = trimmed_env (codes "XDG_CONFIG_HOME") in
      if is_empty d
      then home_config (with_default [] y.host.home_dir)
      else join_path d (codes "sshush")

  unfoldable pub default_config_path : Bytes
  unfolding config_dir
  default_config_path = join_path config_dir (codes "config.toml")

  unfoldable pub runtime_data_dir : Bytes
  unfolding config_dir trim_space
  runtime_data_dir =
      let d = trimmed_env (codes "XDG_RUNTIME_DIR") in if is_empty d then config_dir else d

  unfoldable pub default_socket_path : Bytes
  unfolding runtime_data_dir
  default_socket_path = join_path runtime_data_dir (codes "sshush.sock")

  unfoldable pub default_pid_file_path : Bytes
  unfolding runtime_data_dir
  default_pid_file_path = join_path runtime_data_dir (codes "sshush.pid")

  unfoldable pub server_pid_file_path : Bytes
  unfolding config_dir trim_space
  server_pid_file_path =
      let d = trimmed_env (codes "XDG_RUNTIME_DIR") in
      join_path (if is_empty d then config_dir else d) (codes "sshush-server.pid")

  unfoldable pub server_host_key_path : Bytes → Bytes
  unfolding config_dir trim_space
  server_host_key_path configured =
      let p = trim_space configured in
      if is_empty p then join_path config_dir (codes "server_host_ed25519") else p

  unfoldable pub server_log_path : Bytes → Bytes
  unfolding config_dir trim_space
  server_log_path configured =
      let p = trim_space configured in
      let d = trimmed_env (codes "XDG_STATE_HOME") in
      if not (is_empty p)
      then p
      else if is_empty d
      then join_path config_dir (codes "server.log")
      else join_path (join_path d (codes "sshush")) (codes "server.log")

  -- `flag` is the value of --config where it was given.
  unfoldable pub config_path : Option Bytes → Bytes
  unfolding default_config_path expand_home_directory
  config_path (some flag) = expand_home_directory y.host flag
  config_path none =
      if exists (y.host.stat default_config_path)
      then default_config_path
      else if not (is_empty (y.getenv (codes "SSHUSH_CONFIG")))
      then expand_home_directory y.host (y.getenv (codes "SSHUSH_CONFIG"))
      else if exists (y.host.stat (codes "./config.toml"))
      then codes "./config.toml"
      else default_config_path

  -- With whether the file exists; another error of os.Stat counts as that it does.
  unfoldable pub resolve_config_path : Option Bytes → (Bytes → Bool) → Bytes × Bool
  unfolding config_path
  resolve_config_path flag is_not_exist =
      let path = config_path flag in (path, not (is_not_exist path))

  unfoldable pub resolve_daemon_config_path : Bytes
  unfolding default_config_path expand_home_directory
  resolve_daemon_config_path =
      let p = y.getenv (codes "SSHUSH_CONFIG") in
      if is_empty p then default_config_path else expand_home_directory y.host p

  -- `configured` is the socket path of the configuration, if there is one.
  unfoldable pub resolve_socket_path : Option Bytes → Bytes
  unfolding default_socket_path trim_space
  resolve_socket_path configured =
      let p = with_default [] configured in
      let s = trimmed_env (codes "SSH_AUTH_SOCK") in
      if not (is_empty (trim_space p))
      then p
      else if not (is_empty s)
      then s
      else default_socket_path

  unfoldable pub socket_path_for_sshush_gui : Option Bytes → Bytes
  unfolding default_socket_path trim_space
  socket_path_for_sshush_gui configured =
      let p = with_default [] configured in
      if not (is_empty (trim_space p)) then p else default_socket_path

  unfoldable pub resolve_editor : Bytes → Bytes
  unfolding trim_space
  resolve_editor flag =
      if not (is_empty (trim_space flag))
      then trim_space flag
      else if not (is_empty (trimmed_env (codes "EDITOR")))
      then trimmed_env (codes "EDITOR")
      else if y.on_path (codes "vim")
      then codes "vim"
      else if y.on_path (codes "nano")
      then codes "nano"
      else codes "vi"

  abbrev rc_path : Bytes → Bytes
  rc_path home =
      let shell = base (trimmed_env (codes "SHELL")) in
      let bash_rc = join_path home (codes ".bashrc") in
      let zsh_rc = join_path home (codes ".zshrc") in
      if contains_text shell (codes "zsh")
      then zsh_rc
      else if contains_text shell (codes "bash")
      then bash_rc
      else if y.is_darwin
      then zsh_rc
      else if is_regular (y.host.stat bash_rc)
      then bash_rc
      else if is_regular (y.host.stat zsh_rc)
      then zsh_rc
      else bash_rc

  abbrev rc_of : Option Bytes → Option Bytes
  rc_of none = none
  rc_of (some home) = if is_empty home then none else some (rc_path home)

  unfoldable pub shell_rc_path_for_auto_setup : Option Bytes
  unfolding join_path base contains_text trim_space
  shell_rc_path_for_auto_setup = rc_of y.host.home_dir
