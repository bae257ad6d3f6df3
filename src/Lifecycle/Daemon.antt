-- ===== src/Lifecycle/Daemon.antt =====
-- src/daemon/mod.rs: `Daemon::start` and what dropping a `Daemon` does.
use skipjack_mcp.Base.{some, ◌++◌}
use skipjack_mcp.Base.Text.{Text, bytes}
use skipjack_mcp.Search.{Result, ok, err}
use skipjack_mcp.Config.Defs.{DaemonConfig}
use skipjack_mcp.Config.Load.{path_join}
use skipjack_mcp.Lifecycle.Files.{
  Files, Failure, System, Step, and_then, check_pid_file, create_socket, write_pid_file, cleanup,
}

pub record Daemon (M : Type 0) : Type 0 where
  pub socket_path : Text
  pub pid_path : Text
  pub manager : M

abbrev pub socket_path_of : DaemonConfig → Text
socket_path_of config = path_join config.socket_dir (config.name ++ bytes ".sock")

abbrev pub pid_path_of : DaemonConfig → Text
pid_path_of config = path_join config.pid_dir (config.name ++ bytes ".pid")

module _ (system : System) where
  -- The check, the socket and the PID file.
  unfoldable pub claim : DaemonConfig → Files → Step
  unfolding check_pid_file create_socket write_pid_file
  claim config files = and_then (check_pid_file system (pid_path_of config) files) (λ checked.
      and_then (create_socket system (socket_path_of config) checked)
        (λ bound. write_pid_file system (pid_path_of config) bound))

  -- `Manager::new`, which opens the cache: what it returns, and the files that it leaves.
  abbrev pub Maker : Type 0 → Type 0
  Maker M = Files → Result Text M × Files

  abbrev pub with_made :
      {M : Type 0} → DaemonConfig → Result Text M × Files → Result Failure (Daemon M) × Files
  with_made config (err e, files) =
      (err (record { message = bytes "Failed to create provider manager"; cause = some e }), files)
  with_made config (ok manager, files) = (
    ok (record {
      socket_path = socket_path_of config;
      pid_path = pid_path_of config;
      manager = manager;
    }),
    files,
  )

  -- What follows the claim; if `Manager::new` fails, no `Daemon` is dropped, and the files stay.
  abbrev pub with_manager :
      {M : Type 0} → DaemonConfig → Maker M → Step → Result Failure (Daemon M) × Files
  with_manager config make (err e, files) = (err e, files)
  with_manager config make (ok _, files) = with_made config (make files)

  unfoldable pub start :
      {M : Type 0} → DaemonConfig → Maker M → Files → Result Failure (Daemon M) × Files
  unfolding claim
  start config make files = with_manager config make (claim config files)

  -- `Drop` of a `Daemon`.
  unfoldable pub drop : {M : Type 0} → Daemon M → Files → Files
  unfolding cleanup
  drop daemon files = cleanup system daemon.pid_path daemon.socket_path files
