-- ===== src/Tests/Lifetime.antt =====
-- The start and the end of a daemon at concrete inputs: it finds the files of one that is gone.
use skipjack_mcp.Base.{
  ℕ, ◌≡◌, refl, true, false, none, some, [], ◌∷◌, ◌++◌, arith, if◌then◌else◌, ◌==◌,
}
use skipjack_mcp.Base.Text.{Text, bytes, text_eq}
use skipjack_mcp.Number.{to_decimal}
use skipjack_mcp.Search.{Result, ok, err}
use skipjack_mcp.Server.Trim.{trim, trim_start, trim_end, is_white}
use skipjack_mcp.Config.Defaults.{daemon_default}
use skipjack_mcp.Lifecycle.Files.{
  regular, socket, Files, put, System, delivered, no_such_process, pid_line, is_process_alive,
  check_contents, check_pid_file, write_pid_file, listen, bind, open_socket, create_socket,
}
use skipjack_mcp.Lifecycle.Daemon.{Daemon, socket_path_of, pid_path_of, claim, start, drop}
use skipjack_mcp.Lifecycle.Running.{
  Running, heading, Reach, here, next, turn, hang_up, load, accept, terminate, begin, iterate,
  IsSound, begin-IsSound,
}
use skipjack_mcp.Cli.Stop as Stop
use skipjack_mcp.Cli.Stop.{
  Pid, linux, cmd_stop, stop_from, stop_process, verify_pid, IsVerified, cmd_stop-IsVerified,
}
use skipjack_mcp.Lifecycle.Exclusive.{Spares, start-IsExclusive}

abbrev system : ℕ → System
system pid = record {
  process_id = pid;
  kill = λ other. if other == 77 then no_such_process else delivered;
  read_error = λ path. none;
  parse_error = λ text. bytes "invalid digit found in string";
  remove_error = λ path. none;
  create_dir_error = λ path. none;
  write_error = λ path. none;
  address_error = λ path. none;
  socket_error = none;
  bind_error = λ path. none;
  bind_mode = 0o755;
  listen_error = none;
  nonblocking_error = none;
  permissions_error = λ path. none;
  from_std_error = none;
}

abbrev pid_path : Text
pid_path = pid_path_of daemon_default

abbrev socket_path : Text
socket_path = socket_path_of daemon_default

abbrev stale : Files
stale =
    put pid_path (some (regular (bytes "77\n")))
      (put socket_path (some (socket 0o600)) (λ path. none))

abbrev running : Files
running = put pid_path (some (regular (bytes "4242\n"))) (
    put socket_path (some (socket 0o600))
      (put socket_path (some (socket 0o755)) (put socket_path none (put pid_path none stale))))

-- The manager makes the database of its cache.
abbrev make : Files → Result Text Text × Files
make files = (ok (bytes "manager"), put (bytes "/tmp/cache.db") (some (regular [])) files)

make-Spares : (path : Text) → text_eq (bytes "/tmp/cache.db") path ≡ false → Spares make path
make-Spares path apart files = rw apart refl

abbrev with_cache : Files
with_cache = put (bytes "/tmp/cache.db") (some (regular [])) running

abbrev daemon : Daemon Text
daemon = record { socket_path = socket_path; pid_path = pid_path; manager = bytes "manager" }

started : start (system 4242) daemon_default make stale ≡ (ok daemon, with_cache)
unfolding start claim check_pid_file check_contents is_process_alive create_socket open_socket bind
    listen write_pid_file to_decimal trim trim_start trim_end is_white
started = refl

start-IsExclusive_example :
    (with_cache pid_path ≡ some (regular (pid_line (system 4242))))
    × (with_cache socket_path ≡ some (socket 0o600))
    × (start (system 5151) daemon_default make with_cache ≡ (
      err (record {
        message = bytes "daemon already running (pid " ++ to_decimal 4242 ++ bytes ")";
        cause = none;
      }),
      with_cache,
    ))
    × (drop (system 4242) daemon with_cache pid_path ≡ none)
    × (drop (system 4242) daemon with_cache socket_path ≡ none)
    × (drop (system 4242) daemon with_cache (bytes "/tmp/other") ≡ stale (bytes "/tmp/other"))
start-IsExclusive_example =
    start-IsExclusive (system 4242) (system 5151) daemon_default make make stale with_cache daemon
      (bytes "/tmp/other") started (make-Spares pid_path refl) (make-Spares socket_path refl)
      (make-Spares (bytes "/tmp/other") refl) (ground arith) (λ h. cc) refl refl refl refl refl

-- A reload, a connection that still has the old configuration, one with the new, and SIGTERM.
abbrev first : Running ℕ
first = iterate (begin true 1)

abbrev hung_up : Running ℕ
hung_up = record first { reload_requested = true; reloading = true }

abbrev reloaded : Running ℕ
reloaded = record hung_up { config = 2; loaded = 2 ∷ hung_up.loaded; reloading = false }

abbrev served_old : Running ℕ
served_old = record reloaded {
  handled = reloaded.current_config ∷ reloaded.handled;
  phase = heading;
}

abbrev second : Running ℕ
second = iterate served_old

abbrev served_new : Running ℕ
served_new = record second { handled = second.current_config ∷ second.handled; phase = heading }

abbrev stopping : Running ℕ
stopping = record served_new { notified = true; handling = false; asked = true }

served_both : served_new.handled ≡ 2 ∷ 1 ∷ []
unfolding begin iterate
served_both = refl

stopping-Reach : Reach (begin true 1) stopping
unfolding begin iterate
stopping-Reach =
    next
      (next
        (next
          (next
            (next (next (next here (turn (begin true 1) refl)) (hang_up first refl refl))
              (load hung_up 2 refl))
            (accept reloaded refl))
          (turn served_old refl))
        (accept second refl))
      (terminate served_new refl refl)

begin-IsSound_example : IsSound stopping
begin-IsSound_example = begin-IsSound true 1 stopping stopping-Reach

-- The files that `stop` reads, and a socket that is gone at the second look.
abbrev stopped : Stop.System
stopped = record {
  read_to_string = λ path.
      if text_eq path (bytes "/tmp/skipjackd.pid")
      then ok (bytes "42\n")
      else ok (bytes "skipjackd\n");
  platform = linux;
  proc_pidpath = λ pid. none;
  parse_error = λ text. bytes "invalid digit found in string";
  kill_error = λ pid. none;
  polls = true ∷ false ∷ [];
}

abbrev pid : Pid
pid = record { is_negative = false; magnitude = 42 }

stop_sent : (cmd_stop stopped (bytes "/tmp/skipjackd.pid") (bytes "skipjackd")).1 ≡ some pid
unfolding cmd_stop stop_from stop_process Stop.terminate verify_pid trim trim_start trim_end
    is_white to_decimal
stop_sent = refl

cmd_stop-IsVerified_example :
    IsVerified stopped (bytes "/tmp/skipjackd.pid") (bytes "skipjackd") pid
cmd_stop-IsVerified_example =
    cmd_stop-IsVerified stopped (bytes "/tmp/skipjackd.pid") (bytes "skipjackd") pid stop_sent
