-- ===== src/Lifecycle/Files.antt =====
-- src/daemon/mod.rs: the operations on the PID file and the socket file. The operating system is a
-- parameter: which of its calls fail, and with what error.
use skipjack_mcp.Base.{ℕ, ◌^◌, Bool, true, false, Option, none, some, ◌++◌, if◌then◌else◌, is_some}
use skipjack_mcp.Base.Text.{Text, bytes, text_eq}
use skipjack_mcp.Number.{parse_unsigned, to_decimal}
use skipjack_mcp.Search.{Result, ok, err}
use skipjack_mcp.Server.Trim.{trim}

pub data File : Type 0 where
  regular : Text → File
  socket : (mode : ℕ) → File

-- What lies at a path; directories are left out.
abbrev pub Files : Type 0
Files = Text → Option File

abbrev pub put : Text → Option File → Files → Files
put path file files = λ other. if text_eq path other then file else files other

-- The error of a call with its context.
pub record Failure : Type 0 where
  pub message : Text
  pub cause : Option Text

pub data Killed : Type 0 where
  delivered : Killed
  no_such_process : Killed
  refused : Killed

-- A call succeeds where its error is `none`.
pub record System : Type 0 where
  pub process_id : ℕ
  -- `kill(pid as i32, 0)`
  pub kill : ℕ → Killed
  pub read_error : Text → Option Text
  pub parse_error : Text → Text
  pub remove_error : Text → Option Text
  -- `create_dir_all` of the directory of a path.
  pub create_dir_error : Text → Option Text
  -- A write that fails may leave a part of the file.
  pub write_error : Text → Option (Text × Option File)
  pub address_error : Text → Option Text
  pub socket_error : Option Text
  pub bind_error : Text → Option Text
  pub bind_mode : ℕ
  pub listen_error : Option Text
  pub nonblocking_error : Option Text
  pub permissions_error : Text → Option Text
  pub from_std_error : Option Text

-- What an operation returns and leaves.
abbrev pub Step : Type 0
Step = Result Failure (Unit {0}) × Files

abbrev pub done : Files → Step
done files = (ok tt, files)

abbrev pub fail : Text → Option Text → Files → Step
fail message cause files = (err (record { message = message; cause = cause }), files)

-- `?` after a call that changes nothing.
abbrev pub try_call : Option Text → Text → Files → Step → Step
try_call none message files rest = rest
try_call (some e) message files rest = fail message (some e) files

-- `?` after an operation.
abbrev pub and_then : Step → (Files → Step) → Step
and_then (ok _, files) next = next files
and_then (err e, files) next = (err e, files)

module _ (system : System) where
  open system use {
    process_id, kill, read_error, parse_error, remove_error, create_dir_error, write_error,
    address_error, socket_error, bind_error, bind_mode, listen_error, nonblocking_error,
    permissions_error, from_std_error,
  }

  abbrev pub remove_file : Text → Files → Result Text (Unit {0}) × Files
  remove_file path files = elim (remove_error path) [
    | none ↦ (ok tt, put path none files)
    | some e ↦ (err e, files)
  ]

  abbrev pub read_to_string : Text → Files → Result Text Text
  read_to_string path files = elim (read_error path) [
    | some e ↦ err e
    | none ↦ elim (files path) [
      | some (regular contents) ↦ ok contents
      | some (socket mode) ↦ err (bytes "No such device or address (os error 6)")
      | none ↦ err (bytes "No such file or directory (os error 2)")
    ]
  ]

  unfoldable pub is_process_alive : ℕ → Bool
  is_process_alive pid = elim (kill pid) [
    | delivered ↦ true
    | no_such_process ↦ false
    | refused ↦ true
  ]

  unfoldable pub check_contents : Text → Text → Files → Step
  unfolding trim is_process_alive
  check_contents pid_path contents files = elim (parse_unsigned (2 ^ 32) (trim contents)) [
    | none ↦
        fail (bytes "Invalid PID in pid file: " ++ trim contents)
          (some (parse_error (trim contents))) files
    | some pid ↦
        if is_process_alive pid
        then fail (bytes "daemon already running (pid " ++ to_decimal pid ++ bytes ")") none files
        else done (remove_file pid_path files).1
  ]

  unfoldable pub check_pid_file : Text → Files → Step
  unfolding check_contents
  check_pid_file pid_path files =
      if is_some (files pid_path)
      then elim (read_to_string pid_path files) [
        | err e ↦ fail (bytes "Failed to read PID file: " ++ pid_path) (some e) files
        | ok contents ↦ check_contents pid_path contents files
      ]
      else done files

  abbrev pub pid_line : Text
  pid_line = to_decimal process_id ++ bytes "\n"

  unfoldable pub write_pid_file : Text → Files → Step
  unfolding to_decimal
  write_pid_file pid_path files =
      try_call (create_dir_error pid_path) (bytes "Failed to create PID directory: " ++ pid_path)
        files
        (elim (write_error pid_path) [
          | some (e, left) ↦
              fail (bytes "Failed to write PID file: " ++ pid_path) (some e)
                (put pid_path left files)
          | none ↦ done (put pid_path (some (regular pid_line)) files)
        ])

  -- The steps behind `bind`, when the socket file is there.
  unfoldable pub listen : Text → Files → Step
  listen path files = try_call listen_error (bytes "Failed to listen on socket") files (
      try_call nonblocking_error (bytes "Failed to set socket to non-blocking") files (
        try_call (permissions_error path) (bytes "Failed to set socket permissions: " ++ path) files
          (try_call from_std_error (bytes "Failed to convert socket to async listener")
            (put path (some (socket 0o600)) files) (done (put path (some (socket 0o600)) files)))))

  -- `bind` makes the file, unless there is one.
  unfoldable pub bind : Text → Files → Step
  unfolding listen
  bind path files =
      if is_some (files path)
      then fail (bytes "Failed to bind socket: " ++ path)
          (some (bytes "Address already in use (os error 98)")) files
      else try_call (bind_error path) (bytes "Failed to bind socket: " ++ path) files
          (listen path (put path (some (socket bind_mode)) files))

  unfoldable pub open_socket : Text → Files → Step
  unfolding bind
  open_socket path files =
      try_call (create_dir_error path) (bytes "Failed to create socket directory: " ++ path) files (
        try_call (address_error path) (bytes "Invalid socket path: " ++ path) files
          (try_call socket_error (bytes "Failed to create Unix socket") files (bind path files)))

  unfoldable pub create_socket : Text → Files → Step
  unfolding open_socket
  create_socket path files =
      if is_some (files path)
      then try_call (remove_error path) (bytes "Failed to remove existing socket: " ++ path) files
          (open_socket path (put path none files))
      else open_socket path files

  unfoldable pub cleanup : Text → Text → Files → Files
  cleanup pid_path socket_path files =
      let without_pid =
        if is_some (files pid_path) then (remove_file pid_path files).1 else files in
      if is_some (without_pid socket_path)
      then (remove_file socket_path without_pid).1
      else without_pid
