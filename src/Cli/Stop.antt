-- ===== src/Cli/Stop.antt =====
-- src/cli.rs: `cmd_stop` and `verify_pid`. The file system, `kill` and the platform are parameters.
use skipjack_mcp.Base.{
  ℕ, ◌+◌, ◌^◌, ◌≡◌, refl, ap, ◌∙◌, inl, inr, Bool, true, false, Option, none, some, List, [], ◌∷◌,
  ◌++◌, ◌==◌, if◌then◌else◌, Bool-cases, Option-cases,
}
use skipjack_mcp.Base.Text.{Text, bytes, text_eq, text_eq_iff, has_substring}
use skipjack_mcp.Number.{parse_unsigned, digits, to_decimal}
use skipjack_mcp.Search.{Result, ok, err, Result-cases}
use skipjack_mcp.Server.Trim.{trim}
use skipjack_mcp.Cli.Client.{Failure, bail}

-- An `i32`: its sign and its magnitude.
pub record Pid : Type 0 where
  pub is_negative : Bool
  pub magnitude : ℕ

-- `parse::<i32>()`: a sign or none in front of digits.
abbrev negated : Text → Option Pid
negated [] = none
negated (c ∷ s) = elim (digits (2 ^ 31 + 1) 0 (c ∷ s)) [
  | none ↦ none
  | some n ↦ some (record { is_negative = true; magnitude = n })
]

abbrev positive : Text → Option Pid
positive s = elim (parse_unsigned (2 ^ 31) s) [
  | none ↦ none
  | some n ↦ some (record { is_negative = false; magnitude = n })
]

abbrev pub parse_pid : Text → Option Pid
parse_pid [] = none
parse_pid (c ∷ s) = if c == b'-' then negated s else positive (c ∷ s)

abbrev pub show_pid : Pid → Text
show_pid pid =
    if pid.is_negative then bytes "-" ++ to_decimal pid.magnitude else to_decimal pid.magnitude

-- The platforms that `verify_pid` tells apart when it is compiled.
pub data Platform : Type 0 where
  linux macos another : Platform

-- `polls` says whether the socket is there at each look within the 10 seconds.
pub record System : Type 0 where
  pub read_to_string : Text → Result Text Text
  pub platform : Platform
  -- `libc::proc_pidpath`, read by `from_utf8_lossy`; `none` if it returns no path
  pub proc_pidpath : Pid → Option Text
  pub parse_error : Text → Text
  -- `kill(pid, SIGTERM)`
  pub kill_error : Pid → Option Text
  pub polls : List Bool

abbrev pub comm_path : Pid → Text
comm_path pid = bytes "/proc/" ++ show_pid pid ++ bytes "/comm"

some_inj : {a b : Pid} → some a ≡ some b → a ≡ b
some_inj h = cc

module _ (system : System) where
  open system use {read_to_string, platform, proc_pidpath, parse_error, kill_error, polls}

  unfoldable pub verify_pid : Pid → Text → Bool
  unfolding trim to_decimal
  verify_pid pid daemon_name = elim platform [
    | linux ↦ elim (read_to_string (comm_path pid)) [
      | ok comm ↦ text_eq (trim comm) daemon_name
      | err e ↦ false
    ]
    | macos ↦ elim (proc_pidpath pid) [ some path ↦ has_substring path daemon_name | none ↦ false ]
    | another ↦ true
  ]

  -- The result, and the process that SIGTERM was sent to.
  abbrev pub Outcome : Type 0
  Outcome = Result Failure (Unit {0}) × Option Pid

  -- The loop that waits for the socket to go.
  unfoldable pub wait : Text → List Bool → Result Failure (Unit {0})
  wait daemon_name [] =
      bail (bytes "daemon '" ++ daemon_name ++ bytes "' did not stop within 10 seconds")
  wait daemon_name (there ∷ rest) = elim there [ true ↦ wait daemon_name rest | false ↦ ok tt ]

  unfoldable pub terminate : Pid → Text → Outcome
  unfolding wait to_decimal
  terminate pid daemon_name = elim (kill_error pid) [
    | some e ↦
        (bail (bytes "failed to send SIGTERM to pid " ++ show_pid pid ++ bytes ": " ++ e), none)
    | none ↦ (wait daemon_name polls, some pid)
  ]

  unfoldable pub stop_process : Pid → Text → Outcome
  unfolding verify_pid terminate to_decimal
  stop_process pid daemon_name = if verify_pid pid daemon_name then terminate pid daemon_name else (
    bail (
        bytes "PID "
        ++ show_pid pid
        ++ bytes " does not belong to daemon '"
        ++ daemon_name
        ++ bytes "'. The PID file may be stale "
        ++ (0xe2 ∷ 0x80 ∷ 0x94 ∷ [])
        ++ bytes " the daemon may have crashed or been terminated by an external agent. "
        ++ bytes "Remove the PID file manually if the daemon is no longer running."),
    none,
  )

  unfoldable pub stop_from : Text → Text → Outcome
  unfolding trim stop_process
  stop_from pid_str daemon_name = elim (parse_pid (trim pid_str)) [
    | none ↦ (
      err (record {
        message =
            bytes "invalid PID in PID file for daemon '"
            ++ daemon_name
            ++ bytes "': "
            ++ trim pid_str;
        cause = some (parse_error (trim pid_str));
      }),
      none,
    )
    | some pid ↦ stop_process pid daemon_name
  ]

  unfoldable pub cmd_stop : Text → Text → Outcome
  unfolding stop_from
  cmd_stop pid_path daemon_name = elim (read_to_string pid_path) [
    | err e ↦ (
      err (record {
        message =
            bytes "cannot read PID file for daemon '"
            ++ daemon_name
            ++ bytes "': daemon may not be running";
        cause = some e;
      }),
      none,
    )
    | ok pid_str ↦ stop_from pid_str daemon_name
  ]

  -- What was read of the process: on Linux its name, which is that of the daemon, on macOS the path
  -- of its program, which holds that name, and elsewhere nothing.
  abbrev pub IsNamed : Platform → Pid → Text → Type 0
  IsNamed linux pid daemon_name =
      (comm : Text) × (read_to_string (comm_path pid) ≡ ok comm) × (trim comm ≡ daemon_name)
  IsNamed macos pid daemon_name =
      (path : Text) × (proc_pidpath pid ≡ some path) × (has_substring path daemon_name ≡ true)
  IsNamed another pid daemon_name = Unit

  -- SIGTERM was sent to the process of a PID file, of which this was read.
  abbrev pub IsVerified : Text → Text → Pid → Type 0
  IsVerified pid_path daemon_name pid =
      (contents : Text) × (read_to_string pid_path ≡ ok contents)
      × (parse_pid (trim contents) ≡ some pid)
      × IsNamed platform pid daemon_name

  verify_pid-IsNamed :
      (pid : Pid) (daemon_name : Text) (p : Platform)
      → platform ≡ p
      → verify_pid pid daemon_name ≡ true
      → IsNamed p pid daemon_name
  unfolding verify_pid
  verify_pid-IsNamed pid daemon_name linux e h =
      elim (Result-cases (read_to_string (comm_path pid))) [
        | inl (comm, read) ↦
            (comm, read, (text_eq_iff (trim comm) daemon_name).0 (rw (e, read, verify_pid) at h))
        | inr (x, failed) ↦ absurd (let wrong = rw (e, failed, verify_pid) at h in cc)
      ]
  verify_pid-IsNamed pid daemon_name macos e h = elim (Option-cases (proc_pidpath pid)) [
    | inl nothing ↦ absurd (let wrong = rw (e, nothing, verify_pid) at h in cc)
    | inr (path, found) ↦ (path, found, rw (e, found, verify_pid) at h)
  ]
  verify_pid-IsNamed pid daemon_name another e h = tt

  terminate-same :
      (pid target : Pid) (daemon_name : Text)
      → (terminate pid daemon_name).1 ≡ some target
      → pid ≡ target
  unfolding terminate
  terminate-same pid target daemon_name h = elim (Option-cases (kill_error pid)) [
    | inl e ↦ let sent = rw (e, terminate) at h in some_inj sent
    | inr (x, e) ↦ absurd (let wrong = rw (e, terminate) at h in cc)
  ]

  stop_process-same :
      (pid target : Pid) (daemon_name : Text)
      → (stop_process pid daemon_name).1 ≡ some target
      → (pid ≡ target) × (verify_pid pid daemon_name ≡ true)
  unfolding stop_process
  stop_process-same pid target daemon_name h = elim (Bool-cases (verify_pid pid daemon_name)) [
    | inl e ↦ (terminate-same pid target daemon_name (rw (e, stop_process) at h), e)
    | inr e ↦ absurd (let wrong = rw (e, stop_process) at h in cc)
  ]

  stop_from-same :
      (pid_str daemon_name : Text) (target : Pid)
      → (stop_from pid_str daemon_name).1 ≡ some target
      → (parse_pid (trim pid_str) ≡ some target) × (verify_pid target daemon_name ≡ true)
  unfolding stop_from
  stop_from-same pid_str daemon_name target h = elim (Option-cases (parse_pid (trim pid_str))) [
    | inl e ↦ absurd (let wrong = rw (e, stop_from) at h in cc)
    | inr (pid, e) ↦
        let (same, verified) = stop_process-same pid target daemon_name (rw (e, stop_from) at h) in
        (e ∙ ap some same, rw (← same) verified)
  ]

  -- A process that `cmd_stop` has sent SIGTERM to is the one whose id stands in the PID file;
  -- and on Linux the name in its `comm` file was read and, trimmed, is the name of the daemon;
  -- on macOS the path of its program was read and holds that name. On other platforms nothing
  -- is known of it.
  pub cmd_stop-IsVerified :
      (pid_path daemon_name : Text) (target : Pid)
      → (cmd_stop pid_path daemon_name).1 ≡ some target
      → IsVerified pid_path daemon_name target
  unfolding cmd_stop
  cmd_stop-IsVerified pid_path daemon_name target h =
      elim (Result-cases (read_to_string pid_path)) [
        | inr (x, e) ↦ absurd (let wrong = rw (e, cmd_stop) at h in cc)
        | inl (contents, e) ↦
            let (parsed, verified) =
              stop_from-same contents daemon_name target (rw (e, cmd_stop) at h) in
            (contents, e, parsed, verify_pid-IsNamed target daemon_name platform refl verified)
      ]
