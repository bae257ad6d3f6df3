-- ===== src/Lifecycle/Pid.antt =====
-- What `check_pid_file` of src/daemon/mod.rs makes of the PID file of a live process.
use skipjack_mcp.Base.{
  ℕ, ◌^◌, ◌<◌, ◌≡◌, refl, ap, ◌∙◌, Bool, true, false, none, some, [], ◌∷◌, ◌++◌, All, arith,
}
use skipjack_mcp.Base.Text.{Text, bytes}
use skipjack_mcp.Number.{IsDigit, to_decimal, to_decimal-IsDigit, parse-to_decimal}
use skipjack_mcp.Server.Trim.{trim, trim_start, trim_end, is_white}
use skipjack_mcp.Lifecycle.Files.{
  regular, Files, System, Killed, delivered, no_such_process, refused, fail, is_process_alive,
  check_contents, check_pid_file,
}

is_white-digit : (d : ℕ) (s : Text) → IsDigit d → is_white (d ∷ s) ≡ false
unfolding is_white
is_white-digit d [] h = ground arith
is_white-digit d (b ∷ []) h = ground arith
is_white-digit d (b ∷ c ∷ s) h = ground arith

trim_start-digit : (d : ℕ) (s : Text) → IsDigit d → trim_start (d ∷ s) ≡ d ∷ s
unfolding trim_start
trim_start-digit d [] h = ground arith
trim_start-digit d (b ∷ []) h = ground arith
trim_start-digit d (b ∷ c ∷ s) h = ground arith

trim_end-digits : (s : Text) → All IsDigit s → trim_end (s ++ bytes "\n") ≡ s
unfolding trim_end is_white
trim_end-digits [] h = refl
trim_end-digits (d ∷ s) h =
    rw (trim_end, is_white-digit d (s ++ bytes "\n") h.0) (ap (◌∷◌ d) (trim_end-digits s h.1))

trim-digits : (s : Text) → All IsDigit s → trim (s ++ bytes "\n") ≡ s
unfolding trim trim_start trim_end is_white
trim-digits [] h = refl
trim-digits (d ∷ s) h =
    ap trim_end (trim_start-digit d (s ++ bytes "\n") h.0) ∙ trim_end-digits (d ∷ s) h

-- A process that is not known to be gone.
abbrev pub MayLive : System → ℕ → Type 0
MayLive system pid = ¬ (system.kill pid ≡ no_such_process)

killed_alive :
    (k : Killed)
    → ¬ (k ≡ no_such_process)
    → ◌≡◌ {A = Bool} (elim k [ delivered ↦ true | no_such_process ↦ false | refused ↦ true ]) true
killed_alive delivered h = refl
killed_alive no_such_process h = absurd (h refl)
killed_alive refused h = refl

MayLive-alive :
    (system : System) (pid : ℕ) → MayLive system pid → is_process_alive system pid ≡ true
unfolding is_process_alive
MayLive-alive system pid h = killed_alive (system.kill pid) h

-- The PID file of a live process stops a start.
pub check-live :
    (system : System) (pid : ℕ) (path : Text) (files : Files)
    → pid < 2 ^ 32
    → MayLive system pid
    → system.read_error path ≡ none
    → files path ≡ some (regular (to_decimal pid ++ bytes "\n"))
    → check_pid_file system path files
      ≡ fail (bytes "daemon already running (pid " ++ to_decimal pid ++ bytes ")") none files
unfolding check_pid_file check_contents
check-live system pid path files small live readable there =
    let read : trim (to_decimal pid ++ bytes "\n") ≡ to_decimal pid =
      trim-digits (to_decimal pid) (to_decimal-IsDigit pid) in
    let parsed = parse-to_decimal (2 ^ 32) pid small in
    rw
      (
        there,
        check_pid_file,
        readable,
        there,
        check_contents,
        read,
        parsed,
        MayLive-alive system pid live,
      )
      refl
