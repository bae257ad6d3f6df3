-- ===== src/Lifecycle/Exclusive.antt =====
-- src/daemon/mod.rs. What a daemon that has started keeps others from, and what is left when it is
-- dropped.
use mathlib.Core.List.{append_assoc}
use skipjack_mcp.Base.{
  ℕ, ◌^◌, ◌<◌, ◌≡◌, refl, sym, ap, ◌∙◌, inl, inr, false, none, some, [], ◌∷◌, ◌++◌, is_empty, arith,
  Bool-cases,
}
use skipjack_mcp.Base.Text.{Text, bytes, text_eq, text_eq_iff, starts_with, ends_with}
use skipjack_mcp.Number.{to_decimal}
use skipjack_mcp.Search.{Result, ok, err}
use skipjack_mcp.Config.Defs.{DaemonConfig}
use skipjack_mcp.Config.Load.{path_join}
use skipjack_mcp.Lifecycle.Files.{
  regular, socket, Files, Failure, System, Step, check_pid_file, create_socket, pid_line, put,
  cleanup,
}
use skipjack_mcp.Lifecycle.Daemon.{
  Daemon, socket_path_of, pid_path_of, claim, Maker, with_made, with_manager, start, drop,
}
use skipjack_mcp.Lifecycle.Pid.{MayLive, check-live}
use skipjack_mcp.Lifecycle.Steps.{
  Succeeds, and_then-ok, check-keeps, write-Leaves, socket-Leaves, cleanup-removed, put_same,
  put_other,
}

-- The last byte.
abbrev last : ℕ → Text → ℕ
last c [] = c
last c (d ∷ s) = last d s

last-append : (c d : ℕ) (front s : Text) → last c (front ++ d ∷ s) ≡ last d s
last-append c d [] s = refl
last-append c d (e ∷ front) s = last-append e d front s

path_join-append :
    (base rest extension : Text)
    → (front : Text) × (path_join base (rest ++ extension) ≡ front ++ extension)
path_join-append base rest extension =
    elim (Bool-cases (starts_with (rest ++ extension) (bytes "/"))) [
      | inl absolute ↦ (rest, rw absolute refl)
      | inr relative ↦ elim (Bool-cases (is_empty base)) [
        | inl nowhere ↦ (rest, rw (relative, nowhere) refl)
        | inr somewhere ↦ elim (Bool-cases (ends_with base (bytes "/"))) [
          | inl closed ↦ (
            base ++ rest,
            rw (relative, somewhere, closed) (sym (append_assoc base rest extension)),
          )
          | inr open_ended ↦ (
            base ++ bytes "/" ++ rest,
            rw (relative, somewhere, open_ended)
                (sym (append_assoc (base ++ bytes "/") rest extension)),
          )
        ]
      ]
    ]

paths_apart : (config : DaemonConfig) → text_eq (pid_path_of config) (socket_path_of config) ≡ false
paths_apart config = elim (Bool-cases (text_eq (pid_path_of config) (socket_path_of config))) [
  | inr apart ↦ apart
  | inl same ↦
      let (a, e) = path_join-append config.pid_dir config.name (bytes ".pid") in
      let (b, f) = path_join-append config.socket_dir config.name (bytes ".sock") in
      let equal = ap (last 0) (sym e ∙ (text_eq_iff _ _).0 same ∙ f) in
      absurd (
        omega
          (arith, equal, last-append 0 b'.' a (bytes "pid"), last-append 0 b'.' b (bytes "sock")))
]

-- The files without those of the daemon.
abbrev gone : DaemonConfig → Files → Files
gone config files = put (socket_path_of config) none (put (pid_path_of config) none files)

gone_pid : (config : DaemonConfig) (files : Files) → gone config files (pid_path_of config) ≡ none
gone_pid config files = elim (Bool-cases (text_eq (socket_path_of config) (pid_path_of config))) [
  | inl same ↦ rw same refl
  | inr apart ↦ rw apart (put_same (pid_path_of config) none files)
]

ok_inj : {M : Type 0} {d e : Daemon M} → ◌≡◌ {A = Result Failure (Daemon M)} (ok d) (ok e) → d ≡ e
ok_inj h = cc

module _ (system : System) (config : DaemonConfig) where
  abbrev pid_path : Text
  pid_path = pid_path_of config

  abbrev socket_path : Text
  socket_path = socket_path_of config

  with_made-ok :
      {M : Type 0} (made : Result Text M × Files) (daemon : Daemon M) (files' : Files)
      → with_made system config made ≡ (ok daemon, files')
      → (made.1 ≡ files') × (daemon.pid_path ≡ pid_path) × (daemon.socket_path ≡ socket_path)
  with_made-ok (err e, files) daemon files' h = absurd (let wrong = ap (λ r. r.0) h in cc)
  with_made-ok (ok m, files) daemon files' h =
      let same : _ ≡ daemon = ok_inj (ap (λ r. r.0) h) in
      (
        ap (λ r. r.1) h,
        ap (λ (d : Daemon _). d.pid_path) (sym same),
        ap (λ (d : Daemon _). d.socket_path) (sym same),
      )

  -- A start that succeeds has claimed the files, and made the manager.
  with_manager-ok :
      {M : Type 0} (make : Maker system M) (step : Step) (daemon : Daemon M) (files' : Files)
      → with_manager system config make step ≡ (ok daemon, files')
      → (claimed : Files) × Succeeds step claimed
        × ((make claimed).1 ≡ files')
        × (daemon.pid_path ≡ pid_path)
        × (daemon.socket_path ≡ socket_path)
  with_manager-ok make (err e, files) daemon files' h = absurd (let wrong = ap (λ r. r.0) h in cc)
  with_manager-ok make (ok _, files) daemon files' h =
      let (made, at_pid, at_socket) = with_made-ok (make files) daemon files' h in
      (files, refl, made, at_pid, at_socket)

  claim-files :
      (files files' : Files)
      → Succeeds (claim system config files) files'
      → (files' pid_path ≡ some (regular (pid_line system)))
        × (files' socket_path ≡ some (socket 0o600))
        × ((other : Text)
            → text_eq pid_path other ≡ false
            → text_eq socket_path other ≡ false
            → files' other ≡ files other)
  unfolding claim
  claim-files files files' h =
      let (checked, e, rest) = and_then-ok (check_pid_file system pid_path files) _ files' h in
      let (bound, f, g) = and_then-ok (create_socket system socket_path checked) _ files' rest in
      let (there, kept) = write-Leaves system pid_path bound files' g in
      let (opened, before) = socket-Leaves system socket_path checked bound f in
      (
        there,
        kept socket_path (paths_apart config) ∙ opened,
        λ other a b.
            kept other a
            ∙ before other b
            ∙ ap (λ (s : Step). s.1 other) (sym e)
            ∙ check-keeps system pid_path other a files,
      )

  claim-live :
      (pid : ℕ) (files : Files)
      → pid < 2 ^ 32
      → MayLive system pid
      → system.read_error pid_path ≡ none
      → files pid_path ≡ some (regular (to_decimal pid ++ bytes "\n"))
      → claim system config files ≡ (
        err (record {
          message = bytes "daemon already running (pid " ++ to_decimal pid ++ bytes ")";
          cause = none;
        }),
        files,
      )
  unfolding claim
  claim-live pid files small live readable there =
      rw (check-live system pid pid_path files small live readable there) refl

-- Making the manager leaves this path alone.
abbrev pub Spares : {M : Type 0} → (Files → Result Text M × Files) → Text → Type 0
Spares make path = (files : Files) → (make files).1 path ≡ files path

module _ {M : Type 0} (system other : System) (config : DaemonConfig) where
  start-claim :
      (make : Maker other M) (files files' : Files) (claimed : Result Failure (Unit {0}))
      → claim other config files ≡ (claimed, files')
      → start other config make files ≡ with_manager other config make (claimed, files')
  unfolding start
  start-claim make files files' claimed e = ap (with_manager other config make) e

  start-live :
      (make : Maker other M) (pid : ℕ) (files : Files)
      → pid < 2 ^ 32
      → MayLive other pid
      → other.read_error (pid_path_of config) ≡ none
      → files (pid_path_of config) ≡ some (regular (to_decimal pid ++ bytes "\n"))
      → start other config make files ≡ (
        err (record {
          message = bytes "daemon already running (pid " ++ to_decimal pid ++ bytes ")";
          cause = none;
        }),
        files,
      )
  start-live make pid files small live readable there =
      start-claim make files files _ (claim-live other config pid files small live readable there)

  -- After a start that succeeds, where `Manager::new` leaves the PID file and the socket file
  -- alone, the PID file holds the id of the process, below 2 ^ 32, and the socket file has the
  -- mode 0600; a start of another process, to which the first is not known to be gone and
  -- which can read the PID file, changes no file and reports that the daemon is running; and
  -- dropping the daemon, where its two removals succeed, leaves neither file, and every other
  -- file that `Manager::new` leaves alone as it was before the start. Directories are left out
  -- of account.
  pub start-IsExclusive :
      (make : Maker system M) (next : Maker other M) (files files' : Files) (daemon : Daemon M)
      (path : Text)
      → start system config make files ≡ (ok daemon, files')
      → Spares make (pid_path_of config)
      → Spares make (socket_path_of config)
      → Spares make path
      → system.process_id < 2 ^ 32
      → MayLive other system.process_id
      → other.read_error (pid_path_of config) ≡ none
      → system.remove_error (pid_path_of config) ≡ none
      → system.remove_error (socket_path_of config) ≡ none
      → text_eq (pid_path_of config) path ≡ false
      → text_eq (socket_path_of config) path ≡ false
      → (files' (pid_path_of config) ≡ some (regular (pid_line system)))
        × (files' (socket_path_of config) ≡ some (socket 0o600))
        × (start other config next files' ≡ (
          err (record {
            message =
                bytes "daemon already running (pid " ++ to_decimal system.process_id ++ bytes ")";
            cause = none;
          }),
          files',
        ))
        × (drop system daemon files' (pid_path_of config) ≡ none)
        × (drop system daemon files' (socket_path_of config) ≡ none)
        × (drop system daemon files' path ≡ files path)
  unfolding start drop
  start-IsExclusive make next files files' daemon path h spare_pid spare_socket spare small live
        readable e f a b =
      let (between, claimed, made, at_pid, at_socket) =
        with_manager-ok system config make (claim system config files) daemon files' h in
      let (there, opened, kept) = claim-files system config files between claimed in
      let same : (p : Text) → Spares make p → files' p ≡ between p =
        λ p q. sym (ap (λ (g : Files). g p) made) ∙ q between in
      let there' = same (pid_path_of config) spare_pid ∙ there in
      let opened' = same (socket_path_of config) spare_socket ∙ opened in
      let apart = paths_apart config in
      let cleaned =
        cleanup-removed system (pid_path_of config) (socket_path_of config) files' e f apart there'
          opened' in
      let dropped : drop system daemon files' ≡ gone config files' =
        ap (λ p. cleanup system p daemon.socket_path files') at_pid
        ∙ ap (λ s. cleanup system (pid_path_of config) s files') at_socket
        ∙ cleaned in
      (
        there',
        opened',
        start-live next system.process_id files' small live readable there',
        ap (λ g. g (pid_path_of config)) dropped ∙ gone_pid config files',
        ap (λ g. g (socket_path_of config)) dropped
            ∙ put_same (socket_path_of config) none (put (pid_path_of config) none files'),
        ap (λ g. g path) dropped
            ∙ put_other (socket_path_of config) path none (put (pid_path_of config) none files') b
            ∙ put_other (pid_path_of config) path none files' a
            ∙ same path spare
            ∙ kept path a b,
      )
