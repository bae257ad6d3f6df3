-- ===== src/Lifecycle/Steps.antt =====
-- src/daemon/mod.rs. What the operations on the files of the daemon leave when they succeed.
use skipjack_mcp.Base.{
  ◌≡◌, refl, sym, ap, ◌∙◌, inl, inr, false, Option, none, some, ◌++◌, is_some, Bool-cases,
  Option-cases,
}
use skipjack_mcp.Base.Text.{Text, bytes, text_eq, text_eq_refl}
use skipjack_mcp.Number.{parse_unsigned}
use skipjack_mcp.Search.{Result, ok, err}
use skipjack_mcp.Server.Trim.{trim}
use skipjack_mcp.Lifecycle.Files.{
  File, regular, socket, Files, put, System, Step, done, fail, read_to_string, remove_file,
  try_call, and_then, is_process_alive, check_contents, check_pid_file, pid_line, write_pid_file,
  listen, bind, open_socket, create_socket, cleanup,
}

pub put_same : (path : Text) (file : Option File) (files : Files) → put path file files path ≡ file
put_same path file files = rw (text_eq_refl path) refl

pub put_other :
    (path other : Text) (file : Option File) (files : Files)
    → text_eq path other ≡ false
    → put path file files other ≡ files other
put_other path other file files e = rw e refl

-- The step has succeeded and left the files.
abbrev pub Succeeds : Step → Files → Type 0
Succeeds step files = step ≡ done files

try_call-ok :
    (error : Option Text) (message : Text) (files files' : Files) (rest : Step)
    → Succeeds (try_call error message files rest) files'
    → Succeeds rest files'
try_call-ok none message files files' rest h = h
try_call-ok (some e) message files files' rest h = absurd (let wrong = ap (λ s. s.0) h in cc)

done_inj : (files files' : Files) → Succeeds (done files) files' → files ≡ files'
done_inj files files' h = ap (λ s. s.1) h

pub and_then-ok :
    (step : Step) (next : Files → Step) (files' : Files)
    → Succeeds (and_then step next) files'
    → (between : Files) × Succeeds step between × Succeeds (next between) files'
and_then-ok (ok tt, files) next files' h = (files, refl, h)
and_then-ok (err e, files) next files' h = absurd (let wrong = ap (λ s. s.0) h in cc)

module _ (system : System) where
  -- A path other than that of the PID file.
  module _ (path other : Text) (apart : text_eq path other ≡ false) where
    remove-keeps : (files : Files) → (remove_file system path files).1 other ≡ files other
    remove-keeps files = elim (Option-cases (system.remove_error path)) [
      | inl e ↦ rw (e, remove_file) (put_other path other none files apart)
      | inr (x, e) ↦ rw (e, remove_file) refl
    ]

    check_contents-keeps :
        (contents : Text) (files : Files)
        → (check_contents system path contents files).1 other ≡ files other
    unfolding check_contents
    check_contents-keeps contents files =
        elim (Option-cases (parse_unsigned 4294967296 (trim contents))) [
          | inl e ↦ rw (e, check_contents) refl
          | inr (pid, e) ↦ elim (Bool-cases (is_process_alive system pid)) [
            | inl alive ↦ rw (e, alive, check_contents) refl
            | inr dead ↦ rw (e, dead, check_contents) (remove-keeps files)
          ]
        ]

    read-keeps :
        (r : Result Text Text) (files : Files)
        → (elim r as (λ x. Step) [
          | err e ↦ fail (bytes "Failed to read PID file: " ++ path) (some e) files
          | ok contents ↦ check_contents system path contents files
        ]).1
            other
          ≡ files other
    read-keeps (ok contents) files = check_contents-keeps contents files
    read-keeps (err e) files = refl

    pub check-keeps : (files : Files) → (check_pid_file system path files).1 other ≡ files other
    unfolding check_pid_file
    check-keeps files = elim (Bool-cases (is_some (files path))) [
      | inr e ↦ rw (e, check_pid_file) refl
      | inl e ↦ rw (e, check_pid_file) (read-keeps (read_to_string system path files) files)
    ]

  -- The file is there, and nothing else is different.
  abbrev pub Leaves : Text → File → Files → Files → Type 0
  Leaves path file files files' =
      (files' path ≡ some file)
      × ((other : Text) → text_eq path other ≡ false → files' other ≡ files other)

  put-Leaves :
      (path : Text) (file : File) (files files' : Files)
      → put path (some file) files ≡ files'
      → Leaves path file files files'
  put-Leaves path file files files' same =
      rw (← same)
        (put_same path (some file) files, λ other e. put_other path other (some file) files e)

  -- What was at the path before makes no difference.
  Leaves-put :
      (path : Text) (file : File) (before : Option File) (files files' : Files)
      → Leaves path file (put path before files) files'
      → Leaves path file files files'
  Leaves-put path file before files files' (there, rest) =
      (there, λ other e. rest other e ∙ put_other path other before files e)

  written-Leaves :
      (path : Text) (outcome : Option (Text × Option File)) (files files' : Files)
      → Succeeds
          (elim outcome as (λ x. Step) [
            | some (e, left) ↦
                fail (bytes "Failed to write PID file: " ++ path) (some e) (put path left files)
            | none ↦ done (put path (some (regular (pid_line system))) files)
          ])
          files'
      → Leaves path (regular (pid_line system)) files files'
  written-Leaves path none files files' h =
      put-Leaves path (regular (pid_line system)) files files' (done_inj _ files' h)
  written-Leaves path (some (e, left)) files files' h = absurd (let wrong = ap (λ s. s.0) h in cc)

  pub write-Leaves :
      (path : Text) (files files' : Files)
      → Succeeds (write_pid_file system path files) files'
      → Leaves path (regular (pid_line system)) files files'
  unfolding write_pid_file
  write-Leaves path files files' h =
      written-Leaves path (system.write_error path) files files'
        (try_call-ok (system.create_dir_error path) _ files files' _ h)

  listen-Leaves :
      (path : Text) (files files' : Files)
      → Succeeds (listen system path files) files'
      → Leaves path (socket 0o600) files files'
  unfolding listen
  listen-Leaves path files files' h = put-Leaves path (socket 0o600) files files' (
      done_inj _ files' (
        try_call-ok system.from_std_error _ _ files' _ (
          try_call-ok (system.permissions_error path) _ files files' _ (
            try_call-ok system.nonblocking_error _ files files' _
              (try_call-ok system.listen_error _ files files' _ h)))))

  bind-Leaves :
      (path : Text) (files files' : Files)
      → Succeeds (bind system path files) files'
      → Leaves path (socket 0o600) files files'
  unfolding bind
  bind-Leaves path files files' h = elim (Bool-cases (is_some (files path))) [
    | inl used ↦ absurd (let wrong = ap (λ s. s.0) (rw (used, bind) at h) in cc)
    | inr free ↦ Leaves-put path (socket 0o600) (some (socket system.bind_mode)) files files' (
        listen-Leaves path _ files'
          (try_call-ok (system.bind_error path) _ files files' _ (rw (free, bind) at h)))
  ]

  open-Leaves :
      (path : Text) (files files' : Files)
      → Succeeds (open_socket system path files) files'
      → Leaves path (socket 0o600) files files'
  unfolding open_socket
  open-Leaves path files files' h = bind-Leaves path files files' (
      try_call-ok system.socket_error _ files files' _ (
        try_call-ok (system.address_error path) _ files files' _
          (try_call-ok (system.create_dir_error path) _ files files' _ h)))

  create_socket-free :
      (path : Text) (files : Files)
      → is_some (files path) ≡ false
      → create_socket system path files ≡ open_socket system path files
  unfolding create_socket
  create_socket-free path files free = rw (free, create_socket) refl

  pub socket-Leaves :
      (path : Text) (files files' : Files)
      → Succeeds (create_socket system path files) files'
      → Leaves path (socket 0o600) files files'
  unfolding create_socket
  socket-Leaves path files files' h = elim (Bool-cases (is_some (files path))) [
    | inl used ↦ Leaves-put path (socket 0o600) none files files' (
        open-Leaves path _ files'
          (try_call-ok (system.remove_error path) _ files files' _ (rw (used, create_socket) at h)))
    | inr free ↦ open-Leaves path files files' (sym (create_socket-free path files free) ∙ h)
  ]

  -- What `cleanup` leaves where its removals succeed.
  removed :
      (path : Text) (files : Files)
      → system.remove_error path ≡ none
      → (remove_file system path files).1 ≡ put path none files
  removed path files e = rw (e, remove_file) refl

  pub cleanup-removed :
      (pid_path socket_path : Text) (files : Files)
      → system.remove_error pid_path ≡ none
      → system.remove_error socket_path ≡ none
      → text_eq pid_path socket_path ≡ false
      → files pid_path ≡ some (regular (pid_line system))
      → files socket_path ≡ some (socket 0o600)
      → cleanup system pid_path socket_path files ≡ put socket_path none (put pid_path none files)
  unfolding cleanup
  cleanup-removed pid_path socket_path files e f apart there bound =
      rw
        (
          there,
          cleanup,
          removed pid_path files e,
          apart,
          bound,
          removed socket_path (put pid_path none files) f,
        )
        refl
