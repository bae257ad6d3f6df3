-- ===== src/Lifecycle/Running.antt =====
-- src/daemon/mod.rs: `accept_loop`, `signal_handler` and the methods of a running `Daemon`. They share the
-- configuration, the flag for a reload and the notification of a shutdown. Any order of their steps
-- is a run.
use skipjack_mcp.Base.{Bool, true, false, List, [], ◌∷◌, ◌≡◌, ◌⊎◌, inl, inr, refl}

-- Where `accept_loop` is: at the head of its loop, waiting for a connection or a notification, in
-- the grace period, or done.
pub data Phase : Type 0 where
  heading : Phase
  accepting : Phase
  draining : Phase
  finished : Phase

pub record Running (C : Type 0) : Type 0 where
  pub config : C
  pub reload_requested : Bool
  -- The permit that `notify_one` leaves.
  pub notified : Bool
  -- Whether `signal_handler` still runs, and whether it is in the reload of SIGHUP.
  pub handling : Bool
  pub reloading : Bool
  pub phase : Phase
  -- `current_config` of the iteration.
  pub current_config : C
  -- What has happened: the configurations that the daemon has had and those that connections were
  -- handled with, the newest first, and whether a signal or a caller has asked for a shutdown.
  pub loaded : List C
  pub handled : List C
  pub asked : Bool

-- The head of the loop: the flag is swapped, and the configuration is read in either case.
unfoldable pub iterate : {C : Type 0} → Running C → Running C
iterate s = record s { reload_requested = false; current_config = s.config; phase = accepting }

-- The signal handler does not run if its registration failed.
unfoldable pub begin : {C : Type 0} → Bool → C → Running C
begin registered config = record {
  config = config;
  reload_requested = false;
  notified = false;
  handling = registered;
  reloading = false;
  phase = heading;
  current_config = config;
  loaded = config ∷ [];
  handled = [];
  asked = false;
}

pub data Step {C : Type 0} : Running C → Running C → Type 0 where
  -- SIGTERM or SIGINT: `notify_one`, and the handler returns.
  terminate :
      (s : Running C)
      → s.handling ≡ true
      → s.reloading ≡ false
      → Step s (record s { notified = true; handling = false; asked = true })
  -- SIGHUP: the flag is stored, and `Config::load` begins.
  hang_up :
      (s : Running C)
      → s.handling ≡ true
      → s.reloading ≡ false
      → Step s (record s { reload_requested = true; reloading = true })
  -- The load succeeds, and the configuration is written; or it fails.
  load :
      (s : Running C) (new_config : C)
      → s.reloading ≡ true
      → Step s (record s { config = new_config; loaded = new_config ∷ s.loaded; reloading = false })
  load_failed : (s : Running C) → s.reloading ≡ true → Step s (record s { reloading = false })
  -- `Daemon::request_shutdown`
  request_shutdown : (s : Running C) → Step s (record s { notified = true; asked = true })
  -- `Daemon::config`, which swaps the flag as well.
  read_config : (s : Running C) → Step s (record s { reload_requested = false })
  turn : (s : Running C) → s.phase ≡ heading → Step s (iterate s)
  accept :
      (s : Running C)
      → s.phase ≡ accepting
      → Step s (record s { handled = s.current_config ∷ s.handled; phase = heading })
  accept_failed : (s : Running C) → s.phase ≡ accepting → Step s (record s { phase = heading })
  -- The listener is dropped.
  shut_down :
      (s : Running C)
      → s.phase ≡ accepting
      → s.notified ≡ true
      → Step s (record s { notified = false; phase = draining })
  -- The grace period is over.
  drained : (s : Running C) → s.phase ≡ draining → Step s (record s { phase = finished })

pub data Reach {C : Type 0} (s : Running C) : Running C → Type 0 where
  here : Reach s s
  next : {t u : Running C} → Reach s t → Step t u → Reach s u

-- Each entry of the first list is one of the second, in the same order; one may be used repeatedly
-- or not at all.
pub data Follows {C : Type 0} : List C → List C → Type 0 where
  none_left : {ys : List C} → Follows [] ys
  used : {y : C} {xs ys : List C} → Follows xs (y ∷ ys) → Follows (y ∷ xs) (y ∷ ys)
  passed : {y : C} {xs ys : List C} → Follows xs ys → Follows xs (y ∷ ys)

Follows-tail : {C : Type 0} {x : C} {xs ys : List C} → Follows (x ∷ xs) ys → Follows xs ys
Follows-tail (used f) = f
Follows-tail (passed f) = passed (Follows-tail f)

Follows-again :
    {C : Type 0} {x : C} {xs ys : List C} → Follows (x ∷ xs) ys → Follows (x ∷ x ∷ xs) ys
Follows-again (used f) = used (used f)
Follows-again (passed f) = passed (Follows-again f)

-- The listener is there.
abbrev pub IsListening : Phase → Type 0
IsListening heading = Unit
IsListening accepting = Unit
IsListening draining = ⊥
IsListening finished = ⊥

module _ {C : Type 0} where
  -- A shutdown was asked for, or there is no permit and the place of the loop is one that listens.
  abbrev pub IsAskedOrOpen : Running C → Phase → Type 0
  IsAskedOrOpen s place = (s.asked ≡ true) ⊎ ((s.notified ≡ false) × IsListening place)

  -- Connections are handled with the configurations in the order in which the daemon has had them,
  -- and the listener is there while nobody has asked for a shutdown.
  abbrev pub IsSound : Running C → Type 0
  IsSound s =
      ((older : List C) × (s.loaded ≡ s.config ∷ older))
      × Follows (s.current_config ∷ s.handled) s.loaded
      × IsAskedOrOpen s s.phase

  -- The loop goes on to a place where it listens.
  moved :
      (s : Running C) (place : Phase)
      → IsListening place
      → IsAskedOrOpen s s.phase
      → IsAskedOrOpen s place
  moved s place there (inl asked) = inl asked
  moved s place there (inr (quiet, _)) = inr (quiet, there)

  Step-IsSound : {s t : Running C} → Step s t → IsSound s → IsSound t
  unfolding iterate
  Step-IsSound (terminate s h r) (l, f, a) = (l, f, inl refl)
  Step-IsSound (hang_up s h r) sound = sound
  Step-IsSound (load s new_config r) (l, f, a) = ((s.loaded, refl), passed f, a)
  Step-IsSound (load_failed s r) sound = sound
  Step-IsSound (request_shutdown s) (l, f, a) = (l, f, inl refl)
  Step-IsSound (read_config s) sound = sound
  Step-IsSound (turn s p) ((older, e), f, a) =
      ((older, e), rw e (used (rw e at (Follows-tail f))), moved s accepting tt a)
  Step-IsSound (accept s p) (l, f, a) = (l, Follows-again f, moved s heading tt a)
  Step-IsSound (accept_failed s p) (l, f, a) = (l, f, moved s heading tt a)
  Step-IsSound (shut_down s p e) (l, f, inl b) = (l, f, inl b)
  Step-IsSound (shut_down s p e) (l, f, inr (b, c)) = absurd (let wrong = b in cc)
  Step-IsSound (drained s p) (l, f, inl b) = (l, f, inl b)
  Step-IsSound (drained s p) (l, f, inr (b, c)) = absurd (rw p at c)

  Reach-IsSound : {s t : Running C} → IsSound s → Reach s t → IsSound t
  Reach-IsSound sound here = sound
  Reach-IsSound sound (next r step) = Step-IsSound step (Reach-IsSound sound r)

  -- In any order of signals, reloads, calls of `request_shutdown` and `config`, connections
  -- and errors after the start: the configurations that connections were handled with are
  -- among those that the daemon has had, and come in the order in which it had them, so that
  -- no connection gets one older than an earlier connection got; the configuration of the
  -- daemon is the last that it had; and as long as no signal and no caller has asked for a
  -- shutdown, the listener is there and no shutdown is notified.
  pub begin-IsSound :
      (registered : Bool) (config : C) (s : Running C)
      → Reach (begin registered config) s
      → IsSound s
  unfolding begin
  begin-IsSound registered config s r = Reach-IsSound (([], refl), used none_left, inr (refl, tt)) r
