-- ===== src/Daemon/Service.antt =====
-- The service process of the daemon and its two timers: `serviceFinishedData`, `garbageTimerData`,
-- `killTimerData` of src/webhostd/webhostd.cpp and `Restart` of src/webhostd/restart.cpp. A timer is
-- given by the interval that it was started with; both fire once. What the handlers log is left out.
pub mod Life
use webhost.Base.{
  ℕ, Bool, true, false, ◌≡◌, List, [], ◌∷◌, Option, none, some, if◌then◌else◌, ℤ, pos, get_or, drop,
}
use webhost.Qt.{QString, QStringList, lit, is_empty, Library}
use webhost.Config.{Config}
use webhost.Daemon.World.{Effect, start_program, terminate_service, kill_service}

-- A process that was started, until it runs; one that ended, and one that could not be started.
pub data Process : Type 0 where
  starting running finished failed : Process

pub record Service : Type 0 where
  pub process : Option Process
  pub garbage_timer : Option ℤ
  pub kill_timer : Option ℤ

-- At the end of the constructor, `main_garbage_timer->start(0)`.
abbrev pub new_service : Service
new_service = record { process = none; garbage_timer = some (pos 0); kill_timer = none }

-- `serviceFinishedData`
unfoldable pub service_finished_data : Config → Service → Service
service_finished_data c s = record s {
  kill_timer = none;
  garbage_timer = some c.service_respawn_delay;
}

-- `Restart`
unfoldable pub handle_restart : Service → Service × List Effect
handle_restart s = elim s.process [
  | none ↦ (s, [])
  | some p ↦ (record s { kill_timer = some (pos 5000) }, terminate_service ∷ [])
]

-- `killTimerData`
unfoldable pub kill_timer_data : Service → List Effect
kill_timer_data s = elim s.process [ none ↦ [] | some p ↦ kill_service ∷ [] ]

module _ (qt : Library) where
  -- `garbageTimerData`: the old process goes; a command makes a new one.
  unfoldable pub garbage_timer_data : Config → Service → Service × List Effect
  garbage_timer_data c s =
      let f0 = qt.split c.service_command (lit " ") in
      if is_empty c.service_command
      then (record s { process = none }, [])
      else (record s { process = some starting }, start_program (get_or f0 0 []) (drop 1 f0) ∷ [])

  -- The state when a single-shot timer fires, or the process is found in another state.
  abbrev garbage_fired : Service → Service
  garbage_fired s = record s { garbage_timer = none }

  abbrev kill_fired : Service → Service
  kill_fired s = record s { kill_timer = none }

  abbrev with_process : Service → Process → Service
  with_process s p = record s { process = some p }

  -- What can happen to the daemon, and what it does then. A timer with a negative interval does
  -- not fire. A process that could not be started reports an error, which the daemon logs, but no
  -- end.
  pub data Step (c : Config) (s : Service) : Service → List Effect → Type 0 where
    garbage_timeout :
        (d : ℕ)
        → s.garbage_timer ≡ some (pos d)
        → Step c s
            (garbage_timer_data c (garbage_fired s)).0
            (garbage_timer_data c (garbage_fired s)).1
    kill_timeout :
        (d : ℕ)
        → s.kill_timer ≡ some (pos d)
        → Step c s (kill_fired s) (kill_timer_data (kill_fired s))
    process_started : s.process ≡ some starting → Step c s (with_process s running) []
    process_failed : s.process ≡ some starting → Step c s (with_process s failed) []
    process_finished :
        s.process ≡ some running → Step c s (service_finished_data c (with_process s finished)) []
    restart_command : Step c s (handle_restart s).0 (handle_restart s).1

  -- The states of the daemon from its start on.
  pub data Reachable (c : Config) : Service → Type 0 where
    reached_new : Reachable c new_service
    reached_step :
        (s t : Service) (es : List Effect) → Reachable c s → Step c s t es → Reachable c t
