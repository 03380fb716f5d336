-- ===== src/Tests/Service.antt =====
-- The theorems on the service process at a run of it, and on the programs of the wireless network.
use webhost.Base.{◌≡◌, refl, [], ◌∷◌, some, none, pos}
use webhost.Qt.{is_empty}
use webhost.Daemon.World.{terminate_service, kill_service}
use webhost.Daemon.Service.{
  Service, starting, running, finished, failed, new_service, garbage_timer_data,
  service_finished_data, handle_restart, Step, garbage_timeout, process_started, process_failed,
  process_finished, restart_command, Reachable, reached_new, reached_step,
}
use webhost.Daemon.Service.Life.{
  IsSound, StartsNothing, started, Reachable-IsSound, process_finished-restarts,
  process_failed-stays, restart-kills_next,
}
use webhost.Daemon.System.{wifi_process_finished_data}
use webhost.Daemon.System.Wifi.{active, wifi_process_finished_data-active}
use webhost.Tests.SampleQt.{sample}
use webhost.Tests.Config.{config}

abbrev at_start : Service
at_start = record { process = some starting; garbage_timer = none; kill_timer = none }

abbrev at_work : Service
at_work = record at_start { process = some running }

abbrev at_end : Service
at_end = record { process = some finished; garbage_timer = some (pos 100); kill_timer = none }

abbrev broken : Service
broken = record at_start { process = some failed }

reached_start : Reachable sample config at_start
unfolding garbage_timer_data is_empty
reached_start = reached_step new_service at_start _ reached_new (garbage_timeout 0 refl)

reached_end : Reachable sample config at_end
unfolding service_finished_data
reached_end =
    reached_step at_work at_end _
      (reached_step at_start at_work _ reached_start (process_started refl)) (process_finished refl)

reached_broken : Reachable sample config broken
reached_broken = reached_step at_start broken _ reached_start (process_failed refl)

Reachable-IsSound_example : IsSound config at_end
Reachable-IsSound_example = Reachable-IsSound sample config at_end reached_end

process_finished-restarts_example :
    (at_end.garbage_timer ≡ some (pos 100))
    × (t : Service) × Step sample config at_end t (started sample config ∷ [])
    × (t.process ≡ some starting)
process_finished-restarts_example =
    process_finished-restarts sample config at_end 100 reached_end refl refl

process_failed-stays_example :
    (broken.process ≡ some failed) × StartsNothing (terminate_service ∷ [])
unfolding handle_restart
process_failed-stays_example =
    process_failed-stays sample config broken (record broken { kill_timer = some (pos 5000) })
      (terminate_service ∷ []) reached_broken refl restart_command

restart-kills_next_example :
    (t : Service) × (u : Service) × (v : Service) × Step sample config at_end t
      (terminate_service ∷ [])
    × Step sample config t u (started sample config ∷ [])
    × Step sample config u v (kill_service ∷ [])
    × (v.process ≡ some starting)
restart-kills_next_example = restart-kills_next sample config at_end 100 reached_end refl refl

wifi_process_finished_data-active_example :
    wifi_process_finished_data (finished ∷ running ∷ failed ∷ [])
    ≡ some (active (finished ∷ running ∷ failed ∷ []))
wifi_process_finished_data-active_example =
    wifi_process_finished_data-active (finished ∷ running ∷ failed ∷ [])
