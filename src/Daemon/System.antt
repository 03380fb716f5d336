-- ===== src/Daemon/System.antt =====
-- The commands on the system: `Reboot` (src/webhostd/reboot.cpp), `Ntp` (src/webhostd/ntp.cpp),
-- `Upgrade` (src/webhostd/upgrade.cpp) and `Wifi` (src/webhostd/wifi.cpp), and what the constructor
-- (src/webhostd/webhostd.cpp) does about NetworkManager.
pub mod Wifi
use webhost.Base.{
  ℕ, zero, suc, ◌+◌, ◌-◌, Bool, true, false, ◌&&◌, not, List, [], ◌∷◌, ◌++◌, Option, none, some,
  if◌then◌else◌, ltb, ◌==◌, leb, length, get_or, take, drop,
}
use webhost.Qt.{QString, QByteArray, QStringList, lit, c_string, str_eq, join, Library}
use webhost.Config.{Config}
use webhost.Daemon.World.{
  World, Effect, run_program, start_program, replace_file, create_file, delete_file,
  delete_directory, kill_service, sync_disk, exit_daemon,
}
use webhost.Daemon.Service.{Process, starting, running, finished, failed}

unfoldable pub handle_reboot : QStringList → List Effect
handle_reboot cmds = run_program (lit "/sbin/shutdown") (lit "-r" ∷ lit "now" ∷ []) ∷ []

-- `cmds[1]`
abbrev second : World → QStringList → QString
second w cmds = get_or cmds 1 w.past_words

-- The state of a process is not `NotRunning`.
unfoldable pub is_active : Process → Bool
is_active starting = true
is_active running = true
is_active finished = false
is_active failed = false

-- The loop over the processes: the first that does not run is removed, if there is one.
unfoldable pub remove_stopped : List Process → List Process × Bool
remove_stopped [] = ([], false)
remove_stopped (p ∷ ps) =
    let (rest, deleted) = remove_stopped ps in
    if is_active p then (p ∷ rest, deleted) else (ps, true)

-- The outer loop repeats this while it removes one; `none` is out of fuel.
unfoldable pub remove_loop : ℕ → List Process → Option (List Process)
remove_loop zero ps = none
remove_loop (suc fuel) ps =
    let (rest, deleted) = remove_stopped ps in
    let more = remove_loop fuel rest in if deleted then more else some rest

unfoldable pub wifi_process_finished_data : List Process → Option (List Process)
wifi_process_finished_data ps = remove_loop (suc (length ps)) ps

module _ (qt : Library) where
  open qt use {split, to_utf8}

  -- The lines of the servers, without those that are not set.
  unfoldable pub server_lines : QStringList → QByteArray
  server_lines [] = []
  server_lines (s ∷ ss) =
      (if str_eq s (lit "0.0.0.0")
        then []
        else lit "server " ++ (c_string (to_utf8 s) ++ (lit " iburst" ++ 10 ∷ [])))
      ++ server_lines ss

  unfoldable pub ntp_file : QStringList → QByteArray
  ntp_file servers =
      (lit "driftfile=/var/lib/ntp/drift" ++ 10 ∷ [])
      ++ ((lit "restrict default nomodify notrap nopeer noquery" ++ 10 ∷ [])
          ++ ((lit "restrict 127.0.0.1" ++ 10 ∷ [])
              ++ ((lit "restrict ::1" ++ 10 ∷ []) ++ server_lines servers)))

  unfoldable pub handle_ntp : Config → World → QStringList → List Effect
  handle_ntp c w cmds =
      run_program (lit "timedatectl") (lit "set-timezone" ∷ second w cmds ∷ [])
      ∷ ((if w.is_writable (c.ntp_configuration_file ++ lit ".back")
            then replace_file c.ntp_configuration_file (ntp_file (drop 2 cmds)) ∷ sync_disk ∷ []
            else [])
          ++ run_program (lit "systemctl") (lit "restart" ∷ c.ntp_service_name ∷ []) ∷ [])

  -- The path up to its last slash, without the slash.
  unfoldable pub directory_of : QString → QString
  directory_of path = let f0 = split path (lit "/") in join (take (length f0 - 1) f0) (lit "/")

  unfoldable pub handle_upgrade : World → QStringList → List Effect
  handle_upgrade w cmds =
      let two = length cmds == 2 in
      let tempdir = if two then directory_of (second w cmds) else [] in
      (if two
        then run_program (lit "/bin/rpm") (lit "--oldpackage" ∷ lit "-U" ∷ second w cmds ∷ [])
          ∷ sync_disk
          ∷ create_file (tempdir ++ lit "/done")
          ∷ []
        else [])
      ++ (delete_file (second w cmds)
          ∷ delete_file (tempdir ++ lit "/done")
          ∷ delete_directory tempdir
          ∷ ((if w.service_exists then kill_service ∷ [] else []) ++ exit_daemon 0 ∷ []))

  -- The connections of a listing that are wireless, each with a program that deletes it.
  unfoldable pub delete_wireless : QStringList → List Effect
  delete_wireless [] = []
  delete_wireless (line ∷ lines) =
      let f1 = split line (lit ":") in
      (if leb 3 (length f1) && str_eq (get_or f1 2 []) (lit "802-11-wireless")
        then start_program (lit "/bin/nmcli") (lit "conn" ∷ lit "delete" ∷ get_or f1 0 [] ∷ []) ∷ []
        else [])
      ++ delete_wireless lines

  abbrev connect_args : QStringList → QStringList
  connect_args (ssid ∷ []) = lit "device" ∷ lit "wifi" ∷ lit "connect" ∷ ssid ∷ []
  connect_args (ssid ∷ password ∷ _) =
      lit "device" ∷ lit "wifi" ∷ lit "connect" ∷ ssid ∷ lit "password" ∷ password ∷ []
  connect_args [] = []

  -- Each program that is started joins the processes of the daemon.
  unfoldable pub handle_wifi : Config → World → QStringList → List Effect
  handle_wifi c w [] = []
  handle_wifi c w (verb ∷ []) =
      let args = lit "-t" ∷ lit "conn" ∷ lit "show" ∷ [] in
      if c.use_network_manager
      then run_program (lit "/bin/nmcli") args
        ∷ delete_wireless (split (w.output (lit "/bin/nmcli") args) (10 ∷ []))
      else []
  handle_wifi c w (verb ∷ ssid ∷ words) =
      if c.use_network_manager
      then start_program (lit "/bin/nmcli") (connect_args (ssid ∷ words)) ∷ []
      else []

  abbrev systemctl : QString → List Effect
  systemctl verb = run_program (lit "/bin/systemctl") (verb ∷ lit "NetworkManager" ∷ []) ∷ []

  -- The loop of the constructor over the lines that systemctl prints.
  unfoldable pub network_manager_lines : Config → QStringList → List Effect
  network_manager_lines c [] = []
  network_manager_lines c (line ∷ lines) =
      let f1 = split line (lit "=") in
      let state = get_or f1 1 [] in
      (if length f1 == 2 && str_eq (get_or f1 0 []) (lit "ActiveState")
        then (if c.use_network_manager && str_eq state (lit "inactive")
            then systemctl (lit "start") ++ systemctl (lit "enable")
            else [])
          ++ (if not c.use_network_manager && not (str_eq state (lit "active"))
              then systemctl (lit "stop") ++ systemctl (lit "disnable")
              else [])
        else [])
      ++ network_manager_lines c lines

  unfoldable pub network_manager : Config → World → List Effect
  network_manager c w =
      let args = lit "--property=ActiveState" ∷ lit "show" ∷ lit "NetworkManager" ∷ [] in
      run_program (lit "/bin/systemctl") args
      ∷ network_manager_lines c (split (w.output (lit "/bin/systemctl") args) (10 ∷ []))
