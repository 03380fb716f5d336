-- ===== src/Daemon/Start.antt =====
-- The start of the daemon: the constructor of MainObject (src/webhostd/webhostd.cpp). What it makes
-- of the text that WHCmdSwitch prints, and how the socket is bound, are left out.
use webhost.Base.{ℕ, Bool, false, List, Option, some, if◌then◌else◌, pos, [], ◌∷◌}
use mathlib.Core.Option
use webhost.Qt.{QByteArray, lit, Library}
use webhost.Switches.{switches, printed_version, printed_usage, all_processed, parse}
use webhost.Config.{Config, load}
use webhost.Daemon.World.{World, Effect}
use webhost.Daemon.Service.{Service, new_service}
use webhost.Daemon.System.{network_manager}

-- The daemon exits, or serves with a configuration, after some effects.
pub data Started : Type 0 where
  exited : ℕ → Started
  serves : Config → Service → List Effect → Started

-- `load` sets every field but the names that are there.
abbrev no_config : Config
no_config = record {
  control_port = 0;
  use_network_manager = false;
  interface_names = [];
  wifi_interface_name = [];
  ntp_configuration_file = [];
  ntp_service_name = [];
  service_command = [];
  service_respawn_delay = pos 0;
}

module _ (qt : Library) where
  unfoldable pub serve : World → (ℕ → Bool) → Config → Started
  serve w can_bind c =
      if can_bind c.control_port then serves c new_service (network_manager qt c w) else exited 256

  -- No switch is marked as processed. The version stands where the name of the program belongs.
  unfoldable pub main_object :
      List QByteArray → QByteArray → Option QByteArray → World → (ℕ → Bool) → Option Started
  main_object args version conf w can_bind =
      elim (parse qt args version (lit "webhost") (10 ∷ [])) [
        | switches ss ↦
            if all_processed ss
            then Option.map (serve w can_bind) (load qt conf no_config)
            else some (exited 256)
        | printed_version text ↦ some (exited 0)
        | printed_usage text ↦ some (exited 0)
      ]
