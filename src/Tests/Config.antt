-- ===== src/Tests/Config.antt =====
-- The theorem on the configuration at a concrete file.
use webhost.Base.{◌≡◌, List, [], ◌∷◌, ◌++◌, some, true, pos}
use webhost.Qt.{QString, QByteArray, lit}
use webhost.Profile.{set_source}
use webhost.Users.File.{empty_profile}
use webhost.Config.{Config, load}
use webhost.Config.Interfaces.{Lists, load-Lists}
use webhost.Tests.SampleQt.{sample, sample_laws}

abbrev pub config : Config
config = record {
  control_port = 6352;
  use_network_manager = true;
  interface_names = (b'e' ∷ []) ∷ [];
  wifi_interface_name = [];
  ntp_configuration_file = [];
  ntp_service_name = [];
  service_command = b's' ∷ b' ' ∷ b'a' ∷ [];
  service_respawn_delay = pos 100;
}

abbrev conf : QByteArray
conf = lit "[Webhost]" ++ (10 ∷ (lit "NetworkInterface0=eth0" ++ 10 ∷ []))

load-Lists_example :
    (new : Config) × (names : List QString) × (load sample (some conf) config ≡ some new)
    × (new.interface_names ≡ config.interface_names ++ names)
    × Lists sample
        (set_source sample (empty_profile sample) (lit "/etc/webhost.conf") (some conf)).0
        0
        names
load-Lists_example = load-Lists sample sample_laws (some conf) config
