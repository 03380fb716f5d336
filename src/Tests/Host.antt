-- ===== src/Tests/Host.antt =====
-- The theorems on the settings of the host at concrete commands.
use webhost.Base.{◌≡◌, refl, [], ◌∷◌, some, none, true, false, arith, take, All, pos, ◌^◌, ◌-◌, min}
use webhost.Qt.{QString, QByteArray, lit, c_string, ipv4, null_address}
use webhost.Config.{Config}
use webhost.Stdio.{fgets_lines, fgets_from}
use webhost.Daemon.World.{World, replace_file, run_program, sync_disk}
use webhost.Daemon.System.{handle_ntp}
use webhost.Daemon.Ip.{mask_size, handle_ip, ifcfg_file, read_params}
use webhost.Post.Host.Settings.{Files, Programs, static, mask_of_size, remove_quotes}
use webhost.Post.Host.{read_ip_config, read_ifcfg}
use webhost.Post.Host.Netmask.{mask_size-mask_of_size}
use webhost.Post.Host.NtpServers.{IsServer, set_servers, with_file, read_ip_config-handle_ntp}
use webhost.Post.Host.Ifcfg.{IsPair, IsValue}
use webhost.Post.Host.Ifcfg.Filled.{fixed}
use webhost.Post.Host.Ifcfg.Command.{read_ifcfg-handle_ip}
use webhost.Post.Host.Ifcfg.Values.{State}
use webhost.Tests.SampleQt.{sample, sample_laws, trim, trim_left, trim_right, split_text, cut}
use webhost.Tests.SampleFiles.{sample_files}

mask_size-mask_of_size_example :
    (mask_of_size 24 ≡ 2 ^ 32 - 2 ^ (32 - 24)) × (mask_size (ipv4 (mask_of_size 24)) ≡ min 24 32)
mask_size-mask_of_size_example = mask_size-mask_of_size 24

abbrev host : Config
host = record {
  control_port = 6352;
  use_network_manager = false;
  interface_names = (b'e' ∷ []) ∷ [];
  wifi_interface_name = [];
  ntp_configuration_file = lit "/etc/ntp.conf";
  ntp_service_name = b'n' ∷ [];
  service_command = [];
  service_respawn_delay = pos 100;
}

abbrev ifcfg : QByteArray
ifcfg = b'A' ∷ b'=' ∷ b'1' ∷ 10 ∷ []

abbrev machine : World
machine = record {
  file = λ f. some ifcfg;
  is_writable = λ f. true;
  output = λ p a. [];
  service_exists = false;
  service_runs = false;
  past_words = [];
}

abbrev no_files : Files
no_files = λ f. none

abbrev no_programs : Programs
no_programs = λ p a. []

abbrev pool : QString
pool = b'p' ∷ b'.' ∷ b'o' ∷ []

pool-IsServer : IsServer pool
pool-IsServer = record {
  plain = omega arith;
  no_space = omega arith;
  no_lf = omega arith;
  short = omega arith;
}

read_ip_config-handle_ntp_example :
    (bytes : QByteArray) × (handle_ntp sample host machine ([] ∷ pool ∷ pool ∷ pool ∷ [])
      ≡ run_program (lit "timedatectl") (lit "set-timezone" ∷ pool ∷ [])
        ∷ replace_file (lit "/etc/ntp.conf") bytes
        ∷ sync_disk
        ∷ run_program (lit "systemctl") (lit "restart" ∷ host.ntp_service_name ∷ [])
        ∷ [])
    × ((read_ip_config sample
          (with_file no_files (lit "/etc/ntp.conf") bytes)
          no_programs
          host).ntp_hostnames
        ≡ take 2 (set_servers (pool ∷ pool ∷ [])))
read_ip_config-handle_ntp_example =
    read_ip_config-handle_ntp sample no_files no_programs sample_files host host machine [] pool
      (pool ∷ pool ∷ []) refl refl (pool-IsServer, (pool-IsServer, tt))

pool-IsValue : IsValue sample pool
pool-IsValue = record {
  side = record {
    plain = omega arith;
    no_equals = omega arith;
    no_lf = omega arith;
    short = omega arith;
  };
  ends = refl;
}

abbrev before : State sample no_files no_programs
before = (
  record {
    interfaces = [];
    gateway = null_address;
    dns1 = null_address;
    dns2 = null_address;
    wifi_active = false;
    wifi_connections = [];
    ntp_hostnames = [];
    cpuinfo_model_name = [];
    cpuinfo_hardware = [];
    cpuinfo_revision = [];
    cpuinfo_serial = [];
  },
  record { mode = static; address = null_address; netmask = null_address },
)

old-IsPair : All (IsPair sample) (read_params sample (fgets_lines ifcfg))
unfolding read_params fgets_from c_string trim trim_left trim_right split_text cut lit
old-IsPair = (
  (
    record {
      side = record {
        plain = omega arith;
        no_equals = omega arith;
        no_lf = omega arith;
        short = omega arith;
      };
      starts = refl;
    },
    record {
      side = record {
        plain = omega arith;
        no_equals = omega arith;
        no_lf = omega arith;
        short = omega arith;
      };
      ends = refl;
    },
  ),
  tt,
)

read_ifcfg-handle_ip_example :
    (bytes : QByteArray) × (handle_ip sample host machine (fixed [] [] pool pool pool pool pool)
      ≡ replace_file (ifcfg_file sample host []) bytes
        ∷ run_program (lit "service") (lit "network" ∷ lit "restart" ∷ [])
        ∷ sync_disk
        ∷ [])
    × ((read_ifcfg sample no_files no_programs (fgets_lines bytes) before).1.address ≡ ipv4 b'p')
    × ((read_ifcfg sample no_files no_programs (fgets_lines bytes) before).1.netmask ≡ ipv4 b'p')
    × ((read_ifcfg sample no_files no_programs (fgets_lines bytes) before).0.gateway ≡ ipv4 b'p')
unfolding remove_quotes
read_ifcfg-handle_ip_example =
    read_ifcfg-handle_ip sample sample_laws sample_files no_files no_programs host machine [] []
      pool pool pool pool pool ifcfg before refl refl refl old-IsPair
      (pool-IsValue, (pool-IsValue, (pool-IsValue, (pool-IsValue, (pool-IsValue, tt)))))
