-- ===== src/Config.antt =====
-- The configuration (src/wh/whconfig.h, src/wh/whconfig.cpp), read from the file /etc/webhost.conf.
pub mod Interfaces
use webhost.Base.{
  ℕ, zero, suc, ◌+◌, ◌%◌, ◌^◌, ◌-◌, Bool, true, false, not, List, [], ◌∷◌, ◌++◌, Option, none, some,
  if◌then◌else◌, length, get_or, leb, ltb, ◌==◌, ℤ, pos, negsuc, eq_ℤ,
}
use mathlib.Core.Option
use webhost.Qt.{QString, QByteArray, lit, Library}
use webhost.Profile.{Profile, ProfileSection, ProfileLine, set_source, string_value, int_value}
use webhost.Users.File.{empty_profile}

pub record Config : Type 0 where
  pub control_port : ℕ
  pub use_network_manager : Bool
  pub interface_names : List QString
  pub wifi_interface_name : QString
  pub ntp_configuration_file : QString
  pub ntp_service_name : QString
  pub service_command : QString
  pub service_respawn_delay : ℤ

-- `interfaceQuantity` and `interfaceName`
abbrev pub interface_quantity : Config → ℕ
interface_quantity c = length c.interface_names

unfoldable pub interface_name : Config → ℕ → QString
interface_name c n = if leb (interface_quantity c) n then [] else get_or c.interface_names n []

-- An int as a uint16_t.
abbrev pub to_port : ℤ → ℕ
to_port (pos n) = n % 2 ^ 16
to_port (negsuc n) = 2 ^ 16 - 1 - n % 2 ^ 16

-- The lines of a profile.
unfoldable pub line_count : List ProfileSection → ℕ
line_count [] = 0
line_count (s ∷ ss) = length s.lines + line_count ss

module _ (qt : Library) where
  open qt use {number}

  -- `QString().sprintf("NetworkInterface%d",inum+1)`
  unfoldable pub interface_tag : ℕ → QString
  interface_tag inum = lit "NetworkInterface" ++ number (pos (inum + 1))

  -- The loop reads names until a number is missing; `none` is a loop that ran out of fuel.
  unfoldable pub interface_loop : ℕ → Profile → ℕ → List QString → Option (List QString)
  interface_loop zero p inum names = none
  interface_loop (suc fuel) p inum names =
      let (iface, ok) = string_value p (lit "Webhost") (interface_tag inum) [] in
      let rest = interface_loop fuel p (inum + 1) (names ++ iface ∷ []) in
      if ok then rest else some names

  -- `load`, which keeps the names that are there and reads on behind them.
  unfoldable pub load : Option QByteArray → Config → Option Config
  load file c =
      let p = (set_source qt (empty_profile qt) (lit "/etc/webhost.conf") file).0 in
      let value = λ (tag default : QString). (string_value p (lit "Webhost") tag default).0 in
      let int = λ (tag : QString) (default : ℤ). (int_value qt p (lit "Webhost") tag default).0 in
      Option.map
        (λ names. record {
          control_port = to_port (int (lit "ControlPort") (pos 6352));
          use_network_manager = not (eq_ℤ 0 (int (lit "UseNetworkManager") (pos 0)));
          interface_names = names;
          wifi_interface_name = value (lit "WifiInterfaceName") [];
          ntp_configuration_file = value (lit "NtpConfigurationFile") (lit "/etc/ntp.conf");
          ntp_service_name = value (lit "NtpServiceName") (lit "ntpd");
          service_command = value (lit "ServiceCommand") [];
          service_respawn_delay = int (lit "ServiceRespawnDelay") (pos 100);
        })
        (interface_loop (suc (line_count p.sections)) p 0 c.interface_names)
