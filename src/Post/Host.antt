-- ===== src/Post/Host.antt =====
-- What a CGI program reads of the machine it runs on: `ReadIpConfig` of src/wh/whcgipost.cpp, with
-- the connections of src/wh/whwificonnection.h, and `timezoneList` and `currentTimezone`.
pub mod Settings
pub mod Connections
pub mod Netmask
pub mod NtpServers
pub mod Ifcfg
use webhost.Base.{
  ℕ, zero, suc, ◌+◌, ◌-◌, ◌*◌, ◌%◌, ◌^◌, Bool, true, false, ◌&&◌, ◌||◌, not, List, [], ◌∷◌, ◌++◌,
  Option, none, some, if◌then◌else◌, ltb, leb, ◌==◌, length, get_or, ℤ,
}
use webhost.Qt.{
  QChar, QString, QByteArray, QStringList, lit, str_eq, is_empty, Library, HostAddress,
  null_address, ipv4, is_null,
}
use webhost.Config.{Config, interface_name, interface_quantity}
use webhost.Stdio.{fgets_lines, line_text}
use webhost.Post.Host.Settings.{
  InterfaceMode, static, dhcp, disabled, WifiConnection, Interface, IpConfig, remove_quotes,
  shift_ones, shift_zeros, mask_of_size, set_cpuinfo, Files, Programs, field,
}
use webhost.Post.Host.Connections.{read_nmcli}

module _ (qt : Library) (file : Files) (output : Programs) where
  open qt use {split, trimmed, to_lower, host_address}

  -- One line of an ifcfg file; the name decides.
  unfoldable pub set_param : QString → QString → IpConfig × Interface → IpConfig × Interface
  set_param name value (st, i) =
      if str_eq name (lit "IPADDR")
      then (st, record i { address = host_address value })
      else if str_eq name (lit "GATEWAY")
      then (record st { gateway = host_address value }, i)
      else if str_eq name (lit "NETMASK")
      then (st, record i { netmask = host_address value })
      else if str_eq name (lit "DNS1")
      then (record st { dns1 = host_address value }, i)
      else if str_eq name (lit "DNS2")
      then (record st { dns2 = host_address value }, i)
      else if str_eq name (lit "BOOTPROTO")
      then (st, record i { mode = if str_eq value (lit "dhcp") then dhcp else static })
      else (st, i)

  unfoldable pub read_ifcfg : List QByteArray → IpConfig × Interface → IpConfig × Interface
  read_ifcfg [] p = p
  read_ifcfg (l ∷ ls) p =
      let f0 = split (trimmed (line_text qt l)) (lit "=") in
      read_ifcfg ls
        (if length f0 == 2 then set_param (field f0 0) (remove_quotes (field f0 1)) p else p)

  abbrev file_lines : QString → List QByteArray
  file_lines name = elim (file name) [ none ↦ [] | some text ↦ fgets_lines text ]

  unfoldable pub read_ifcfg_file : Config → IpConfig → IpConfig
  read_ifcfg_file c st =
      let netdev = interface_name c (length st.interfaces) in
      let fresh : Interface = record {
        mode = static;
        address = null_address;
        netmask = null_address;
      } in
      let (next, i) =
        read_ifcfg (file_lines (lit "/etc/sysconfig/network-scripts/ifcfg-" ++ netdev))
          (st, fresh) in
      record next { interfaces = next.interfaces ++ i ∷ [] }

  -- The loop over the interfaces that are configured.
  unfoldable pub read_interfaces : ℕ → Config → IpConfig → Bool → IpConfig
  read_interfaces zero c st eth_active = st
  read_interfaces (suc n) c st eth_active =
      let (next, active) =
        if c.use_network_manager
        then read_nmcli qt output c st eth_active
        else (read_ifcfg_file c st, eth_active) in
      read_interfaces n c next active

  -- The servers that a line of the NTP configuration names, until there are two.
  unfoldable pub read_ntp : ℕ → List QByteArray → QStringList
  read_ntp count [] = []
  read_ntp count (l ∷ ls) =
      let f0 = split (line_text qt l) (lit " ") in
      let found = str_eq (field f0 0) (lit "server") && leb 2 (length f0) in
      let rest = read_ntp (if found then count + 1 else count) ls in
      if ltb count 2 then (if found then field f0 1 ∷ rest else rest) else []

  unfoldable pub read_cpuinfo : List QByteArray → IpConfig → IpConfig
  read_cpuinfo [] st = st
  read_cpuinfo (l ∷ ls) st =
      let f0 = split (trimmed (line_text qt l)) (lit ":") in
      read_cpuinfo ls (
        if length f0 == 2
        then set_cpuinfo (to_lower (trimmed (field f0 0))) (trimmed (field f0 1)) st
        else st)

  abbrev new_ip_config : IpConfig
  new_ip_config = record {
    interfaces = [];
    gateway = null_address;
    dns1 = null_address;
    dns2 = null_address;
    wifi_active = false;
    wifi_connections = [];
    ntp_hostnames = [];
    cpuinfo_model_name = [];
    cpuinfo_hardware = [];
    cpuinfo_revision = [];
    cpuinfo_serial = [];
  }

  unfoldable pub read_ip_config : Config → IpConfig
  read_ip_config c =
      let st = read_interfaces (interface_quantity c) c new_ip_config false in
      read_cpuinfo (file_lines (lit "/proc/cpuinfo"))
        (record st { ntp_hostnames = read_ntp 0 (file_lines (lit "/etc/ntp.conf")) })

  -- The loop of `timezoneList` leaves out empty parts.
  unfoldable pub skip_empty : QStringList → QStringList
  skip_empty [] = []
  skip_empty (s ∷ ss) = if is_empty s then skip_empty ss else s ∷ skip_empty ss

  abbrev timedatectl : QString → QString
  timedatectl verb =
      output (lit "timedatectl") (lit "--no-pager" ∷ lit "--no-ask-password" ∷ verb ∷ [])

  unfoldable pub timezone_list : QStringList
  timezone_list = skip_empty (split (timedatectl (lit "list-timezones")) (10 ∷ []))

  -- The first line that names the time zone decides.
  unfoldable pub timezone_lines : QStringList → QString
  timezone_lines [] = []
  timezone_lines (l ∷ ls) =
      let f0 = split l (lit ":") in
      let name = trimmed (to_lower (field f0 0)) in
      let rest = timezone_lines ls in
      if leb 2 (length f0) && (str_eq name (lit "time zone") || str_eq name (lit "timezone"))
      then trimmed (field (skip_empty (split (field f0 1) (lit " "))) 0)
      else rest

  unfoldable pub current_timezone : QString
  current_timezone = timezone_lines (split (timedatectl (lit "status")) (10 ∷ []))
