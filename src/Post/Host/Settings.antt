-- ===== src/Post/Host/Settings.antt =====
-- The settings of the machine (src/wh/whcgipost.h, src/wh/whwificonnection.h) and the small steps of
-- `ReadIpConfig` of src/wh/whcgipost.cpp: quotes, masks and the lines of /proc/cpuinfo.
use webhost.Base.{
  ℕ, zero, suc, ◌+◌, ◌-◌, ◌*◌, ◌%◌, ◌^◌, Bool, List, [], ◌∷◌, Option, if◌then◌else◌, ◌==◌, get_or,
  ℤ,
}
use webhost.Qt.{QString, QByteArray, QStringList, lit, str_eq, HostAddress}

pub data InterfaceMode : Type 0 where
  static dhcp disabled : InterfaceMode

pub record WifiConnection : Type 0 where
  pub in_use : Bool
  pub ssid : QString
  pub mode : QString
  pub channel : ℤ
  pub rate : QString
  pub signal : ℤ
  pub bars : QString
  pub security : QString

-- The last entries of the vectors of modes, addresses and masks.
pub record Interface : Type 0 where
  pub mode : InterfaceMode
  pub address : HostAddress
  pub netmask : HostAddress

pub record IpConfig : Type 0 where
  pub interfaces : List Interface
  pub gateway : HostAddress
  pub dns1 : HostAddress
  pub dns2 : HostAddress
  pub wifi_active : Bool
  pub wifi_connections : List WifiConnection
  pub ntp_hostnames : QStringList
  pub cpuinfo_model_name : QString
  pub cpuinfo_hardware : QString
  pub cpuinfo_revision : QString
  pub cpuinfo_serial : QString

-- `replace("\"","")`
unfoldable pub remove_quotes : QString → QString
remove_quotes [] = []
remove_quotes (c ∷ s) = if c == 34 then remove_quotes s else c ∷ remove_quotes s

-- The loops that build a mask of 32 bits: so many ones, then zeros.
unfoldable pub shift_ones : ℕ → ℕ → ℕ
shift_ones zero mask = mask
shift_ones (suc n) mask = shift_ones n ((mask * 2 + 1) % 2 ^ 32)

unfoldable pub shift_zeros : ℕ → ℕ → ℕ
shift_zeros zero mask = mask
shift_zeros (suc n) mask = shift_zeros n ((mask * 2) % 2 ^ 32)

unfoldable pub mask_of_size : ℕ → ℕ
mask_of_size masksize = shift_zeros (32 - masksize) (shift_ones masksize 0)

unfoldable pub set_cpuinfo : QString → QString → IpConfig → IpConfig
set_cpuinfo name value st =
    if str_eq name (lit "model name")
    then record st { cpuinfo_model_name = value }
    else if str_eq name (lit "hardware")
    then record st { cpuinfo_hardware = value }
    else if str_eq name (lit "revision")
    then record st { cpuinfo_revision = value }
    else if str_eq name (lit "serial")
    then record st { cpuinfo_serial = value }
    else st

-- What the files hold by their names, and what the programs print by their arguments.
abbrev pub Files : Type 0
Files = QString → Option QByteArray

abbrev pub Programs : Type 0
Programs = QString → QStringList → QString

abbrev pub field : QStringList → ℕ → QString
field f n = get_or f n []
