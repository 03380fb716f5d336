-- ===== src/Daemon/Ip.antt =====
-- The command on the network's addresses: `Ip`, `IpSeedEntry` and `IpPruneEntry`
-- (src/webhostd/ip.cpp). The parallel lists of parameters and values are a list of pairs.
use webhost.Base.{
  ℕ, zero, suc, ◌+◌, ◌-◌, ◌%◌, ◌^◌, Bool, true, false, ◌&&◌, ◌||◌, not, List, [], ◌∷◌, ◌++◌, Option,
  none, some, if◌then◌else◌, leb, ◌==◌, length, get_or, pos, shr, low_bits,
}
use webhost.Qt.{
  QString, QByteArray, QStringList, lit, c_string, str_eq, is_empty, Library, HostAddress, is_null,
  to_ipv4,
}
use webhost.Config.{Config, interface_name}
use webhost.Stdio.{fgets_lines, line_text}
use webhost.Daemon.World.{World, Effect, run_program, replace_file, sync_disk}

-- The loop that counts the ones among the lowest bits.
unfoldable pub count_ones : ℕ → ℕ → ℕ
count_ones zero a = 0
count_ones (suc n) a = low_bits a 1 + count_ones n (shr a 1)

unfoldable pub mask_size : HostAddress → ℕ
mask_size mask = count_ones 32 (to_ipv4 mask)

abbrev pub Params : Type 0
Params = List (QString × QString)

unfoldable pub has_param : Params → QString → Bool
has_param [] param = false
has_param ((p, v) ∷ ps) param = if str_eq p param then true else has_param ps param

-- `IpSeedEntry`
unfoldable pub ip_seed_entry : QString → Params → Params
ip_seed_entry param ps = if has_param ps param then ps else ps ++ (param, lit "0.0.0.0") ∷ []

-- `IpPruneEntry`
unfoldable pub ip_prune_entry : QString → Params → Params
ip_prune_entry param [] = []
ip_prune_entry param ((p, v) ∷ ps) =
    if str_eq p param && str_eq v (lit "0.0.0.0") then ps else (p, v) ∷ ip_prune_entry param ps

unfoldable pub seed : Params → Params
seed ps = ip_seed_entry (lit "DNS2") (
    ip_seed_entry (lit "DNS1") (
      ip_seed_entry (lit "GATEWAY")
        (ip_seed_entry (lit "NETMASK") (ip_seed_entry (lit "IPADDR") ps))))

-- The word at a place of a command that has one there.
abbrev word : QStringList → ℕ → QString
word cmds n = get_or cmds n []

-- The last word asks for DHCP.
abbrev pub asks_dhcp : QStringList → Bool
asks_dhcp cmds = leb 8 (length cmds) && not (str_eq (word cmds 7) (lit "0"))

module _ (qt : Library) where
  open qt use {split, trimmed, to_uint, to_utf8, number, host_address}

  -- The value that a parameter gets.
  unfoldable pub new_value : QStringList → Bool → QString → QString → QString
  new_value cmds use_dhcp p v =
      if str_eq p (lit "IPADDR")
      then (if use_dhcp then [] else word cmds 2)
      else if str_eq p (lit "NETMASK")
      then (if use_dhcp then [] else word cmds 3)
      else if str_eq p (lit "GATEWAY")
      then (if use_dhcp then [] else word cmds 4)
      else if str_eq p (lit "DNS1")
      then (if use_dhcp
          then []
          else if is_null (host_address (word cmds 5))
          then v
          else word cmds 5)
      else if str_eq p (lit "DNS2")
      then (if use_dhcp
          then []
          else if is_null (host_address (word cmds 6))
          then v
          else word cmds 6)
      else if leb 8 (length cmds) && str_eq p (lit "BOOTPROTO")
      then (if str_eq (word cmds 7) (lit "0") then lit "none" else lit "dhcp")
      else v

  unfoldable pub set_values : QStringList → Bool → Params → Params
  set_values cmds use_dhcp [] = []
  set_values cmds use_dhcp ((p, v) ∷ ps) =
      (p, new_value cmds use_dhcp p v) ∷ set_values cmds use_dhcp ps

  -- The lines of the file that are a name and a value.
  unfoldable pub read_params : List QByteArray → Params
  read_params [] = []
  read_params (l ∷ ls) =
      let f0 = split (trimmed (line_text qt l)) (lit "=") in
      if length f0 == 2 then (word f0 0, word f0 1) ∷ read_params ls else read_params ls

  -- A file that cannot be read gives no parameters.
  unfoldable pub new_params : QStringList → Option QByteArray → Params
  new_params cmds none = []
  new_params cmds (some text) =
      let ps = seed (read_params (fgets_lines text)) in
      let use_dhcp = asks_dhcp cmds && has_param ps (lit "BOOTPROTO") in
      ip_prune_entry (lit "DNS2") (ip_prune_entry (lit "DNS1") (set_values cmds use_dhcp ps))

  unfoldable pub print_params : Params → QByteArray
  print_params [] = []
  print_params ((p, v) ∷ ps) =
      c_string (to_utf8 p) ++ (b'=' ∷ (c_string (to_utf8 v) ++ (10 ∷ print_params ps)))

  -- The number of the interface, less one, as an unsigned word.
  abbrev pub ifcfg_file : Config → QString → QString
  ifcfg_file c iface =
      lit "/etc/sysconfig/network-scripts/ifcfg-"
      ++ interface_name c (((to_uint iface).0 + (2 ^ 32 - 1)) % 2 ^ 32)

  -- The branch without NetworkManager.
  unfoldable pub rewrite_ifcfg : Config → World → QStringList → List Effect
  rewrite_ifcfg c w cmds =
      let name = ifcfg_file c (get_or cmds 1 w.past_words) in
      if leb 7 (length cmds) && w.is_writable (name ++ lit ".back")
      then replace_file name (print_params (new_params cmds (w.file name)))
        ∷ run_program (lit "service") (lit "network" ∷ lit "restart" ∷ [])
        ∷ sync_disk
        ∷ []
      else []

  -- `RunCommand("/bin/nmcli",args)` on the first interface.
  abbrev nmcli : QStringList → List Effect
  nmcli args = run_program (lit "/bin/nmcli") args ∷ []

  abbrev modify : Config → QStringList → List Effect
  modify c args = nmcli (lit "con" ∷ lit "mod" ∷ interface_name c 0 ∷ args)

  -- The first server that is set replaces the list, the next is added to it.
  unfoldable pub dns_effects : Config → QStringList → Bool → List Effect
  dns_effects c [] used = []
  dns_effects c (s ∷ ss) used =
      (if is_empty s
        then []
        else modify c ((if used then lit "+ipv4.dns" else lit "ipv4.dns") ∷ s ∷ []))
      ++ dns_effects c ss (used || not (is_empty s))

  unfoldable pub manual_effects : Config → QStringList → List Effect
  manual_effects c cmds =
      modify c (
        lit "ipv4.addresses"
        ∷ (word cmds 2 ++ (lit "/" ++ number (pos (mask_size (host_address (word cmds 3))))))
        ∷ [])
      ++ (modify c (lit "ipv4.gateway" ∷ word cmds 4 ∷ [])
          ++ (dns_effects c (word cmds 5 ∷ word cmds 6 ∷ []) false
              ++ modify c (lit "ipv4.method" ∷ lit "manual" ∷ [])))

  unfoldable pub dhcp_effects : Config → List Effect
  dhcp_effects c =
      modify c (lit "ipv4.method" ∷ lit "auto" ∷ [])
      ++ modify c (lit "ipv4.addresses" ∷ [] ∷ lit "ipv4.gateway" ∷ [] ∷ lit "ipv4.dns" ∷ [] ∷ [])

  unfoldable pub deactivate : Config → List Effect
  deactivate c =
      nmcli (lit "con" ∷ lit "down" ∷ interface_name c 0 ∷ [])
      ++ modify c (lit "autoconnect" ∷ lit "no" ∷ [])

  -- The settings of a command of eight words, and the interface down and up again.
  unfoldable pub activate : Config → QStringList → List Effect
  activate c cmds =
      (if str_eq (word cmds 7) (lit "0") then manual_effects c cmds else dhcp_effects c)
      ++ (nmcli (lit "con" ∷ lit "down" ∷ interface_name c 0 ∷ [])
          ++ (nmcli (lit "con" ∷ lit "up" ∷ interface_name c 0 ∷ [])
              ++ modify c (lit "autoconnect" ∷ lit "yes" ∷ [])))

  -- `Ip`; over NetworkManager a command of seven words asks for no DHCP.
  unfoldable pub handle_ip : Config → World → QStringList → List Effect
  handle_ip c w cmds =
      let normal = if length cmds == 7 then cmds ++ lit "0" ∷ [] else cmds in
      if c.use_network_manager
      then (if length cmds == 2
          then deactivate c
          else if length normal == 8
          then activate c normal
          else [])
      else rewrite_ifcfg c w cmds
