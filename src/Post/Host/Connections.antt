-- ===== src/Post/Host/Connections.antt =====
-- The branch of `ReadIpConfig` of src/wh/whcgipost.cpp that asks NetworkManager.
use webhost.Base.{
  ℕ, Bool, false, ◌&&◌, ◌||◌, not, List, [], ◌∷◌, ◌++◌, if◌then◌else◌, ltb, ◌==◌, length,
}
use webhost.Qt.{
  QString, QStringList, lit, str_eq, is_empty, Library, HostAddress, null_address, ipv4, is_null,
}
use webhost.Config.{Config, interface_name}
use webhost.Post.Host.Settings.{
  static, dhcp, disabled, WifiConnection, Interface, IpConfig, mask_of_size, Programs, field,
}

module _ (qt : Library) (output : Programs) where
  open qt use {split, trimmed, to_lower, to_uint, to_int, host_address}

  abbrev nmcli : QStringList → QString
  nmcli args = output (lit "/bin/nmcli") args

  -- A connection of the interface is listed.
  unfoldable pub lists_connection : QString → QStringList → Bool
  lists_connection name [] = false
  lists_connection name (l ∷ ls) =
      let f1 = split (trimmed l) (lit ":") in
      (length f1 == 4 && str_eq (trimmed (field f1 3)) name) || lists_connection name ls

  unfoldable pub lists_wifi : QStringList → Bool
  lists_wifi [] = false
  lists_wifi (l ∷ ls) =
      let f1 = split (trimmed l) (lit ":") in
      (length f1 == 4 && str_eq (field f1 1) (lit "wifi")) || lists_wifi ls

  unfoldable pub wifi_lines : QStringList → List WifiConnection
  wifi_lines [] = []
  wifi_lines (l ∷ ls) =
      let f1 = split l (lit ":") in
      (if length f1 == 8 && not (is_empty (trimmed (field f1 1)))
        then (record {
          in_use = not (is_empty (trimmed (field f1 0)));
          ssid = trimmed (field f1 1);
          mode = trimmed (field f1 2);
          channel = (to_int (field f1 3)).0;
          rate = trimmed (field f1 4);
          signal = (to_int (field f1 5)).0;
          bars = field f1 6;
          security = field f1 7;
        })
          ∷ []
        else [])
      ++ wifi_lines ls

  abbrev shown : QString → QString → QString
  shown value name = nmcli (lit "-g" ∷ value ∷ lit "connection" ∷ lit "show" ∷ name ∷ [])

  -- The address and the mask that a text such as `192.168.1.5/24` gives.
  unfoldable pub read_addresses : QString → Interface → Interface
  read_addresses text i =
      let f0 = split text (lit "/") in
      let address = host_address (field f0 0) in
      let (masksize, ok) = to_uint (field f0 1) in
      if length f0 == 2
      then record i {
        address = address;
        netmask = if not (is_null address) && ok then ipv4 (mask_of_size masksize) else i.netmask;
      }
      else i

  -- An entry of the list of DNS servers; one that is not there leaves a null address.
  abbrev dns_entry : QStringList → ℕ → HostAddress
  dns_entry f0 n = if ltb n (length f0) then host_address (trimmed (field f0 n)) else null_address

  -- The interface behind those that are read, over NetworkManager. The flag says that an interface
  -- up to this one is active.
  unfoldable pub read_nmcli : Config → IpConfig → Bool → IpConfig × Bool
  read_nmcli c st eth_active =
      let name = interface_name c (length st.interfaces) in
      let active =
        eth_active
        || lists_connection name
            (split (nmcli (lit "-t" ∷ lit "con" ∷ lit "show" ∷ lit "--active" ∷ [])) (10 ∷ [])) in
      let fresh : Interface = record {
        mode = static;
        address = null_address;
        netmask = null_address;
      } in
      let auto = str_eq (to_lower (trimmed (shown (lit "ipv4.method") name))) (lit "auto") in
      let shown_gateway = host_address (shown (lit "ip4.gateway") name) in
      let f0 = split (shown (lit "ip4.dns") name) (lit "|") in
      let i =
        if active
        then read_addresses (shown (lit "ipv4.addresses") name)
            (record fresh { mode = if auto then dhcp else static })
        else record fresh { mode = disabled } in
      (
        record st {
          interfaces = st.interfaces ++ i ∷ [];
          gateway = if active && not (is_null shown_gateway) then shown_gateway else st.gateway;
          dns1 = if active then dns_entry f0 0 else st.dns1;
          dns2 = if active then dns_entry f0 1 else st.dns2;
          wifi_active =
              st.wifi_active
              || lists_wifi (split (nmcli (lit "-t" ∷ lit "device" ∷ lit "status" ∷ [])) (10 ∷ []));
          wifi_connections =
              st.wifi_connections
              ++ wifi_lines (
                  split (nmcli (lit "-t" ∷ lit "device" ∷ lit "wifi" ∷ lit "list" ∷ [])) (10 ∷ []));
        },
        active,
      )
