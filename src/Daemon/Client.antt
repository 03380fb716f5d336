-- ===== src/Daemon/Client.antt =====
-- The commands that a CGI program sends to the daemon (src/wh/whcgipost.cpp): `SendCommand` and what
-- calls it. A datagram is the address of its sender, 127.0.0.1, and its bytes.
pub mod RoundTrip
pub mod Upgrade
use webhost.Base.{ℕ, Bool, List, [], ◌∷◌, ◌++◌, if◌then◌else◌, take, length, pos}
use webhost.Qt.{QString, QByteArray, lit, is_empty, Library}

-- 127.0.0.1
abbrev pub localhost : ℕ
localhost = 2130706433

module _ (qt : Library) where
  -- As many bytes are sent as the text has code units.
  unfoldable pub send_command : QString → ℕ × QByteArray
  send_command cmd = (localhost, take (length cmd) (qt.to_utf8 cmd))

  unfoldable pub send_add_user_command : QString → QString → QString → ℕ × QByteArray
  send_add_user_command htpasswd_file username password = send_command (
      lit "ADDUSER "
      ++ (htpasswd_file ++ (lit " " ++ (username ++ (lit " " ++ (password ++ lit "!"))))))

  unfoldable pub send_add_user2_command : QString → QString → QString → QString → ℕ × QByteArray
  send_add_user2_command htpasswd_file realm username password = send_command (
      lit "ADDUSER2 "
      ++ (htpasswd_file
          ++ (lit " " ++ (realm ++ (lit " " ++ (username ++ (lit " " ++ (password ++ lit "!"))))))))

  unfoldable pub send_delete_user_command : QString → QString → ℕ × QByteArray
  send_delete_user_command htpasswd_file username =
      send_command (lit "DELETEUSER " ++ (htpasswd_file ++ (lit " " ++ (username ++ lit "!"))))

  unfoldable pub send_delete_user2_command : QString → QString → QString → ℕ × QByteArray
  send_delete_user2_command htpasswd_file realm username = send_command (
      lit "DELETEUSER2 "
      ++ (htpasswd_file ++ (lit " " ++ (realm ++ (lit " " ++ (username ++ lit "!"))))))

  -- The addresses are given as the texts that Qt prints.
  pub send_ip_command : ℕ → QString → QString → QString → QString → QString → Bool → ℕ × QByteArray
  send_ip_command iface_num addr mask gw dns1 dns2 enable_dhcp = send_command (
      lit "IP "
      ++ (qt.number (pos iface_num)
          ++ (lit " "
              ++ (addr
                  ++ (lit " "
                      ++ (mask
                          ++ (lit " "
                              ++ (gw
                                  ++ (lit " "
                                      ++ (dns1
                                          ++ (lit " "
                                              ++ (dns2
                                                  ++ (if enable_dhcp
                                                      then lit " 1!"
                                                      else lit " 0!")))))))))))))

  pub send_disable_ip_command : ℕ → ℕ × QByteArray
  send_disable_ip_command iface_num =
      send_command (lit "IP " ++ (qt.number (pos iface_num) ++ lit "!"))

  pub send_ntp_command : QString → QString → QString → ℕ × QByteArray
  send_ntp_command timezone ntp1 ntp2 =
      let first = if is_empty ntp1 then lit "0.0.0.0" else ntp1 in
      let second = if is_empty ntp2 then lit "0.0.0.0" else ntp2 in
      send_command
        (lit "NTP " ++ (timezone ++ (lit " " ++ (first ++ (lit " " ++ (second ++ lit "!"))))))

  pub send_reboot_command : ℕ × QByteArray
  send_reboot_command = send_command (lit "REBOOT!")

  pub send_restart_command : QString → ℕ × QByteArray
  send_restart_command sysname = send_command (lit "RESTART " ++ (sysname ++ lit "!"))

  pub send_connect_wifi_command : QString → QString → ℕ × QByteArray
  send_connect_wifi_command ssid passwd =
      send_command (lit "WIFI " ++ (ssid ++ (lit " " ++ (passwd ++ lit "!"))))

  pub send_disconnect_wifi_command : ℕ × QByteArray
  send_disconnect_wifi_command = send_command (lit "WIFI!")
