-- ===== src/Post/Host/Ifcfg/Command.antt =====
-- From the command `ip` (src/webhostd/ip.cpp) to the addresses that a CGI program reads
-- (src/wh/whcgipost.cpp).
use webhost.Base.{◌≡◌, refl, ◌∙◌, true, false, [], ◌∷◌, ◌++◌, some, All}
use webhost.Qt.{QString, QByteArray, QStringList, lit, str_eq, Library, TextLaws}
use webhost.Config.{Config}
use webhost.Stdio.{fgets_lines, FileLaws}
use webhost.Daemon.World.{World, replace_file, run_program, sync_disk}
use webhost.Daemon.Ip.{read_params, new_params, print_params, handle_ip, rewrite_ifcfg, ifcfg_file}
use webhost.Post.Host.Settings.{Files, Programs, remove_quotes}
use webhost.Post.Host.{read_ifcfg}
use webhost.Post.Host.Ifcfg.{IsValue, IsPair}
use webhost.Post.Host.Ifcfg.Values.{State, address-IsOf, netmask-IsOf, gateway-IsOf}
use webhost.Post.Host.Ifcfg.Filled.{
  fixed, read_param, pruned-has_param, seeded, address_value, netmask_value, gateway_value,
}

module _ (qt : Library) (text_laws : TextLaws qt) where
  without_manager :
      (c : Config) (w : World) (words : QStringList)
      → c.use_network_manager ≡ false
      → handle_ip qt c w words ≡ rewrite_ifcfg qt c w words
  unfolding handle_ip
  without_manager c w words e = rw e

  rewrite_ifcfg-fixed :
      (c : Config) (w : World) (verb iface address netmask gateway dns1 dns2 : QString)
      (text : QByteArray)
      → w.is_writable (ifcfg_file qt c iface ++ lit ".back") ≡ true
      → w.file (ifcfg_file qt c iface) ≡ some text
      → rewrite_ifcfg qt c w (fixed verb iface address netmask gateway dns1 dns2)
        ≡ replace_file (ifcfg_file qt c iface) (
            print_params qt
              (new_params qt (fixed verb iface address netmask gateway dns1 dns2) (some text)))
          ∷ run_program (lit "service") (lit "network" ∷ lit "restart" ∷ [])
          ∷ sync_disk
          ∷ []
  unfolding rewrite_ifcfg
  rewrite_ifcfg-fixed c w verb iface address netmask gateway dns1 dns2 text writable old =
      rw (writable, old)

  -- Over a library with the documented laws of texts and files, where NetworkManager is not used, the
  -- file of the interface can be read and written, its names and values and the command's words can
  -- stand on a line: the command `ip` with fixed addresses replaces the file and restarts the network,
  -- and from the new file a CGI program reads the address, the mask and the gateway of the command,
  -- whatever it had read before.
  pub read_ifcfg-handle_ip :
      (laws : FileLaws qt) (file : Files) (output : Programs) (c : Config) (w : World)
      (verb iface address netmask gateway dns1 dns2 : QString) (text : QByteArray)
      (s : State qt file output)
      → c.use_network_manager ≡ false
      → w.is_writable (ifcfg_file qt c iface ++ lit ".back") ≡ true
      → w.file (ifcfg_file qt c iface) ≡ some text
      → All (IsPair qt) (read_params qt (fgets_lines text))
      → All (IsValue qt) (address ∷ netmask ∷ gateway ∷ dns1 ∷ dns2 ∷ [])
      → (bytes : QByteArray) × (handle_ip qt c w
            (fixed verb iface address netmask gateway dns1 dns2)
          ≡ replace_file (ifcfg_file qt c iface) bytes
            ∷ run_program (lit "service") (lit "network" ∷ lit "restart" ∷ [])
            ∷ sync_disk
            ∷ [])
        × ((read_ifcfg qt file output (fgets_lines bytes) s).1.address
            ≡ qt.host_address (remove_quotes address))
        × ((read_ifcfg qt file output (fgets_lines bytes) s).1.netmask
            ≡ qt.host_address (remove_quotes netmask))
        × ((read_ifcfg qt file output (fgets_lines bytes) s).0.gateway
            ≡ qt.host_address (remove_quotes gateway))
  read_ifcfg-handle_ip laws file output c w verb iface address netmask gateway dns1 dns2 text s nm
        writable old h words =
      let read =
        read_param qt text_laws verb iface address netmask gateway dns1 dns2 words laws file output
          text s in
      let has =
        pruned-has_param qt text_laws verb iface address netmask gateway dns1 dns2 words text in
      let there =
        seeded qt text_laws verb iface address netmask gateway dns1 dns2 words
          (read_params qt (fgets_lines text)) in
      (
        print_params qt
            (new_params qt (fixed verb iface address netmask gateway dns1 dns2) (some text)),
        without_manager c w (fixed verb iface address netmask gateway dns1 dns2) nm
            ∙ rewrite_ifcfg-fixed c w verb iface address netmask gateway dns1 dns2 text writable
                old,
        read (lit "IPADDR") address (λ t. t.1.address) h (address-IsOf qt file output)
            (address_value qt text_laws verb iface address netmask gateway dns1 dns2 words)
            (has (lit "IPADDR") (unfold lit str_eq in refl) (unfold lit str_eq in refl) there.0),
        read (lit "NETMASK") netmask (λ t. t.1.netmask) h (netmask-IsOf qt file output)
            (netmask_value qt text_laws verb iface address netmask gateway dns1 dns2 words)
            (has (lit "NETMASK") (unfold lit str_eq in refl) (unfold lit str_eq in refl) there.1),
        read (lit "GATEWAY") gateway (λ t. t.0.gateway) h (gateway-IsOf qt file output)
            (gateway_value qt text_laws verb iface address netmask gateway dns1 dns2 words)
            (has (lit "GATEWAY") (unfold lit str_eq in refl) (unfold lit str_eq in refl) there.2),
      )
