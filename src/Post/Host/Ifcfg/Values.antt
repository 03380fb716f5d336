-- ===== src/Post/Host/Ifcfg/Values.antt =====
-- The values that the command `ip` sets (src/webhostd/ip.cpp), and what is read of them
-- (src/wh/whcgipost.cpp).
use webhost.Base.{◌≡◌, refl, ap, ◌∙◌, [], ◌∷◌, if◌then◌else◌, arith, Bool-cases, inl, inr}
use webhost.Qt.{QString, lit, str_eq, Library, HostAddress}
use webhost.Daemon.Ip.{Params, has_param}
use webhost.Post.Host.Settings.{Files, Programs, IpConfig, Interface, remove_quotes}
use webhost.Post.Host.{set_param}
use webhost.Post.Host.Ifcfg.Steps.{Sets, netmask_only, gateway_only}
use webhost.Post.Host.Ifcfg.{apply_params}

module _ (qt : Library) (file : Files) (output : Programs) where
  abbrev pub State : Type 0
  State = IpConfig × Interface

  -- An address that one name of the file decides.
  abbrev pub IsOf : QString → (State → HostAddress) → Type 0
  IsOf name get =
      (n v : QString) (s : State)
      → get (set_param qt file output n v s) ≡ (if str_eq n name then qt.host_address v else get s)

  -- It is that of the name's value, if the name occurs.
  pub apply_params-IsOf :
      (name : QString) (get : State → HostAddress)
      → IsOf name get
      → (v : QString) (ps : Params) (s : State) → Sets name v ps
      → get (apply_params qt file output ps s)
        ≡ (if has_param ps name then qt.host_address (remove_quotes v) else get s)
  unfolding apply_params has_param
  apply_params-IsOf name get of v [] s h = refl
  apply_params-IsOf name get of v ((p, x) ∷ ps) s h =
      apply_params-IsOf name get of v ps (set_param qt file output p (remove_quotes x) s) h.1
      ∙ elim (Bool-cases (str_eq p name)) [
        | inl e ↦
            ground
              (arith, of p (remove_quotes x) s, ap (λ t. qt.host_address (remove_quotes t)) (h.0 e))
        | inr e ↦ ground (arith, of p (remove_quotes x) s)
      ]

  pub address-IsOf : IsOf (lit "IPADDR") (λ s. s.1.address)
  unfolding set_param
  address-IsOf n v s = ground arith

  pub netmask-IsOf : IsOf (lit "NETMASK") (λ s. s.1.netmask)
  unfolding set_param
  netmask-IsOf n v s = ground (arith, netmask_only n)

  pub gateway-IsOf : IsOf (lit "GATEWAY") (λ s. s.0.gateway)
  unfolding set_param
  gateway-IsOf n v s = ground (arith, gateway_only n)
