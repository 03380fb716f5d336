-- ===== src/Post/Host/Ifcfg/Filled.antt =====
-- The parameters that the command `ip` (src/webhostd/ip.cpp) leaves in a file with fixed addresses.
use webhost.Base.{
  ◌<◌, ◌≤◌, ◌≡◌, ◌≢◌, refl, ap, ◌∙◌, Bool, true, false, [], ◌∷◌, some, if◌then◌else◌, arith, All,
  length,
}
use webhost.Qt.{
  is_null, QString, QByteArray, QStringList, lit, str_eq, str_eq_refl, Lacks, Library, HostAddress,
  TextLaws, EndsTight-All, StartsTight,
}
use webhost.Stdio.{fgets_lines, FileLaws}
use webhost.Daemon.Ip.{
  Params, has_param, ip_seed_entry, ip_prune_entry, new_value, set_values, read_params, seed,
  new_params, print_params,
}
use webhost.Post.Host.Settings.{Files, Programs, remove_quotes}
use webhost.Post.Host.{read_ifcfg}
use webhost.Post.Host.Ifcfg.{IsSide, IsName, IsValue, IsPair, read_ifcfg-print_params}
use webhost.Post.Host.Ifcfg.Steps.{
  Sets, netmask_only, gateway_only, has_param-seed_same, has_param-seed, has_param-set_values,
  has_param-prune, prune-All, seed-All, set_values-Sets,
}
use webhost.Post.Host.Ifcfg.Values.{State, IsOf, apply_params-IsOf}

-- A command that asks for fixed addresses.
abbrev pub fixed : QString → QString → QString → QString → QString → QString → QString → QStringList
fixed verb iface address netmask gateway dns1 dns2 =
    verb ∷ iface ∷ address ∷ netmask ∷ gateway ∷ dns1 ∷ dns2 ∷ lit "0" ∷ []

abbrev IsGraphic : QString → Type 0
IsGraphic = All (λ c. (33 ≤ c) × (c < 127) × (c ≢ b'='))

graphic-IsSide : (s : QString) → IsGraphic s → length s < 500 → IsSide s
graphic-IsSide s g l = record {
  plain = plain s g;
  no_equals = no_equals s g;
  no_lf = no_lf s g;
  short = l;
}
  where
    plain : (s : QString) → IsGraphic s → All (λ c. (c < 128) × (c ≢ 0)) s
    plain [] h = tt
    plain (c ∷ s) h = ((omega (arith, h.0), λ e. omega (arith, h.0, e)), plain s h.1)

    no_equals : (s : QString) → IsGraphic s → Lacks b'=' s
    no_equals [] h = tt
    no_equals (c ∷ s) h = (h.0.2, no_equals s h.1)

    no_lf : (s : QString) → IsGraphic s → Lacks 10 s
    no_lf [] h = tt
    no_lf (c ∷ s) h = ((λ e. omega (arith, h.0, e)), no_lf s h.1)

module _ (qt : Library) (text_laws : TextLaws qt) where
  graphic_spaces : (s : QString) → IsGraphic s → All (λ c. qt.is_space c ≡ false) s
  graphic_spaces [] g = tt
  graphic_spaces (c ∷ s) g = (text_laws.space_graphic c g.0.0 g.0.1, graphic_spaces s g.1)

  graphic-IsValue : (s : QString) → IsGraphic s → length s < 500 → IsValue qt s
  graphic-IsValue s g l = record {
    side = graphic-IsSide s g l;
    ends = EndsTight-All qt.is_space s (graphic_spaces s g);
  }

  graphic-IsName : (s : QString) → IsGraphic s → length s < 500 → IsName qt s
  graphic-IsName s g l = record { side = graphic-IsSide s g l; starts = starts s g }
    where
      starts : (s : QString) → IsGraphic s → StartsTight qt.is_space s
      starts [] h = tt
      starts (c ∷ s) h = text_laws.space_graphic c h.0.0 h.0.1

  graphic-IsPair :
      (p v : QString)
      → IsGraphic p
      → IsGraphic v
      → length p < 500
      → length v < 500
      → IsPair qt (p, v)
  graphic-IsPair p v gp gv lp lv = (graphic-IsName p gp lp, graphic-IsValue v gv lv)

  seed-IsPair : (ps : Params) → All (IsPair qt) ps → All (IsPair qt) (seed ps)
  unfolding seed lit
  seed-IsPair ps h =
      let new = λ (p : QString) (g : IsGraphic p) (l : length p < 500).
        graphic-IsPair p (lit "0.0.0.0") g (omega arith) l (omega arith) in
      let add = seed-All (IsPair qt) in
      add (lit "DNS2") _ (new _ (omega arith) (omega arith)) (
        add (lit "DNS1") _ (new _ (omega arith) (omega arith)) (
          add (lit "GATEWAY") _ (new _ (omega arith) (omega arith)) (
            add (lit "NETMASK") _ (new _ (omega arith) (omega arith))
              (add (lit "IPADDR") ps (new _ (omega arith) (omega arith)) h))))

  if_IsValue :
      (b : Bool) (x y : QString) → IsValue qt x → IsValue qt y → IsValue qt (if b then x else y)
  if_IsValue true x y hx hy = hx
  if_IsValue false x y hx hy = hy

  module _ (verb iface address netmask gateway dns1 dns2 : QString)
      (words : All (IsValue qt) (address ∷ netmask ∷ gateway ∷ dns1 ∷ dns2 ∷ [])) where
    abbrev cmds : QStringList
    cmds = fixed verb iface address netmask gateway dns1 dns2

    new_value-IsValue : (p x : QString) → IsValue qt x → IsValue qt (new_value qt cmds false p x)
    unfolding new_value lit
    new_value-IsValue p x h =
        let is = λ (name : QString). str_eq p name in
        let null1 = is_null (qt.host_address dns1) in
        let null2 = is_null (qt.host_address dns2) in
        if_IsValue (is (lit "IPADDR")) address _ words.0 (
          if_IsValue (is (lit "NETMASK")) netmask _ words.1.0 (
            if_IsValue (is (lit "GATEWAY")) gateway _ words.1.1.0 (
              if_IsValue (is (lit "DNS1")) _ _ (if_IsValue null1 x dns1 h words.1.1.1.0) (
                if_IsValue (is (lit "DNS2")) _ _ (if_IsValue null2 x dns2 h words.1.1.1.1.0) (
                  if_IsValue (is (lit "BOOTPROTO")) _ x
                    (if_IsValue (str_eq (lit "0") (lit "0")) (lit "none") (lit "dhcp")
                      (graphic-IsValue (lit "none") (omega arith) (omega arith))
                      (graphic-IsValue (lit "dhcp") (omega arith) (omega arith)))
                    h)))))

    set_values-IsPair :
        (ps : Params) → All (IsPair qt) ps → All (IsPair qt) (set_values qt cmds false ps)
    unfolding set_values
    set_values-IsPair [] h = tt
    set_values-IsPair ((p, x) ∷ ps) h =
        ((h.0.0, new_value-IsValue p x h.0.1), set_values-IsPair ps h.1)

    -- The parameters of the new file, before those that are not set are left out.
    abbrev filled : QByteArray → Params
    filled text = set_values qt cmds false (seed (read_params qt (fgets_lines text)))

    abbrev pruned : QByteArray → Params
    pruned text = ip_prune_entry (lit "DNS2") (ip_prune_entry (lit "DNS1") (filled text))

    new_params-pruned : (text : QByteArray) → new_params qt cmds (some text) ≡ pruned text
    unfolding new_params
    new_params-pruned text = rw (str_eq_refl (lit "0"))

    pruned-IsPair :
        (text : QByteArray)
        → All (IsPair qt) (read_params qt (fgets_lines text))
        → All (IsPair qt) (pruned text)
    pruned-IsPair text h =
        let ps = set_values-IsPair _ (seed-IsPair (read_params qt (fgets_lines text)) h) in
        prune-All (IsPair qt) (lit "DNS2") _ (prune-All (IsPair qt) (lit "DNS1") (filled text) ps)

    pruned-Sets :
        (text : QByteArray) (name v : QString)
        → ((p x : QString) → str_eq p name ≡ true → new_value qt cmds false p x ≡ v)
        → Sets name v (pruned text)
    pruned-Sets text name v h = prune-All _ (lit "DNS2") _ (
        prune-All _ (lit "DNS1") (filled text)
          (set_values-Sets qt cmds false name v h (seed (read_params qt (fgets_lines text)))))

    pub pruned-has_param :
        (text : QByteArray) (name : QString)
        → str_eq (lit "DNS1") name ≡ false
        → str_eq (lit "DNS2") name ≡ false
        → has_param (seed (read_params qt (fgets_lines text))) name ≡ true
        → has_param (pruned text) name ≡ true
    pruned-has_param text name one two h =
        has_param-prune (lit "DNS2") name (ip_prune_entry (lit "DNS1") (filled text)) two
        ∙ has_param-prune (lit "DNS1") name (filled text) one
        ∙ has_param-set_values qt cmds false (seed (read_params qt (fgets_lines text))) name
        ∙ h

    pub address_value :
        (p x : QString) → str_eq p (lit "IPADDR") ≡ true → new_value qt cmds false p x ≡ address
    unfolding new_value
    address_value p x e = rw e

    pub netmask_value :
        (p x : QString) → str_eq p (lit "NETMASK") ≡ true → new_value qt cmds false p x ≡ netmask
    unfolding new_value
    netmask_value p x e = rw ((netmask_only p e).0, e)

    pub gateway_value :
        (p x : QString) → str_eq p (lit "GATEWAY") ≡ true → new_value qt cmds false p x ≡ gateway
    unfolding new_value
    gateway_value p x e = rw ((gateway_only p e).0, (gateway_only p e).1, e)

    pub seeded :
        (ps : Params)
        → (has_param (seed ps) (lit "IPADDR") ≡ true)
          × (has_param (seed ps) (lit "NETMASK") ≡ true)
          × (has_param (seed ps) (lit "GATEWAY") ≡ true)
    unfolding seed
    seeded ps =
        let one = ip_seed_entry (lit "IPADDR") ps in
        let two = ip_seed_entry (lit "NETMASK") one in
        let three = ip_seed_entry (lit "GATEWAY") two in
        let keep = λ (m n : QString) (qs : Params). has_param-seed m n qs in
        let dns = λ (n : QString) (h : has_param three n ≡ true).
          has_param-seed (lit "DNS2") n _ (has_param-seed (lit "DNS1") n three h) in
        (
          dns (lit "IPADDR") (
              keep (lit "GATEWAY") (lit "IPADDR") two
                (keep (lit "NETMASK") (lit "IPADDR") one (has_param-seed_same (lit "IPADDR") ps))),
          dns (lit "NETMASK")
              (keep (lit "GATEWAY") (lit "NETMASK") two (has_param-seed_same (lit "NETMASK") one)),
          dns (lit "GATEWAY") (has_param-seed_same (lit "GATEWAY") two),
        )

    module _ (laws : FileLaws qt) (file : Files) (output : Programs) where
      -- What is read of an address that one name decides.
      pub read_param :
          (text : QByteArray) (s : State qt file output) (name v : QString)
          (get : State qt file output → HostAddress)
          → All (IsPair qt) (read_params qt (fgets_lines text))
          → IsOf qt file output name get
          → ((p x : QString) → str_eq p name ≡ true → new_value qt cmds false p x ≡ v)
          → has_param (pruned text) name ≡ true
          → get (
              read_ifcfg qt file output
                (fgets_lines (print_params qt (new_params qt cmds (some text))))
                s)
            ≡ qt.host_address (remove_quotes v)
      read_param text s name v get h of value has =
          ap (λ ps. get (read_ifcfg qt file output (fgets_lines (print_params qt ps)) s))
            (new_params-pruned text)
          ∙ ap get (
              read_ifcfg-print_params qt laws
                (text_laws.space_graphic b'=' (omega arith) (omega arith)) file output (pruned text)
                s (pruned-IsPair text h))
          ∙ apply_params-IsOf qt file output name get of v (pruned text) s
              (pruned-Sets text name v value)
          ∙ rw has refl
