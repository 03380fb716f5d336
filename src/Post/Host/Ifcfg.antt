-- ===== src/Post/Host/Ifcfg.antt =====
-- What `Ip` (src/webhostd/ip.cpp) writes into a file of an interface is what `ReadIpConfig`
-- (src/wh/whcgipost.cpp) reads there.
pub mod Steps
pub mod Values
pub mod Filled
pub mod Command
use webhost.Base.{
  ℕ, zero, suc, ◌+◌, ◌<◌, ◌≡◌, ◌≢◌, refl, sym, ap, ap₂, ◌∙◌, true, false, List, [], ◌∷◌, ◌++◌,
  Option, some, none, if◌then◌else◌, arith, All, All-append, length, length-append, append_assoc,
  Bool-cases, inl, inr, get_or, ◌==◌,
}
use webhost.Qt.{
  QString, QByteArray, lit, join, str_eq, str_eq_iff, str_eq_refl, Lacks, Library, IsTight,
  StartsTight, EndsTight, HostAddress,
}
use webhost.Stdio.{
  fgets_lines, fgets_from, fgets_lines-line, line_text, FileLaws, IsPlain, line_text-IsPlain,
  utf8-IsPlain,
}
use webhost.Daemon.Ip.{Params, print_params}
use webhost.Post.Host.Settings.{Files, Programs, IpConfig, Interface, remove_quotes}
use webhost.Post.Host.{read_ifcfg, set_param}

-- Texts that stand on the two sides of a line's equals sign.
pub record IsSide (s : QString) : Type 0 where
  pub plain : IsPlain s
  pub no_equals : Lacks b'=' s
  pub no_lf : Lacks 10 s
  pub short : length s < 500

pub record IsName (qt : Library) (s : QString) : Type 0 where
  pub side : IsSide s
  pub starts : StartsTight qt.is_space s

pub record IsValue (qt : Library) (s : QString) : Type 0 where
  pub side : IsSide s
  pub ends : EndsTight qt.is_space s

abbrev pub IsPair : (qt : Library) → QString × QString → Type 0
IsPair qt (p, v) = IsName qt p × IsValue qt v

module _ (qt : Library) (file : Files) (output : Programs) where
  -- What a list of names and values sets, in order.
  unfoldable pub apply_params : Params → IpConfig × Interface → IpConfig × Interface
  apply_params [] s = s
  apply_params ((p, v) ∷ ps) s = apply_params ps (set_param qt file output p (remove_quotes v) s)

-- White space is none of the signs that stand in a line.
module _ (qt : Library) (laws : FileLaws qt) (equals : qt.is_space b'=' ≡ false) where
  abbrev pair_line : QString → QString → QString
  pair_line p v = p ++ (b'=' ∷ v)

  pair_line-IsTight : (p v : QString) → IsPair qt (p, v) → IsTight qt.is_space (pair_line p v)
  pair_line-IsTight p v h = record { starts = starts p h.0.starts; ends = behind p }
    where
      starts : (q : QString) → StartsTight qt.is_space q → StartsTight qt.is_space (q ++ (b'=' ∷ v))
      starts [] t = equals
      starts (x ∷ q) t = t

      ends : (q : QString) → EndsTight qt.is_space q → EndsTight qt.is_space (b'=' ∷ q)
      ends [] t = equals
      ends (x ∷ q) t = t

      behind : (q : QString) → EndsTight qt.is_space (q ++ (b'=' ∷ v))
      behind [] = ends v h.1.ends
      behind (x ∷ []) = ends v h.1.ends
      behind (x ∷ y ∷ q) = behind (y ∷ q)

  pair_line-split :
      (p v : QString)
      → IsPair qt (p, v)
      → qt.split (qt.trimmed (line_text qt (pair_line p v ++ 10 ∷ []))) (lit "=") ≡ p ∷ v ∷ []
  unfolding lit join
  pair_line-split p v h =
      let line = pair_line p v in
      let plain : IsPlain (line ++ 10 ∷ []) =
        All-append _ line _ (All-append _ p _ h.0.side.plain (omega arith, h.1.side.plain))
          (omega arith) in
      ap (λ t. qt.split (qt.trimmed t) (b'=' ∷ []))
        (line_text-IsPlain qt laws (line ++ 10 ∷ []) plain)
      ∙ ap (λ t. qt.split t (b'=' ∷ [])) (laws.trimmed_line line (pair_line-IsTight p v h))
      ∙ laws.split-join b'=' p (v ∷ []) (h.0.side.no_equals, (h.1.side.no_equals, tt))

  print_params-cons :
      (p v : QString) (ps : Params)
      → IsPair qt (p, v)
      → fgets_lines (print_params qt ((p, v) ∷ ps))
        ≡ (pair_line p v ++ 10 ∷ []) ∷ fgets_lines (print_params qt ps)
  unfolding print_params
  print_params-cons p v ps h =
      let rest = print_params qt ps in
      ap₂ (λ a b. fgets_lines (a ++ (b'=' ∷ (b ++ (10 ∷ rest)))))
        (utf8-IsPlain qt laws p h.0.side.plain) (utf8-IsPlain qt laws v h.1.side.plain)
      ∙ ap fgets_lines (sym (append_assoc p (b'=' ∷ v) (10 ∷ rest)))
      ∙ fgets_lines-line (pair_line p v) rest
          (All-append _ p _ h.0.side.no_lf (omega arith, h.1.side.no_lf))
          (omega (arith, h.0.side.short, h.1.side.short, length-append p (b'=' ∷ v)))

  no_lines :
      (file : Files) (output : Programs) (s : IpConfig × Interface)
      → read_ifcfg qt file output (fgets_lines (print_params qt [])) s ≡ s
  unfolding print_params fgets_from read_ifcfg
  no_lines file output s = refl

  one_line :
      (file : Files) (output : Programs) (p v : QString) (ls : List QByteArray)
      (s : IpConfig × Interface)
      → IsPair qt (p, v)
      → read_ifcfg qt file output ((pair_line p v ++ 10 ∷ []) ∷ ls) s
        ≡ read_ifcfg qt file output ls (set_param qt file output p (remove_quotes v) s)
  unfolding read_ifcfg
  one_line file output p v ls s h = rw (pair_line-split p v h)

  -- The printed lines are read as the names and values.
  pub read_ifcfg-print_params :
      (file : Files) (output : Programs) (ps : Params) (s : IpConfig × Interface)
      → All (IsPair qt) ps
      → read_ifcfg qt file output (fgets_lines (print_params qt ps)) s
        ≡ apply_params qt file output ps s
  unfolding apply_params
  read_ifcfg-print_params file output [] s h = no_lines file output s
  read_ifcfg-print_params file output ((p, v) ∷ ps) s h =
      ap (λ ls. read_ifcfg qt file output ls s) (print_params-cons p v ps h.0)
      ∙ one_line file output p v (fgets_lines (print_params qt ps)) s h.0
      ∙ read_ifcfg-print_params file output ps (set_param qt file output p (remove_quotes v) s) h.1
