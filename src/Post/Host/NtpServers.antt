-- ===== src/Post/Host/NtpServers.antt =====
-- The servers that `Ntp` (src/webhostd/ntp.cpp) writes are those that `ReadIpConfig`
-- (src/wh/whcgipost.cpp) reads.
use webhost.Base.{
  ℕ, zero, suc, ◌+◌, ◌<◌, ◌≤◌, ◌≡◌, refl, ap, ◌∙◌, get_or, ◌==◌, true, false, List, [], ◌∷◌, ◌++◌,
  some, none, if◌then◌else◌, arith, All, All-append, length, length-append, take, append_assoc,
  Bool-cases, inl, inr, ltb,
}
use webhost.Qt.{QString, QByteArray, QStringList, lit, join, str_eq, str_eq_refl, Lacks, Library}
use webhost.Stdio.{
  fgets_lines, fgets_from, fgets_lines-line, line_text, FileLaws, IsPlain, line_text-IsPlain,
  utf8-IsPlain,
}
use webhost.Config.{Config}
use webhost.Daemon.World.{World, run_program, replace_file, sync_disk}
use webhost.Daemon.System.{server_lines, ntp_file, handle_ntp}
use webhost.Post.Host.Settings.{Files, Programs, IpConfig, set_cpuinfo}
use webhost.Post.Host.{read_ntp, read_cpuinfo, read_ip_config}

-- The name of a server that fits on a line.
pub record IsServer (s : QString) : Type 0 where
  pub plain : IsPlain s
  pub no_space : Lacks b' ' s
  pub no_lf : Lacks 10 s
  pub short : length s < 1000

-- The servers that are set.
pub set_servers : QStringList → QStringList
set_servers [] = []
set_servers (s ∷ ss) = if str_eq s (lit "0.0.0.0") then set_servers ss else s ∷ set_servers ss

module _ (qt : Library) (file : Files) (output : Programs) (laws : FileLaws qt) where
  -- A line of words is split into them.
  line_words :
      (w : QString) (ws : QStringList)
      → IsPlain (join (w ∷ ws) (lit " "))
      → All (Lacks b' ') (w ∷ ws)
      → qt.split (line_text qt (join (w ∷ ws) (lit " "))) (lit " ") ≡ w ∷ ws
  unfolding lit
  line_words w ws p h =
      ap (λ t. qt.split t (lit " ")) (line_text-IsPlain qt laws (join (w ∷ ws) (lit " ")) p)
      ∙ laws.split-join b' ' w ws h

  abbrev server_line : QString → QByteArray
  server_line s = lit "server " ++ (s ++ lit " iburst")

  server_line-split :
      (s : QString)
      → IsServer s
      → qt.split (line_text qt (server_line s ++ 10 ∷ [])) (lit " ")
        ≡ lit "server" ∷ s ∷ (lit "iburst" ++ 10 ∷ []) ∷ []
  unfolding lit join
  server_line-split s h =
      let words = lit "server" ∷ s ∷ (lit "iburst" ++ 10 ∷ []) ∷ [] in
      let text : server_line s ++ 10 ∷ [] ≡ join words (lit " ") = simp append_assoc in
      let plain : IsPlain (join words (lit " ")) =
        All-append _ (lit "server ") _ (omega arith)
          (All-append _ s (lit " iburst" ++ 10 ∷ []) h.plain (omega arith)) in
      ap (λ t. qt.split (line_text qt t) (lit " ")) text
      ∙ line_words (lit "server") (s ∷ (lit "iburst" ++ 10 ∷ []) ∷ []) plain
          (omega arith, (h.no_space, (omega arith, tt)))

  server_lines-cons :
      (s : QString) (ss : QStringList)
      → IsServer s
      → str_eq s (lit "0.0.0.0") ≡ false
      → fgets_lines (server_lines qt (s ∷ ss))
        ≡ (server_line s ++ 10 ∷ []) ∷ fgets_lines (server_lines qt ss)
  unfolding server_lines lit
  server_lines-cons s ss h e =
      let text : server_lines qt (s ∷ ss) ≡ server_line s ++ (10 ∷ server_lines qt ss) =
        rw (e, utf8-IsPlain qt laws s h.plain) (simp append_assoc) in
      ap fgets_lines text
      ∙ fgets_lines-line (server_line s) (server_lines qt ss)
          (All-append _ (lit "server ") _ (omega arith)
            (All-append _ s (lit " iburst") h.no_lf (omega arith)))
          (omega (
            arith,
            h.short,
            length-append (lit "server ") (s ++ lit " iburst"),
            length-append s (lit " iburst"),
          ))

  no_lines : (count : ℕ) → read_ntp qt file output count (fgets_lines (server_lines qt [])) ≡ []
  unfolding server_lines fgets_from read_ntp
  no_lines count = refl

  skipped :
      (s : QString) (ss : QStringList)
      → str_eq s (lit "0.0.0.0") ≡ true
      → server_lines qt (s ∷ ss) ≡ server_lines qt ss
  unfolding server_lines
  skipped s ss e = rw e

  -- No more is read when two are there.
  read_none : (ls : List QByteArray) (count : ℕ) → 2 ≤ count → read_ntp qt file output count ls ≡ []
  unfolding read_ntp
  read_none [] count h = refl
  read_none (l ∷ ls) count h = let e : ltb count 2 ≡ false = ground arith in rw e

  -- A line of a server is read while there is room for it.
  read_one :
      (s : QString) (ls : List QByteArray) (count : ℕ)
      → IsServer s
      → count < 2
      → read_ntp qt file output count ((server_line s ++ 10 ∷ []) ∷ ls)
        ≡ s ∷ read_ntp qt file output (count + 1) ls
  unfolding read_ntp
  read_one s ls count h lt =
      let e : ltb count 2 ≡ true = ground arith in
      rw (e, server_line-split s h, str_eq_refl (lit "server"))

  read_servers :
      (ss : QStringList) (room count : ℕ)
      → count + room ≡ 2
      → All IsServer ss
      → read_ntp qt file output count (fgets_lines (server_lines qt ss))
        ≡ take room (set_servers ss)
  unfolding set_servers
  read_servers ss zero count n h =
      read_none (fgets_lines (server_lines qt ss)) count (omega (arith, n))
  read_servers [] (suc room) count n h = no_lines count
  read_servers (s ∷ ss) (suc room) count n h = elim (Bool-cases (str_eq s (lit "0.0.0.0"))) [
    | inl e ↦
        ap (λ b. read_ntp qt file output count (fgets_lines b)) (skipped s ss e)
        ∙ read_servers ss (suc room) count n h.1
        ∙ rw e refl
    | inr e ↦
        ap (read_ntp qt file output count) (server_lines-cons s ss h.0 e)
        ∙ read_one s (fgets_lines (server_lines qt ss)) count h.0 (omega (arith, n))
        ∙ ap (◌∷◌ s) (read_servers ss room (count + 1) (omega (arith, n)) h.1)
        ∙ rw e refl
  ]

  -- A line that does not begin with the word is passed over.
  other_line :
      (l : QByteArray) (ls : List QByteArray) (w : QString) (ws : QStringList)
      → qt.split (line_text qt l) (lit " ") ≡ w ∷ ws
      → str_eq w (lit "server") ≡ false
      → read_ntp qt file output 0 (l ∷ ls) ≡ read_ntp qt file output 0 ls
  unfolding read_ntp
  other_line l ls w ws words e = rw (words, e)

  ntp_file-lines :
      (ss : QStringList)
      → fgets_lines (ntp_file qt ss)
        ≡ (lit "driftfile=/var/lib/ntp/drift" ++ 10 ∷ [])
          ∷ (lit "restrict default nomodify notrap nopeer noquery" ++ 10 ∷ [])
          ∷ (lit "restrict 127.0.0.1" ++ 10 ∷ [])
          ∷ (lit "restrict ::1" ++ 10 ∷ [])
          ∷ fgets_lines (server_lines qt ss)
  unfolding ntp_file lit fgets_from
  ntp_file-lines ss = refl

  pub read_ntp-ntp_file :
      (ss : QStringList)
      → All IsServer ss
      → read_ntp qt file output 0 (fgets_lines (ntp_file qt ss)) ≡ take 2 (set_servers ss)
  unfolding lit join str_eq
  read_ntp-ntp_file ss h =
      let restrict = lit "restrict" in
      let local = lit "127.0.0.1" ++ 10 ∷ [] in
      let local6 = lit "::1" ++ 10 ∷ [] in
      let flags =
        lit "default"
        ∷ lit "nomodify"
        ∷ lit "notrap"
        ∷ lit "nopeer"
        ∷ (lit "noquery" ++ 10 ∷ [])
        ∷ [] in
      let drift = lit "driftfile=/var/lib/ntp/drift" ++ 10 ∷ [] in
      ap (read_ntp qt file output 0) (ntp_file-lines ss)
      ∙ other_line _ _ drift [] (line_words drift [] (omega arith) (omega arith)) refl
      ∙ other_line _ _ restrict flags (line_words restrict flags (omega arith) (omega arith)) refl
      ∙ other_line _ _ restrict (local ∷ [])
          (line_words restrict (local ∷ []) (omega arith) (omega arith)) refl
      ∙ other_line _ _ restrict (local6 ∷ [])
          (line_words restrict (local6 ∷ []) (omega arith) (omega arith)) refl
      ∙ read_servers ss 2 0 refl h

-- The files once one of them is replaced.
abbrev pub with_file : Files → QString → QByteArray → Files
with_file file name bytes = λ f. if str_eq f name then some bytes else file f

set_cpuinfo-ntp_hostnames :
    (name value : QString) (st : IpConfig)
    → (set_cpuinfo name value st).ntp_hostnames ≡ st.ntp_hostnames
unfolding set_cpuinfo
set_cpuinfo-ntp_hostnames name value st = ground arith

module _ (qt : Library) (file : Files) (output : Programs) where
  read_cpuinfo-ntp_hostnames :
      (ls : List QByteArray) (st : IpConfig)
      → (read_cpuinfo qt file output ls st).ntp_hostnames ≡ st.ntp_hostnames
  unfolding read_cpuinfo
  read_cpuinfo-ntp_hostnames [] st = refl
  read_cpuinfo-ntp_hostnames (l ∷ ls) st =
      let f0 = qt.split (qt.trimmed (line_text qt l)) (lit ":") in
      let next =
        set_cpuinfo (qt.to_lower (qt.trimmed (get_or f0 0 []))) (qt.trimmed (get_or f0 1 [])) st in
      read_cpuinfo-ntp_hostnames ls (if length f0 == 2 then next else st)
      ∙ elim (Bool-cases (length f0 == 2)) [
        | inl e ↦ rw e (set_cpuinfo-ntp_hostnames _ _ st)
        | inr e ↦ rw e
      ]

module _ (qt : Library) (file : Files) (output : Programs) where
  -- Over a library with the documented laws of ASCII texts and of split, where the configuration of
  -- the NTP servers is /etc/ntp.conf and can be written: the command `ntp` sets the time zone,
  -- replaces the file and restarts the service, and a CGI program that runs when the file is
  -- replaced reads the first two of the command's servers that are not 0.0.0.0, if each is a text
  -- of fewer than 1000 ASCII characters without spaces and ends of line.
  pub read_ip_config-handle_ntp :
      (laws : FileLaws qt) (c d : Config) (w : World) (verb timezone : QString)
      (servers : QStringList)
      → c.ntp_configuration_file ≡ lit "/etc/ntp.conf"
      → w.is_writable (c.ntp_configuration_file ++ lit ".back") ≡ true
      → All IsServer servers
      → (bytes : QByteArray) × (handle_ntp qt c w (verb ∷ timezone ∷ servers)
          ≡ run_program (lit "timedatectl") (lit "set-timezone" ∷ timezone ∷ [])
            ∷ replace_file (lit "/etc/ntp.conf") bytes
            ∷ sync_disk
            ∷ run_program (lit "systemctl") (lit "restart" ∷ c.ntp_service_name ∷ [])
            ∷ [])
        × ((read_ip_config qt (with_file file (lit "/etc/ntp.conf") bytes) output d).ntp_hostnames
            ≡ take 2 (set_servers servers))
  unfolding handle_ntp read_ip_config
  read_ip_config-handle_ntp laws c d w verb timezone servers name writable h =
      let bytes = ntp_file qt servers in
      let files = with_file file (lit "/etc/ntp.conf") bytes in
      let replaced : files (lit "/etc/ntp.conf") ≡ some bytes =
        rw (str_eq_refl (lit "/etc/ntp.conf")) in
      (
        bytes,
        rw (writable, name),
        read_cpuinfo-ntp_hostnames qt files output _ _
            ∙ ap (λ t. read_ntp qt files output 0 (elim t [ none ↦ [] | some b ↦ fgets_lines b ]))
                replaced
            ∙ read_ntp-ntp_file qt files output laws servers h,
      )
