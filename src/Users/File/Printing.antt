-- ===== src/Users/File/Printing.antt =====
-- The bytes that are printed for a user are those of the user's lines.
use webhost.Base.{
  ℕ, ◌+◌, ◌≤◌, ◌<◌, ◌≡◌, [], ◌∷◌, ◌++◌, arith, All, All-append, append_assoc, pos, append-nil,
}
use webhost.Qt.{
  QString, QByteArray, QStringList, lit, Lacks, Library, IsAscii, written, IsLine, TextLaws,
}
use webhost.Users.File.{section_name, print_value, print_section, print_user}
use webhost.Users.File.Lines.{Entry, IsEntry, entry_lines}

module _ (qt : Library) (laws : TextLaws qt) where
  number-Lacks : (c n : ℕ) → (c < 48) → Lacks c (qt.number (pos n))
  number-Lacks c n h = go (qt.number (pos n)) (laws.number_digits n)
    where
      go : (s : QString) → All (λ x. (48 ≤ x) × (x < 58)) s → Lacks c s
      go [] d = tt
      go (x ∷ s) d = (omega (arith, d.0.0), go s d.1)

  number-IsAscii : (n : ℕ) → IsAscii (qt.number (pos n))
  number-IsAscii n = go (qt.number (pos n)) (laws.number_digits n)
    where
      go : (s : QString) → All (λ x. (48 ≤ x) × (x < 58)) s → IsAscii s
      go [] d = tt
      go (x ∷ s) d = (omega (arith, d.0.1), go s d.1)

  utf8_ascii : (s : QString) → IsAscii s → qt.to_utf8 s ≡ s ++ qt.to_utf8 []
  utf8_ascii s a = rw (append-nil s) at (laws.utf8_ascii_append s [] a)

  -- A text line in front of an ASCII tag.
  tagged-IsLine :
      (tag v : QString)
      → IsAscii tag
      → (Lacks 0 tag) × (Lacks 10 tag) × (Lacks 13 tag)
      → IsLine qt v
      → IsLine qt (tag ++ v)
  tagged-IsLine tag v a (h0, h10, h13) l = record {
    no_nul = All-append _ tag v h0 l.no_nul;
    no_lf = All-append _ tag v h10 l.no_lf;
    no_cr = All-append _ tag v h13 l.no_cr;
    valid =
        rw (
          laws.utf8_ascii_append tag v a,
          laws.from_utf8_ascii_append tag (qt.to_utf8 v) a,
          l.valid,
        );
  }

  print_value-written :
      (tag v : QString) (rest : QByteArray)
      → IsAscii tag
      → IsLine qt v
      → print_value qt tag v ++ rest ≡ qt.to_utf8 (tag ++ v) ++ 10 ∷ rest
  unfolding print_value
  print_value-written tag v rest a l =
      rw (laws.c_string-utf8 v l.no_nul, laws.utf8_ascii_append tag v a) (simp append_assoc)

  -- The line of a section's header.
  abbrev header : ℕ → QString
  header i = b'[' ∷ (section_name qt i ++ b']' ∷ [])

  header-IsAscii : (i : ℕ) → IsAscii (header i)
  unfolding section_name lit
  header-IsAscii i = (
    omega arith,
    All-append _ (section_name qt i) (b']' ∷ [])
        (All-append _ (lit "WebHostUser") _ (omega arith) (number-IsAscii (i + 1))) (omega arith),
  )

  header-Lacks : (c i : ℕ) → (c < 48) → Lacks c (header i)
  unfolding section_name lit
  header-Lacks c i h = (
    omega arith,
    All-append _ (section_name qt i) (b']' ∷ [])
        (All-append _ (lit "WebHostUser") _ (omega arith) (number-Lacks c (i + 1) h)) (omega arith),
  )

  pub empty-IsLine : IsLine qt []
  empty-IsLine = record { no_nul = tt; no_lf = tt; no_cr = tt; valid = laws.empty_valid }

  header-IsLine : (i : ℕ) → IsLine qt (header i)
  header-IsLine i = rw (append-nil (header i)) at (
      tagged-IsLine (header i) [] (header-IsAscii i)
        (
          header-Lacks 0 i (omega arith),
          header-Lacks 10 i (omega arith),
          header-Lacks 13 i (omega arith),
        )
        empty-IsLine)

  pub entry_lines-IsLine : (i : ℕ) (e : Entry) → IsEntry qt e → All (IsLine qt) (entry_lines qt i e)
  unfolding lit
  entry_lines-IsLine i e h = (
    header-IsLine i,
    (
      tagged-IsLine (lit "Realm=") e.realm (omega arith) (omega arith) h.realm_ok.line,
      (
        tagged-IsLine (lit "Name=") e.name (omega arith) (omega arith) h.name_ok.line,
        (
          tagged-IsLine (lit "Password=") e.password (omega arith) (omega arith) h.password_ok.line,
          tt,
        ),
      ),
    ),
  )

  print_section-written :
      (i : ℕ) (rest : QByteArray) → print_section qt i ++ rest ≡ qt.to_utf8 (header i) ++ 10 ∷ rest
  unfolding print_section section_name lit
  print_section-written i rest =
      rw (utf8_ascii (header i) (header-IsAscii i), laws.empty_utf8) (simp append_assoc)

  tags : IsAscii (lit "Realm=") × IsAscii (lit "Name=") × IsAscii (lit "Password=")
  unfolding lit
  tags = (omega arith, omega arith, omega arith)

  pub print_user-written :
      (i : ℕ) (e : Entry) (ls : QStringList)
      → IsEntry qt e
      → print_user qt i e.realm e.name e.password ++ written qt ls
        ≡ written qt (entry_lines qt i e ++ ls)
  unfolding print_user
  print_user-written i e ls h = rw (
    append_assoc (print_section qt i),
    append_assoc (print_value qt (lit "Realm=") e.realm),
    append_assoc (print_value qt (lit "Name=") e.name),
    print_section-written i,
    print_value-written (lit "Realm=") e.realm _ tags.0 h.realm_ok.line,
    print_value-written (lit "Name=") e.name _ tags.1 h.name_ok.line,
    print_value-written (lit "Password=") e.password _ tags.2 h.password_ok.line,
  )
