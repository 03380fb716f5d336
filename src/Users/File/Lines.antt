-- ===== src/Users/File/Lines.antt =====
-- The lines that the printed users spell, and what reading them back gives.
use webhost.Base.{
  ℕ, ◌+◌, ◌≤◌, ◌<◌, ◌≡◌, refl, ap, false, List, [], ◌∷◌, ◌++◌, arith, All, All-append, map,
}
use webhost.Qt.{
  QString, QStringList, lit, IsTight, EndsTight-All, IsTight-append, Library, IsLine, TextLaws,
}
use webhost.Profile.{ProfileSection, new_section, add_to_last, add_value, read_all_lines}
use webhost.Profile.Lines.{read_line-header, read_line-assignment}
use webhost.Users.File.{section_name}

-- One user of one realm, as the file lists it.
pub record Entry : Type 0 where
  pub realm : QString
  pub name : QString
  pub password : QString

-- A value that a line of the file can hold.
pub record IsStorable (qt : Library) (v : QString) : Type 0 where
  pub line : IsLine qt v
  pub tight : IsTight qt.is_space v

pub record IsEntry (qt : Library) (e : Entry) : Type 0 where
  pub realm_ok : IsStorable qt e.realm
  pub name_ok : IsStorable qt e.name
  pub password_ok : IsStorable qt e.password

abbrev tag_line : QString → QString → QString
tag_line tag v = tag ++ v

module _ (qt : Library) where
  abbrev pub entry_lines : ℕ → Entry → QStringList
  entry_lines i e =
      (b'[' ∷ (section_name qt i ++ b']' ∷ []))
      ∷ (lit "Realm=" ++ e.realm)
      ∷ (lit "Name=" ++ e.name)
      ∷ (lit "Password=" ++ e.password)
      ∷ []

  -- The section that the lines of an entry make.
  abbrev pub entry_section : ℕ → Entry → ProfileSection
  entry_section i e = record {
    name = section_name qt i;
    lines =
        (record { tag = lit "Realm"; value = e.realm })
        ∷ (record { tag = lit "Name"; value = e.name })
        ∷ (record { tag = lit "Password"; value = e.password })
        ∷ [];
  }

  module _ (laws : TextLaws qt) where
    add_to_last-append :
        (secs : List ProfileSection) (s : ProfileSection) (tag v : QString)
        → add_to_last (secs ++ s ∷ []) tag v ≡ secs ++ add_value s tag v ∷ []
    unfolding add_to_last
    add_to_last-append [] s tag v = refl
    add_to_last-append (t ∷ []) s tag v = refl
    add_to_last-append (t ∷ u ∷ secs) s tag v = ap (◌∷◌ t) (add_to_last-append (u ∷ secs) s tag v)

    -- Reading an entry's lines appends its section.
    pub read_all_lines-entry :
        (secs : List ProfileSection) (i : ℕ) (e : Entry) (rest : QStringList)
        → IsEntry qt e
        → read_all_lines qt secs (entry_lines i e ++ rest)
          ≡ read_all_lines qt (secs ++ entry_section i e ∷ []) rest
    unfolding read_all_lines lit add_value
    read_all_lines-entry secs i e rest h =
        let fresh = secs ++ new_section (section_name qt i) ∷ [] in
        rw (
          read_line-header qt secs (section_name qt i),
          read_line-assignment qt fresh b'R' (b'e' ∷ b'a' ∷ b'l' ∷ b'm' ∷ []) e.realm (omega arith)
              (omega arith),
          laws.trimmed_tight e.realm h.realm_ok.tight,
          add_to_last-append secs (new_section (section_name qt i)),
          read_line-assignment qt _ b'N' (b'a' ∷ b'm' ∷ b'e' ∷ []) e.name (omega arith)
              (omega arith),
          laws.trimmed_tight e.name h.name_ok.tight,
          add_to_last-append secs,
          read_line-assignment qt _ b'P' (b'a' ∷ b's' ∷ b's' ∷ b'w' ∷ b'o' ∷ b'r' ∷ b'd' ∷ [])
              e.password (omega arith) (omega arith),
          laws.trimmed_tight e.password h.password_ok.tight,
          add_to_last-append secs,
        )

    graphic_tight :
        (s : QString) → All (λ c. (33 ≤ c) × (c < 127)) s → All (λ c. qt.is_space c ≡ false) s
    graphic_tight [] h = tt
    graphic_tight (c ∷ s) h = (laws.space_graphic c h.0.0 h.0.1, graphic_tight s h.1)

    digits_graphic :
        (s : QString) → All (λ c. (48 ≤ c) × (c < 58)) s → All (λ c. (33 ≤ c) × (c < 127)) s
    digits_graphic [] h = tt
    digits_graphic (c ∷ s) h = ((omega (arith, h.0.0), omega (arith, h.0.1)), digits_graphic s h.1)

    section_name-graphic : (i : ℕ) → All (λ c. (33 ≤ c) × (c < 127)) (section_name qt i)
    unfolding section_name lit
    section_name-graphic i =
        All-append _ (lit "WebHostUser") _ (omega arith)
          (digits_graphic _ (laws.number_digits (i + 1)))

    -- A tag of graphic characters and a tight value make a tight line.
    tagged_tight :
        (x : ℕ) (tag v : QString)
        → All (λ c. (33 ≤ c) × (c < 127)) (x ∷ tag)
        → IsTight qt.is_space v
        → qt.trimmed (x ∷ tag ++ v) ≡ x ∷ tag ++ v
    tagged_tight x tag v h t =
        let g = graphic_tight (x ∷ tag) h in
        laws.trimmed_tight _ (
          IsTight-append qt.is_space x tag v
            (record { starts = g.0; ends = EndsTight-All _ (x ∷ tag) g }) t.ends)

    -- Trimming leaves an entry's lines as they are.
    pub trimmed-entry :
        (i : ℕ) (e : Entry) → IsEntry qt e → map qt.trimmed (entry_lines i e) ≡ entry_lines i e
    unfolding lit
    trimmed-entry i e h = rw (
      tagged_tight b'[' (section_name qt i) (b']' ∷ [])
          ((omega arith, omega arith), section_name-graphic i)
          (record {
            starts = laws.space_graphic b']' (omega arith) (omega arith);
            ends = laws.space_graphic b']' (omega arith) (omega arith);
          }),
      tagged_tight b'R' (lit "ealm=") e.realm (omega arith) h.realm_ok.tight,
      tagged_tight b'N' (lit "ame=") e.name (omega arith) h.name_ok.tight,
      tagged_tight b'P' (lit "assword=") e.password (omega arith) h.password_ok.tight,
    )
