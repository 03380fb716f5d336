-- ===== src/Users/File/Reading.antt =====
-- The entries that a configuration file holds, read section by section, and what the loops over
-- them find in the sections of a list of entries.
use webhost.Base.{
  append_injective, ℕ, zero, suc, ◌+◌, ◌≤◌, ◌<◌, ◌≡◌, ◌≢◌, refl, true, false, List, [], ◌∷◌, ◌++◌,
  Option, none, some, arith, All, All-append, append_assoc, length, if◌then◌else◌, Bool-cases,
  Option-cases, inl, inr,
}
use mathlib.Core.Option
use native.Mathlib.Numerals.{add-one}
use webhost.Qt.{QString, lit, str_eq, str_eq_iff, str_eq_refl, Library, TextLaws}
use webhost.Profile.{
  Profile, ProfileSection, new_section, get_value, value_or, section_value, string_value,
}
use webhost.Users.{UserMap, add_user}
use webhost.Users.File.{section_name, load_loop}
use webhost.Users.File.Lines.{Entry, entry_section}

abbrev pub IsOther : QString → ProfileSection → Type 0
IsOther name s = str_eq s.name name ≡ false

section_value-append :
    (front rest : List ProfileSection) (name tag d : QString)
    → All (IsOther name) front
    → section_value (front ++ rest) name tag d ≡ section_value rest name tag d
unfolding section_value
section_value-append [] rest name tag d h = refl
section_value-append (s ∷ front) rest name tag d h =
    rw (h.0) (section_value-append front rest name tag d h.1)

abbrev add_entry : UserMap → Entry → UserMap
add_entry m e = add_user m e.realm e.name e.password

-- `addUser` for each entry in turn.
unfoldable pub add_entries : UserMap → List Entry → UserMap
add_entries m [] = m
add_entries m (e ∷ es) = add_entries (add_entry m e) es

module _ (qt : Library) where
  -- The abstract content of a file: the entries of the sections 1, 2, … up to the first gap.
  unfoldable pub entries_from : ℕ → Profile → ℕ → Option (List Entry)
  entries_from zero p count = none
  entries_from (suc fuel) p count =
      let section = section_name qt count in
      let (realm, ok) = string_value p section (lit "Realm") [] in
      let e : Entry = record {
        realm = realm;
        name = (string_value p section (lit "Name") []).0;
        password = (string_value p section (lit "Password") []).0;
      } in
      let rest = Option.map (λ es. e ∷ es) (entries_from fuel p (count + 1)) in
      if ok then rest else some []

  -- `loadUsers` adds the entries in the order of the file.
  pub load_loop-entries_from :
      (fuel : ℕ) (p : Profile) (count : ℕ) (m : UserMap)
      → load_loop qt fuel p count m ≡ Option.map (add_entries m) (entries_from fuel p count)
  unfolding load_loop entries_from add_entries
  load_loop-entries_from zero p count m = refl
  load_loop-entries_from (suc fuel) p count m =
      let section = section_name qt count in
      let realm = (string_value p section (lit "Realm") []).0 in
      let name = (string_value p section (lit "Name") []).0 in
      let passwd = (string_value p section (lit "Password") []).0 in
      let rest = load_loop-entries_from fuel p (count + 1) (add_user m realm name passwd) in
      elim (Bool-cases (string_value p section (lit "Realm") []).1) [
        | inl ok ↦
            rw (ok, rest)
              (elim (Option-cases (entries_from fuel p (count + 1))) [
                | inl e ↦ rw e
                | inr (es, e) ↦ rw e
              ])
        | inr bad ↦ rw bad
      ]

  -- The sections of entries that are numbered from `i` on.
  abbrev pub numbered : ℕ → List Entry → List ProfileSection
  numbered i [] = []
  numbered i (e ∷ es) = entry_section qt i e ∷ numbered (suc i) es

  entry_value :
      (i : ℕ) (e : Entry) (rest : List ProfileSection)
      → let at_tag =
          λ (t : QString). section_value (entry_section qt i e ∷ rest) (section_name qt i) t [] in
        (at_tag (lit "Realm") ≡ (e.realm, true))
        × (at_tag (lit "Name") ≡ (e.name, true))
        × (at_tag (lit "Password") ≡ (e.password, true))
  unfolding section_value get_value value_or
  entry_value i e rest =
      rw (str_eq_refl (section_name qt i)) (unfold lit str_eq in (refl, refl, refl))

  -- The section that every profile begins with has no name.
  pub unnamed_before : (j : ℕ) → 0 ≤ j → All (IsOther (section_name qt j)) (new_section [] ∷ [])
  unfolding section_name lit str_eq
  unnamed_before j h = (refl, tt)

  module _ (laws : TextLaws qt) where
    pub section_name-injective : (i j : ℕ) → section_name qt i ≡ section_name qt j → i ≡ j
    unfolding section_name
    section_name-injective i j e =
        omega (
          arith,
          laws.number_injective (i + 1) (j + 1) (append_injective (lit "WebHostUser") _ _ e),
        )

    section_name-ne : (i j : ℕ) → i ≢ j → str_eq (section_name qt i) (section_name qt j) ≡ false
    section_name-ne i j h = elim (Bool-cases (str_eq (section_name qt i) (section_name qt j))) [
      | inl e ↦ absurd (h (section_name-injective i j ((str_eq_iff _ _).0 e)))
      | inr e ↦ e
    ]

    -- Sections whose names are none of the numbers from `i` on.
    abbrev IsBefore : ℕ → List ProfileSection → Type 0
    IsBefore i front = (j : ℕ) → i ≤ j → All (IsOther (section_name qt j)) front

    IsBefore-next :
        (front : List ProfileSection) (i : ℕ) (e : Entry)
        → IsBefore i front
        → IsBefore (suc i) (front ++ entry_section qt i e ∷ [])
    IsBefore-next front i e b j h =
        All-append _ front _ (b j (omega arith)) (section_name-ne i j (omega arith), tt)

    -- Behind such sections, numbered entries are read back.
    pub entries_from-numbered :
        (es : List Entry) (front : List ProfileSection) (i fuel : ℕ) (source : QString)
        → IsBefore i front
        → length es < fuel
        → entries_from fuel (record { source = source; sections = front ++ numbered i es }) i
          ≡ some es
    unfolding entries_from string_value section_value
    entries_from-numbered es front i zero source b h = elim h [ ]
    entries_from-numbered [] front i (suc fuel) source b h =
        rw (section_value-append front [] (section_name qt i) (lit "Realm") [] (b i (omega arith)))
    entries_from-numbered (e ∷ es) front i (suc fuel) source b h =
        let behind = entry_section qt i e ∷ numbered (suc i) es in
        let skip = λ (t : QString).
          section_value-append front behind (section_name qt i) t [] (b i (omega arith)) in
        let found = entry_value i e (numbered (suc i) es) in
        let rest =
          entries_from-numbered es (front ++ entry_section qt i e ∷ []) (suc i) fuel source
            (IsBefore-next front i e b) (omega arith) in
        rw (
          skip (lit "Realm"),
          skip (lit "Name"),
          skip (lit "Password"),
          found.0,
          found.1,
          found.2,
          add-one,
          ← append_assoc front (entry_section qt i e ∷ []) (numbered (suc i) es),
          rest,
        )
