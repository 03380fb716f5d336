-- ===== src/Users/File/Totality.antt =====
-- The loop of `loadUsers` ends for every file.
use webhost.Base.{
  ℕ, zero, suc, ◌+◌, ◌<◌, ◌≡◌, refl, ap, ◌∙◌, List, [], ◌∷◌, Option, none, some, arith, length, map,
  Bool-cases, inl, inr,
}
use mathlib.Core.Option
use native.Mathlib.Numerals.{add-one}
use webhost.Qt.{QString, QByteArray, lit, Library, TextLaws}
use webhost.Profile.{Profile, ProfileSection, string_value, set_source}
use webhost.Profile.Numbering.{unused, unused-zero, unused-lt, section_value-contains}
use webhost.Users.{UserMap}
use webhost.Users.File.{section_name, load_users}
use webhost.Users.File.Lines.{Entry}
use webhost.Users.File.Reading.{
  add_entries, entries_from, load_loop-entries_from, section_name-injective,
}

abbrev pub section_names : Profile → List QString
section_names p = map (λ s. s.name) p.sections

length-section_names : (ss : List ProfileSection) → length (map (λ s. s.name) ss) ≡ length ss
length-section_names [] = refl
length-section_names (s ∷ ss) = ap suc (length-section_names ss)

module _ (qt : Library) (laws : TextLaws qt) where
  -- More fuel than sections that are still unread suffices.
  entries_from-ends :
      (fuel : ℕ) (p : Profile) (count : ℕ)
      → unused (section_name qt) count (section_names p) < fuel
      → (es : List Entry) × (entries_from qt fuel p count ≡ some es)
  unfolding entries_from string_value
  entries_from-ends zero p count h = elim h [ ]
  entries_from-ends (suc fuel) p count h =
      elim (Bool-cases (string_value p (section_name qt count) (lit "Realm") []).1) [
        | inl ok ↦
            let fewer =
              unused-lt (section_name qt) (section_name-injective qt laws) count (section_names p)
                (section_value-contains p.sections (section_name qt count) (lit "Realm") [] ok) in
            let (es, e) = entries_from-ends fuel p (count + 1) (rw add-one (omega arith)) in
            rw (ok, e) (_, refl)
        | inr bad ↦ ([], rw bad)
      ]

  -- One round more than there are sections is enough.
  pub entries_from-total :
      (p : Profile) → (es : List Entry) × (entries_from qt (suc (length p.sections)) p 0 ≡ some es)
  entries_from-total p = entries_from-ends (suc (length p.sections)) p 0 (
      omega
        (arith, unused-zero (section_name qt) (section_names p), length-section_names p.sections))

  -- Over a library that prints different numbers differently, `loadUsers` ends and gives a table,
  -- whatever the file holds and whether or not it can be read.
  pub load_users-total :
      (filename : QString) (file : Option QByteArray) (m : UserMap)
      → (r : UserMap) × ((load_users qt filename file m).0 ≡ some r)
  unfolding load_users set_source
  load_users-total filename none m = (m, refl)
  load_users-total filename (some text) m =
      let p = (set_source qt (record { source = []; sections = [] }) filename (some text)).0 in
      let (es, e) = entries_from-total p in
      (
        add_entries [] es,
        load_loop-entries_from qt (suc (length p.sections)) p 0 []
            ∙ ap (Option.map (add_entries [])) e,
      )
