-- ===== src/Config/Interfaces.antt =====
-- The names of the interfaces that `load` (src/wh/whconfig.cpp) reads.
use webhost.Base.{
  ℕ, zero, suc, ◌+◌, ◌≤◌, ◌<◌, ◌≡◌, refl, sym, ap, ◌∙◌, true, false, List, [], ◌∷◌, ◌++◌, Option,
  some, arith, length, map, Bool-cases, inl, inr, append_injective, append-nil, if◌then◌else◌,
  append_assoc,
}
use mathlib.Core.Option
use native.Mathlib.Numerals.{add-one}
use webhost.Qt.{QString, QByteArray, lit, str_eq, Library, TextLaws}
use webhost.Profile.{
  Profile, ProfileSection, ProfileLine, string_value, section_value, set_source, value_or,
  get_value,
}
use webhost.Profile.Numbering.{unused, unused-zero, unused-lt, get_value-contains}
use webhost.Users.File.{empty_profile}
use webhost.Config.{Config, interface_tag, interface_loop, line_count, load}

-- The lines of the first section of a name; none if there is no such section.
unfoldable section_lines : List ProfileSection → QString → List ProfileLine
section_lines [] name = []
section_lines (s ∷ ss) name = if str_eq s.name name then s.lines else section_lines ss name

section_value-section_lines :
    (ss : List ProfileSection) (name tag default : QString)
    → section_value ss name tag default ≡ value_or (get_value (section_lines ss name) tag) default
unfolding section_value section_lines value_or get_value
section_value-section_lines [] name tag d = refl
section_value-section_lines (s ∷ ss) name tag d = elim (Bool-cases (str_eq s.name name)) [
  | inl e ↦ rw e
  | inr e ↦ rw e (section_value-section_lines ss name tag d)
]

length-section_lines :
    (ss : List ProfileSection) (name : QString) → length (section_lines ss name) ≤ line_count ss
unfolding section_lines line_count
length-section_lines [] name = omega arith
length-section_lines (s ∷ ss) name = elim (Bool-cases (str_eq s.name name)) [
  | inl e ↦ rw e (omega arith)
  | inr e ↦ rw e (omega (arith, length-section_lines ss name))
]

lines_of : Profile → List ProfileLine
lines_of p = section_lines p.sections (lit "Webhost")

length-tags : (ls : List ProfileLine) → length (map (λ l. l.tag) ls) ≡ length ls
length-tags [] = refl
length-tags (l ∷ ls) = ap suc (length-tags ls)

module _ (qt : Library) where
  -- The names are the values under the tags from number `i` on, up to the first that is missing.
  pub Lists : Profile → ℕ → List QString → Type 0
  Lists p i [] = (string_value p (lit "Webhost") (interface_tag qt i) []).1 ≡ false
  Lists p i (x ∷ xs) =
      (string_value p (lit "Webhost") (interface_tag qt i) [] ≡ (x, true)) × Lists p (suc i) xs

  module _ (laws : TextLaws qt) where
    interface_tag-injective : (i j : ℕ) → interface_tag qt i ≡ interface_tag qt j → i ≡ j
    unfolding interface_tag
    interface_tag-injective i j e = omega (
      arith,
      laws.number_injective (i + 1) (j + 1) (append_injective (lit "NetworkInterface") _ _ e),
    )

    -- More fuel than tags that are still unread suffices.
    interface_loop-ends :
        (fuel : ℕ) (p : Profile) (i : ℕ) (names : List QString)
        → unused (interface_tag qt) i (map (λ l. l.tag) (lines_of p)) < fuel
        → (more : List QString) × (interface_loop qt fuel p i names ≡ some (names ++ more))
          × Lists p i more
    unfolding interface_loop string_value Lists lines_of
    interface_loop-ends zero p i names h = elim h [ ]
    interface_loop-ends (suc fuel) p i names h =
        elim (Bool-cases (string_value p (lit "Webhost") (interface_tag qt i) []).1) [
          | inl ok ↦
              let found = get_value-contains (lines_of p) (interface_tag qt i) [] (
                ap (λ v. v.1)
                  (sym (
                    section_value-section_lines p.sections (lit "Webhost") (interface_tag qt i) []))
                ∙ ok) in
              let fewer =
                unused-lt (interface_tag qt) interface_tag-injective i
                  (map (λ l. l.tag) (lines_of p)) found in
              let x = (string_value p (lit "Webhost") (interface_tag qt i) []).0 in
              let (more, e, l) =
                interface_loop-ends fuel p (suc i) (names ++ x ∷ []) (omega (arith, fewer, h)) in
              (x ∷ more, rw (ok, add-one, e, append_assoc names (x ∷ []) more), (rw ok, l))
          | inr bad ↦ ([], rw (bad, append-nil), bad)
        ]

    -- Over a library that prints different numbers differently, `load` ends for every file, or none,
    -- and puts behind the names that were there the values under NetworkInterface1, 2, … of the
    -- section `Webhost`, up to the first number that is missing.
    pub load-Lists :
        (file : Option QByteArray) (c : Config)
        → (new : Config) × (names : List QString) × (load qt file c ≡ some new)
          × (new.interface_names ≡ c.interface_names ++ names)
          × Lists (set_source qt (empty_profile qt) (lit "/etc/webhost.conf") file).0 0 names
    unfolding load lines_of
    load-Lists file c =
        let p = (set_source qt (empty_profile qt) (lit "/etc/webhost.conf") file).0 in
        let (names, e, l) =
          interface_loop-ends (suc (line_count p.sections)) p 0 c.interface_names (
            omega (
              arith,
              unused-zero (interface_tag qt) (map (λ l. l.tag) (lines_of p)),
              length-tags (lines_of p),
              length-section_lines p.sections (lit "Webhost"),
            )) in
        (_, names, ap (Option.map _) e, refl, l)
