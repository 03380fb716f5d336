-- ===== src/Profile.antt =====
-- The parser of configuration files: WHProfile, WHProfileSection and WHProfileLine
-- (src/wh/whprofile.h, src/wh/whprofile.cpp).
pub mod Lines
pub mod Numbering
use webhost.Base.{
  ℕ, ◌-◌, Bool, true, false, ◌&&◌, ◌||◌, not, List, [], ◌∷◌, ◌++◌, Option, none, some, ◌==◌,
  if◌then◌else◌, length, map, ℤ,
}
use webhost.Qt.{QString, QByteArray, QStringList, lit, str_eq, left, right, mid, index_of, Library}

pub record ProfileLine : Type 0 where
  pub tag : QString
  pub value : QString

pub record ProfileSection : Type 0 where
  pub name : QString
  pub lines : List ProfileLine

pub record Profile : Type 0 where
  pub source : QString
  pub sections : List ProfileSection

-- `getValue`: the value of the first line with that tag.
unfoldable pub get_value : List ProfileLine → QString → Option QString
get_value [] tag = none
get_value (l ∷ ls) tag = if str_eq l.tag tag then some l.value else get_value ls tag

unfoldable pub add_value : ProfileSection → QString → QString → ProfileSection
add_value s tag value = record s { lines = s.lines ++ (record { tag = tag; value = value }) ∷ [] }

-- `profile_section.back().addValue(…)`; the vector is never empty there.
unfoldable pub add_to_last : List ProfileSection → QString → QString → List ProfileSection
add_to_last [] tag value = []
add_to_last (s ∷ []) tag value = add_value s tag value ∷ []
add_to_last (s ∷ t ∷ rest) tag value = s ∷ add_to_last (t ∷ rest) tag value

abbrev pub new_section : QString → ProfileSection
new_section name = record { name = name; lines = [] }

unfoldable pub value_or : Option QString → QString → QString × Bool
value_or none default = (default, false)
value_or (some v) default = (v, true)

-- `stringValue` over the sections: the first of that name decides.
unfoldable pub section_value : List ProfileSection → QString → QString → QString → QString × Bool
unfolding value_or
section_value [] section tag default = (default, false)
section_value (s ∷ ss) section tag default =
    if str_eq s.name section
    then value_or (get_value s.lines tag) default
    else section_value ss section tag default

unfoldable pub string_value : Profile → QString → QString → QString → QString × Bool
string_value p section tag default = section_value p.sections section tag default

or_default {ℓ} : {A : Type ℓ} → A × Bool → A → A × Bool
or_default (v, valid) default = if valid then (v, true) else (default, false)

module _ (qt : Library) where
  open qt use {trimmed, to_lower, to_int, to_int_hex, read_lines, split}

  -- The line's part before `=` at `offset` is the tag, the trimmed part behind it the value.
  unfoldable pub read_assignment : List ProfileSection → QString → Option ℕ → List ProfileSection
  read_assignment secs line none = secs
  read_assignment secs line (some offset) =
      add_to_last secs (left line offset) (trimmed (right line (length line - offset - 1)))

  -- One round of the loops of both `setSource`.
  unfoldable pub read_line : List ProfileSection → QString → List ProfileSection
  read_line secs line =
      if str_eq (left line 1) (lit ";") || str_eq (left line 1) (lit "#")
      then secs
      else if str_eq (left line 1) (lit "[") && str_eq (right line 1) (lit "]")
      then secs ++ new_section (mid line 1 (length line - 2)) ∷ []
      else read_assignment secs line (index_of line b'=')

  unfoldable pub read_all_lines : List ProfileSection → QStringList → List ProfileSection
  read_all_lines secs [] = secs
  read_all_lines secs (l ∷ ls) = read_all_lines (read_line secs l) ls

  -- `setSource` of a file; `none` is a file that cannot be opened.
  unfoldable pub set_source : Profile → QString → Option QByteArray → Profile × Bool
  set_source p filename none = (record { source = filename; sections = new_section [] ∷ [] }, false)
  set_source p filename (some text) = (
    record {
      source = filename;
      sections = read_all_lines (new_section [] ∷ []) (map trimmed (read_lines text));
    },
    true,
  )

  -- `setSource` of a vector of lines, which are not trimmed.
  unfoldable pub set_source_values : Profile → QStringList → Profile × Bool
  set_source_values p values =
      (record p { sections = read_all_lines (new_section [] ∷ []) values }, true)

  pub int_value : Profile → QString → QString → ℤ → ℤ × Bool
  int_value p section tag default = or_default (to_int (string_value p section tag []).0) default

  pub hex_value : Profile → QString → QString → ℤ → ℤ × Bool
  hex_value p section tag default =
      or_default (to_int_hex (string_value p section tag []).0) default

  truth_of : QString → Bool → Bool × Bool
  truth_of str default =
      if str_eq str (lit "yes")
        || str_eq str (lit "true")
        || str_eq str (lit "on")
        || str_eq str (lit "1")
      then (true, true)
      else if str_eq str (lit "no")
          || str_eq str (lit "false")
          || str_eq str (lit "off")
          || str_eq str (lit "0")
      then (false, true)
      else (default, false)

  unfoldable pub bool_value : Profile → QString → QString → Bool → Bool × Bool
  unfolding truth_of
  bool_value p section tag default =
      let (str, valid) = string_value p section tag [] in
      if not valid then (default, false) else truth_of (to_lower str) default
