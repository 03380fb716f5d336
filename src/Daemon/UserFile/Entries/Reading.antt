-- ===== src/Daemon/UserFile/Entries/Reading.antt =====
-- What the commands on users write into the file (src/webhostd/users.cpp), read back.
use webhost.Base.{
  ℕ, suc, ◌<◌, ◌≡◌, refl, sym, ap, ◌∙◌, List, [], ◌∷◌, ◌++◌, Option, some, arith, All, append_assoc,
  append-nil, length, map, All-append, Bool-cases, inl, inr, false,
}
use mathlib.Core.Option
use mathlib.Core.List.{map-append}
use webhost.Qt.{QString, QByteArray, QStringList, Library, written, IsLine, TextLaws}
use webhost.Profile.{ProfileSection, new_section, read_all_lines, set_source}
use webhost.Users.File.{print_user}
use webhost.Users.File.Lines.{
  Entry, IsEntry, IsStorable, entry_lines, entry_section, read_all_lines-entry, trimmed-entry,
}
use webhost.Users.File.Printing.{entry_lines-IsLine, print_user-written}
use webhost.Users.File.Reading.{entries_from, numbered, entries_from-numbered, unnamed_before}
use webhost.Users.File.RoundTrip.{length-numbered}
use webhost.Daemon.UserFile.{profile_of, added_file, deleted_file}
use webhost.Daemon.UserFile.Entries.{
  is_entry, set_entries, has_entry, put_entry, drop_entries, printed, add_loop-entries_from,
  delete_loop-entries_from,
}

set_entries-IsEntry :
    (qt : Library) (es : List Entry) (realm name passwd : QString)
    → All (IsEntry qt) es
    → IsStorable qt passwd
    → All (IsEntry qt) (set_entries es realm name passwd)
unfolding set_entries
set_entries-IsEntry qt [] realm name passwd h s = tt
set_entries-IsEntry qt (e ∷ es) realm name passwd h s =
    let rest = set_entries-IsEntry qt es realm name passwd h.1 s in
    elim (Bool-cases (is_entry e realm name)) [
      | inl found ↦
          rw found
            (record { realm_ok = h.0.realm_ok; name_ok = h.0.name_ok; password_ok = s }, rest)
      | inr other ↦ rw other (h.0, rest)
    ]

put_entry-IsEntry :
    (qt : Library) (es : List Entry) (realm name passwd : QString)
    → All (IsEntry qt) es
    → IsEntry qt (record { realm = realm; name = name; password = passwd })
    → All (IsEntry qt) (put_entry es realm name passwd)
unfolding put_entry
put_entry-IsEntry qt es realm name passwd h s =
    let old = set_entries-IsEntry qt es realm name passwd h s.password_ok in
    All-append (IsEntry qt) (set_entries es realm name passwd) _ old
      (elim (Bool-cases (has_entry es realm name)) [ inl e ↦ rw e tt | inr e ↦ rw e (s, tt) ])

drop_entries-IsEntry :
    (qt : Library) (es : List Entry) (realm name : QString)
    → All (IsEntry qt) es
    → All (IsEntry qt) (drop_entries es realm name)
unfolding drop_entries
drop_entries-IsEntry qt [] realm name h = tt
drop_entries-IsEntry qt (e ∷ es) realm name h =
    let rest = drop_entries-IsEntry qt es realm name h.1 in
    elim (Bool-cases (is_entry e realm name)) [ inl x ↦ rw x rest | inr x ↦ rw x (h.0, rest) ]

module _ (qt : Library) where
  -- The entries that a file holds.
  abbrev pub file_entries : QString → Option QByteArray → Option (List Entry)
  file_entries filename text =
      let p = profile_of qt filename text in entries_from qt (suc (length p.sections)) p 0

  printed_lines : ℕ → List Entry → QStringList
  printed_lines i [] = []
  printed_lines i (e ∷ es) = entry_lines qt i e ++ printed_lines (suc i) es

  module _ (laws : TextLaws qt) where
    printed-written :
        (es : List Entry) (i : ℕ)
        → All (IsEntry qt) es
        → printed qt i es ≡ written qt (printed_lines i es)
    unfolding printed printed_lines
    printed-written [] i h = refl
    printed-written (e ∷ es) i h =
        ap (λ t. print_user qt i e.realm e.name e.password ++ t) (printed-written es (suc i) h.1)
        ∙ print_user-written qt laws i e (printed_lines (suc i) es) h.0

    printed_lines-IsLine :
        (es : List Entry) (i : ℕ) → All (IsEntry qt) es → All (IsLine qt) (printed_lines i es)
    unfolding printed_lines
    printed_lines-IsLine [] i h = tt
    printed_lines-IsLine (e ∷ es) i h =
        All-append (IsLine qt) (entry_lines qt i e) (printed_lines (suc i) es)
          (entry_lines-IsLine qt laws i e h.0) (printed_lines-IsLine es (suc i) h.1)

    read_printed_lines :
        (es : List Entry) (secs : List ProfileSection) (i : ℕ)
        → All (IsEntry qt) es
        → read_all_lines qt secs (map qt.trimmed (printed_lines i es)) ≡ secs ++ numbered qt i es
    unfolding read_all_lines printed_lines
    read_printed_lines [] secs i h = sym (append-nil secs)
    read_printed_lines (e ∷ es) secs i h =
        let more = map qt.trimmed (printed_lines (suc i) es) in
        let next = secs ++ entry_section qt i e ∷ [] in
        ap (read_all_lines qt secs) (
          map-append qt.trimmed (entry_lines qt i e) (printed_lines (suc i) es)
          ∙ ap (λ a. a ++ more) (trimmed-entry qt laws i e h.0))
        ∙ read_all_lines-entry qt laws secs i e more h.0
        ∙ read_printed_lines es next (suc i) h.1
        ∙ append_assoc secs (entry_section qt i e ∷ []) (numbered qt (suc i) es)

    -- Entries that lines can hold are read back from the bytes that the commands print.
    pub file_entries-printed :
        (filename : QString) (es : List Entry)
        → All (IsEntry qt) es
        → file_entries filename (some (printed qt 0 es)) ≡ some es
    unfolding set_source
    file_entries-printed filename es h =
        let top = new_section [] ∷ [] in
        let secs =
          ap (λ ls. read_all_lines qt top (map qt.trimmed ls))
            (ap qt.read_lines (printed-written es 0 h)
              ∙ laws.read_lines-written _ (printed_lines-IsLine es 0 h))
          ∙ read_printed_lines es top 0 h in
        let size : length es < suc (length (top ++ numbered qt 0 es)) =
          omega (arith, length-numbered qt laws es 0) in
        rw (
          secs,
          entries_from-numbered qt laws es top 0 (suc (length (top ++ numbered qt 0 es))) filename
              (unnamed_before qt) size,
        )

    -- The new file lists the old entries with the new one put in, and reads back as that.
    pub added_file-entries :
        (filename : QString) (text : Option QByteArray) (realm name passwd : QString)
        (es : List Entry)
        → file_entries filename text ≡ some es
        → All (IsEntry qt) es
        → IsEntry qt (record { realm = realm; name = name; password = passwd })
        → (bytes : QByteArray) × (added_file qt filename text realm name passwd ≡ some bytes)
          × (file_entries filename (some bytes) ≡ some (put_entry es realm name passwd))
    unfolding added_file put_entry
    added_file-entries filename text realm name passwd es found h s =
        let p = profile_of qt filename text in
        (
          printed qt 0 (put_entry es realm name passwd),
          add_loop-entries_from qt (suc (length p.sections)) p 0 realm name passwd false
              ∙ ap (Option.map _) found,
          file_entries-printed filename (put_entry es realm name passwd)
              (put_entry-IsEntry qt es realm name passwd h s),
        )

    -- The new file lists the old entries without those of the name, and reads back as that.
    pub deleted_file-entries :
        (filename : QString) (text : Option QByteArray) (realm name : QString) (es : List Entry)
        → file_entries filename text ≡ some es
        → All (IsEntry qt) es
        → (bytes : QByteArray) × (deleted_file qt filename text realm name ≡ some bytes)
          × (file_entries filename (some bytes) ≡ some (drop_entries es realm name))
    unfolding deleted_file
    deleted_file-entries filename text realm name es found h =
        let p = profile_of qt filename text in
        (
          printed qt 0 (drop_entries es realm name),
          delete_loop-entries_from qt (suc (length p.sections)) p 0 0 realm name
              ∙ ap (Option.map _) found,
          file_entries-printed filename (drop_entries es realm name)
              (drop_entries-IsEntry qt es realm name h),
        )
