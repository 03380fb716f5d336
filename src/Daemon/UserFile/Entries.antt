-- ===== src/Daemon/UserFile/Entries.antt =====
-- The commands on users as operations on the entries of the file.
pub mod Reading
pub mod Logins
use webhost.Base.{
  ℕ, zero, suc, ◌+◌, ◌≡◌, refl, sym, ap, ◌∙◌, Bool, true, false, ◌&&◌, ◌||◌, not, List, [], ◌∷◌,
  ◌++◌, Option, none, some, if◌then◌else◌, length, Bool-cases, Option-cases, inl, inr, arith,
  append-nil, append_assoc,
}
use mathlib.Core.Option
use native.Mathlib.Numerals.{add-one}
use webhost.Qt.{QString, QByteArray, QStringList, lit, str_eq, Library}
use webhost.Profile.{Profile, string_value}
use webhost.Users.File.{section_name, print_user}
use webhost.Users.File.Lines.{Entry}
use webhost.Users.File.Reading.{entries_from}
use webhost.Daemon.UserFile.{add_loop, delete_loop}

-- The entry is that of this name in this realm.
abbrev pub is_entry : Entry → QString → QString → Bool
is_entry e realm name = str_eq e.realm realm && str_eq e.name name

-- A new password for each entry of that name in that realm.
unfoldable pub set_entries : List Entry → QString → QString → QString → List Entry
set_entries [] realm name passwd = []
set_entries (e ∷ es) realm name passwd =
    (if is_entry e realm name then record e { password = passwd } else e)
    ∷ set_entries es realm name passwd

unfoldable pub has_entry : List Entry → QString → QString → Bool
has_entry [] realm name = false
has_entry (e ∷ es) realm name = is_entry e realm name || has_entry es realm name

-- With a new entry at the end if there is none.
unfoldable pub put_entry : List Entry → QString → QString → QString → List Entry
put_entry es realm name passwd =
    set_entries es realm name passwd
    ++ (if has_entry es realm name
        then []
        else (record { realm = realm; name = name; password = passwd }) ∷ [])

unfoldable pub drop_entries : List Entry → QString → QString → List Entry
drop_entries [] realm name = []
drop_entries (e ∷ es) realm name =
    if is_entry e realm name then drop_entries es realm name else e ∷ drop_entries es realm name

module _ (qt : Library) where
  -- The bytes of entries that are numbered from `i` on.
  unfoldable pub printed : ℕ → List Entry → QByteArray
  printed i [] = []
  printed i (e ∷ es) = print_user qt i e.realm e.name e.password ++ printed (suc i) es

  abbrev new_tail : List Entry → QString → QString → QString → Bool → List Entry
  new_tail es realm name passwd used =
      if used || has_entry es realm name
      then []
      else (record { realm = realm; name = name; password = passwd }) ∷ []

  pub add_loop-entries_from :
      (fuel : ℕ) (p : Profile) (i : ℕ) (realm name passwd : QString) (used : Bool)
      → add_loop qt fuel p i realm name passwd used
        ≡ Option.map
            (λ es.
              printed i (set_entries es realm name passwd ++ new_tail es realm name passwd used))
            (entries_from qt fuel p i)
  unfolding add_loop entries_from set_entries printed has_entry
  add_loop-entries_from zero p i realm name passwd used = refl
  add_loop-entries_from (suc fuel) p i realm name passwd used =
      let section = section_name qt i in
      let r = (string_value p section (lit "Realm") []).0 in
      let n = (string_value p section (lit "Name") []).0 in
      elim (Bool-cases (string_value p section (lit "Realm") []).1) [
        | inl ok ↦
            rw
              (
                ok,
                add_loop-entries_from fuel p (i + 1) realm name passwd
                    (used || (str_eq r realm && str_eq n name)),
              )
              (elim (Option-cases (entries_from qt fuel p (i + 1))) [
                | inl e ↦ rw e
                | inr (es, e) ↦ rw e (elim (Bool-cases (str_eq r realm && str_eq n name)) [
                  | inl found ↦ elim (Bool-cases used) [
                    | inl u ↦ rw (u, found, add-one)
                    | inr u ↦ rw (u, found, add-one)
                  ]
                  | inr other ↦ elim (Bool-cases used) [
                    | inl u ↦ rw (u, other, add-one)
                    | inr u ↦ rw (u, other, add-one)
                  ]
                ])
              ])
        | inr bad ↦ rw bad (elim (Bool-cases used) [
          | inl e ↦ rw e
          | inr e ↦ rw (e, append-nil (print_user qt i realm name passwd))
        ])
      ]

  pub delete_loop-entries_from :
      (fuel : ℕ) (p : Profile) (i j : ℕ) (realm name : QString)
      → delete_loop qt fuel p i j realm name
        ≡ Option.map (λ es. printed j (drop_entries es realm name)) (entries_from qt fuel p i)
  unfolding delete_loop entries_from drop_entries printed
  delete_loop-entries_from zero p i j realm name = refl
  delete_loop-entries_from (suc fuel) p i j realm name =
      let section = section_name qt i in
      let r = (string_value p section (lit "Realm") []).0 in
      let n = (string_value p section (lit "Name") []).0 in
      elim (Bool-cases (string_value p section (lit "Realm") []).1) [
        | inl ok ↦ rw ok (elim (Bool-cases (str_eq r realm)) [
          | inl same ↦ rw same (elim (Bool-cases (str_eq n name)) [
            | inl found ↦
                rw (found, delete_loop-entries_from fuel p (i + 1) j realm name)
                  (elim (Option-cases (entries_from qt fuel p (i + 1))) [
                    | inl e ↦ rw e
                    | inr (es, e) ↦ rw (e, same, found)
                  ])
            | inr other ↦
                rw (other, delete_loop-entries_from fuel p (i + 1) (j + 1) realm name)
                  (elim (Option-cases (entries_from qt fuel p (i + 1))) [
                    | inl e ↦ rw e
                    | inr (es, e) ↦ rw (e, same, other, add-one)
                  ])
          ])
          | inr other ↦
              rw (other, delete_loop-entries_from fuel p (i + 1) (j + 1) realm name)
                (elim (Option-cases (entries_from qt fuel p (i + 1))) [
                  | inl e ↦ rw e
                  | inr (es, e) ↦ rw (e, other, add-one)
                ])
        ])
        | inr bad ↦ rw bad
      ]
