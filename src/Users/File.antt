-- ===== src/Users/File.antt =====
-- The file of users: `loadUsers` and `saveUsers` of src/wh/whhttpserver.cpp. What the file holds is
-- given and returned; opening, renaming and closing it are outside the model.
pub mod Lines
pub mod Printing
pub mod Reading
pub mod Rebuild
pub mod RoundTrip
pub mod Totality
use webhost.Base.{
  ℕ, zero, suc, ◌+◌, Bool, true, false, List, [], ◌∷◌, ◌++◌, Option, none, some, if◌then◌else◌,
  length, pos,
}
use webhost.Qt.{QString, QByteArray, lit, c_string, Library}
use webhost.Profile.{Profile, set_source, string_value}
use webhost.Users.{User, UserMap, add_user}

module _ (qt : Library) where
  open qt use {to_utf8, number}

  -- `QString().sprintf("WebHostUser%d",count+1)`
  unfoldable pub section_name : ℕ → QString
  section_name count = lit "WebHostUser" ++ number (pos (count + 1))

  -- The loop reads sections until one has no realm; `none` is a loop that ran out of fuel.
  unfoldable pub load_loop : ℕ → Profile → ℕ → UserMap → Option UserMap
  load_loop zero p count m = none
  load_loop (suc fuel) p count m =
      let section = section_name count in
      let (realm, ok) = string_value p section (lit "Realm") [] in
      let name = (string_value p section (lit "Name") []).0 in
      let passwd = (string_value p section (lit "Password") []).0 in
      let rest = load_loop fuel p (count + 1) (add_user m realm name passwd) in
      if ok then rest else some m

  abbrev pub empty_profile : Profile
  empty_profile = record { source = []; sections = [] }

  -- A file that cannot be opened leaves the users as they are.
  unfoldable pub load_users : QString → Option QByteArray → UserMap → Option UserMap × Bool
  load_users filename file m =
      let (p, ok) = set_source qt empty_profile filename file in
      if ok then (load_loop (suc (length p.sections)) p 0 [], true) else (some m, false)

  -- `fprintf(f,"Tag=%s\n",…)`
  unfoldable pub print_value : QString → QString → QByteArray
  print_value tag value = tag ++ (c_string (to_utf8 value) ++ 10 ∷ [])

  -- `fprintf(f,"[WebHostUser%d]\n",count+1)`
  unfoldable pub print_section : ℕ → QByteArray
  print_section count = lit "[WebHostUser" ++ (number (pos (count + 1)) ++ b']' ∷ 10 ∷ [])

  unfoldable pub print_user : ℕ → QString → QString → QString → QByteArray
  print_user count realm name passwd =
      print_section count
      ++ (print_value (lit "Realm=") realm
          ++ (print_value (lit "Name=") name ++ print_value (lit "Password=") passwd))

  -- The inner loop: the text, and the count behind it.
  unfoldable pub save_realm : QString → List User → ℕ → QByteArray × ℕ
  save_realm realm [] count = ([], count)
  save_realm realm (u ∷ us) count =
      let (rest, n) = save_realm realm us (count + 1) in
      (print_user count realm u.name u.password ++ (10 ∷ rest), n)

  unfoldable pub save_map : UserMap → ℕ → QByteArray
  save_map [] count = []
  save_map ((realm, us) ∷ m) count =
      let (text, n) = save_realm realm us count in text ++ save_map m n

  abbrev pub save_users : UserMap → QByteArray
  save_users m = save_map m 0
