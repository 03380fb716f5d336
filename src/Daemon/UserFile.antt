-- ===== src/Daemon/UserFile.antt =====
-- The commands on users (src/webhostd/users.cpp). The old pair runs htpasswd(1); the new pair
-- rewrites the file that `loadUsers` reads, entry by entry. A command of the wrong size does nothing.
pub mod Entries
pub mod Installed
use webhost.Base.{
  ℕ, zero, suc, ◌+◌, ◌-◌, Bool, true, false, ◌&&◌, ◌||◌, not, List, [], ◌∷◌, ◌++◌, Option, none,
  some, if◌then◌else◌, length,
}
use mathlib.Core.Option
use webhost.Qt.{QString, QByteArray, QStringList, lit, str_eq, is_empty, left, Library}
use webhost.Profile.{Profile, set_source, string_value}
use webhost.Users.File.{section_name, print_user, empty_profile}
use webhost.Daemon.World.{World, Effect, run_program, replace_file, hang_up_service}

abbrev htpasswd : QStringList → List Effect
htpasswd args = run_program (lit "/usr/bin/htpasswd") args ∷ []

pub handle_add_user : QStringList → List Effect
handle_add_user (verb ∷ file ∷ name ∷ passwd ∷ []) = htpasswd (lit "-b" ∷ file ∷ name ∷ passwd ∷ [])
handle_add_user (verb ∷ file ∷ name ∷ []) = htpasswd (lit "-b" ∷ file ∷ name ∷ [] ∷ [])
handle_add_user _ = []

pub handle_delete_user : QStringList → List Effect
handle_delete_user (verb ∷ file ∷ name ∷ []) = htpasswd (lit "-D" ∷ file ∷ name ∷ [])
handle_delete_user _ = []

-- The words of the password, each with a space behind it, and then without the last space.
unfoldable pub spaced_words : QStringList → QString
spaced_words [] = []
spaced_words (w ∷ ws) = (w ++ lit " ") ++ spaced_words ws

unfoldable pub password_of : QStringList → QString
unfolding spaced_words
password_of ws = let p = spaced_words ws in if is_empty p then p else left p (length p - 1)

module _ (qt : Library) where
  -- The loops over the sections of the file print as they read; `none` is out of fuel.
  unfoldable pub add_loop : ℕ → Profile → ℕ → QString → QString → QString → Bool → Option QByteArray
  add_loop zero p count new_realm new_name new_passwd used = none
  add_loop (suc fuel) p count new_realm new_name new_passwd used =
      let section = section_name qt count in
      let (realm, ok) = string_value p section (lit "Realm") [] in
      let name = (string_value p section (lit "Name") []).0 in
      let passwd = (string_value p section (lit "Password") []).0 in
      let found = str_eq realm new_realm && str_eq name new_name in
      let printed = print_user qt count realm name (if found then new_passwd else passwd) in
      let rest =
        Option.map (λ text. printed ++ text)
          (add_loop fuel p (count + 1) new_realm new_name new_passwd (used || found)) in
      if ok
      then rest
      else some (if used then [] else print_user qt count new_realm new_name new_passwd)

  unfoldable pub delete_loop : ℕ → Profile → ℕ → ℕ → QString → QString → Option QByteArray
  delete_loop zero p read_count write_count new_realm new_name = none
  delete_loop (suc fuel) p read_count write_count new_realm new_name =
      let section = section_name qt read_count in
      let (realm, ok) = string_value p section (lit "Realm") [] in
      let name = (string_value p section (lit "Name") []).0 in
      let passwd = (string_value p section (lit "Password") []).0 in
      let kept = not (str_eq realm new_realm) || not (str_eq name new_name) in
      let more =
        delete_loop fuel p (read_count + 1) (if kept then write_count + 1 else write_count)
          new_realm new_name in
      let rest =
        if kept
        then Option.map (λ text. print_user qt write_count realm name passwd ++ text) more
        else more in
      if ok then rest else some []

  -- The profile of a file; one that cannot be read is empty.
  abbrev pub profile_of : QString → Option QByteArray → Profile
  profile_of filename text = (set_source qt (empty_profile qt) filename text).0

  -- The bytes of the new file.
  unfoldable pub added_file :
      QString → Option QByteArray → QString → QString → QString → Option QByteArray
  added_file filename text realm name passwd =
      let p = profile_of filename text in
      add_loop (suc (length p.sections)) p 0 realm name passwd false

  unfoldable pub deleted_file : QString → Option QByteArray → QString → QString → Option QByteArray
  deleted_file filename text realm name =
      let p = profile_of filename text in delete_loop (suc (length p.sections)) p 0 0 realm name

  -- The new file takes the place of the old, and the service reads it again if it runs.
  unfoldable pub install : World → QString → Option QByteArray → List Effect
  install w filename none = []
  install w filename (some text) =
      replace_file filename text
      ∷ (if w.service_exists && w.service_runs then hang_up_service ∷ [] else [])

  unfoldable pub handle_add_user2 : World → QStringList → List Effect
  unfolding install
  handle_add_user2 w (verb ∷ filename ∷ realm ∷ name ∷ words) =
      if w.is_writable (filename ++ lit ".back")
      then install w filename (added_file filename (w.file filename) realm name (password_of words))
      else []
  handle_add_user2 w _ = []

  unfoldable pub handle_delete_user2 : World → QStringList → List Effect
  unfolding install
  handle_delete_user2 w (verb ∷ filename ∷ realm ∷ name ∷ []) =
      if w.is_writable (filename ++ lit ".back")
      then install w filename (deleted_file filename (w.file filename) realm name)
      else []
  handle_delete_user2 w _ = []
