-- ===== src/Daemon/UserFile/Installed.antt =====
-- From a command on users (src/webhostd/users.cpp) to the logins of the server
-- (src/wh/whhttpserver.cpp) that reads the new file.
use webhost.Base.{
  suc, ◌≡◌, refl, ap, ◌∙◌, true, false, ◌&&◌, List, [], ◌∷◌, ◌++◌, some, All, if◌then◌else◌, length,
  sym, ◌-◌, arith, length-append, append-nil, append_assoc, take-length_append,
}
use mathlib.Core.Option
use webhost.Qt.{
  QString, QByteArray, QStringList, lit, join, str_eq, left, is_empty, Library, TextLaws,
}
use webhost.Profile.{set_source}
use webhost.Users.{UserMap, authenticate_user, any_valid, realm_users}
use webhost.Users.File.{load_users}
use webhost.Users.File.Lines.{Entry, IsEntry}
use webhost.Users.File.Reading.{add_entries, load_loop-entries_from}
use webhost.Daemon.World.{World, replace_file, hang_up_service, Effect}
use webhost.Daemon.UserFile.{
  password_of, spaced_words, handle_add_user2, handle_delete_user2, profile_of,
}
use webhost.Daemon.UserFile.Entries.{put_entry, drop_entries}
use webhost.Daemon.UserFile.Entries.Reading.{file_entries, added_file-entries, deleted_file-entries}
use webhost.Daemon.UserFile.Entries.Logins.{
  authenticate_user-add_entries, login-put_entry, login-drop_entries,
}

spaced-join :
    (w : QString) (ws : QStringList) → spaced_words (w ∷ ws) ≡ join (w ∷ ws) (lit " ") ++ lit " "
unfolding spaced_words join
spaced-join w [] = append-nil (w ++ lit " ")
spaced-join w (v ∷ ws) = ap (λ t. (w ++ lit " ") ++ t) (spaced-join v ws) ∙ simp append_assoc

drop_last : (s : QString) → left (s ++ lit " ") (length (s ++ lit " ") - 1) ≡ s
unfolding lit
drop_last s =
    ap (λ n. left (s ++ lit " ") n) (omega (arith, length-append s (lit " ")))
    ∙ take-length_append s (lit " ")

spaced_ne : (s : QString) → is_empty (s ++ lit " ") ≡ false
unfolding is_empty lit
spaced_ne [] = refl
spaced_ne (x ∷ s) = refl

-- The password that the command's words spell is the words with single spaces between them.
pub password_of-join : (ws : QStringList) → password_of ws ≡ join ws (lit " ")
unfolding password_of join is_empty
password_of-join [] = refl
password_of-join (w ∷ ws) =
    rw (spaced-join w ws, drop_last (join (w ∷ ws) (lit " ")))
      (rw (spaced_ne (join (w ∷ ws) (lit " "))))

-- The effects of a file that is replaced: its bytes, and a signal to a service that runs.
abbrev pub replaced : World → QString → QByteArray → List Effect
replaced w filename bytes =
    replace_file filename bytes
    ∷ (if w.service_exists && w.service_runs then hang_up_service ∷ [] else [])

module _ (qt : Library) (laws : TextLaws qt) where
  -- Loading a file that can be read adds its entries to an empty table.
  load_users-file_entries :
      (filename : QString) (text : QByteArray) (es : List Entry) (before : UserMap)
      → file_entries qt filename (some text) ≡ some es
      → load_users qt filename (some text) before ≡ (some (add_entries [] es), true)
  unfolding load_users set_source
  load_users-file_entries filename text es before found =
      let p = profile_of qt filename (some text) in
      ap (λ m. (m, true))
        (load_loop-entries_from qt (suc (length p.sections)) p 0 []
          ∙ ap (Option.map (add_entries [])) found)

  -- Over a library with the documented laws of texts, in a UTF-8 locale, where the backup file can
  -- be written and the user file read, and where the file's entries and the new one can stand on
  -- lines: the command `addUser2` replaces the file and signals the service if it runs, and a
  -- server that loads the new file lets the name into the realm with exactly the password whose
  -- words the command lists, and decides on all others as it did on the old file.
  pub handle_add_user2-authenticate_user :
      (w : World) (verb filename realm name : QString) (words : QStringList) (text : QByteArray)
      (es : List Entry) (before : UserMap) (r n p : QString)
      → w.is_writable (filename ++ lit ".back") ≡ true
      → w.file filename ≡ some text
      → file_entries qt filename (some text) ≡ some es
      → All (IsEntry qt) es
      → IsEntry qt (record { realm = realm; name = name; password = join words (lit " ") })
      → (bytes : QByteArray) × (old : UserMap) × (new : UserMap) × (handle_add_user2 qt w
            (verb ∷ filename ∷ realm ∷ name ∷ words)
          ≡ replaced w filename bytes)
        × (load_users qt filename (some text) before ≡ (some old, true))
        × (load_users qt filename (some bytes) before ≡ (some new, true))
        × ((authenticate_user new r n p).0 ≡ (
            if str_eq realm r && str_eq name n
            then str_eq p (join words (lit " "))
            else (authenticate_user old r n p).0))
  unfolding handle_add_user2 authenticate_user any_valid realm_users
  handle_add_user2-authenticate_user w verb filename realm name words text es before r n p writable
        file found h s =
      let (bytes, written, read) =
        added_file-entries qt laws filename (some text) realm name (join words (lit " ")) es found h
          s in
      (
        bytes,
        _,
        _,
        rw (writable, file, password_of-join words, written),
        load_users-file_entries filename text es before found,
        load_users-file_entries filename bytes _ before read,
        authenticate_user-add_entries (put_entry es realm name (join words (lit " "))) [] r n p tt
            ∙ login-put_entry es realm name (join words (lit " ")) r n p
            ∙ ap
                (λ b.
                  if str_eq realm r && str_eq name n then str_eq p (join words (lit " ")) else b)
                (sym (authenticate_user-add_entries es [] r n p tt)),
      )

  -- Over a library with the documented laws of texts, in a UTF-8 locale, where the backup file can
  -- be written and the user file read, and where the file's entries can stand on lines: the command
  -- `deleteUser2` replaces the file and signals the service if it runs, and a server that loads the
  -- new file never lets the name into the realm, and decides on all others as it did on the old
  -- file.
  pub handle_delete_user2-authenticate_user :
      (w : World) (verb filename realm name : QString) (text : QByteArray) (es : List Entry)
      (before : UserMap) (r n p : QString)
      → w.is_writable (filename ++ lit ".back") ≡ true
      → w.file filename ≡ some text
      → file_entries qt filename (some text) ≡ some es
      → All (IsEntry qt) es
      → (bytes : QByteArray) × (old : UserMap) × (new : UserMap) × (handle_delete_user2 qt w
            (verb ∷ filename ∷ realm ∷ name ∷ [])
          ≡ replaced w filename bytes)
        × (load_users qt filename (some text) before ≡ (some old, true))
        × (load_users qt filename (some bytes) before ≡ (some new, true))
        × ((authenticate_user new r n p).0
            ≡ (if str_eq realm r && str_eq name n then false else (authenticate_user old r n p).0))
  unfolding handle_delete_user2 authenticate_user any_valid realm_users
  handle_delete_user2-authenticate_user w verb filename realm name text es before r n p writable
        file found h =
      let (bytes, written, read) =
        deleted_file-entries qt laws filename (some text) realm name es found h in
      (
        bytes,
        _,
        _,
        rw (writable, file, written),
        load_users-file_entries filename text es before found,
        load_users-file_entries filename bytes _ before read,
        authenticate_user-add_entries (drop_entries es realm name) [] r n p tt
            ∙ login-drop_entries es realm name r n p
            ∙ ap (λ b. if str_eq realm r && str_eq name n then false else b)
                (sym (authenticate_user-add_entries es [] r n p tt)),
      )
