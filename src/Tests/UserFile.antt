-- ===== src/Tests/UserFile.antt =====
-- The theorems on the daemon's commands on users at the file of a concrete table.
use webhost.Base.{◌≡◌, refl, true, false, [], ◌∷◌, some, if◌then◌else◌, ◌&&◌, arith}
use webhost.Qt.{QByteArray, lit, join, str_eq}
use webhost.Users.{UserMap, authenticate_user}
use webhost.Users.File.{load_users}
use webhost.Users.File.Lines.{IsStorable}
use webhost.Users.File.Rebuild.{entries}
use webhost.Daemon.World.{World}
use webhost.Daemon.UserFile.{handle_add_user2, handle_delete_user2}
use webhost.Daemon.UserFile.Entries.{printed}
use webhost.Daemon.UserFile.Entries.Reading.{file_entries, file_entries-printed}
use webhost.Daemon.UserFile.Installed.{
  replaced, handle_add_user2-authenticate_user, handle_delete_user2-authenticate_user,
}
use webhost.Tests.SampleQt.{sample, sample_laws}
use webhost.Tests.Users.{
  admins, bob, eve, secret, table, table-IsEntry, bob-IsStorable, admins-IsStorable,
}

abbrev saved : QByteArray
saved = printed sample 0 (entries table)

abbrev host : World
host = record {
  file = λ f. some saved;
  is_writable = λ f. true;
  output = λ p a. [];
  service_exists = true;
  service_runs = true;
  past_words = [];
}

saved-entries : file_entries sample bob (some saved) ≡ some (entries table)
saved-entries = file_entries-printed sample sample_laws bob (entries table) table-IsEntry

words-IsStorable : IsStorable sample (join (eve ∷ bob ∷ []) (lit " "))
unfolding join lit
words-IsStorable = record {
  line = record { no_nul = omega arith; no_lf = omega arith; no_cr = omega arith; valid = refl };
  tight = record { starts = refl; ends = refl };
}

handle_add_user2-authenticate_user_example :
    (bytes : QByteArray) × (old : UserMap) × (new : UserMap) × (handle_add_user2 sample host
        ([] ∷ bob ∷ admins ∷ bob ∷ eve ∷ bob ∷ [])
      ≡ replaced host bob bytes)
    × (load_users sample bob (some saved) [] ≡ (some old, true))
    × (load_users sample bob (some bytes) [] ≡ (some new, true))
    × ((authenticate_user new admins bob secret).0 ≡ (
        if str_eq admins admins && str_eq bob bob
        then str_eq secret (join (eve ∷ bob ∷ []) (lit " "))
        else (authenticate_user old admins bob secret).0))
handle_add_user2-authenticate_user_example =
    handle_add_user2-authenticate_user sample sample_laws host [] bob admins bob (eve ∷ bob ∷ [])
      saved (entries table) [] admins bob secret refl refl saved-entries table-IsEntry
      (record {
        realm_ok = admins-IsStorable;
        name_ok = bob-IsStorable;
        password_ok = words-IsStorable;
      })

handle_delete_user2-authenticate_user_example :
    (bytes : QByteArray) × (old : UserMap) × (new : UserMap) × (handle_delete_user2 sample host
        ([] ∷ bob ∷ admins ∷ bob ∷ [])
      ≡ replaced host bob bytes)
    × (load_users sample bob (some saved) [] ≡ (some old, true))
    × (load_users sample bob (some bytes) [] ≡ (some new, true))
    × ((authenticate_user new admins bob secret).0 ≡ (
        if str_eq admins admins && str_eq bob bob
        then false
        else (authenticate_user old admins bob secret).0))
handle_delete_user2-authenticate_user_example =
    handle_delete_user2-authenticate_user sample sample_laws host [] bob admins bob saved
      (entries table) [] admins bob secret refl refl saved-entries table-IsEntry
