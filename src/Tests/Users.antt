-- ===== src/Tests/Users.antt =====
-- The theorems on users at a concrete table.
use webhost.Base.{◌≡◌, refl, true, false, [], ◌∷◌, some, arith, All}
use webhost.Qt.{QString, str_eq, str_lt}
use webhost.Users.{UserMap, add_user, remove_user, user_names, realm_users, authenticate_user}
use webhost.Users.Names.{user_names-remove_user}
use webhost.Users.Table.{
  IsTable, add_user-IsTable, authenticate_user-add_user, authenticate_user-remove_user,
}
use webhost.Users.File.{load_users, save_users}
use webhost.Users.File.Lines.{IsStorable, IsEntry}
use webhost.Users.File.Rebuild.{HasUsers, entries}
use webhost.Users.File.RoundTrip.{load_users-save_users}
use webhost.Users.File.Totality.{load_users-total}
use webhost.Tests.SampleQt.{sample, sample_laws}

abbrev pub admins : QString
admins = b'a' ∷ b'd' ∷ []

abbrev pub bob : QString
bob = b'b' ∷ b'o' ∷ b'b' ∷ []

abbrev pub eve : QString
eve = b'e' ∷ b'v' ∷ b'e' ∷ []

abbrev pub secret : QString
secret = b'p' ∷ b' ' ∷ b'=' ∷ b']' ∷ []

abbrev pub table : UserMap
table =
    (
      admins,
      (record { name = bob; password = secret }) ∷ (record { name = eve; password = bob }) ∷ [],
    )
    ∷ (bob, (record { name = bob; password = [] }) ∷ [])
    ∷ []

table-IsTable : IsTable table
unfolding str_lt str_eq
table-IsTable = ((refl, tt), ((refl, tt), (tt, tt)), (tt, (tt, tt), tt))

table-HasUsers : HasUsers table
table-HasUsers = ((λ e. cc), ((λ e. cc), tt))

add_user-IsTable_example : IsTable (add_user table eve bob secret)
add_user-IsTable_example = add_user-IsTable table eve bob secret table-IsTable

user_names-remove_user_example : (user_names (remove_user table admins bob) admins).0 ≡ eve ∷ []
unfolding str_eq realm_users user_names
user_names-remove_user_example = user_names-remove_user table admins bob admins table-IsTable

authenticate_user-add_user_example :
    (authenticate_user (add_user table admins eve secret) admins eve secret).0 ≡ true
unfolding str_eq
authenticate_user-add_user_example =
    authenticate_user-add_user table admins eve secret admins eve secret table-IsTable

authenticate_user-remove_user_example :
    (authenticate_user (remove_user table admins eve) admins eve bob).0 ≡ false
unfolding str_eq
authenticate_user-remove_user_example =
    authenticate_user-remove_user table admins eve admins eve bob table-IsTable

pub bob-IsStorable : IsStorable sample bob
bob-IsStorable = record {
  line = record { no_nul = omega arith; no_lf = omega arith; no_cr = omega arith; valid = refl };
  tight = record { starts = refl; ends = refl };
}

pub eve-IsStorable : IsStorable sample eve
eve-IsStorable = record {
  line = record { no_nul = omega arith; no_lf = omega arith; no_cr = omega arith; valid = refl };
  tight = record { starts = refl; ends = refl };
}

pub admins-IsStorable : IsStorable sample admins
admins-IsStorable = record {
  line = record { no_nul = omega arith; no_lf = omega arith; no_cr = omega arith; valid = refl };
  tight = record { starts = refl; ends = refl };
}

pub secret-IsStorable : IsStorable sample secret
secret-IsStorable = record {
  line = record { no_nul = omega arith; no_lf = omega arith; no_cr = omega arith; valid = refl };
  tight = record { starts = refl; ends = refl };
}

pub empty-IsStorable : IsStorable sample []
empty-IsStorable = record {
  line = record { no_nul = tt; no_lf = tt; no_cr = tt; valid = refl };
  tight = record { starts = tt; ends = tt };
}

pub table-IsEntry : All (IsEntry sample) (entries table)
table-IsEntry = (
  record {
    realm_ok = admins-IsStorable;
    name_ok = bob-IsStorable;
    password_ok = secret-IsStorable;
  },
  (
    record { realm_ok = admins-IsStorable; name_ok = eve-IsStorable; password_ok = bob-IsStorable },
    (
      record {
        realm_ok = bob-IsStorable;
        name_ok = bob-IsStorable;
        password_ok = empty-IsStorable;
      },
      tt,
    ),
  ),
)

load_users-save_users_example :
    load_users sample bob (some (save_users sample table)) [] ≡ (some table, true)
load_users-save_users_example =
    load_users-save_users sample sample_laws bob table [] table-IsTable table-HasUsers table-IsEntry

load_users-total_example :
    (r : UserMap) × ((load_users sample bob (some (b'[' ∷ 10 ∷ [])) table).0 ≡ some r)
load_users-total_example = load_users-total sample sample_laws bob (some (b'[' ∷ 10 ∷ [])) table
