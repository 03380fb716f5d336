-- ===== src/Users.antt =====
-- The users of the server by realm: WHHttpUser (src/wh/whhttpuser.cpp), and the methods on
-- `http_users` of src/wh/whhttpserver.cpp, a map that is sorted by its keys.
pub mod Table
pub mod Names
pub mod File
use webhost.Base.{ℕ, Bool, true, false, ◌&&◌, List, [], ◌∷◌, ◌++◌, if◌then◌else◌, map}
use webhost.Maps.{put}
use webhost.Qt.{QString, QStringList, str_eq, str_lt}

pub record User : Type 0 where
  pub name : QString
  pub password : QString

-- `isValid`
abbrev pub is_valid : User → QString → QString → Bool
is_valid u name passwd = str_eq name u.name && str_eq passwd u.password

abbrev pub UserMap : Type 0
UserMap = List (QString × List User)

-- What a realm holds; a realm that is missing holds nobody.
unfoldable pub realm_users : UserMap → QString → List User
realm_users [] realm = []
realm_users ((k, us) ∷ m) realm = if str_eq k realm then us else realm_users m realm

-- `http_users[realm]=us`, at the realm's place in the order of the keys.
abbrev pub put_realm : UserMap → QString → List User → UserMap
put_realm m realm us = put m realm us

-- The use of `http_users[realm]` creates a realm that is missing.
abbrev pub touch : UserMap → QString → UserMap
touch m realm = put_realm m realm (realm_users m realm)

-- A new password for the first user of that name, or a new user at the end.
unfoldable pub set_user : List User → QString → QString → List User
set_user [] name passwd = (record { name = name; password = passwd }) ∷ []
set_user (u ∷ us) name passwd =
    if str_eq u.name name
    then (record u { password = passwd }) ∷ us
    else u ∷ set_user us name passwd

unfoldable pub add_user : UserMap → QString → QString → QString → UserMap
add_user m realm name passwd = put_realm m realm (set_user (realm_users m realm) name passwd)

unfoldable pub drop_user : List User → QString → List User
drop_user [] name = []
drop_user (u ∷ us) name = if str_eq u.name name then us else u ∷ drop_user us name

unfoldable pub remove_user : UserMap → QString → QString → UserMap
remove_user m realm name = put_realm m realm (drop_user (realm_users m realm) name)

pub user_realms : UserMap → QStringList
user_realms m = map (λ e. e.0) m

unfoldable pub user_names : UserMap → QString → QStringList × UserMap
user_names m realm = (map (λ u. u.name) (realm_users m realm), touch m realm)

unfoldable pub any_valid : List User → QString → QString → Bool
any_valid [] name passwd = false
any_valid (u ∷ us) name passwd = if is_valid u name passwd then true else any_valid us name passwd

unfoldable pub authenticate_user : UserMap → QString → QString → QString → Bool × UserMap
authenticate_user m realm name passwd = (any_valid (realm_users m realm) name passwd, touch m realm)
