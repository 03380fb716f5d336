-- ===== src/Users/Names.antt =====
-- The names of a realm: `userNames` behind `removeUser` (src/wh/whhttpserver.cpp).
use webhost.Base.{
  ◌≡◌, refl, sym, ap, ◌∙◌, subst, List, [], ◌∷◌, map, if◌then◌else◌, Bool-cases, inl, inr,
}
use webhost.Qt.{QString, QStringList, str_eq, str_eq_iff}
use webhost.Users.{User, UserMap, realm_users, drop_user, remove_user, user_names}
use webhost.Users.Table.{Distinct, IsFresh, IsTable, realm_users-put_realm, realm_users-Distinct}

abbrev names_of : List User → QStringList
names_of us = map (λ u. u.name) us

-- The names that are not the given one, in their order.
abbrev pub other_names : QStringList → QString → QStringList
other_names [] name = []
other_names (n ∷ ns) name =
    let rest = other_names ns name in if str_eq n name then rest else n ∷ rest

other_names-IsFresh :
    (us : List User) (name : QString)
    → IsFresh name us
    → other_names (names_of us) name ≡ names_of us
other_names-IsFresh [] name f = refl
other_names-IsFresh (u ∷ us) name f = rw (f.0) (ap (◌∷◌ u.name) (other_names-IsFresh us name f.1))

names_of-drop_user :
    (us : List User) (name : QString)
    → Distinct us
    → names_of (drop_user us name) ≡ other_names (names_of us) name
unfolding drop_user
names_of-drop_user [] name d = refl
names_of-drop_user (u ∷ us) name d = elim (Bool-cases (str_eq u.name name)) [
  | inl h ↦ rw h (
      sym (
        other_names-IsFresh us name (subst (λ n. IsFresh n us) ((str_eq_iff u.name name).0 h) d.0)))
  | inr h ↦ rw h (ap (◌∷◌ u.name) (names_of-drop_user us name d.1))
]

-- In a table whose realms are sorted and whose names are distinct within a realm, removing a user
-- takes exactly that name out of the names of that realm, which keep their order, and leaves the
-- names of all other realms.
pub user_names-remove_user :
    (m : UserMap) (realm name r : QString)
    → IsTable m
    → (user_names (remove_user m realm name) r).0
      ≡ (if str_eq realm r then other_names (user_names m r).0 name else (user_names m r).0)
unfolding remove_user user_names
user_names-remove_user m realm name r t =
    ap names_of (realm_users-put_realm m realm r (drop_user (realm_users m realm) name))
    ∙ elim (Bool-cases (str_eq realm r)) [
      | inl h ↦ rw h (
          names_of-drop_user (realm_users m realm) name (realm_users-Distinct m realm t)
          ∙ ap (λ q. other_names (names_of (realm_users m q)) name) ((str_eq_iff realm r).0 h))
      | inr h ↦ rw h refl
    ]
