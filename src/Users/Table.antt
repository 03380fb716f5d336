-- ===== src/Users/Table.antt =====
-- What adding and removing users does to who can log in, and to the form of the map.
use webhost.Base.{
  ◌≡◌, refl, subst, true, false, ◌&&◌, List, [], ◌∷◌, arith, if◌then◌else◌, Bool-cases, inl, inr,
  All,
}
use webhost.Qt.{QString, str_eq, str_eq_iff, str_lt, str_lt_total}
use webhost.Maps.{put, KeysAbove-trans, put-KeysAbove}
use webhost.Users.{
  User, UserMap, realm_users, put_realm, set_user, add_user, drop_user, remove_user, any_valid,
  authenticate_user,
}

pub realm_users-put_realm :
    (m : UserMap) (k j : QString) (us : List User)
    → realm_users (put_realm m k us) j ≡ (if str_eq k j then us else realm_users m j)
unfolding realm_users put
realm_users-put_realm [] k j us = refl
realm_users-put_realm ((i, vs) ∷ m) k j us =
    ground (arith, str_eq_iff k j, str_eq_iff i k, str_eq_iff i j, realm_users-put_realm m k j us)

-- No two users of a list have one name.
abbrev pub Distinct : List User → Type 0
Distinct [] = Unit
Distinct (u ∷ us) = All (λ v. str_eq v.name u.name ≡ false) us × Distinct us

any_valid_absent :
    (us : List User) (name n p : QString)
    → All (λ v. str_eq v.name name ≡ false) us
    → n ≡ name
    → any_valid us n p ≡ false
unfolding any_valid
any_valid_absent [] name n p d e = refl
any_valid_absent (v ∷ us) name n p d e =
    ground (arith, str_eq_iff n v.name, str_eq_iff v.name name, any_valid_absent us name n p d.1)

any_valid-set_user :
    (us : List User) (name passwd n p : QString)
    → Distinct us
    → any_valid (set_user us name passwd) n p
      ≡ (if str_eq n name then str_eq p passwd else any_valid us n p)
unfolding any_valid set_user
any_valid-set_user [] name passwd n p d = ground arith
any_valid-set_user (u ∷ us) name passwd n p d = elim (Bool-cases (str_eq u.name name)) [
  | inl e ↦ ground (
    arith,
    str_eq_iff u.name name,
    str_eq_iff n u.name,
    str_eq_iff n name,
    any_valid_absent us u.name n p d.0,
  )
  | inr e ↦ ground (
    arith,
    str_eq_iff u.name name,
    str_eq_iff n u.name,
    str_eq_iff n name,
    any_valid-set_user us name passwd n p d.1,
  )
]

any_valid-drop_user :
    (us : List User) (name n p : QString)
    → Distinct us
    → any_valid (drop_user us name) n p ≡ (if str_eq n name then false else any_valid us n p)
unfolding any_valid drop_user
any_valid-drop_user [] name n p d = ground arith
any_valid-drop_user (u ∷ us) name n p d = elim (Bool-cases (str_eq u.name name)) [
  | inl e ↦ ground (
    arith,
    str_eq_iff u.name name,
    str_eq_iff n u.name,
    str_eq_iff n name,
    any_valid_absent us u.name n p d.0,
  )
  | inr e ↦ ground (
    arith,
    str_eq_iff u.name name,
    str_eq_iff n u.name,
    str_eq_iff n name,
    any_valid-drop_user us name n p d.1,
  )
]

abbrev pub IsFresh : QString → List User → Type 0
IsFresh name = All (λ v. str_eq v.name name ≡ false)

set_user-IsFresh :
    (us : List User) (name passwd n : QString)
    → str_eq name n ≡ false
    → IsFresh n us
    → IsFresh n (set_user us name passwd)
unfolding set_user
set_user-IsFresh [] name passwd n e f = (e, tt)
set_user-IsFresh (u ∷ us) name passwd n e f = elim (Bool-cases (str_eq u.name name)) [
  | inl h ↦ rw h f
  | inr h ↦ rw h (f.0, set_user-IsFresh us name passwd n e f.1)
]

set_user-Distinct :
    (us : List User) (name passwd : QString) → Distinct us → Distinct (set_user us name passwd)
unfolding set_user
set_user-Distinct [] name passwd d = (tt, tt)
set_user-Distinct (u ∷ us) name passwd d = elim (Bool-cases (str_eq u.name name)) [
  | inl h ↦ rw h d
  | inr h ↦ rw h (
    set_user-IsFresh us name passwd u.name
        (ground (arith, str_eq_iff name u.name, str_eq_iff u.name name)) d.0,
    set_user-Distinct us name passwd d.1,
  )
]

drop_user-IsFresh :
    (us : List User) (name n : QString) → IsFresh n us → IsFresh n (drop_user us name)
unfolding drop_user
drop_user-IsFresh [] name n f = tt
drop_user-IsFresh (u ∷ us) name n f = elim (Bool-cases (str_eq u.name name)) [
  | inl h ↦ rw h f.1
  | inr h ↦ rw h (f.0, drop_user-IsFresh us name n f.1)
]

drop_user-Distinct : (us : List User) (name : QString) → Distinct us → Distinct (drop_user us name)
unfolding drop_user
drop_user-Distinct [] name d = tt
drop_user-Distinct (u ∷ us) name d = elim (Bool-cases (str_eq u.name name)) [
  | inl h ↦ rw h d.1
  | inr h ↦ rw h (drop_user-IsFresh us name u.name d.0, drop_user-Distinct us name d.1)
]

-- The keys rise, and each realm's names are distinct.
abbrev pub Above : QString → UserMap → Type 0
Above k m = All (λ e. str_lt k e.0 ≡ true) m

abbrev pub IsTable : UserMap → Type 0
IsTable [] = Unit
IsTable ((k, us) ∷ m) = Above k m × Distinct us × IsTable m

pub realm_users-Distinct :
    (m : UserMap) (realm : QString) → IsTable m → Distinct (realm_users m realm)
unfolding realm_users
realm_users-Distinct [] realm t = tt
realm_users-Distinct ((k, us) ∷ m) realm t = elim (Bool-cases (str_eq k realm)) [
  | inl h ↦ rw h t.1
  | inr h ↦ rw h (realm_users-Distinct m realm t.2)
]

-- Putting users with distinct names keeps the form of the map.
put_realm-IsTable :
    (m : UserMap) (k : QString) (us : List User)
    → Distinct us
    → IsTable m
    → IsTable (put_realm m k us)
unfolding put
put_realm-IsTable [] k us d t = (tt, d, tt)
put_realm-IsTable ((i, vs) ∷ m) k us d t = elim (Bool-cases (str_eq i k)) [
  | inl e ↦ rw e (subst (λ x. Above x m) ((str_eq_iff i k).0 e) t.0, d, t.2)
  | inr e ↦ elim (Bool-cases (str_lt k i)) [
    | inl l ↦ rw (e, l) ((l, KeysAbove-trans m k i l t.0), d, t)
    | inr g ↦
        rw (e, g)
          (put-KeysAbove m i k us (str_lt_total i k e g) t.0, t.1, put_realm-IsTable m k us d t.2)
  ]
]

-- Adding a user to a table whose realms are sorted and whose names are distinct within a realm
-- leaves such a table.
pub add_user-IsTable :
    (m : UserMap) (realm name passwd : QString) → IsTable m → IsTable (add_user m realm name passwd)
unfolding add_user
add_user-IsTable m realm name passwd t =
    put_realm-IsTable m realm _
      (set_user-Distinct (realm_users m realm) name passwd (realm_users-Distinct m realm t)) t

-- In a table whose realms are sorted and whose names are distinct within a realm, adding a user lets
-- that name log in to that realm with exactly that password, and changes nothing for other names and
-- realms.
pub authenticate_user-add_user :
    (m : UserMap) (realm name passwd r n p : QString)
    → IsTable m
    → (authenticate_user (add_user m realm name passwd) r n p).0
      ≡ (if str_eq realm r && str_eq n name then str_eq p passwd else (authenticate_user m r n p).0)
unfolding authenticate_user add_user
authenticate_user-add_user m realm name passwd r n p t = ground (
  arith,
  str_eq_iff realm r,
  realm_users-put_realm m realm r (set_user (realm_users m realm) name passwd),
  any_valid-set_user (realm_users m realm) name passwd n p (realm_users-Distinct m realm t),
)

-- In a table whose realms are sorted and whose names are distinct within a realm, removing a user
-- shuts that name out of that realm, and changes nothing for other names and realms.
pub authenticate_user-remove_user :
    (m : UserMap) (realm name r n p : QString)
    → IsTable m
    → (authenticate_user (remove_user m realm name) r n p).0
      ≡ (if str_eq realm r && str_eq n name then false else (authenticate_user m r n p).0)
unfolding authenticate_user remove_user
authenticate_user-remove_user m realm name r n p t = ground (
  arith,
  str_eq_iff realm r,
  realm_users-put_realm m realm r (drop_user (realm_users m realm) name),
  any_valid-drop_user (realm_users m realm) name n p (realm_users-Distinct m realm t),
)
