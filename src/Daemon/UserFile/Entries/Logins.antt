-- ===== src/Daemon/UserFile/Entries/Logins.antt =====
-- Who can log in by the entries of a file, and what the commands on users change about it.
use webhost.Base.{
  ◌≡◌, refl, ap, ◌∙◌, true, false, ◌&&◌, Bool, List, [], ◌∷◌, ◌++◌, arith, if◌then◌else◌,
  Bool-cases, inl, inr,
}
use webhost.Qt.{QString, str_eq, str_eq_iff, str_eq_refl}
use webhost.Users.{UserMap, add_user, authenticate_user}
use webhost.Users.Table.{IsTable, add_user-IsTable, authenticate_user-add_user}
use webhost.Users.File.Lines.{Entry}
use webhost.Users.File.Reading.{add_entries}
use webhost.Daemon.UserFile.Entries.{is_entry, set_entries, has_entry, put_entry, drop_entries}

-- The last entry of the name in the realm decides.
unfoldable pub login : List Entry → QString → QString → QString → Bool → Bool
login [] r n p before = before
login (e ∷ es) r n p before =
    login es r n p (if is_entry e r n then str_eq p e.password else before)

pub authenticate_user-add_entries :
    (es : List Entry) (m : UserMap) (r n p : QString)
    → IsTable m
    → (authenticate_user (add_entries m es) r n p).0 ≡ login es r n p (authenticate_user m r n p).0
unfolding add_entries login
authenticate_user-add_entries [] m r n p t = refl
authenticate_user-add_entries (e ∷ es) m r n p t =
    authenticate_user-add_entries es (add_user m e.realm e.name e.password) r n p
      (add_user-IsTable m e.realm e.name e.password t)
    ∙ ap (login es r n p) (
        ground (
          arith,
          str_eq_iff n e.name,
          str_eq_iff e.name n,
          authenticate_user-add_user m e.realm e.name e.password r n p t,
        ))

login-append :
    (es fs : List Entry) (r n p : QString) (b : Bool)
    → login (es ++ fs) r n p b ≡ login fs r n p (login es r n p b)
unfolding login
login-append [] fs r n p b = refl
login-append (e ∷ es) fs r n p b = login-append es fs r n p _

abbrev is_of : QString → QString → QString → QString → Bool
is_of realm name r n = str_eq realm r && str_eq name n

is_entry-other :
    (e : Entry) (realm name r n : QString)
    → is_entry e realm name ≡ true
    → is_of realm name r n ≡ false
    → is_entry e r n ≡ false
is_entry-other e realm name r n x h = ground (
  arith,
  str_eq_iff e.realm realm,
  str_eq_iff e.name name,
  str_eq_iff e.realm r,
  str_eq_iff e.name n,
  str_eq_iff realm r,
  str_eq_iff name n,
)

login-set_same :
    (es : List Entry) (r n p passwd : QString) (b : Bool)
    → login (set_entries es r n passwd) r n p b ≡ (if has_entry es r n then str_eq p passwd else b)
unfolding login set_entries has_entry
login-set_same [] r n p passwd b = refl
login-set_same (e ∷ es) r n p passwd b = elim (Bool-cases (is_entry e r n)) [
  | inl x ↦ rw (x, login-set_same es r n p passwd) (ground (arith, x))
  | inr x ↦ rw (x, login-set_same es r n p passwd) (ground (arith, x))
]

login-set_other :
    (es : List Entry) (realm name r n p passwd : QString) (b : Bool)
    → is_of realm name r n ≡ false
    → login (set_entries es realm name passwd) r n p b ≡ login es r n p b
unfolding login set_entries
login-set_other [] realm name r n p passwd b h = refl
login-set_other (e ∷ es) realm name r n p passwd b h = elim (Bool-cases (is_entry e realm name)) [
  | inl x ↦
      rw (x, is_entry-other e realm name r n x h) (login-set_other es realm name r n p passwd b h)
  | inr x ↦ rw x (login-set_other es realm name r n p passwd _ h)
]

login-drop_same :
    (es : List Entry) (r n p : QString) (b : Bool)
    → b ≡ false
    → login (drop_entries es r n) r n p b ≡ false
unfolding login drop_entries
login-drop_same [] r n p b h = h
login-drop_same (e ∷ es) r n p b h = elim (Bool-cases (is_entry e r n)) [
  | inl x ↦ rw x (login-drop_same es r n p b h)
  | inr x ↦
      rw x (login-drop_same es r n p (if is_entry e r n then str_eq p e.password else b) (rw x h))
]

login-drop_other :
    (es : List Entry) (realm name r n p : QString) (b : Bool)
    → is_of realm name r n ≡ false
    → login (drop_entries es realm name) r n p b ≡ login es r n p b
unfolding login drop_entries
login-drop_other [] realm name r n p b h = refl
login-drop_other (e ∷ es) realm name r n p b h = elim (Bool-cases (is_entry e realm name)) [
  | inl x ↦ rw (x, is_entry-other e realm name r n x h) (login-drop_other es realm name r n p b h)
  | inr x ↦ rw x (login-drop_other es realm name r n p _ h)
]

same_names : (realm name r n : QString) → is_of realm name r n ≡ true → (realm ≡ r) × (name ≡ n)
same_names realm name r n x = ground (arith, str_eq_iff realm r, str_eq_iff name n)

pub login-put_entry :
    (es : List Entry) (realm name passwd r n p : QString)
    → login (put_entry es realm name passwd) r n p false
      ≡ (if str_eq realm r && str_eq name n then str_eq p passwd else login es r n p false)
unfolding put_entry login
login-put_entry es realm name passwd r n p =
    let old = set_entries es realm name passwd in
    let fresh : List Entry =
      if has_entry es realm name
      then []
      else (record { realm = realm; name = name; password = passwd }) ∷ [] in
    elim (Bool-cases (is_of realm name r n)) [
      | inl x ↦
          let (re, ne) = same_names realm name r n x in
          rw (re, ne, login-append, login-set_same, str_eq_refl r, str_eq_refl n)
            (elim (Bool-cases (has_entry es r n)) [
              | inl e ↦ rw e
              | inr e ↦ rw (e, str_eq_refl r, str_eq_refl n)
            ])
      | inr x ↦
          login-append old fresh r n p false
          ∙ ap (login fresh r n p) (login-set_other es realm name r n p passwd false x)
          ∙ elim (Bool-cases (has_entry es realm name)) [ inl e ↦ rw (e, x) | inr e ↦ rw (e, x) ]
    ]

pub login-drop_entries :
    (es : List Entry) (realm name r n p : QString)
    → login (drop_entries es realm name) r n p false
      ≡ (if str_eq realm r && str_eq name n then false else login es r n p false)
login-drop_entries es realm name r n p = elim (Bool-cases (is_of realm name r n)) [
  | inl x ↦
      let (re, ne) = same_names realm name r n x in
      rw (re, ne, login-drop_same es r n p false refl, str_eq_refl r, str_eq_refl n)
  | inr x ↦ rw x (login-drop_other es realm name r n p false x)
]
