-- ===== src/Users/File/Rebuild.antt =====
-- Adding the entries of a table in order builds the table again.
use webhost.Base.{
  ◌≡◌, ◌≢◌, refl, ap, ◌∙◌, true, false, List, [], ◌∷◌, ◌++◌, arith, All, All-append, append_assoc,
  append-nil,
}
use webhost.Qt.{QString, str_eq, str_eq_iff, str_eq_refl, str_lt, str_lt_irrefl, str_lt_trans}
use webhost.Maps.{put}
use webhost.Users.{User, UserMap, realm_users, put_realm, set_user, add_user}
use webhost.Users.Table.{Distinct, IsFresh, Above, IsTable}
use webhost.Users.File.Lines.{Entry}
use webhost.Users.File.Reading.{add_entries}

-- The users of one realm, and of all, as the file lists them.
abbrev pub realm_entries : QString → List User → List Entry
realm_entries k [] = []
realm_entries k (u ∷ us) =
    (record { realm = k; name = u.name; password = u.password }) ∷ realm_entries k us

abbrev pub entries : UserMap → List Entry
entries [] = []
entries ((k, us) ∷ m) = realm_entries k us ++ entries m

abbrev IsBelow : QString → UserMap → Type 0
IsBelow k = All (λ e. str_lt e.0 k ≡ true)

lt_ne : (s t : QString) → str_lt s t ≡ true → (str_eq s t ≡ false) × (str_lt t s ≡ false)
lt_ne s t h = (
  ground (arith, str_eq_iff s t, str_lt_irrefl s),
  ground (arith, str_lt_irrefl s, str_lt_trans s t s),
)

put_realm_end :
    (acc : UserMap) (k : QString) (us : List User)
    → IsBelow k acc
    → put_realm acc k us ≡ acc ++ (k, us) ∷ []
unfolding put
put_realm_end [] k us b = refl
put_realm_end ((j, vs) ∷ acc) k us b =
    let (ne, ge) = lt_ne j k b.0 in rw (ne, ge) (ap (◌∷◌ (j, vs)) (put_realm_end acc k us b.1))

put_realm_last :
    (acc : UserMap) (k : QString) (vs us : List User)
    → IsBelow k acc
    → put_realm (acc ++ (k, vs) ∷ []) k us ≡ acc ++ (k, us) ∷ []
unfolding put
put_realm_last [] k vs us b = rw (str_eq_refl k)
put_realm_last ((j, ws) ∷ acc) k vs us b =
    let (ne, ge) = lt_ne j k b.0 in rw (ne, ge) (ap (◌∷◌ (j, ws)) (put_realm_last acc k vs us b.1))

realm_users_none : (acc : UserMap) (k : QString) → IsBelow k acc → realm_users acc k ≡ []
unfolding realm_users
realm_users_none [] k b = refl
realm_users_none ((j, vs) ∷ acc) k b = rw ((lt_ne j k b.0).0) (realm_users_none acc k b.1)

realm_users_last :
    (acc : UserMap) (k : QString) (vs : List User)
    → IsBelow k acc
    → realm_users (acc ++ (k, vs) ∷ []) k ≡ vs
unfolding realm_users
realm_users_last [] k vs b = rw (str_eq_refl k)
realm_users_last ((j, ws) ∷ acc) k vs b = rw ((lt_ne j k b.0).0) (realm_users_last acc k vs b.1)

set_user_end :
    (vs : List User) (name passwd : QString)
    → IsFresh name vs
    → set_user vs name passwd ≡ vs ++ (record { name = name; password = passwd }) ∷ []
unfolding set_user
set_user_end [] name passwd f = refl
set_user_end (v ∷ vs) name passwd f = rw (f.0) (ap (◌∷◌ v) (set_user_end vs name passwd f.1))

-- Every user of the second list is new to the first.
abbrev AllFresh : List User → List User → Type 0
AllFresh vs [] = Unit
AllFresh vs (u ∷ us) = IsFresh u.name vs × AllFresh vs us

AllFresh-nil : (us : List User) → AllFresh [] us
AllFresh-nil [] = tt
AllFresh-nil (u ∷ us) = (tt, AllFresh-nil us)

AllFresh-concat :
    (vs us : List User) (u : User)
    → AllFresh vs us
    → All (λ v. str_eq v.name u.name ≡ false) us
    → AllFresh (vs ++ u ∷ []) us
AllFresh-concat vs [] u f d = tt
AllFresh-concat vs (w ∷ us) u f d = (
  All-append _ vs (u ∷ []) f.0
      (ground (arith, str_eq_iff u.name w.name, str_eq_iff w.name u.name, d.0), tt),
  AllFresh-concat vs us u f.1 d.1,
)

add_user_last :
    (acc : UserMap) (k : QString) (vs : List User) (u : User)
    → IsBelow k acc
    → IsFresh u.name vs
    → add_user (acc ++ (k, vs) ∷ []) k u.name u.password ≡ acc ++ (k, vs ++ u ∷ []) ∷ []
unfolding add_user
add_user_last acc k vs u b f =
    rw (realm_users_last acc k vs b, set_user_end vs u.name u.password f)
      (put_realm_last acc k vs (vs ++ u ∷ []) b)

add_user_first :
    (acc : UserMap) (k : QString) (u : User)
    → IsBelow k acc
    → add_user acc k u.name u.password ≡ acc ++ (k, u ∷ []) ∷ []
unfolding add_user set_user
add_user_first acc k u b = rw (realm_users_none acc k b) (put_realm_end acc k (u ∷ []) b)

-- A realm that is already last takes the rest of its users.
add_entries_more :
    (us : List User) (acc : UserMap) (k : QString) (vs : List User)
    → IsBelow k acc
    → Distinct us
    → AllFresh vs us
    → add_entries (acc ++ (k, vs) ∷ []) (realm_entries k us) ≡ acc ++ (k, vs ++ us) ∷ []
unfolding add_entries
add_entries_more [] acc k vs b d f = rw append-nil
add_entries_more (u ∷ us) acc k vs b d f =
    ap (λ x. add_entries x (realm_entries k us)) (add_user_last acc k vs u b f.0)
    ∙ add_entries_more us acc k (vs ++ u ∷ []) b d.1 (AllFresh-concat vs us u f.1 d.0)
    ∙ rw append_assoc

add_entries_realm :
    (acc : UserMap) (k : QString) (us : List User)
    → IsBelow k acc
    → Distinct us
    → us ≢ []
    → add_entries acc (realm_entries k us) ≡ acc ++ (k, us) ∷ []
unfolding add_entries
add_entries_realm acc k [] b d ne = absurd (ne refl)
add_entries_realm acc k (u ∷ us) b d ne =
    ap (λ x. add_entries x (realm_entries k us)) (add_user_first acc k u b)
    ∙ add_entries_more us acc k (u ∷ []) b d.1 (AllFresh-concat [] us u (AllFresh-nil us) d.0)

add_entries-append :
    (xs ys : List Entry) (m : UserMap)
    → add_entries m (xs ++ ys) ≡ add_entries (add_entries m xs) ys
unfolding add_entries
add_entries-append [] ys m = refl
add_entries-append (x ∷ xs) ys m = add_entries-append xs ys (add_user m x.realm x.name x.password)

abbrev pub HasUsers : UserMap → Type 0
HasUsers = All (λ e. e.1 ≢ [])

-- All keys of the first map lie below those of the second.
abbrev Under : UserMap → UserMap → Type 0
Under acc [] = Unit
Under acc ((k, us) ∷ m) = IsBelow k acc

IsBelow-trans : (acc : UserMap) (j k : QString) → str_lt j k ≡ true → IsBelow j acc → IsBelow k acc
IsBelow-trans [] j k h b = tt
IsBelow-trans ((i, us) ∷ acc) j k h b = (str_lt_trans i j k b.0 h, IsBelow-trans acc j k h b.1)

Under-next :
    (acc m : UserMap) (k : QString) (us : List User)
    → IsBelow k acc
    → Above k m
    → Under (acc ++ (k, us) ∷ []) m
Under-next acc [] k us b a = tt
Under-next acc ((j, vs) ∷ m) k us b a = All-append _ acc _ (IsBelow-trans acc k j a.0 b) (a.0, tt)

add_entries-Under :
    (m acc : UserMap)
    → IsTable m
    → HasUsers m
    → Under acc m
    → add_entries acc (entries m) ≡ acc ++ m
unfolding add_entries
add_entries-Under [] acc t h u = rw append-nil
add_entries-Under ((k, us) ∷ m) acc t h u = rw (
  add_entries-append (realm_entries k us) (entries m) acc,
  add_entries_realm acc k us u t.1 h.0,
  add_entries-Under m (acc ++ (k, us) ∷ []) t.2 h.1 (Under-next acc m k us u t.0),
  append_assoc acc ((k, us) ∷ []) m,
)

pub add_entries-entries : (m : UserMap) → IsTable m → HasUsers m → add_entries [] (entries m) ≡ m
add_entries-entries m t h = add_entries-Under m [] t h (under m)
  where
    under : (m : UserMap) → Under [] m
    under [] = tt
    under ((k, us) ∷ m) = tt
