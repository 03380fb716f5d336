-- ===== src/Maps.antt =====
-- A std::map whose keys are texts (src/wh/whcgipost.h, src/wh/whhttpserver.h): the list of its
-- entries, sorted by the keys.
use webhost.Base.{
  ◌≡◌, refl, true, false, List, [], ◌∷◌, Option, none, some, if◌then◌else◌, All, arith, Bool-cases,
  inl, inr, subst,
}
use webhost.Qt.{QString, str_eq, str_eq_iff, str_lt, str_lt_irrefl, str_lt_trans, str_lt_total}

abbrev pub Table {ℓ} : Type ℓ → Type ℓ
Table A = List (QString × A)

lt_ne : (k j : QString) → str_lt k j ≡ true → str_eq k j ≡ false
lt_ne k j h = ground (arith, str_eq_iff k j, str_lt_irrefl k)

module _ {ℓ} {A : Type ℓ} where
  unfoldable pub find : Table A → QString → Option A
  find [] name = none
  find ((k, a) ∷ t) name = if str_eq k name then some a else find t name

  -- `t[name]=a`
  unfoldable pub put : Table A → QString → A → Table A
  put [] name a = (name, a) ∷ []
  put ((k, b) ∷ t) name a =
      if str_eq k name
      then (name, a) ∷ t
      else if str_lt name k
      then (name, a) ∷ (k, b) ∷ t
      else (k, b) ∷ put t name a

  pub find-put :
      (t : Table A) (k j : QString) (a : A)
      → find (put t k a) j ≡ (if str_eq k j then some a else find t j)
  unfolding find put
  find-put [] k j a = refl
  find-put ((i, b) ∷ t) k j a =
      ground (arith, str_eq_iff k j, str_eq_iff i k, str_eq_iff i j, find-put t k j a)

  -- The keys rise.
  abbrev pub KeysAbove : QString → Table A → Type 0
  KeysAbove k = All (λ e. str_lt k e.0 ≡ true)

  abbrev pub IsSorted : Table A → Type 0
  IsSorted [] = Unit
  IsSorted ((k, a) ∷ t) = KeysAbove k t × IsSorted t

  pub KeysAbove-trans :
      (t : Table A) (j k : QString) → str_lt j k ≡ true → KeysAbove k t → KeysAbove j t
  KeysAbove-trans [] j k h a = tt
  KeysAbove-trans ((i, b) ∷ t) j k h a = (str_lt_trans j k i h a.0, KeysAbove-trans t j k h a.1)

  pub put-KeysAbove :
      (t : Table A) (j k : QString) (a : A)
      → str_lt j k ≡ true
      → KeysAbove j t
      → KeysAbove j (put t k a)
  unfolding put
  put-KeysAbove [] j k a h above = (h, tt)
  put-KeysAbove ((i, b) ∷ t) j k a h above = elim (Bool-cases (str_eq i k)) [
    | inl e ↦ rw e (h, above.1)
    | inr e ↦ elim (Bool-cases (str_lt k i)) [
      | inl l ↦ rw (e, l) (h, above)
      | inr g ↦ rw (e, g) (above.0, put-KeysAbove t j k a h above.1)
    ]
  ]

  pub put-IsSorted : (t : Table A) (k : QString) (a : A) → IsSorted t → IsSorted (put t k a)
  unfolding put
  put-IsSorted [] k a s = (tt, tt)
  put-IsSorted ((i, b) ∷ t) k a s = elim (Bool-cases (str_eq i k)) [
    | inl e ↦ rw e (subst (λ x. KeysAbove x t) ((str_eq_iff i k).0 e) s.0, s.1)
    | inr e ↦ elim (Bool-cases (str_lt k i)) [
      | inl l ↦ rw (e, l) ((l, KeysAbove-trans t k i l s.0), s)
      | inr g ↦ rw (e, g) (put-KeysAbove t i k a (str_lt_total i k e g) s.0, put-IsSorted t k a s.1)
    ]
  ]

  module _ (P Q : QString × A → Type 0) (k : QString)
      (keep : (e : QString × A) → str_eq k e.0 ≡ false → P e → Q e) where
    keep-KeysAbove : (t : Table A) → KeysAbove k t → All P t → All Q t
    keep-KeysAbove [] above h = tt
    keep-KeysAbove (e ∷ t) above h =
        (keep e (lt_ne k e.0 above.0) h.0, keep-KeysAbove t above.1 h.1)

    -- What holds of the new entry, and of the entries with other keys, holds of all.
    pub put-All : (t : Table A) (a : A) → IsSorted t → Q (k, a) → All P t → All Q (put t k a)
    unfolding put
    put-All [] a s new h = (new, tt)
    put-All ((i, b) ∷ t) a s new h = elim (Bool-cases (str_eq i k)) [
      | inl e ↦
          rw e (new, keep-KeysAbove t (subst (λ x. KeysAbove x t) ((str_eq_iff i k).0 e) s.0) h.1)
      | inr e ↦ elim (Bool-cases (str_lt k i)) [
        | inl l ↦ rw (e, l) (new, keep-KeysAbove ((i, b) ∷ t) (l, KeysAbove-trans t k i l s.0) h)
        | inr g ↦
            rw (e, g)
              (
                keep (i, b) (ground (arith, e, str_eq_iff i k, str_eq_iff k i)) h.0,
                put-All t a s.1 new h.1,
              )
      ]
    ]
