-- ===== src/Profile/Numbering.antt =====
-- Loops that look for numbered names in a profile until one is missing: they end, since no name is
-- found twice.
use webhost.Base.{
  ℕ, zero, suc, ◌≤◌, ◌<◌, ◌≡◌, refl, Bool, true, false, List, [], ◌∷◌, arith, if◌then◌else◌, length,
  map, Bool-cases, inl, inr,
}
use webhost.Qt.{QString, str_eq, str_eq_iff}
use webhost.Profile.{ProfileLine, ProfileSection, get_value, value_or, section_value}

unfoldable pub contains : List QString → QString → Bool
contains [] x = false
contains (y ∷ ys) x = if str_eq y x then true else contains ys x

-- The values that a numbering of names gives to different numbers differ.
abbrev pub IsNumbering : (ℕ → QString) → Type 0
IsNumbering f = (i j : ℕ) → f i ≡ f j → i ≡ j

module _ (f : ℕ → QString) where
  -- The name is one of those below a number.
  used : ℕ → QString → Bool
  used zero x = false
  used (suc n) x = if str_eq x (f n) then true else used n x

  -- How many of the names are none of those below a number.
  unfoldable pub unused : ℕ → List QString → ℕ
  unfolding used
  unused n [] = 0
  unused n (x ∷ xs) = if used n x then unused n xs else suc (unused n xs)

  pub unused-zero : (xs : List QString) → unused 0 xs ≡ length xs
  unfolding unused
  unused-zero [] = refl
  unused-zero (x ∷ xs) = omega (arith, unused-zero xs)

  unused-suc : (n : ℕ) (xs : List QString) → unused (suc n) xs ≤ unused n xs
  unfolding unused
  unused-suc n [] = omega arith
  unused-suc n (x ∷ xs) = ground (arith, unused-suc n xs)

  module _ (distinct : IsNumbering f) where
    used-above : (n k : ℕ) → n ≤ k → used n (f k) ≡ false
    unfolding used
    used-above zero k h = refl
    used-above (suc n) k h = elim (Bool-cases (str_eq (f k) (f n))) [
      | inl e ↦ absurd (omega (arith, distinct k n ((str_eq_iff (f k) (f n)).0 e)))
      | inr e ↦ rw e (used-above n k (omega arith))
    ]

    -- A name that is found is used up.
    pub unused-lt :
        (n : ℕ) (xs : List QString) → contains xs (f n) ≡ true → unused (suc n) xs < unused n xs
    unfolding contains unused
    unused-lt n [] h = absurd (ground arith)
    unused-lt n (x ∷ xs) h = elim (Bool-cases (str_eq x (f n))) [
      | inl e ↦
          let same = (str_eq_iff x (f n)).0 e in
          rw (e, same, used-above n n (omega arith)) (omega (arith, unused-suc n xs))
      | inr e ↦ ground (arith, e, unused-lt n xs (rw e at h))
    ]

-- What is found in a profile is named there.
pub section_value-contains :
    (ss : List ProfileSection) (name tag default : QString)
    → (section_value ss name tag default).1 ≡ true
    → contains (map (λ s. s.name) ss) name ≡ true
unfolding section_value contains
section_value-contains [] name tag d h = absurd (ground arith)
section_value-contains (s ∷ ss) name tag d h = elim (Bool-cases (str_eq s.name name)) [
  | inl e ↦ rw e
  | inr e ↦ rw e (section_value-contains ss name tag d (rw e at h))
]

pub get_value-contains :
    (ls : List ProfileLine) (tag default : QString)
    → (value_or (get_value ls tag) default).1 ≡ true
    → contains (map (λ l. l.tag) ls) tag ≡ true
unfolding get_value value_or contains
get_value-contains [] tag d h = absurd (ground arith)
get_value-contains (l ∷ ls) tag d h = elim (Bool-cases (str_eq l.tag tag)) [
  | inl e ↦ rw e
  | inr e ↦ rw e (get_value-contains ls tag d (rw e at h))
]
