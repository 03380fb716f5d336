-- ===== src/Profile/Lines.antt =====
-- What one line of a configuration file does.
use webhost.Base.{
  ℕ, ◌-◌, ◌≡◌, ◌≢◌, refl, ap₂, sym, List, [], ◌∷◌, ◌++◌, arith, length, length-append,
  take-length_append, drop-length_append, append_assoc,
}
use webhost.Qt.{QString, lit, str_eq, right, mid, index_of, index_of-append, Lacks, Library}
use webhost.Profile.{ProfileSection, add_to_last, new_section, read_line, read_assignment}

-- The last of a text that ends in one code unit.
right-append : (s : QString) (c : ℕ) → right (s ++ c ∷ []) 1 ≡ c ∷ []
right-append s c =
    let e : length (s ++ c ∷ []) - 1 ≡ length s = omega (arith, length-append s (c ∷ [])) in
    rw e (drop-length_append s (c ∷ []))

mid_inside :
    (s : QString) (a b : ℕ) → mid (a ∷ (s ++ b ∷ [])) 1 (length (a ∷ (s ++ b ∷ [])) - 2) ≡ s
mid_inside s a b =
    let e : length (a ∷ (s ++ b ∷ [])) - 2 ≡ length s = omega (arith, length-append s (b ∷ [])) in
    rw e (take-length_append s (b ∷ []))

right_behind : (s v : QString) (c : ℕ) → right (s ++ c ∷ v) (length (s ++ c ∷ v) - length s - 1) ≡ v
right_behind s v c =
    let shape : s ++ c ∷ v ≡ (s ++ c ∷ []) ++ v = sym (append_assoc s (c ∷ []) v) in
    let e : length (s ++ c ∷ v) - (length (s ++ c ∷ v) - length s - 1) ≡ length (s ++ c ∷ []) =
      omega (arith, length-append s (c ∷ v), length-append s (c ∷ [])) in
    rw e (rw shape (drop-length_append (s ++ c ∷ []) v))

module _ (qt : Library) where
  -- A line `[name]` opens a section, whatever the name holds.
  pub read_line-header :
      (secs : List ProfileSection) (name : QString)
      → read_line qt secs (b'[' ∷ (name ++ b']' ∷ [])) ≡ secs ++ new_section name ∷ []
  unfolding read_line lit str_eq
  read_line-header secs name = rw (right-append (b'[' ∷ name) b']', mid_inside name b'[' b']')

  pub read_line-blank : (secs : List ProfileSection) → read_line qt secs [] ≡ secs
  unfolding read_line lit str_eq read_assignment index_of
  read_line-blank secs = refl

  -- A line that begins like neither a comment nor a header.
  read_line_plain :
      (secs : List ProfileSection) (line : QString) (x : ℕ) (rest : QString)
      → line ≡ x ∷ rest
      → x ≢ b';'
      → x ≢ b'#'
      → x ≢ b'['
      → read_line qt secs line ≡ read_assignment qt secs line (index_of line b'=')
  unfolding read_line lit str_eq
  read_line_plain secs line x rest e h1 h2 h3 = ground arith

  -- A line `tag=value` whose tag holds no `=` and does not look like a comment or a header gives
  -- the last section a value; the value may hold anything.
  pub read_line-assignment :
      (secs : List ProfileSection) (x : ℕ) (tag value : QString)
      → Lacks b'=' (x ∷ tag)
      → (x ≢ b';') × (x ≢ b'#') × (x ≢ b'[')
      → read_line qt secs (x ∷ tag ++ b'=' ∷ value) ≡ add_to_last secs (x ∷ tag) (qt.trimmed value)
  unfolding read_assignment
  read_line-assignment secs x tag value lacks (h1, h2, h3) =
      let line = x ∷ tag ++ b'=' ∷ value in
      rw
        (
          read_line_plain secs line x (tag ++ b'=' ∷ value) refl h1 h2 h3,
          index_of-append (x ∷ tag) value b'=' lacks,
        )
        (ap₂ (λ a b. add_to_last secs a (qt.trimmed b))
          (take-length_append (x ∷ tag) (b'=' ∷ value)) (right_behind (x ∷ tag) value b'='))
