-- ===== src/Post/RoundTrip.antt =====
-- Texts in Latin-1 that a browser encodes are decoded to what they were.
use webhost.Base.{
  ℕ, ◌+◌, ◌*◌, ◌/◌, ◌%◌, ◌<◌, ◌≡◌, sym, ap, ◌∙◌, Bool, true, false, ◌&&◌, ◌||◌, [], ◌∷◌, ◌++◌, pos,
  if◌then◌else◌, ltb, leb, ◌==◌, ==_iff, Bool-cases, inl, inr, All, arith, append_assoc, append-nil,
}
use webhost.Qt.{QChar, QString, Library}
use webhost.Post.{in_text, decode_loop, url_decode, code_unit}

-- The upper-case digit of a value below 16.
abbrev pub hex_digit : ℕ → QChar
hex_digit n = if ltb n 10 then n + b'0' else n + 55

abbrev pub is_alphanumeric : QChar → Bool
is_alphanumeric c =
    (leb b'0' c && leb c b'9') || (leb b'A' c && leb c b'Z') || (leb b'a' c && leb c b'z')

-- `application/x-www-form-urlencoded`: a letter or digit stands for itself, a plus sign for a space,
-- and a percent sign with two hexadecimal digits for any other unit.
abbrev pub url_encode : QString → QString
url_encode [] = []
url_encode (c ∷ s) =
    if is_alphanumeric c
    then c ∷ url_encode s
    else if c == b' '
    then b'+' ∷ url_encode s
    else b'%' ∷ hex_digit (c / 16) ∷ hex_digit (c % 16) ∷ url_encode s

plain_unit : (c : ℕ) → is_alphanumeric c ≡ true → ((c == b'+') ≡ false) × ((c == b'%') ≡ false)
plain_unit c h = (ground arith, ground arith)

module _ (qt : Library)
    (hex_number : (a b : ℕ)
      → a < 16
      → b < 16
      → qt.to_int_hex (hex_digit a ∷ hex_digit b ∷ []) ≡ (pos (16 * a + b), true)) where
  code_unit-hex :
      (c : ℕ) → c < 256 → code_unit qt (hex_digit (c / 16) ∷ hex_digit (c % 16) ∷ []) ≡ c
  unfolding code_unit
  code_unit-hex c h = rw (hex_number (c / 16) (c % 16) (omega arith) (omega arith)) (omega arith)

  decode_loop-url_encode :
      (s code ret : QString)
      → All (λ c. c < 256) s
      → decode_loop qt in_text code ret (url_encode s) ≡ ret ++ s
  unfolding decode_loop
  decode_loop-url_encode [] code ret h = sym (append-nil ret)
  decode_loop-url_encode (c ∷ s) code ret h = elim (Bool-cases (is_alphanumeric c)) [
    | inl e ↦
        let (p, q) = plain_unit c e in
        rw (e, p, q)
          (decode_loop-url_encode s code (ret ++ c ∷ []) h.1 ∙ append_assoc ret (c ∷ []) s)
    | inr e ↦ elim (Bool-cases (c == b' ')) [
      | inl f ↦
          rw (e, f)
            (decode_loop-url_encode s code (ret ++ b' ' ∷ []) h.1
              ∙ append_assoc ret (b' ' ∷ []) s
              ∙ ap (λ x. ret ++ x ∷ s) (sym ((==_iff c b' ').0 f)))
      | inr f ↦
          let digits = hex_digit (c / 16) ∷ hex_digit (c % 16) ∷ [] in
          rw (e, f)
            (ap (λ x. decode_loop qt in_text digits (ret ++ x ∷ []) (url_encode s))
                (code_unit-hex c h.0)
              ∙ decode_loop-url_encode s digits (ret ++ c ∷ []) h.1
              ∙ append_assoc ret (c ∷ []) s)
    ]
  ]

  -- A text of Latin-1 units that is encoded for a form is decoded to itself, over a library that
  -- converts two hexadecimal digits to their number.
  pub url_decode-url_encode :
      (s : QString) → All (λ c. c < 256) s → url_decode qt (url_encode s) ≡ s
  unfolding url_decode
  url_decode-url_encode s h = decode_loop-url_encode s [] [] h
