-- ===== src/Stdio.antt =====
-- Reading a file by lines with `fgets(line,1024,f)`, as src/wh/whcgipost.cpp and src/webhostd/ip.cpp
-- do: a line with its line feed, and a longer one in pieces of 1023 bytes.
use webhost.Base.{
  ℕ, ◌-◌, ◌<◌, ◌≡◌, ◌≢◌, refl, ap, ◌∙◌, true, false, ◌||◌, List, [], ◌∷◌, ◌++◌, ◌==◌, arith, length,
  All, append_assoc,
}
use webhost.Qt.{
  QChar, QString, QByteArray, QStringList, IsAscii, IsTight, join, Lacks, c_string, Library,
}

-- `cur` is what is read of a line, `room` what fits behind it.
unfoldable pub fgets_from : ℕ → QByteArray → QByteArray → List QByteArray
fgets_from room cur [] = elim cur [ [] ↦ [] | x ∷ xs ↦ (x ∷ xs) ∷ [] ]
fgets_from room cur (b ∷ bs) = elim (b == 10 || room == 1) [
  | true ↦ (cur ++ b ∷ []) ∷ fgets_from 1023 [] bs
  | false ↦ fgets_from (room - 1) (cur ++ b ∷ []) bs
]

abbrev pub fgets_lines : QByteArray → List QByteArray
fgets_lines = fgets_from 1023 []

-- `QString(line)`
abbrev pub line_text : Library → QByteArray → QString
line_text qt line = qt.from_ascii (c_string line)

fgets_from-line :
    (l : QByteArray) (room : ℕ) (cur rest : QByteArray)
    → Lacks 10 l
    → length l < room
    → fgets_from room cur (l ++ (10 ∷ rest)) ≡ (cur ++ (l ++ 10 ∷ [])) ∷ fgets_from 1023 [] rest
unfolding fgets_from
fgets_from-line [] room cur rest h k = refl
fgets_from-line (x ∷ l) room cur rest h k =
    let goes_on : (x == 10 || room == 1) ≡ false = ground (arith, h.0) in
    rw (fgets_from, goes_on)
      (fgets_from-line l (room - 1) (cur ++ x ∷ []) rest h.1 (omega arith)
        ∙ ap (λ t. t ∷ fgets_from 1023 [] rest) (append_assoc cur (x ∷ []) (l ++ 10 ∷ [])))

-- A line that fits is read as it is.
pub fgets_lines-line :
    (l rest : QByteArray)
    → Lacks 10 l
    → length l < 1023
    → fgets_lines (l ++ (10 ∷ rest)) ≡ (l ++ 10 ∷ []) ∷ fgets_lines rest
unfolding fgets_from
fgets_lines-line l rest h k = fgets_from-line l 1023 [] rest h k

-- What Qt documents of ASCII texts, of a line without its line feed, and of a text that is split where its parts were joined.
pub record FileLaws (qt : Library) : Type 0 where
  pub ascii_text : (s : QString) → IsAscii s → qt.from_ascii s ≡ s
  pub ascii_utf8 : (s : QString) → IsAscii s → qt.to_utf8 s ≡ s
  pub trimmed_line : (s : QString) → IsTight qt.is_space s → qt.trimmed (s ++ 10 ∷ []) ≡ s
  pub split-join :
      (sep : QChar) (w : QString) (ws : QStringList)
      → All (Lacks sep) (w ∷ ws)
      → qt.split (join (w ∷ ws) (sep ∷ [])) (sep ∷ []) ≡ w ∷ ws

-- A text that a C string and UTF-8 take as it is.
abbrev pub IsPlain : QString → Type 0
IsPlain = All (λ c. (c < 128) × (c ≢ 0))

pub IsPlain-IsAscii : (s : QString) → IsPlain s → IsAscii s
IsPlain-IsAscii [] h = tt
IsPlain-IsAscii (c ∷ s) h = (h.0.0, IsPlain-IsAscii s h.1)

pub c_string-IsPlain : (s : QString) → IsPlain s → c_string s ≡ s
unfolding c_string
c_string-IsPlain [] h = refl
c_string-IsPlain (c ∷ s) h = ground (arith, h.0.1, c_string-IsPlain s h.1)

module _ (qt : Library) (laws : FileLaws qt) where
  pub line_text-IsPlain : (s : QString) → IsPlain s → line_text qt s ≡ s
  line_text-IsPlain s h =
      ap qt.from_ascii (c_string-IsPlain s h) ∙ laws.ascii_text s (IsPlain-IsAscii s h)

  pub utf8-IsPlain : (s : QString) → IsPlain s → c_string (qt.to_utf8 s) ≡ s
  utf8-IsPlain s h = rw (laws.ascii_utf8 s (IsPlain-IsAscii s h)) (c_string-IsPlain s h)
