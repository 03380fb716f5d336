-- ===== src/Qt/Laws.antt =====
-- Documented behaviour of Qt that proofs rely on. A proof takes the record as a hypothesis. A
-- QTextStream without a codec reads a file in the locale's encoding, which is taken to be UTF-8.
use webhost.Base.{ℕ, ◌<◌, ◌≤◌, ◌≡◌, false, [], ◌∷◌, ◌++◌, All, pos}
use webhost.Qt.Text.{QChar, QString, QByteArray, QStringList, IsTight, Lacks, c_string}
use webhost.Qt.Interface.{Library}

abbrev pub IsAscii : QString → Type 0
IsAscii = All (λ c. c < 128)

-- The bytes of lines, each with a line feed behind it.
abbrev pub written : Library → QStringList → QByteArray
written qt [] = []
written qt (l ∷ ls) = qt.to_utf8 l ++ (10 ∷ written qt ls)

-- A line that UTF-8 can express and that holds no end of line and no NUL.
pub record IsLine (qt : Library) (l : QString) : Type 0 where
  pub no_nul : Lacks 0 l
  pub no_lf : Lacks 10 l
  pub no_cr : Lacks 13 l
  pub valid : qt.from_utf8 (qt.to_utf8 l) ≡ l

pub record TextLaws (qt : Library) : Type 0 where
  pub trimmed_tight : (s : QString) → IsTight qt.is_space s → qt.trimmed s ≡ s
  pub space_graphic : (c : QChar) → 33 ≤ c → c < 127 → qt.is_space c ≡ false
  pub utf8_ascii_append : (s t : QString) → IsAscii s → qt.to_utf8 (s ++ t) ≡ s ++ qt.to_utf8 t
  pub empty_utf8 : qt.to_utf8 [] ≡ []
  pub empty_valid : qt.from_utf8 (qt.to_utf8 []) ≡ []
  pub from_utf8_ascii_append :
      (s : QString) (b : QByteArray) → IsAscii s → qt.from_utf8 (s ++ b) ≡ s ++ qt.from_utf8 b
  pub c_string-utf8 : (s : QString) → Lacks 0 s → c_string (qt.to_utf8 s) ≡ qt.to_utf8 s
  -- in a locale whose encoding is UTF-8
  pub read_lines-written :
      (ls : QStringList) → All (IsLine qt) ls → qt.read_lines (written qt ls) ≡ ls
  pub number_digits : (n : ℕ) → All (λ c. (48 ≤ c) × (c < 58)) (qt.number (pos n))
  pub number_injective : (m n : ℕ) → qt.number (pos m) ≡ qt.number (pos n) → m ≡ n
