-- ===== src/Tests/SampleQt.antt =====
-- A concrete library with the laws that the proofs take as hypotheses. Its texts are encoded unit
-- by unit, and its numbers are printed as so many zeros.
use webhost.Base.{
  ℕ, zero, suc, ◌+◌, ◌≤◌, ◌<◌, ◌≡◌, refl, sym, ap, ◌∙◌, Bool, true, false, ◌&&◌, ◌||◌, [], ◌∷◌,
  ◌++◌, some, arith, All, append_assoc, append-nil, length, if◌then◌else◌, leb, ◌==◌, ℤ, pos,
  negsuc, map,
}
use webhost.Qt.{
  QChar, QString, QByteArray, QStringList, Lacks, IsTight, StartsTight, EndsTight, c_string,
  Library, null_address, ipv4, written, IsLine, TextLaws,
}

abbrev pub is_blank : QChar → Bool
is_blank c = c == 32 || leb 9 c && leb c 13

unfoldable pub trim_left : QString → QString
trim_left [] = []
trim_left (x ∷ s) = if is_blank x then trim_left s else x ∷ s

unfoldable pub trim_right : QString → QString
trim_right [] = []
trim_right (x ∷ s) = elim (trim_right s) [
  | [] ↦ if is_blank x then [] else x ∷ []
  | y ∷ t ↦ x ∷ y ∷ t
]

unfoldable pub trim : QString → QString
unfolding trim_left trim_right
trim s = trim_right (trim_left s)

unfoldable pub lines_from : QByteArray → QByteArray → QStringList
lines_from cur [] = elim cur [ [] ↦ [] | x ∷ xs ↦ (x ∷ xs) ∷ [] ]
lines_from cur (c ∷ s) = elim (c == 10) [
  | true ↦ cur ∷ lines_from [] s
  | false ↦ lines_from (cur ++ c ∷ []) s
]

unfoldable pub cut : QChar → QString → QString → QStringList
cut sep cur [] = cur ∷ []
cut sep cur (c ∷ s) = elim (c == sep) [
  | true ↦ cur ∷ cut sep [] s
  | false ↦ cut sep (cur ++ c ∷ []) s
]

-- By the first code unit of the separator.
unfoldable pub split_text : QString → QString → QStringList
unfolding cut
split_text s [] = s ∷ []
split_text s (sep ∷ _) = cut sep [] s

zeros : ℕ → QString
zeros zero = []
zeros (suc n) = b'0' ∷ zeros n

unfoldable pub number_text : ℤ → QString
unfolding zeros
number_text (pos n) = zeros n
number_text (negsuc n) = b'-' ∷ zeros (suc n)

unfoldable pub to_lower_char : QChar → QChar
to_lower_char c = if leb b'A' c && leb c b'Z' then c + 32 else c

abbrev pub sample : Library
sample = record {
  trimmed = trim;
  is_space = is_blank;
  to_lower = map to_lower_char;
  split = split_text;
  to_utf8 = λ s. s;
  from_utf8 = λ b. b;
  to_ascii = λ s. s;
  from_ascii = λ b. b;
  to_int = λ s. (pos (length s), true);
  to_uint = λ s. (length s, true);
  to_int_hex = λ s. (pos (length s), true);
  to_long_long = λ s. (pos (length s), true);
  number = number_text;
  version_text = λ a b. number_text (pos a) ++ (b'.' ∷ number_text (pos b));
  host_address = λ s. elim s [ [] ↦ null_address | c ∷ t ↦ ipv4 c ];
  simplified = trim;
  to_bool = λ s. true;
  float_le = λ a b. leb (length a) (length b);
  date_text = [];
  version = [];
  read_lines = lines_from [];
  from_base64 = λ b. b;
  to_base64 = λ b. b;
  past_end = λ b i. 0;
  local_address = λ i. [];
  local_port = λ i. 80;
  peer_address = λ i. [];
  peer_port = λ i. 1024;
  sha1 = λ b. some b;
  buffer_rest = 0 ∷ [];
}

trim_left_tight : (s : QString) → StartsTight is_blank s → trim_left s ≡ s
unfolding trim_left
trim_left_tight [] h = refl
trim_left_tight (x ∷ s) h = rw h

trim_right_tight : (s : QString) → EndsTight is_blank s → trim_right s ≡ s
unfolding trim_right
trim_right_tight [] h = refl
trim_right_tight (x ∷ []) h = rw h
trim_right_tight (x ∷ y ∷ s) h = rw (trim_right_tight (y ∷ s) h, trim_right)

trim_tight : (s : QString) → IsTight is_blank s → trim s ≡ s
unfolding trim
trim_tight s h = rw (trim_left_tight s h.starts) (trim_right_tight s h.ends)

lines_from-line :
    (l cur rest : QByteArray)
    → Lacks 10 l
    → lines_from cur (l ++ 10 ∷ rest) ≡ (cur ++ l) ∷ lines_from [] rest
unfolding lines_from
lines_from-line [] cur rest h = rw append-nil
lines_from-line (c ∷ l) cur rest h =
    ground (arith, lines_from-line l (cur ++ c ∷ []) rest h.1, append_assoc cur (c ∷ []) l)

lines_from-written :
    (ls : QStringList) → All (IsLine sample) ls → lines_from [] (written sample ls) ≡ ls
unfolding lines_from
lines_from-written [] h = refl
lines_from-written (l ∷ ls) h =
    lines_from-line l [] (written sample ls) h.0.no_lf ∙ ap (◌∷◌ l) (lines_from-written ls h.1)

zeros_digits : (n : ℕ) → All (λ c. (48 ≤ c) × (c < 58)) (zeros n)
unfolding zeros
zeros_digits zero = tt
zeros_digits (suc n) = ((omega arith, omega arith), zeros_digits n)

length-zeros : (n : ℕ) → length (zeros n) ≡ n
unfolding zeros
length-zeros zero = refl
length-zeros (suc n) = ap suc (length-zeros n)

zeros_injective : (m n : ℕ) → zeros m ≡ zeros n → m ≡ n
zeros_injective m n e = sym (length-zeros m) ∙ ap length e ∙ length-zeros n

c_string-Lacks : (s : QString) → Lacks 0 s → c_string s ≡ s
unfolding c_string
c_string-Lacks [] h = refl
c_string-Lacks (x ∷ s) h = ground (arith, c_string-Lacks s h.1)

pub sample_laws : TextLaws sample
unfolding number_text
sample_laws = record {
  trimmed_tight = trim_tight;
  space_graphic = λ c lo hi. ground arith;
  utf8_ascii_append = λ s t a. refl;
  empty_utf8 = refl;
  empty_valid = refl;
  from_utf8_ascii_append = λ s b a. refl;
  c_string-utf8 = c_string-Lacks;
  read_lines-written = lines_from-written;
  number_digits = zeros_digits;
  number_injective = zeros_injective;
}
