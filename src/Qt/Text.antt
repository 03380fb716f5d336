-- ===== src/Qt/Text.antt =====
-- Code units and bytes as lists: literals, equality, left, right, mid, indexOf, join.
use Prim.Native.Char.{code}
use webhost.Base.{
  ℕ, suc, ◌-◌, ◌≡◌, ◌≢◌, refl, ap, ◌∙◌, ◌↔◌, Bool, true, false, ◌&&◌, List, [], ◌∷◌, ◌++◌, Option,
  none, some, String, arith, ltb, ◌==◌, ==_iff, if◌then◌else◌, length, take, drop, All, Bool-cases,
  inl, inr,
}
use mathlib.Core.Option

abbrev pub QChar : Type 0
QChar = ℕ

abbrev pub QString : Type 0
QString = List QChar

abbrev pub QByteArray : Type 0
QByteArray = List ℕ

abbrev pub QStringList : Type 0
QStringList = List QString

-- The text of a literal of the source; all of them are ASCII.
unfoldable pub lit : String → QString
lit String.[] = []
lit (String.◌∷◌ c s) = code c ∷ lit s

-- `operator==`
unfoldable pub str_eq : QString → QString → Bool
str_eq [] [] = true
str_eq (x ∷ xs) (y ∷ ys) = x == y && str_eq xs ys
str_eq _ _ = false

pub str_eq_iff : (s t : QString) → (str_eq s t ≡ true) ↔ (s ≡ t)
unfolding str_eq
str_eq_iff (x ∷ s) (y ∷ t) = ground (arith, str_eq_iff s t)
str_eq_iff _ _ = ground arith

pub str_eq_refl : (s : QString) → str_eq s s ≡ true
str_eq_refl s = (str_eq_iff s s).1 refl

unfoldable pub is_empty : QString → Bool
is_empty [] = true
is_empty (_ ∷ _) = false

abbrev pub left : QString → ℕ → QString
left s n = take n s

-- The last `n` code units, or all of them if there are fewer.
abbrev pub right : QString → ℕ → QString
right s n = drop (length s - n) s

abbrev pub mid : QString → ℕ → ℕ → QString
mid s i n = take n (drop i s)

-- `none` stands for -1.
unfoldable pub index_of : QString → QChar → Option ℕ
index_of [] c = none
index_of (x ∷ s) c = if x == c then some 0 else Option.map suc (index_of s c)

unfoldable pub join : QStringList → QString → QString
join [] sep = []
join (p ∷ []) sep = p
join (p ∷ q ∷ ps) sep = p ++ (sep ++ join (q ∷ ps) sep)

abbrev pub Lacks : QChar → QString → Type 0
Lacks c = All (λ x. x ≢ c)

pub index_of-append :
    (s t : QString) (c : QChar) → Lacks c s → index_of (s ++ c ∷ t) c ≡ some (length s)
unfolding index_of
index_of-append [] t c h = rw (==_iff c c).1 refl
index_of-append (x ∷ s) t c h = ground (arith, index_of-append s t c h.1)

-- A `const char *` is read up to the first NUL.
unfoldable pub c_string : QByteArray → QByteArray
c_string [] = []
c_string (b ∷ bs) = if b == 0 then [] else b ∷ c_string bs

-- `operator<`, by the values of the code units.
unfoldable pub str_lt : QString → QString → Bool
str_lt _ [] = false
str_lt [] (_ ∷ _) = true
str_lt (x ∷ s) (y ∷ t) = if x == y then str_lt s t else ltb x y

pub str_lt_irrefl : (s : QString) → str_lt s s ≡ false
unfolding str_lt
str_lt_irrefl [] = refl
str_lt_irrefl (x ∷ s) = ground (arith, str_lt_irrefl s)

pub str_lt_trans : (s t u : QString) → str_lt s t ≡ true → str_lt t u ≡ true → str_lt s u ≡ true
unfolding str_lt
str_lt_trans s t [] h k = cc
str_lt_trans s [] (z ∷ u) h k = cc
str_lt_trans [] (y ∷ t) (z ∷ u) h k = refl
str_lt_trans (x ∷ s) (y ∷ t) (z ∷ u) h k = ground (arith, str_lt_trans s t u)

pub str_lt_total : (s t : QString) → str_eq s t ≡ false → str_lt t s ≡ false → str_lt s t ≡ true
unfolding str_lt str_eq
str_lt_total [] [] e h = cc
str_lt_total [] (y ∷ t) e h = refl
str_lt_total (x ∷ s) [] e h = cc
str_lt_total (x ∷ s) (y ∷ t) e h = ground (arith, str_lt_total s t)

-- The first and the last code unit, if there is one, is no white space.
abbrev pub StartsTight : (QChar → Bool) → QString → Type 0
StartsTight space [] = Unit
StartsTight space (x ∷ s) = space x ≡ false

abbrev pub EndsTight : (QChar → Bool) → QString → Type 0
EndsTight space [] = Unit
EndsTight space (x ∷ []) = space x ≡ false
EndsTight space (x ∷ y ∷ s) = EndsTight space (y ∷ s)

pub record IsTight (space : QChar → Bool) (s : QString) : Type 0 where
  pub starts : StartsTight space s
  pub ends : EndsTight space s

pub EndsTight-append :
    (space : QChar → Bool) (s t : QString)
    → EndsTight space s
    → EndsTight space t
    → EndsTight space (s ++ t)
EndsTight-append space [] t hs ht = ht
EndsTight-append space (x ∷ []) [] hs ht = hs
EndsTight-append space (x ∷ []) (y ∷ t) hs ht = ht
EndsTight-append space (x ∷ y ∷ s) t hs ht = EndsTight-append space (y ∷ s) t hs ht

pub IsTight-append :
    (space : QChar → Bool) (x : QChar) (s t : QString)
    → IsTight space (x ∷ s)
    → EndsTight space t
    → IsTight space (x ∷ s ++ t)
IsTight-append space x s t h ht = record {
  starts = h.starts;
  ends = EndsTight-append space (x ∷ s) t h.ends ht;
}

pub EndsTight-All :
    (space : QChar → Bool) (s : QString) → All (λ c. space c ≡ false) s → EndsTight space s
EndsTight-All space [] h = tt
EndsTight-All space (x ∷ []) h = h.0
EndsTight-All space (x ∷ y ∷ s) h = EndsTight-All space (y ∷ s) h.1

-- The complete lines of what a device has buffered, each with its line feed, and the bytes behind
-- the last of them: `canReadLine` holds while there is a line, and `readLine` gives the first.
abbrev pub add_byte : ℕ → List QByteArray × QByteArray → List QByteArray × QByteArray
add_byte c ([], rest) = if c == 10 then ((c ∷ []) ∷ [], rest) else ([], c ∷ rest)
add_byte c (l ∷ ls, rest) = if c == 10 then ((c ∷ []) ∷ l ∷ ls, rest) else ((c ∷ l) ∷ ls, rest)

unfoldable pub buffered_lines : QByteArray → List QByteArray × QByteArray
buffered_lines [] = ([], [])
buffered_lines (c ∷ s) = add_byte c (buffered_lines s)

-- What lines and the bytes behind them spell.
abbrev pub unread : List QByteArray → QByteArray → QByteArray
unread [] rest = rest
unread (l ∷ ls) rest = l ++ unread ls rest

add_byte-unread :
    (c : ℕ) (p : List QByteArray × QByteArray)
    → unread (add_byte c p).0 (add_byte c p).1 ≡ c ∷ unread p.0 p.1
add_byte-unread c ([], rest) = elim (Bool-cases (c == 10)) [ inl h ↦ rw h | inr h ↦ rw h ]
add_byte-unread c (l ∷ ls, rest) = elim (Bool-cases (c == 10)) [ inl h ↦ rw h | inr h ↦ rw h ]

pub unread-buffered_lines : (s : QByteArray) → unread (buffered_lines s).0 (buffered_lines s).1 ≡ s
unfolding buffered_lines
unread-buffered_lines [] = refl
unread-buffered_lines (c ∷ s) =
    add_byte-unread c (buffered_lines s) ∙ ap (◌∷◌ c) (unread-buffered_lines s)
