-- ===== src/Tests/Switches.antt =====
-- The theorem on command lines at a concrete one.
use webhost.Base.{◌≡◌, refl, [], ◌∷◌, List, arith, map, All}
use webhost.Qt.{lit, str_eq}
use webhost.Switches.{switches, parse}
use webhost.Switches.Reading.{Spelled, flag, valued, spell, meaning, IsSpelled, parse-spell}
use webhost.Tests.SampleQt.{sample}

abbrev line : List Spelled
line = flag (b'v' ∷ []) ∷ valued (b'k' ∷ []) (b'=' ∷ b'1' ∷ []) ∷ []

line-IsSpelled : All IsSpelled line
unfolding str_eq lit
line-IsSpelled = (
  (record { no_equals = omega arith; ascii = omega arith }, refl, refl),
  ((record { no_equals = omega arith; ascii = omega arith }, omega arith), tt),
)

parse-spell_example :
    parse sample (map spell line) (b'w' ∷ []) (b'1' ∷ []) [] ≡ switches (map meaning line)
parse-spell_example =
    parse-spell sample (λ s h. refl) line (b'w' ∷ []) (b'1' ∷ []) [] line-IsSpelled
