-- ===== src/Switches/Reading.antt =====
-- What the constructor of WHCmdSwitch (src/wh/whcmdswitch.cpp) reads of an argument.
use webhost.Base.{
  ◌+◌, ◌-◌, ◌<◌, ◌≡◌, ◌≢◌, refl, sym, ◌∙◌, false, List, [], ◌∷◌, ◌++◌, none, All, All-append,
  All-append_right, append_assoc, ap₂, subst, drop, arith, map, length, length-append,
  take-length_append, drop-length_append, Bool-cases, inl, inr,
}
use webhost.Qt.{
  QString, QByteArray, lit, str_eq, str_eq_iff, right, Lacks, index_of, index_of-append, Library,
  IsAscii,
}
use webhost.Switches.{Switch, switches, new_switch, add_switch, switch_of, parse}

-- A switch as a command line spells it, with its value if it has one.
pub data Spelled : Type 0 where
  flag : QString → Spelled
  valued : QString → QString → Spelled

pub spell : Spelled → QByteArray
spell (flag key) = key
spell (valued key value) = key ++ (b'=' ∷ value)

pub meaning : Spelled → Switch
meaning (flag key) = new_switch key []
meaning (valued key value) = new_switch key value

-- A key in ASCII without an equals sign.
pub record IsKey (key : QString) : Type 0 where
  pub no_equals : Lacks b'=' key
  pub ascii : IsAscii key

abbrev pub IsSpelled : Spelled → Type 0
IsSpelled (flag key) =
    IsKey key × (str_eq key (lit "--version") ≡ false) × (str_eq key (lit "--help") ≡ false)
IsSpelled (valued key value) = IsKey key × IsAscii value

index_of-Lacks : (s : QString) → Lacks b'=' s → index_of s b'=' ≡ none
unfolding index_of
index_of-Lacks [] h = refl
index_of-Lacks (x ∷ s) h = ground (arith, index_of-Lacks s h.1)

-- A text with an equals sign is none that lacks it.
assigned_ne : (key value t : QString) → Lacks b'=' t → str_eq (key ++ (b'=' ∷ value)) t ≡ false
assigned_ne key value t h = elim (Bool-cases (str_eq (key ++ (b'=' ∷ value)) t)) [
  | inl e ↦
      let same = (str_eq_iff (key ++ (b'=' ∷ value)) t).0 e in
      let parts =
        All-append_right (λ x. x ≢ b'=') key (b'=' ∷ value) (subst (Lacks b'=') (sym same) h) in
      absurd (parts.0 refl)
  | inr e ↦ e
]

not_special :
    (s : Spelled)
    → IsSpelled s
    → (str_eq (spell s) (lit "--version") ≡ false) × (str_eq (spell s) (lit "--help") ≡ false)
unfolding spell lit
not_special (flag key) h = (h.1, h.2)
not_special (valued key value) h = (
  assigned_ne key value (lit "--version") (omega arith),
  assigned_ne key value (lit "--help") (omega arith),
)

value_behind :
    (key value : QString)
    → right (key ++ (b'=' ∷ value)) (length (key ++ (b'=' ∷ value)) - (length key + 1)) ≡ value
value_behind key value =
    let text = key ++ (b'=' ∷ value) in
    let skip : length text - (length text - (length key + 1)) ≡ length (key ++ b'=' ∷ []) =
      omega (arith, length-append key (b'=' ∷ value), length-append key (b'=' ∷ [])) in
    ap₂ drop skip (sym (append_assoc key (b'=' ∷ []) value))
    ∙ drop-length_append (key ++ b'=' ∷ []) value

module _ (qt : Library) (ascii_text : (s : QString) → IsAscii s → qt.from_ascii s ≡ s) where
  switch_of-spell :
      (s : Spelled) → IsSpelled s → switch_of qt (spell s) (index_of (spell s) b'=') ≡ meaning s
  unfolding switch_of spell meaning
  switch_of-spell (flag key) h = rw (index_of-Lacks key h.0.no_equals, ascii_text key h.0.ascii)
  switch_of-spell (valued key value) h = rw (index_of-append key value b'=' h.0.no_equals) (
      rw (
        ascii_text (key ++ (b'=' ∷ value))
            (All-append (λ c. c < 128) key _ h.0.ascii (omega arith, h.1)),
        take-length_append key (b'=' ∷ value),
        value_behind key value,
      ))

  -- Arguments that spell switches, each a flag or a key with a value, are read as these switches in
  -- their order, none of them processed: if the keys are ASCII without an equals sign, the values
  -- are ASCII, and no flag is --version or --help.
  pub parse-spell :
      (ss : List Spelled) (modname version usage : QByteArray)
      → All IsSpelled ss
      → parse qt (map spell ss) modname version usage ≡ switches (map meaning ss)
  unfolding parse add_switch
  parse-spell [] modname version usage h = refl
  parse-spell (s ∷ ss) modname version usage h =
      let (version_no, help_no) = not_special s h.0 in
      rw (version_no, help_no, parse-spell ss modname version usage h.1, switch_of-spell s h.0)
