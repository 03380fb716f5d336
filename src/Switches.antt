-- ===== src/Switches.antt =====
-- The switches of a command line: WHCmdSwitch (src/wh/whcmdswitch.h, src/wh/whcmdswitch.cpp).
pub mod Reading
use webhost.Base.{
  ℕ, zero, suc, ◌+◌, ◌-◌, Bool, true, false, not, List, [], ◌∷◌, ◌++◌, Option, none, some,
  if◌then◌else◌, length, get_or, set, map,
}
use webhost.Qt.{QString, QByteArray, lit, str_eq, left, right, index_of, Library}

-- The vectors of keys, values and flags, side by side.
pub record Switch : Type 0 where
  pub key : QString
  pub value : QString
  pub processed : Bool

-- What the constructor comes to: the switches, or a text that is printed before the program exits.
pub data Parsed : Type 0 where
  switches : List Switch → Parsed
  printed_version printed_usage : QByteArray → Parsed

abbrev pub new_switch : QString → QString → Switch
new_switch key value = record { key = key; value = value; processed = false }

-- One switch in front of those that follow, if nothing is printed.
unfoldable pub add_switch : Switch → Parsed → Parsed
add_switch s (switches ss) = switches (s ∷ ss)
add_switch s (printed_version t) = printed_version t
add_switch s (printed_usage t) = printed_usage t

-- `setProcessed`, `allProcessed`
abbrev pub mark : Bool → Switch → Switch
mark state s = record s { processed = state }

unfoldable pub set_processed : List Switch → ℕ → Bool → List Switch
set_processed [] n state = []
set_processed (s ∷ ss) zero state = mark state s ∷ ss
set_processed (s ∷ ss) (suc n) state = s ∷ set_processed ss n state

unfoldable pub all_processed : List Switch → Bool
all_processed [] = true
all_processed (s ∷ ss) = if not s.processed then false else all_processed ss

module _ (qt : Library) where
  open qt use {from_ascii}

  -- The key up to the first equals sign, the value behind it.
  unfoldable pub switch_of : QByteArray → Option ℕ → Switch
  switch_of arg none = new_switch (from_ascii arg) []
  switch_of arg (some j) =
      new_switch (left (from_ascii arg) j) (right (from_ascii arg) (length arg - (j + 1)))

  -- The loop over the arguments behind the program's name.
  unfoldable pub parse : List QByteArray → QByteArray → QByteArray → QByteArray → Parsed
  parse [] modname version usage = switches []
  parse (arg ∷ args) modname version usage =
      let rest = parse args modname version usage in
      if str_eq arg (lit "--version")
      then printed_version (modname ++ (lit " v" ++ (version ++ 10 ∷ [])))
      else if str_eq arg (lit "--help")
      then printed_usage (10 ∷ (modname ++ (lit " " ++ (usage ++ 10 ∷ []))))
      else add_switch (switch_of arg (index_of arg b'=')) rest
