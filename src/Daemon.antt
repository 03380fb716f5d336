-- ===== src/Daemon.antt =====
-- The daemon's command socket (src/webhostd/webhostd.cpp): `readyReadData` and the dispatch of
-- `ProcessCommand`, which gives the commands in order. What each does is in UserFile, System, Ip and
-- Service.
pub mod Framing
pub mod Client
pub mod World
pub mod UserFile
pub mod Service
pub mod System
pub mod Ip
pub mod Start
use webhost.Base.{
  ℕ, Bool, true, false, ◌||◌, List, [], ◌∷◌, ◌++◌, if◌then◌else◌, get_or, take, ◌==◌, shr, low_bits,
}
use webhost.Qt.{QString, QByteArray, QStringList, lit, str_eq, Library}

-- The commands that `ProcessCommand` knows, each with its words, the verb first.
pub data Command : Type 0 where
  add_user add_user2 delete_user delete_user2 ip ntp reboot restart upgrade wifi :
      QStringList → Command

-- The addresses that commands are taken from: 127.0.0.0/8.
abbrev pub is_local : ℕ → Bool
is_local addr = low_bits (shr addr 24) 8 == 127

module _ (qt : Library) where
  open qt use {split, to_lower, from_ascii}

  unfoldable pub command_of : QString → QStringList → List Command
  command_of verb cmds =
      if str_eq verb (lit "adduser")
      then add_user cmds ∷ []
      else if str_eq verb (lit "adduser2")
      then add_user2 cmds ∷ []
      else if str_eq verb (lit "deleteuser")
      then delete_user cmds ∷ []
      else if str_eq verb (lit "deleteuser2")
      then delete_user2 cmds ∷ []
      else if str_eq verb (lit "ip")
      then ip cmds ∷ []
      else if str_eq verb (lit "ntp")
      then ntp cmds ∷ []
      else if str_eq verb (lit "reboot")
      then reboot cmds ∷ []
      else if str_eq verb (lit "restart")
      then restart cmds ∷ []
      else if str_eq verb (lit "upgrade")
      then upgrade cmds ∷ []
      else if str_eq verb (lit "wifi")
      then wifi cmds ∷ []
      else []

  -- `ProcessCommand`
  unfoldable pub process_command : QString → List Command
  process_command cmd =
      let cmds = split cmd (lit " ") in command_of (to_lower (get_or cmds 0 [])) cmds

  -- The switch on a byte: what is gathered of a command, and the commands that were processed.
  unfoldable pub read_byte : QString × List Command → ℕ → QString × List Command
  read_byte (accum, done) b =
      if b == 10 || b == 13
      then (accum, done)
      else if b == b'!'
      then ([], done ++ process_command accum)
      else (accum ++ from_ascii (b ∷ []), done)

  unfoldable pub read_bytes : QString × List Command → QByteArray → QString × List Command
  read_bytes st [] = st
  read_bytes st (b ∷ bs) = read_bytes (read_byte st b) bs

  -- The loop over the datagrams that wait, each with the address that sent it and cut at 1500 bytes.
  -- An empty one ends it, and those behind it wait for the next call.
  unfoldable pub read_datagrams :
      QString × List Command → List (ℕ × QByteArray) → List Command × List (ℕ × QByteArray)
  read_datagrams st [] = (st.1, [])
  read_datagrams st ((addr, []) ∷ ds) = (st.1, ds)
  read_datagrams st ((addr, b ∷ bs) ∷ ds) =
      read_datagrams (if is_local addr then read_bytes st (take 1500 (b ∷ bs)) else st) ds

  -- `readyReadData`
  unfoldable pub ready_read_data : List (ℕ × QByteArray) → List Command × List (ℕ × QByteArray)
  ready_read_data ds = read_datagrams ([], []) ds
