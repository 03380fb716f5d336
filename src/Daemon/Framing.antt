-- ===== src/Daemon/Framing.antt =====
-- Commands reach the daemon whole and in order, and from this host only.
use webhost.Base.{
  ℕ, ◌<◌, ◌≤◌, ◌≡◌, ◌≢◌, refl, sym, ap, ◌∙◌, List, [], ◌∷◌, ◌++◌, if◌then◌else◌, All, take,
  take-all, map, length, append_assoc, append-nil, arith, Bool-cases, inl, inr,
}
use webhost.Qt.{QString, QByteArray, Library}
use webhost.Daemon.{
  Command, is_local, process_command, read_byte, read_bytes, read_datagrams, ready_read_data,
}

-- A unit of a command: ASCII, no end of line and no exclamation mark.
abbrev pub IsCommandUnit : ℕ → Type 0
IsCommandUnit b = (b < 128) × (b ≢ 10) × (b ≢ 13) × (b ≢ b'!')

-- What a client sends for some commands: each with an exclamation mark behind it.
abbrev pub framed : List QString → QByteArray
framed [] = []
framed (c ∷ cs) = c ++ (b'!' ∷ framed cs)

-- The address of a sender, and its commands: some, and no more than a read takes.
abbrev pub IsDatagram : ℕ × List QString → Type 0
IsDatagram (addr, cs) = (cs ≢ []) × (length (framed cs) ≤ 1500) × All (All IsCommandUnit) cs

framed-some : (cs : List QString) → cs ≢ [] → framed cs ≢ []
framed-some [] h = absurd (h refl)
framed-some ([] ∷ cs) h = λ e. cc
framed-some ((x ∷ c) ∷ cs) h = λ e. cc

module _ (qt : Library) where
  abbrev pub processed : List QString → List Command
  processed [] = []
  processed (c ∷ cs) = process_command qt c ++ processed cs

  -- What the commands of this host's datagrams come to.
  abbrev pub all_processed : List (ℕ × List QString) → List Command
  all_processed [] = []
  all_processed ((addr, cs) ∷ ds) =
      if is_local addr then processed cs ++ all_processed ds else all_processed ds

  read_datagrams-some :
      (st : QString × List Command) (addr : ℕ) (b : QByteArray) (ds : List (ℕ × QByteArray))
      → b ≢ []
      → read_datagrams qt st ((addr, b) ∷ ds)
        ≡ read_datagrams qt (if is_local addr then read_bytes qt st (take 1500 b) else st) ds
  unfolding read_datagrams
  read_datagrams-some st addr [] ds h = absurd (h refl)
  read_datagrams-some st addr (x ∷ b) ds h = refl

module _ (qt : Library) (ascii_unit : (b : ℕ) → b < 128 → qt.from_ascii (b ∷ []) ≡ b ∷ []) where
  read_byte-unit :
      (accum : QString) (done : List Command) (b : ℕ)
      → IsCommandUnit b
      → read_byte qt (accum, done) b ≡ (accum ++ b ∷ [], done)
  unfolding read_byte
  read_byte-unit accum done b u = rw (ascii_unit b u.0) (ground arith)

  read_byte-mark :
      (accum : QString) (done : List Command)
      → read_byte qt (accum, done) b'!' ≡ ([], done ++ process_command qt accum)
  unfolding read_byte
  read_byte-mark accum done = refl

  read_bytes-command :
      (accum : QString) (done : List Command) (c : QString) (bs : QByteArray)
      → All IsCommandUnit c
      → read_bytes qt (accum, done) (c ++ (b'!' ∷ bs))
        ≡ read_bytes qt ([], done ++ process_command qt (accum ++ c)) bs
  unfolding read_bytes
  read_bytes-command accum done [] bs h =
      ap (λ st. read_bytes qt st bs) (read_byte-mark accum done)
      ∙ ap (λ a. read_bytes qt ([], done ++ process_command qt a) bs) (sym (append-nil accum))
  read_bytes-command accum done (x ∷ c) bs h =
      ap (λ st. read_bytes qt st (c ++ (b'!' ∷ bs))) (read_byte-unit accum done x h.0)
      ∙ read_bytes-command (accum ++ x ∷ []) done c bs h.1
      ∙ ap (λ a. read_bytes qt ([], done ++ process_command qt a) bs)
          (append_assoc accum (x ∷ []) c)

  read_bytes-framed :
      (done : List Command) (cs : List QString)
      → All (All IsCommandUnit) cs
      → read_bytes qt ([], done) (framed cs) ≡ ([], done ++ processed qt cs)
  unfolding read_bytes
  read_bytes-framed done [] h = ap (λ d. ([], d)) (sym (append-nil done))
  read_bytes-framed done (c ∷ cs) h =
      read_bytes-command [] done c (framed cs) h.0
      ∙ read_bytes-framed (done ++ process_command qt c) cs h.1
      ∙ ap (λ d. ([], d)) (append_assoc done (process_command qt c) (processed qt cs))

  read_datagrams-framed :
      (done : List Command) (ds : List (ℕ × List QString))
      → All IsDatagram ds
      → read_datagrams qt ([], done) (map (λ d. (d.0, framed d.1)) ds)
        ≡ (done ++ all_processed qt ds, [])
  unfolding read_datagrams
  read_datagrams-framed done [] h = ap (λ d. (d, [])) (sym (append-nil done))
  read_datagrams-framed done ((addr, cs) ∷ ds) h =
      read_datagrams-some qt ([], done) addr (framed cs) _ (framed-some cs h.0.0)
      ∙ elim (Bool-cases (is_local addr)) [
        | inl e ↦
            rw (e, take-all 1500 (framed cs) h.0.1, read_bytes-framed done cs h.0.2)
              (read_datagrams-framed (done ++ processed qt cs) ds h.1
                ∙ ap (λ d. (d, [])) (append_assoc done (processed qt cs) (all_processed qt ds)))
        | inr e ↦ rw e (read_datagrams-framed done ds h.1)
      ]

  -- For datagrams that each hold one or more commands and fit into 1500 bytes, the commands of those
  -- that came from this host are processed, in order, and nothing that came from elsewhere is.
  pub ready_read_data-framed :
      (ds : List (ℕ × List QString))
      → All IsDatagram ds
      → ready_read_data qt (map (λ d. (d.0, framed d.1)) ds) ≡ (all_processed qt ds, [])
  unfolding ready_read_data
  ready_read_data-framed ds h = read_datagrams-framed [] ds h
