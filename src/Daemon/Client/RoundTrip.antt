-- ===== src/Daemon/Client/RoundTrip.antt =====
-- What a client sends is what the daemon processes.
use webhost.Base.{
  ℕ, Bool, true, Bool-cases, inl, inr, ◌+◌, ◌<◌, ◌≤◌, ◌≡◌, ◌≢◌, refl, ap, ◌∙◌, [], ◌∷◌, ◌++◌, All,
  All-append, take, take-all, length, length-append, map, arith, append-nil, append_assoc,
  if◌then◌else◌, leb, ◌&&◌,
}
use webhost.Qt.{QString, QStringList, QChar, lit, join, str_eq, Lacks, IsAscii, Library}
use webhost.Daemon.{
  add_user, add_user2, delete_user, delete_user2, command_of, process_command, ready_read_data,
}
use webhost.Daemon.Framing.{IsCommandUnit, framed, ready_read_data-framed}
use webhost.Daemon.Client.{
  send_command, localhost, send_add_user_command, send_add_user2_command, send_delete_user_command,
  send_delete_user2_command,
}

abbrev pub lower_unit : QChar → QChar
lower_unit c = if leb b'A' c && leb c b'Z' then c + 32 else c

-- What Qt documents of ASCII texts, and of a text that is split where its parts were joined.
pub record CommandLaws (qt : Library) : Type 0 where
  pub ascii_unit : (b : ℕ) → b < 128 → qt.from_ascii (b ∷ []) ≡ b ∷ []
  pub ascii_utf8 : (s : QString) → IsAscii s → qt.to_utf8 s ≡ s
  pub ascii_lower : (s : QString) → IsAscii s → qt.to_lower s ≡ map lower_unit s
  pub split-join :
      (w : QString) (ws : QStringList)
      → All (Lacks b' ') (w ∷ ws)
      → qt.split (join (w ∷ ws) (lit " ")) (lit " ") ≡ w ∷ ws

-- A unit of a word of a command.
abbrev pub IsWordUnit : ℕ → Type 0
IsWordUnit b = IsCommandUnit b × (b ≢ b' ')

abbrev pub IsWord : QString → Type 0
IsWord = All IsWordUnit

word_units : (w : QString) → IsWord w → All IsCommandUnit w
word_units [] h = tt
word_units (x ∷ w) h = (h.0.0, word_units w h.1)

word-Lacks : (w : QString) → IsWord w → Lacks b' ' w
word-Lacks [] h = tt
word-Lacks (x ∷ w) h = (h.0.1, word-Lacks w h.1)

words_lack : (ws : QStringList) → All IsWord ws → All (Lacks b' ') ws
words_lack [] h = tt
words_lack (w ∷ ws) h = (word-Lacks w h.0, words_lack ws h.1)

units-IsAscii : (s : QString) → All IsCommandUnit s → IsAscii s
units-IsAscii [] h = tt
units-IsAscii (x ∷ s) h = (h.0.0, units-IsAscii s h.1)

join_units : (ws : QStringList) → All IsWord ws → All IsCommandUnit (join ws (lit " "))
unfolding join lit
join_units [] h = tt
join_units (w ∷ []) h = word_units w h.0
join_units (w ∷ v ∷ ws) h =
    All-append IsCommandUnit w _ (word_units w h.0)
      ((omega arith, omega arith, omega arith, omega arith), join_units (v ∷ ws) h.1)

-- The decision of whether a text is a word.
abbrev pub is_word : QString → Bool
is_word [] = true
is_word (x ∷ w) = (leb 34 x && leb x 127) && is_word w

pub is_word-IsWord : (w : QString) → is_word w ≡ true → IsWord w
is_word-IsWord [] h = tt
is_word-IsWord (x ∷ w) h = elim (Bool-cases (leb 34 x && leb x 127)) [
  | inl e ↦ (
    (
      (ground arith, (λ p. ground arith), (λ p. ground arith), (λ p. ground arith)),
      (λ p. ground arith),
    ),
    is_word-IsWord w (rw e at h),
  )
  | inr e ↦ absurd (ground (arith, rw e at h))
]

-- The length of words behind a first one, with a space before each.
abbrev spaced : QStringList → ℕ
spaced [] = 0
spaced (w ∷ ws) = 1 + length w + spaced ws

length-join :
    (w : QString) (ws : QStringList) → length (join (w ∷ ws) (lit " ")) ≡ length w + spaced ws
unfolding join lit
length-join w [] = omega arith
length-join w (v ∷ ws) =
    omega (arith, length-append w (b' ' ∷ join (v ∷ ws) (lit " ")), length-join v ws)

one_command : (text : QString) → text ∷ [] ≢ []
one_command text e = cc

module _ (qt : Library) (laws : CommandLaws qt) where
  process_command-words :
      (verb : QString) (ws : QStringList)
      → All IsWord (verb ∷ ws)
      → process_command qt (join (verb ∷ ws) (lit " "))
        ≡ command_of qt (map lower_unit verb) (verb ∷ ws)
  unfolding process_command
  process_command-words verb ws h = rw (
    laws.split-join verb ws (words_lack (verb ∷ ws) h),
    laws.ascii_lower verb (units-IsAscii verb (word_units verb h.0)),
  )

  sent_bytes :
      (text : QString)
      → All IsCommandUnit text
      → take (length (text ++ b'!' ∷ [])) (qt.to_utf8 (text ++ b'!' ∷ [])) ≡ framed (text ∷ [])
  sent_bytes text h =
      ap (take (length (text ++ b'!' ∷ []))) (
        laws.ascii_utf8 _
          (All-append (λ c. c < 128) text _ (units-IsAscii text h) (omega arith, tt)))
      ∙ take-all _ (text ++ b'!' ∷ []) (omega arith)

  -- A command of words, sent with its exclamation mark, is processed by its verb.
  pub send_command-processed :
      (verb : QString) (ws : QStringList)
      → All IsWord (verb ∷ ws)
      → length verb + spaced ws < 1500
      → ready_read_data qt (send_command qt (join (verb ∷ ws) (lit " ") ++ b'!' ∷ []) ∷ [])
        ≡ (command_of qt (map lower_unit verb) (verb ∷ ws), [])
  unfolding send_command
  send_command-processed verb ws h bound =
      let text = join (verb ∷ ws) (lit " ") in
      let units = join_units (verb ∷ ws) h in
      ap (λ b. ready_read_data qt ((localhost, b) ∷ [])) (sent_bytes text units)
      ∙ ready_read_data-framed qt laws.ascii_unit ((localhost, text ∷ []) ∷ []) (
        (
          one_command text,
          omega (arith, bound, length-append text (b'!' ∷ []), length-join verb ws),
          (units, tt),
        ),
        tt,
      )
      ∙ ap (λ cs. (cs, []))
          (append-nil (process_command qt text ++ [])
            ∙ append-nil (process_command qt text)
            ∙ process_command-words verb ws h)

  -- Over a library with the documented laws of ASCII texts and of split, the user commands that a
  -- client sends are the ones that the daemon processes, with the same words: if the words are ASCII,
  -- without a space, an end of line or an exclamation mark, and the command fits into 1500 bytes.
  pub ready_read_data-send_user_commands :
      (file realm name passwd : QString)
      → IsWord file × IsWord realm × IsWord name × IsWord passwd
      → length file + length realm + length name + length passwd ≤ 1480
      → (ready_read_data qt (send_add_user_command qt file name passwd ∷ [])
          ≡ (add_user (lit "ADDUSER" ∷ file ∷ name ∷ passwd ∷ []) ∷ [], []))
        × (ready_read_data qt (send_add_user2_command qt file realm name passwd ∷ [])
            ≡ (add_user2 (lit "ADDUSER2" ∷ file ∷ realm ∷ name ∷ passwd ∷ []) ∷ [], []))
        × (ready_read_data qt (send_delete_user_command qt file name ∷ [])
            ≡ (delete_user (lit "DELETEUSER" ∷ file ∷ name ∷ []) ∷ [], []))
        × (ready_read_data qt (send_delete_user2_command qt file realm name ∷ [])
            ≡ (delete_user2 (lit "DELETEUSER2" ∷ file ∷ realm ∷ name ∷ []) ∷ [], []))
  unfolding send_add_user_command send_add_user2_command send_delete_user_command
      send_delete_user2_command command_of lit join str_eq
  ready_read_data-send_user_commands file realm name passwd h bound = (
    ap (λ x. ready_read_data qt (send_command qt x ∷ [])) (simp append_assoc)
        ∙ send_command-processed (lit "ADDUSER") (file ∷ name ∷ passwd ∷ [])
            (is_word-IsWord (lit "ADDUSER") refl, (h.0, (h.2, (h.3, tt)))) (omega (arith, bound)),
    ap (λ x. ready_read_data qt (send_command qt x ∷ [])) (simp append_assoc)
        ∙ send_command-processed (lit "ADDUSER2") (file ∷ realm ∷ name ∷ passwd ∷ [])
            (is_word-IsWord (lit "ADDUSER2") refl, (h.0, (h.1, (h.2, (h.3, tt)))))
            (omega (arith, bound)),
    ap (λ x. ready_read_data qt (send_command qt x ∷ [])) (simp append_assoc)
        ∙ send_command-processed (lit "DELETEUSER") (file ∷ name ∷ [])
            (is_word-IsWord (lit "DELETEUSER") refl, (h.0, (h.2, tt))) (omega (arith, bound)),
    ap (λ x. ready_read_data qt (send_command qt x ∷ [])) (simp append_assoc)
        ∙ send_command-processed (lit "DELETEUSER2") (file ∷ realm ∷ name ∷ [])
            (is_word-IsWord (lit "DELETEUSER2") refl, (h.0, (h.1, (h.2, tt))))
            (omega (arith, bound)),
  )
