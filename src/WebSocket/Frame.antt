-- ===== src/WebSocket/Frame.antt =====
-- The frames of RFC 6455, section 5.2, on which the code's framing is judged: a reader of the
-- unmasked frames of a server, and a writer of the masked frames of a client.
use webhost.Base.{
  ℕ, suc, ◌+◌, ◌*◌, ◌/◌, ◌%◌, Bool, [], ◌∷◌, ◌++◌, Option, none, some, ltb, leb, ◌==◌,
  if◌then◌else◌, length, take, drop, bit_xor,
}
use webhost.Qt.{QByteArray}
use webhost.WebSocket.Message.{OpCode, op_value}

pub record Frame : Type 0 where
  pub is_last : Bool
  pub code : ℕ
  pub payload : QByteArray

-- The number that bytes spell, the highest first.
abbrev pub big_endian : ℕ → QByteArray → ℕ
big_endian acc [] = acc
big_endian acc (b ∷ bs) = big_endian (acc * 256 + b) bs

-- A payload of `n` bytes, and what stands behind it.
abbrev split_payload : ℕ → ℕ → QByteArray → Option (Frame × QByteArray)
split_payload b0 n rest =
    if leb n (length rest)
    then some (record { is_last = leb 128 b0; code = b0 % 16; payload = take n rest }, drop n rest)
    else none

-- One frame with no mask and no extension bits, and what stands behind it.
unfoldable pub read_frame : QByteArray → Option (Frame × QByteArray)
read_frame (b0 ∷ b1 ∷ rest) =
    if leb 128 b1
    then none
    else if leb 16 (b0 % 128)
    then none
    else if ltb b1 126
    then split_payload b0 b1 rest
    else if b1 == 126
    then split_payload b0 (big_endian 0 (take 2 rest)) (drop 2 rest)
    else split_payload b0 (big_endian 0 (take 8 rest)) (drop 8 rest)
read_frame _ = none

-- `n` in the fewest bytes, with the bit that says that a mask follows.
abbrev pub client_length : ℕ → QByteArray
client_length n =
    if ltb n 126
    then (128 + n) ∷ []
    else if ltb n 65536
    then 254 ∷ n / 256 ∷ n % 256 ∷ []
    else 255 ∷ 0 ∷ 0 ∷ 0 ∷ 0 ∷ n / 16777216 % 256 ∷ n / 65536 % 256 ∷ n / 256 % 256 ∷ n % 256 ∷ []

-- The payload from the `i`th byte on, each byte masked with the key's byte of its turn.
unfoldable pub masked : (ℕ → ℕ) → ℕ → QByteArray → QByteArray
masked key i [] = []
masked key i (b ∷ bs) = bit_xor b (key (i % 4)) ∷ masked key (suc i) bs

abbrev pub first_byte : Bool → OpCode → ℕ
first_byte is_last o = (if is_last then 128 else 0) + op_value o

unfoldable pub client_frame : Bool → OpCode → (ℕ → ℕ) → QByteArray → QByteArray
client_frame is_last o key payload =
    first_byte is_last o
    ∷ (client_length (length payload) ++ (key 0 ∷ key 1 ∷ key 2 ∷ key 3 ∷ masked key 0 payload))
