-- ===== src/WebSocket/Receive/Frames.antt =====
-- What `ReadWebsocket` does with the frames that a client of RFC 6455 writes.
use webhost.Base.{
  ℕ, zero, suc, ◌+◌, ◌^◌, ◌<◌, ◌≡◌, refl, sym, ap, Bool, true, [], ◌∷◌, ◌++◌, arith, length,
  length-append, All, append_assoc, if◌then◌else◌, low_bits, ltb, shr, ◌==◌,
}
use webhost.Qt.{QByteArray, Library}
use webhost.Connection.{Connection}
use webhost.WebSocket.Frame.{masked, client_length, first_byte, client_frame}
use webhost.WebSocket.Message.{OpCode, op_value, to_op_code, SocketMessage}
use webhost.WebSocket.Receive.{
  byte_at, payload_length, extract_payload, message_for, store_message, start_message, dispose,
  read_websocket, has_bit, check_bits,
}
use webhost.WebSocket.Receive.Payload.{IsByte, extract_payload-masked}
use webhost.WebSocket.Send.RoundTrip.{op_value-lt}

-- The message that a frame leaves behind: a continuation adds to what was gathered.
abbrev pub gathered : SocketMessage → OpCode → QByteArray → SocketMessage
gathered msg o payload = let m = start_message msg o in record m { payload = m.payload ++ payload }

-- What a well-formed frame does to the connection, told of the frame and not of its bytes.
unfoldable pub take_frame : Connection → Bool → OpCode → QByteArray → Connection
take_frame c is_last o payload =
    let msg = gathered (message_for c o) o payload in
    dispose (store_message c o msg) msg is_last msg.op_code

to_op_code-op_value : (o : OpCode) → to_op_code (op_value o) ≡ o
unfolding to_op_code op_value
to_op_code-op_value o = ground arith

-- The fields of the first byte.
first_byte_fields :
    (l : Bool) (o : OpCode)
    → (low_bits (shr (first_byte l o) 4) 3 == 0 ≡ true)
      × (has_bit (first_byte l o) 7 ≡ l)
      × (low_bits (first_byte l o) 4 ≡ op_value o)
first_byte_fields l o = ground (arith, op_value-lt o)

check_bits_fine :
    (c : Connection) (b0 b1 : ℕ)
    → low_bits (shr b0 4) 3 == 0 ≡ true
    → has_bit b1 7 ≡ true
    → check_bits c b0 b1 ≡ c
unfolding check_bits
check_bits_fine c b0 b1 ext mask = rw (ext, mask)

-- The number of bytes that give a length, less one.
abbrev head_size : ℕ → ℕ
head_size n = if ltb n 126 then 0 else if ltb n 65536 then 2 else 8

length-client_length : (n : ℕ) → length (client_length n) ≡ head_size n + 1
length-client_length n = ground arith

length-masked : (key : ℕ → ℕ) (i : ℕ) (p : QByteArray) → length (masked key i p) ≡ length p
unfolding masked
length-masked key i [] = refl
length-masked key i (b ∷ p) = ap suc (length-masked key (suc i) p)

-- A frame's bytes with what follows, bracketed to the right.
abbrev wire : Bool → OpCode → (ℕ → ℕ) → QByteArray → QByteArray → QByteArray
wire l o key p rest =
    first_byte l o
    ∷ (client_length (length p) ++ (key 0 ∷ key 1 ∷ key 2 ∷ key 3 ∷ (masked key 0 p ++ rest)))

client_frame_shape :
    (l : Bool) (o : OpCode) (key : ℕ → ℕ) (p rest : QByteArray)
    → client_frame l o key p ++ rest ≡ wire l o key p rest
unfolding client_frame
client_frame_shape l o key p rest =
    ap (◌∷◌ (first_byte l o)) (append_assoc (client_length (length p)) _ rest)

module _ (qt : Library) where
  payload_length-client :
      (b0 n : ℕ) (rest : QByteArray)
      → n < 2 ^ 31
      → payload_length qt (b0 ∷ (client_length n ++ rest)) ≡ (n, head_size n)
  unfolding payload_length byte_at
  payload_length-client b0 n rest h = ground arith

  mask_bit-client :
      (b0 n : ℕ) (rest : QByteArray)
      → n < 2 ^ 31
      → has_bit (byte_at qt (b0 ∷ (client_length n ++ rest)) 1) 7 ≡ true
  unfolding byte_at
  mask_bit-client b0 n rest h = ground arith

  mask-client :
      (key : ℕ → ℕ) (b0 n : ℕ) (rest : QByteArray) (j : ℕ)
      → j < 4
      → byte_at qt
          (b0 ∷ (client_length n ++ (key 0 ∷ key 1 ∷ key 2 ∷ key 3 ∷ rest)))
          (head_size n + 2 + j)
        ≡ key j
  unfolding byte_at
  mask-client key b0 n rest zero h = ground arith
  mask-client key b0 n rest (suc zero) h = ground arith
  mask-client key b0 n rest (suc (suc zero)) h = ground arith
  mask-client key b0 n rest (suc (suc (suc zero))) h = ground arith
  mask-client key b0 n rest (suc (suc (suc (suc j)))) h = absurd (omega arith)

  -- The handler, told by what it reads from the bytes.
  read_websocket_fields :
      (c : Connection) (data' payload : QByteArray) (is_last : Bool) (o : OpCode) (n offset : ℕ)
      → low_bits (shr (byte_at qt data' 0) 4) 3 == 0 ≡ true
      → has_bit (byte_at qt data' 0) 7 ≡ is_last
      → to_op_code (low_bits (byte_at qt data' 0) 4) ≡ o
      → has_bit (byte_at qt data' 1) 7 ≡ true
      → payload_length qt data' ≡ (n, offset)
      → ((m : SocketMessage)
          → extract_payload qt data' offset n 0 m ≡ record m { payload = m.payload ++ payload })
      → read_websocket qt c data' ≡ take_frame c is_last o payload
  unfolding read_websocket take_frame
  read_websocket_fields c data' payload is_last o n offset ext fin op mask len body =
      rw (check_bits_fine c (byte_at qt data' 0) (byte_at qt data' 1) ext mask, fin, op, len, body)

  read_websocket-wire :
      (c : Connection) (l : Bool) (o : OpCode) (key : ℕ → ℕ) (payload rest : QByteArray)
      → ((j : ℕ) → IsByte (key j))
      → All IsByte payload
      → length (wire l o key payload rest) < 2 ^ 31
      → read_websocket qt c (wire l o key payload rest) ≡ take_frame c l o payload
  unfolding byte_at
  read_websocket-wire c l o key payload rest hk hp bound =
      let n = length payload in
      let fields = first_byte_fields l o in
      let ks = key 0 ∷ key 1 ∷ key 2 ∷ key 3 ∷ [] in
      let head = first_byte l o ∷ (client_length n ++ ks) in
      let shape : wire l o key payload rest ≡ head ++ (masked key 0 payload ++ rest) =
        ap (◌∷◌ (first_byte l o))
          (sym (append_assoc (client_length n) ks (masked key 0 payload ++ rest))) in
      let at_head : length head ≡ head_size n + 6 + 0 =
        omega (arith, length-append (client_length n) ks, length-client_length n) in
      let small : n < 2 ^ 31 = omega (
        arith,
        ap length shape,
        length-append head (masked key 0 payload ++ rest),
        length-append (masked key 0 payload) rest,
        length-masked key 0 payload,
      ) in
      read_websocket_fields c (wire l o key payload rest) payload l o n (head_size n) fields.0
        fields.1 (rw (fields.2) (to_op_code-op_value o))
        (mask_bit-client (first_byte l o) n _ small)
        (payload_length-client (first_byte l o) n _ small)
        (λ m.
          extract_payload-masked qt key hk (wire l o key payload rest) (head_size n)
            (omega (arith, bound))
            (mask-client key (first_byte l o) n (masked key 0 payload ++ rest)) payload head rest 0
            m hp shape at_head)

  -- A masked frame of a client is taken as the frame that was written, whatever stands behind it in
  -- the same read, which is ignored: if the key and the payload are bytes and the read is shorter than
  -- 2^31 bytes.
  pub read_websocket-client_frame :
      (c : Connection) (is_last : Bool) (o : OpCode) (key : ℕ → ℕ) (payload rest : QByteArray)
      → ((j : ℕ) → IsByte (key j))
      → All IsByte payload
      → length (client_frame is_last o key payload ++ rest) < 2 ^ 31
      → read_websocket qt c (client_frame is_last o key payload ++ rest)
        ≡ take_frame c is_last o payload
  read_websocket-client_frame c l o key payload rest hk hp bound =
      let size = ap length (client_frame_shape l o key payload rest) in
      rw (client_frame_shape l o key payload rest)
        (read_websocket-wire c l o key payload rest hk hp (omega (arith, bound, size)))
