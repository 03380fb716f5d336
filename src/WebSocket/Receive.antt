-- ===== src/WebSocket/Receive.antt =====
-- The frames that the server reads: `ReadWebsocket` of src/wh/whhttpserver.cpp. `data'` is what one
-- call of `readAll` gives.
pub mod Payload
pub mod Frames
pub mod Reassembly
pub mod Closing
pub mod Stage
use webhost.Base.{
  ℕ, zero, suc, ◌+◌, ◌*◌, ◌%◌, ◌^◌, Bool, true, false, not, List, [], ◌∷◌, none, some, leb, ◌==◌,
  if◌then◌else◌, length, get_elem?, drop, shr, low_bits, bit_xor,
}
use webhost.Qt.{QByteArray, c_string, Library}
use webhost.Connection.{Connection, call, socket_close, socket_message_received}
use webhost.WebSocket.Message.{
  OpCode, continuation, text, binary, app_reserv3, app_reserv4, app_reserv5, app_reserv6,
  app_reserv7, close, ping, pong, to_op_code, SocketMessage, set_op_code, clear_payload,
  append_payload, is_control_message,
}
use webhost.WebSocket.Send.{send_socket_message}

-- `(1 << k) & x` as a truth value
abbrev pub has_bit : ℕ → ℕ → Bool
has_bit x k = low_bits (shr x k) 1 == 1

module _ (qt : Library) where
  unfoldable pub byte_at : QByteArray → ℕ → ℕ
  byte_at data' i = elim (get_elem? data' i) [ none ↦ qt.past_end data' i | some b ↦ b ]

  -- The length of the payload, and the place of the mask behind the first two bytes.
  unfoldable pub payload_length : QByteArray → ℕ × ℕ
  payload_length data' =
      let plen = low_bits (byte_at data' 1) 7 in
      if plen == 126
      then (low_bits (byte_at data' 2) 8 * 2 ^ 8 + low_bits (byte_at data' 3) 8, 2)
      else if plen == 127
      then (
        (low_bits (byte_at data' 6) 8 * 2 ^ 24
              + low_bits (byte_at data' 7) 8 * 2 ^ 16
              + low_bits (byte_at data' 8) 8 * 2 ^ 8
              + low_bits (byte_at data' 9) 8)
            % 2 ^ 32,
        8,
      )
      else (plen, 0)

  -- The loop that extracts the payload; the indices are 32-bit words.
  unfoldable pub extract_payload : QByteArray → ℕ → ℕ → ℕ → SocketMessage → SocketMessage
  extract_payload data' offset zero i msg = msg
  extract_payload data' offset (suc rounds) i msg = extract_payload data' offset rounds (suc i) (
      append_payload msg (
        bit_xor (byte_at data' ((offset + 6 + i) % 2 ^ 32))
          (byte_at data' ((offset + 2 + i % 4) % 2 ^ 32))))

-- The message of the connection that a frame of this code is gathered in.
abbrev pub message_for : Connection → OpCode → SocketMessage
message_for c opcode =
    if is_control_message opcode then c.cntl_socket_message else c.app_socket_message

abbrev pub store_message : Connection → OpCode → SocketMessage → Connection
store_message c opcode msg =
    if is_control_message opcode
    then record c { cntl_socket_message = msg }
    else record c { app_socket_message = msg }

-- `setSocketCloseStatus`, `setSocketCloseBody`, if the payload holds a status.
note_close : Connection → QByteArray → Connection
note_close c (hi ∷ lo ∷ rest) = record c {
  socket_close_status = low_bits hi 8 * 2 ^ 8 + low_bits lo 8;
  socket_close_body = c_string rest;
}
note_close c _ = c

dispose_application : Connection → SocketMessage → Bool → Connection
dispose_application c msg finished =
    if finished then call c (socket_message_received c.id msg) else c

-- The switch on the code of the message, which a continuation leaves as it was.
unfoldable pub dispose : Connection → SocketMessage → Bool → OpCode → Connection
unfolding note_close dispose_application send_socket_message
dispose c msg finished text = dispose_application c msg finished
dispose c msg finished binary = dispose_application c msg finished
dispose c msg finished app_reserv3 = dispose_application c msg finished
dispose c msg finished app_reserv4 = dispose_application c msg finished
dispose c msg finished app_reserv5 = dispose_application c msg finished
dispose c msg finished app_reserv6 = dispose_application c msg finished
dispose c msg finished app_reserv7 = dispose_application c msg finished
dispose c msg finished close =
    call (send_socket_message (note_close c msg.payload) close msg.payload) socket_close
dispose c msg finished ping = send_socket_message c pong msg.payload
dispose c msg finished _ = c

-- A frame with extension bits, or with no mask, closes the socket; the frame is read on.
unfoldable pub check_bits : Connection → ℕ → ℕ → Connection
check_bits c b0 b1 =
    let c1 = if low_bits (shr b0 4) 3 == 0 then c else call c socket_close in
    if has_bit b1 7 then c1 else call c1 socket_close

-- A frame that is no continuation starts its message afresh.
abbrev pub start_message : SocketMessage → OpCode → SocketMessage
start_message msg continuation = msg
start_message msg opcode = clear_payload (set_op_code msg opcode)

module _ (qt : Library) where
  -- The handler from the choice of the message on.
  unfoldable pub read_message : Connection → QByteArray → Connection
  read_message c data' =
      let b0 = byte_at qt data' 0 in
      let opcode = to_op_code (low_bits b0 4) in
      let (plen, offset) = payload_length qt data' in
      let msg =
        extract_payload qt data' offset plen 0 (start_message (message_for c opcode) opcode) in
      dispose (store_message c opcode msg) msg (has_bit b0 7) msg.op_code

  unfoldable pub read_websocket : Connection → QByteArray → Connection
  unfolding read_message
  read_websocket c data' =
      read_message (check_bits c (byte_at qt data' 0) (byte_at qt data' 1)) data'
