-- ===== src/WebSocket/Receive/Stage.antt =====
-- What `ReadWebsocket` leaves as it is: how far the connection is in the protocol.
use webhost.Base.{
  ℕ, ◌≡◌, refl, ◌∙◌, Bool, true, false, [], ◌∷◌, Bool-cases, inl, inr, low_bits, shr, ◌==◌,
}
use webhost.Qt.{QByteArray, Library}
use webhost.Connection.{Connection, stage}
use webhost.WebSocket.Message.{
  OpCode, close, ping, text, binary, app_reserv3, app_reserv4, app_reserv5, app_reserv6,
  app_reserv7, to_op_code, is_control_message, SocketMessage,
}
use webhost.WebSocket.Send.{send_socket_message}
use webhost.WebSocket.Receive.{
  dispose, read_websocket, byte_at, has_bit, store_message, check_bits, read_message,
  payload_length, extract_payload, start_message, message_for, dispose_application, note_close,
}

stage-dispose_application :
    (c : Connection) (m : SocketMessage) (l : Bool) → stage (dispose_application c m l) ≡ stage c
unfolding dispose_application
stage-dispose_application c m true = refl
stage-dispose_application c m false = refl

stage-note_close : (c : Connection) (p : QByteArray) → stage (note_close c p) ≡ stage c
unfolding note_close
stage-note_close c [] = refl
stage-note_close c (hi ∷ []) = refl
stage-note_close c (hi ∷ lo ∷ p) = refl

stage-dispose :
    (c : Connection) (m : SocketMessage) (l : Bool) (o : OpCode) → stage (dispose c m l o) ≡ stage c
unfolding dispose send_socket_message
stage-dispose c m l text = stage-dispose_application c m l
stage-dispose c m l binary = stage-dispose_application c m l
stage-dispose c m l app_reserv3 = stage-dispose_application c m l
stage-dispose c m l app_reserv4 = stage-dispose_application c m l
stage-dispose c m l app_reserv5 = stage-dispose_application c m l
stage-dispose c m l app_reserv6 = stage-dispose_application c m l
stage-dispose c m l app_reserv7 = stage-dispose_application c m l
stage-dispose c m l close = stage-note_close c m.payload
stage-dispose c m l ping = refl
stage-dispose c m l _ = refl

stage-store_message :
    (c : Connection) (o : OpCode) (m : SocketMessage) → stage (store_message c o m) ≡ stage c
stage-store_message c o m = elim (Bool-cases (is_control_message o)) [ inl e ↦ rw e | inr e ↦ rw e ]

stage-check_bits : (c : Connection) (b0 b1 : ℕ) → stage (check_bits c b0 b1) ≡ stage c
unfolding check_bits
stage-check_bits c b0 b1 = elim (Bool-cases (has_bit b1 7)) [
  | inl e ↦ elim (Bool-cases (low_bits (shr b0 4) 3 == 0)) [ inl f ↦ rw (e, f) | inr f ↦ rw (e, f) ]
  | inr e ↦ elim (Bool-cases (low_bits (shr b0 4) 3 == 0)) [ inl f ↦ rw (e, f) | inr f ↦ rw (e, f) ]
]

pub stage-read_websocket :
    (qt : Library) (c : Connection) (data' : QByteArray)
    → stage (read_websocket qt c data') ≡ stage c
unfolding read_websocket read_message
stage-read_websocket qt c data' =
    let o = to_op_code (low_bits (byte_at qt data' 0) 4) in
    let (n, k) = payload_length qt data' in
    let d = check_bits c (byte_at qt data' 0) (byte_at qt data' 1) in
    let m = extract_payload qt data' k n 0 (start_message (message_for d o) o) in
    stage-dispose (store_message d o m) m (has_bit (byte_at qt data' 0) 7) m.op_code
    ∙ stage-store_message d o m
    ∙ stage-check_bits c _ _
