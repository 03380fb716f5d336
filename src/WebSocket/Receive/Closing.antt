-- ===== src/WebSocket/Receive/Closing.antt =====
-- The closing handshake, and frames that break the protocol.
use webhost.Base.{
  ℕ, ◌+◌, ◌*◌, ◌≡◌, refl, sym, ap, ◌∙◌, Bool, true, false, List, [], ◌∷◌, ◌++◌, arith, All,
  append_assoc, append-nil, ◌⊎◌, inl, inr, low_bits, shr, ◌==◌, Bool-cases,
}
use webhost.Qt.{QByteArray, c_string, Library}
use webhost.Connection.{Connection, Call, socket_write, socket_close, socket_message_received}
use webhost.WebSocket.Message.{
  OpCode, close, ping, pong, text, binary, app_reserv3, app_reserv4, app_reserv5, app_reserv6,
  app_reserv7, to_op_code, is_control_message, SocketMessage,
}
use webhost.WebSocket.Send.{socket_packet, send_socket_message}
use webhost.WebSocket.Receive.{
  dispose, read_websocket, byte_at, has_bit, store_message, check_bits, read_message,
  payload_length, extract_payload, start_message, message_for, dispose_application, note_close,
}
use webhost.WebSocket.Receive.Payload.{IsByte}
use webhost.WebSocket.Receive.Frames.{take_frame}
use webhost.WebSocket.Receive.Reassembly.{Sent, IsSendable, bytes_of, read_websocket-Sent}

-- What an operation adds to the calls of a connection.
abbrev Adds : List Call → List Call → Type 0
Adds before after = (more : List Call) × (after ≡ before ++ more)

application-Adds :
    (c : Connection) (m : SocketMessage) (l : Bool) → Adds c.calls (dispose_application c m l).calls
unfolding dispose_application
application-Adds c m true = (socket_message_received c.id m ∷ [], refl)
application-Adds c m false = ([], sym (append-nil c.calls))

note_close-calls : (c : Connection) (p : QByteArray) → (note_close c p).calls ≡ c.calls
unfolding note_close
note_close-calls c [] = refl
note_close-calls c (hi ∷ []) = refl
note_close-calls c (hi ∷ lo ∷ p) = refl

dispose-Adds :
    (c : Connection) (m : SocketMessage) (l : Bool) (o : OpCode)
    → Adds c.calls (dispose c m l o).calls
unfolding dispose dispose_application send_socket_message
dispose-Adds c m l text = application-Adds c m l
dispose-Adds c m l binary = application-Adds c m l
dispose-Adds c m l app_reserv3 = application-Adds c m l
dispose-Adds c m l app_reserv4 = application-Adds c m l
dispose-Adds c m l app_reserv5 = application-Adds c m l
dispose-Adds c m l app_reserv6 = application-Adds c m l
dispose-Adds c m l app_reserv7 = application-Adds c m l
dispose-Adds c m l close = (
  socket_write (socket_packet close m.payload) ∷ socket_close ∷ [],
  rw (note_close-calls c m.payload) (append_assoc c.calls _ _),
)
dispose-Adds c m l ping = (socket_write (socket_packet pong m.payload) ∷ [], refl)
dispose-Adds c m l _ = ([], sym (append-nil c.calls))

store_message-calls :
    (c : Connection) (o : OpCode) (m : SocketMessage) → (store_message c o m).calls ≡ c.calls
store_message-calls c o m = elim (Bool-cases (is_control_message o)) [ inl e ↦ rw e | inr e ↦ rw e ]

read_message-Adds :
    (qt : Library) (c : Connection) (data' : QByteArray)
    → Adds c.calls (read_message qt c data').calls
unfolding read_message
read_message-Adds qt c data' =
    let o = to_op_code (low_bits (byte_at qt data' 0) 4) in
    let (n, k) = payload_length qt data' in
    let m = extract_payload qt data' k n 0 (start_message (message_for c o) o) in
    rw (store_message-calls c o m) at
      (dispose-Adds (store_message c o m) m (has_bit (byte_at qt data' 0) 7) m.op_code)

check_bits-violation :
    (c : Connection) (b0 b1 : ℕ)
    → (low_bits (shr b0 4) 3 == 0 ≡ false) ⊎ (has_bit b1 7 ≡ false)
    → (more : List Call) × ((check_bits c b0 b1).calls ≡ c.calls ++ socket_close ∷ more)
unfolding check_bits
check_bits-violation c b0 b1 h = elim (Bool-cases (has_bit b1 7)) [
  | inl masked ↦ ([], ground arith)
  | inr bare ↦ elim (Bool-cases (low_bits (shr b0 4) 3 == 0)) [
    | inl plain ↦ ([], rw (bare, plain))
    | inr extended ↦ (socket_close ∷ [], rw (bare, extended) (append_assoc c.calls _ _))
  ]
]

module _ (qt : Library) where
  -- A close frame with a status is answered by a close frame with the same payload, then the
  -- socket is closed; the status and the reason, up to its first NUL, are kept for the report.
  pub read_websocket-close :
      (c : Connection) (f : Sent) (hi lo : ℕ) (reason : QByteArray)
      → IsSendable f
      → f.code ≡ close
      → f.payload ≡ hi ∷ lo ∷ reason
      → let c' = read_websocket qt c (bytes_of f) in
        (c'.calls
          ≡ c.calls ++ socket_write (socket_packet close (hi ∷ lo ∷ reason)) ∷ socket_close ∷ [])
        × (c'.socket_close_status ≡ hi * 256 + lo)
        × (c'.socket_close_body ≡ c_string reason)
  unfolding take_frame dispose is_control_message send_socket_message
  read_websocket-close c f hi lo reason s e p =
      let bytes : All IsByte (hi ∷ lo ∷ reason) = rw p at s.payload_bytes in
      rw (read_websocket-Sent qt c f s, e, p)
        (append_assoc c.calls _ _, omega (arith, bytes.0, bytes.1.0), refl)

  -- A read with an extension bit set in its first frame, or with no mask, closes the socket before
  -- anything else is done, whatever the bytes are.
  pub read_websocket-violation :
      (c : Connection) (data' : QByteArray)
      → (low_bits (shr (byte_at qt data' 0) 4) 3 == 0 ≡ false)
        ⊎ (has_bit (byte_at qt data' 1) 7 ≡ false)
      → (more : List Call) × ((read_websocket qt c data').calls ≡ c.calls ++ socket_close ∷ more)
  unfolding read_websocket
  read_websocket-violation c data' h =
      let b0 = byte_at qt data' 0 in
      let b1 = byte_at qt data' 1 in
      let (closed, e) = check_bits-violation c b0 b1 h in
      let (more, f) = read_message-Adds qt (check_bits c b0 b1) data' in
      (
        closed ++ more,
        f ∙ ap (λ x. x ++ more) e ∙ append_assoc c.calls (socket_close ∷ closed) more,
      )
