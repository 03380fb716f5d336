-- ===== src/WebSocket/Receive/Reassembly.antt =====
-- A message that a client sends in fragments, with pings between them.
use webhost.Base.{
  ℕ, ◌^◌, ◌<◌, ◌≡◌, ◌≢◌, sym, Bool, true, false, List, [], ◌∷◌, ◌++◌, arith, length, All,
  append_assoc, append-nil, ◌⊎◌, inl, inr, if◌then◌else◌,
}
use webhost.Qt.{QByteArray, Library}
use webhost.Connection.{Connection, Call, socket_write, socket_message_received}
use webhost.WebSocket.Frame.{client_frame}
use webhost.WebSocket.Message.{OpCode, continuation, ping, pong, is_control_message}
use webhost.WebSocket.Send.{socket_packet, send_socket_message}
use webhost.WebSocket.Receive.{dispose, read_websocket}
use webhost.WebSocket.Receive.Payload.{IsByte}
use webhost.WebSocket.Receive.Frames.{take_frame, read_websocket-client_frame}

-- A frame as a client means it, with the key that it is masked with.
pub record Sent : Type 0 where
  pub is_last : Bool
  pub code : OpCode
  pub key : ℕ → ℕ
  pub payload : QByteArray

abbrev pub bytes_of : Sent → QByteArray
bytes_of f = client_frame f.is_last f.code f.key f.payload

pub record IsSendable (f : Sent) : Type 0 where
  pub key_bytes : (j : ℕ) → IsByte (f.key j)
  pub payload_bytes : All IsByte f.payload
  pub fits : length (bytes_of f) < 2 ^ 31

-- One call of the handler for each frame.
unfoldable pub read_all : Library → Connection → List Sent → Connection
read_all qt c [] = c
read_all qt c (f ∷ fs) = read_all qt (read_websocket qt c (bytes_of f)) fs

-- A frame between the first fragment and the last.
abbrev pub IsBetween : Sent → Type 0
IsBetween f = ((f.is_last ≡ false) × (f.code ≡ continuation)) ⊎ (f.code ≡ ping)

-- What the fragments among frames hold.
abbrev pub fragments : List Sent → QByteArray
fragments [] = []
fragments (f ∷ fs) = (if is_control_message f.code then [] else f.payload) ++ fragments fs

-- The answers to the pings among frames.
abbrev pub pongs : List Sent → List Call
pongs [] = []
pongs (f ∷ fs) =
    (if is_control_message f.code then socket_write (socket_packet pong f.payload) ∷ [] else [])
    ++ pongs fs

abbrev pub IsData : OpCode → Type 0
IsData o = (is_control_message o ≡ false) × (o ≢ continuation)

module _ (qt : Library) where
  pub read_websocket-Sent :
      (c : Connection) (f : Sent)
      → IsSendable f
      → read_websocket qt c (bytes_of f) ≡ take_frame c f.is_last f.code f.payload
  read_websocket-Sent c f s = rw (sym (append-nil (bytes_of f))) (
      read_websocket-client_frame qt c f.is_last f.code f.key f.payload [] s.key_bytes
        s.payload_bytes (rw append-nil s.fits))

-- What is gathered while the fragments of a message of code `o` come in.
record Gathering (c : Connection) (o : OpCode) (id : ℕ) (got : QByteArray) (calls : List Call)
    : Type 0 where
  code_is : c.app_socket_message.op_code ≡ o
  payload_is : c.app_socket_message.payload ≡ got
  id_is : c.id ≡ id
  calls_are : c.calls ≡ calls

take_fragment :
    (c : Connection) (o : OpCode) (id : ℕ) (got p : QByteArray) (calls : List Call)
    → IsData o
    → Gathering c o id got calls
    → Gathering (take_frame c false continuation p) o id (got ++ p) calls
unfolding take_frame dispose is_control_message
take_fragment c o id got p calls d g = ground arith

take_ping :
    (c : Connection) (o : OpCode) (id : ℕ) (got p : QByteArray) (calls : List Call) (l : Bool)
    → Gathering c o id got calls
    → Gathering (take_frame c l ping p) o id got (calls ++ socket_write (socket_packet pong p) ∷ [])
unfolding take_frame dispose is_control_message send_socket_message
take_ping c o id got p calls l g = ground arith

take_first :
    (c : Connection) (o : OpCode) (p : QByteArray)
    → IsData o
    → Gathering (take_frame c false o p) o c.id p c.calls
unfolding take_frame dispose is_control_message
take_first c o p d = ground arith

take_last :
    (c : Connection) (o : OpCode) (id : ℕ) (got p : QByteArray) (calls : List Call)
    → IsData o
    → Gathering c o id got calls
    → (take_frame c true continuation p).calls
      ≡ calls ++ socket_message_received id (record { op_code = o; payload = got ++ p }) ∷ []
unfolding take_frame dispose is_control_message
take_last c o id got p calls d g = ground arith

module _ (qt : Library) where
  read_between :
      (fs : List Sent) (c : Connection) (o : OpCode) (id : ℕ) (got : QByteArray) (calls : List Call)
      → IsData o
      → All IsSendable fs
      → All IsBetween fs
      → Gathering c o id got calls
      → Gathering (read_all qt c fs) o id (got ++ fragments fs) (calls ++ pongs fs)
  unfolding read_all take_frame is_control_message
  read_between [] c o id got calls d ss bs g = rw (append-nil got, append-nil calls) g
  read_between (f ∷ fs) c o id got calls d ss (inl (l, e), bs) g =
      rw (read_websocket-Sent qt c f ss.0, l, e, ← append_assoc got f.payload (fragments fs))
        (read_between fs _ o id (got ++ f.payload) calls d ss.1 bs
          (take_fragment c o id got f.payload calls d g))
  read_between (f ∷ fs) c o id got calls d ss (inr e, bs) g =
      rw
        (
          read_websocket-Sent qt c f ss.0,
          e,
          ← append_assoc calls (socket_write (socket_packet pong f.payload) ∷ []) (pongs fs),
        )
        (read_between fs _ o id got _ d ss.1 bs (take_ping c o id got f.payload calls f.is_last g))

  -- A message of a data code that a client sends as a first fragment, continuations and a last
  -- one, each a masked frame of bytes below 2^31 in a read of its own, with pings between them: the
  -- server answers each ping in turn, and then reports one message, with that code and all the
  -- fragments' bytes in order.
  pub read_all-fragments :
      (c : Connection) (o : OpCode) (first last : Sent) (between : List Sent)
      → IsData o
      → IsSendable first
      → All IsSendable between
      → IsSendable last
      → (first.is_last ≡ false) × (first.code ≡ o)
      → All IsBetween between
      → (last.is_last ≡ true) × (last.code ≡ continuation)
      → (read_websocket qt
          (read_all qt (read_websocket qt c (bytes_of first)) between)
          (bytes_of last)).calls
        ≡ (c.calls ++ pongs between)
          ++ socket_message_received c.id (record {
            op_code = o;
            payload = (first.payload ++ fragments between) ++ last.payload;
          })
            ∷ []
  read_all-fragments c o first last between d s1 ss s2 (l1, e1) bs (l2, e2) =
      let start : Gathering (read_websocket qt c (bytes_of first)) o c.id first.payload c.calls =
        rw (read_websocket-Sent qt c first s1, l1, e1) (take_first c o first.payload d) in
      let middle = read_between between _ o c.id first.payload c.calls d ss bs start in
      rw (read_websocket-Sent qt _ last s2, l2, e2) (take_last _ o c.id _ last.payload _ d middle)
