-- ===== src/WebSocket/Send/RoundTrip.antt =====
-- What the server sends is one frame of RFC 6455 with the code and the payload.
use webhost.Base.{
  ◌<◌, ◌^◌, ◌≡◌, true, ◌++◌, some, arith, length, length-append, take-length_append,
  drop-length_append,
}
use webhost.Qt.{QByteArray}
use webhost.WebSocket.Message.{OpCode, op_value}
use webhost.WebSocket.Frame.{read_frame}
use webhost.WebSocket.Send.{socket_packet}

pub op_value-lt : (o : OpCode) → op_value o < 16
unfolding op_value
op_value-lt o = ground arith

-- A packet of at most 2^32 - 1 payload bytes is read as one final frame, whatever follows it.
pub read_frame-socket_packet :
    (o : OpCode) (data' rest : QByteArray)
    → length data' < 2 ^ 32
    → read_frame (socket_packet o data' ++ rest)
      ≡ some (record { is_last = true; code = op_value o; payload = data' }, rest)
unfolding read_frame socket_packet
read_frame-socket_packet o data' rest h = ground (
  arith,
  op_value-lt o,
  length-append data' rest,
  take-length_append data' rest,
  drop-length_append data' rest,
)
