-- ===== src/WebSocket/Send.antt =====
-- The frames that the server sends: `sendSocketMessage` and `closeSocketConnection` of
-- src/wh/whhttpserver.cpp. An int that is appended to a QByteArray is cut to its low byte.
pub mod RoundTrip
use webhost.Base.{ℕ, ◌+◌, List, [], ◌∷◌, ◌++◌, ltb, if◌then◌else◌, length, shr, low_bits}
use webhost.Qt.{QByteArray, QString, Library}
use webhost.Connection.{Connection, write}
use webhost.WebSocket.Message.{OpCode, text, binary, close, op_value}

-- The bytes behind the first: the length as one byte, or as two or eight behind a mark.
length_bytes : ℕ → QByteArray
length_bytes n =
    if ltb n 126
    then low_bits n 8 ∷ []
    else if ltb n 65536
    then 126 ∷ low_bits (shr n 8) 8 ∷ low_bits n 8 ∷ []
    else 127
      ∷ 0
      ∷ 0
      ∷ 0
      ∷ 0
      ∷ low_bits (shr n 24) 8
      ∷ low_bits (shr n 16) 8
      ∷ low_bits (shr n 8) 8
      ∷ low_bits n 8
      ∷ []

-- `0x80|(0x0F&opcode)` is a sum, since the two have no bit in common.
unfoldable pub socket_packet : OpCode → QByteArray → QByteArray
unfolding length_bytes
socket_packet o data' = (0x80 + low_bits (op_value o) 4) ∷ (length_bytes (length data') ++ data')

unfoldable pub send_socket_message : Connection → OpCode → QByteArray → Connection
send_socket_message c o data' = write c (socket_packet o data')

pub send_binary_message : Connection → QByteArray → Connection
send_binary_message c data' = send_socket_message c binary data'

pub send_text_message : Library → Connection → QString → Connection
send_text_message qt c str = send_socket_message c text (qt.to_utf8 str)

unfoldable pub close_socket_connection : Connection → ℕ → QByteArray → Connection
close_socket_connection c status body =
    send_socket_message c close (low_bits (shr status 8) 8 ∷ low_bits status 8 ∷ body)
