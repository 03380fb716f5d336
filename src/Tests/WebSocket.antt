-- ===== src/Tests/WebSocket.antt =====
-- The theorems on WebSocket frames at concrete frames.
use webhost.Base.{◌+◌, ◌%◌, ◌≡◌, refl, true, false, List, [], ◌∷◌, ◌++◌, some, arith, inr}
use webhost.Connection.{
  Connection, new_connection, Call, socket_write, socket_close, socket_message_received,
}
use webhost.WebSocket.Message.{text, continuation, ping, pong, close, op_value, is_control_message}
use webhost.WebSocket.Frame.{read_frame, client_frame, masked}
use webhost.WebSocket.Send.{socket_packet}
use webhost.WebSocket.Send.RoundTrip.{read_frame-socket_packet}
use webhost.WebSocket.Receive.{read_websocket, byte_at}
use webhost.WebSocket.Receive.Frames.{take_frame, read_websocket-client_frame}
use webhost.WebSocket.Receive.Reassembly.{Sent, IsSendable, bytes_of, read_all, read_all-fragments}
use webhost.WebSocket.Receive.Closing.{read_websocket-close, read_websocket-violation}
use webhost.Tests.SampleQt.{sample}

abbrev fragment : Sent
fragment = record { is_last = false; code = text; key = λ j. j % 4 + 5; payload = b'a' ∷ b'b' ∷ [] }

abbrev inner_ping : Sent
inner_ping = record { is_last = true; code = ping; key = λ j. 7; payload = b'!' ∷ [] }

abbrev final_fragment : Sent
final_fragment = record { is_last = true; code = continuation; key = λ j. 250; payload = b'c' ∷ [] }

abbrev farewell : Sent
farewell = record { is_last = true; code = close; key = λ j. 1; payload = 3 ∷ 232 ∷ b'x' ∷ [] }

fragment-IsSendable : IsSendable fragment
unfolding client_frame op_value masked
fragment-IsSendable = record {
  key_bytes = λ j. omega arith;
  payload_bytes = omega arith;
  fits = omega arith;
}

ping-IsSendable : IsSendable inner_ping
unfolding client_frame op_value masked
ping-IsSendable = record {
  key_bytes = λ j. omega arith;
  payload_bytes = omega arith;
  fits = omega arith;
}

final-IsSendable : IsSendable final_fragment
unfolding client_frame op_value masked
final-IsSendable = record {
  key_bytes = λ j. omega arith;
  payload_bytes = omega arith;
  fits = omega arith;
}

farewell-IsSendable : IsSendable farewell
unfolding client_frame op_value masked
farewell-IsSendable = record {
  key_bytes = λ j. omega arith;
  payload_bytes = omega arith;
  fits = omega arith;
}

abbrev peer : Connection
peer = new_connection 4 0

read_frame-socket_packet_example :
    read_frame (socket_packet text (b'h' ∷ b'i' ∷ []) ++ 9 ∷ [])
    ≡ some (record { is_last = true; code = op_value text; payload = b'h' ∷ b'i' ∷ [] }, 9 ∷ [])
read_frame-socket_packet_example =
    read_frame-socket_packet text (b'h' ∷ b'i' ∷ []) (9 ∷ []) (omega arith)

read_websocket-client_frame_example :
    read_websocket sample peer (client_frame true ping (λ j. 7) (b'!' ∷ []) ++ 1 ∷ 2 ∷ [])
    ≡ take_frame peer true ping (b'!' ∷ [])
unfolding client_frame op_value masked
read_websocket-client_frame_example =
    read_websocket-client_frame sample peer true ping (λ j. 7) (b'!' ∷ []) (1 ∷ 2 ∷ [])
      (λ j. omega arith) (omega arith) (omega arith)

abbrev received : Connection
received =
    read_websocket sample
      (read_all sample (read_websocket sample peer (bytes_of fragment)) (inner_ping ∷ []))
      (bytes_of final_fragment)

read_all-fragments_example :
    received.calls
    ≡ socket_write (socket_packet pong (b'!' ∷ []))
      ∷ socket_message_received 4 (record { op_code = text; payload = b'a' ∷ b'b' ∷ b'c' ∷ [] })
      ∷ []
unfolding is_control_message new_connection
read_all-fragments_example =
    read_all-fragments sample peer text fragment final_fragment (inner_ping ∷ []) (refl, λ e. cc)
      fragment-IsSendable (ping-IsSendable, tt) final-IsSendable (refl, refl) (inr refl, tt)
      (refl, refl)

read_websocket-close_example :
    (read_websocket sample peer (bytes_of farewell)).socket_close_status ≡ 1000
read_websocket-close_example =
    (read_websocket-close sample peer farewell 3 232 (b'x' ∷ []) farewell-IsSendable refl refl).1

read_websocket-violation_example :
    (more : List Call) × ((read_websocket sample peer (137 ∷ 1 ∷ b'x' ∷ [])).calls
      ≡ peer.calls ++ socket_close ∷ more)
unfolding byte_at
read_websocket-violation_example =
    read_websocket-violation sample peer (137 ∷ 1 ∷ b'x' ∷ []) (inr refl)
