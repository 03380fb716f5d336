-- ===== src/WebSocket/Message.antt =====
-- WHSocketMessage (src/wh/whsocketmessage.h, src/wh/whsocketmessage.cpp).
use webhost.Base.{ℕ, Bool, List, [], ◌∷◌, ◌++◌, leb, get_or}
use webhost.Qt.{QByteArray}

pub data OpCode : Type 0 where
  continuation text binary : OpCode
  app_reserv3 app_reserv4 app_reserv5 app_reserv6 app_reserv7 : OpCode
  close ping pong : OpCode
  cntl_reserv11 cntl_reserv12 cntl_reserv13 cntl_reserv14 cntl_reserv15 : OpCode

-- The number that the enumeration gives a code.
unfoldable pub op_value : OpCode → ℕ
op_value continuation = 0
op_value text = 1
op_value binary = 2
op_value app_reserv3 = 3
op_value app_reserv4 = 4
op_value app_reserv5 = 5
op_value app_reserv6 = 6
op_value app_reserv7 = 7
op_value close = 8
op_value ping = 9
op_value pong = 10
op_value cntl_reserv11 = 11
op_value cntl_reserv12 = 12
op_value cntl_reserv13 = 13
op_value cntl_reserv14 = 14
op_value cntl_reserv15 = 15

abbrev op_codes : List OpCode
op_codes =
    continuation ∷ text ∷ binary ∷ app_reserv3 ∷ app_reserv4 ∷ app_reserv5 ∷ app_reserv6
    ∷ app_reserv7 ∷ close ∷ ping ∷ pong ∷ cntl_reserv11 ∷ cntl_reserv12 ∷ cntl_reserv13
    ∷ cntl_reserv14 ∷ cntl_reserv15 ∷ []

-- The cast `(OpCode) n` of a number below 16.
unfoldable pub to_op_code : ℕ → OpCode
to_op_code n = get_or op_codes n cntl_reserv15

pub record SocketMessage : Type 0 where
  pub op_code : OpCode
  pub payload : QByteArray

-- The constructor.
abbrev pub new_message : SocketMessage
new_message = record { op_code = close; payload = [] }

abbrev pub set_op_code : SocketMessage → OpCode → SocketMessage
set_op_code m o = record m { op_code = o }

abbrev pub append_payload : SocketMessage → ℕ → SocketMessage
append_payload m c = record m { payload = m.payload ++ c ∷ [] }

abbrev pub clear_payload : SocketMessage → SocketMessage
clear_payload m = record m { payload = [] }

-- The enumeration is compared by its numbers.
unfoldable pub is_control_message : OpCode → Bool
unfolding op_value
is_control_message o = leb (op_value close) (op_value o)
