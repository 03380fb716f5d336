-- ===== src/Server/Dispatch.antt =====
-- `readyReadData` of src/wh/whhttpserver.cpp, by the parse state.
use webhost.Base.{ℕ, ◌≡◌, []}
use webhost.Base.{if◌then◌else◌, ◌==◌}
use webhost.Qt.{QString, QByteArray, Library}
use webhost.Connection.{Connection}
use webhost.WebSocket.Receive.{read_websocket}
use webhost.Server.{Server, File}
use webhost.Server.Reading.{ready_read, read_method_line, read_headers, read_body}

module _ {A : Type 0} (k : ℕ) (a b x y z : A) where
  in_state_0 :
      k ≡ 0
      → (if k == 0 then a else if k == 1 then b else if k == 2 then x else if k == 10 then y else z)
        ≡ a
  in_state_0 h = rw h

  in_state_1 :
      k ≡ 1
      → (if k == 0 then a else if k == 1 then b else if k == 2 then x else if k == 10 then y else z)
        ≡ b
  in_state_1 h = rw h

  in_state_2 :
      k ≡ 2
      → (if k == 0 then a else if k == 1 then b else if k == 2 then x else if k == 10 then y else z)
        ≡ x
  in_state_2 h = rw h

  in_state_10 :
      k ≡ 10
      → (if k == 0 then a else if k == 1 then b else if k == 2 then x else if k == 10 then y else z)
        ≡ y
  in_state_10 h = rw h

module _ (qt : Library) (s : Server) (files : QString → File) (c : Connection)
    (a : QByteArray) where
  pub ready_read-0 : c.parse_state ≡ 0 → ready_read qt s files c a ≡ read_method_line qt s files c a
  unfolding ready_read
  ready_read-0 h = in_state_0 c.parse_state _ _ _ _ _ h

  pub ready_read-1 : c.parse_state ≡ 1 → ready_read qt s files c a ≡ read_headers qt s files c a
  unfolding ready_read
  ready_read-1 h = in_state_1 c.parse_state _ _ _ _ _ h

  pub ready_read-2 : c.parse_state ≡ 2 → ready_read qt s files c a ≡ read_body qt s files c a
  unfolding ready_read
  ready_read-2 h = in_state_2 c.parse_state _ _ _ _ _ h

  pub ready_read-10 :
      c.parse_state ≡ 10 → ready_read qt s files c a ≡ (s, read_websocket qt c a, [])
  unfolding ready_read
  ready_read-10 h = in_state_10 c.parse_state _ _ _ _ _ h
