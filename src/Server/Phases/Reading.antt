-- ===== src/Server/Phases/Reading.antt =====
-- Whatever is read leaves a connection consistent.
use webhost.Base.{ℕ, refl, Bool, true, false, List, [], ◌∷◌, ◌++◌, inl, inr, if◌then◌else◌}
use webhost.Qt.{QString, QByteArray, unread, lit, Library}
use webhost.Connection.{Connection, new_connection}
use webhost.WebSocket.Receive.{read_websocket}
use webhost.WebSocket.Receive.Stage.{stage-read_websocket}
use webhost.Server.{Server, File}
use webhost.Server.Reading.{
  ready_read, read_headers, read_method_line, read_request_line, request_fields,
}
use webhost.Server.Dispatch.{ready_read-0, ready_read-1, ready_read-2, ready_read-10}
use webhost.Server.Delivery.{deliver}
use webhost.Server.Phases.{IsConsistent, IsConsistent-stage}
use webhost.Server.Phases.Request.{read_body-IsConsistent, read_headers-IsConsistent}
use webhost.Server.Phases.RequestLine.{IsLineRead, IsIdle, request_fields-IsLineRead}

module _ (qt : Library) (s : Server) (files : QString → File) where
  line_then :
      (r : Connection × Bool) (a : QByteArray)
      → IsLineRead r
      → IsConsistent
          (if◌then◌else◌ {A = Server × Connection × QByteArray} r.1
            (read_headers qt s files r.0 a)
            (s, r.0, a)).1
  line_then (d, true) a h = read_headers-IsConsistent qt s files d a h.1
  line_then (d, false) a h = h

  read_request_line-IsConsistent :
      (c : Connection) (ls : List QByteArray) (rest : QByteArray)
      → IsIdle c
      → IsConsistent (read_request_line qt s files c ls rest).1
  unfolding read_request_line
  read_request_line-IsConsistent c [] rest i = inl i
  read_request_line-IsConsistent c (l ∷ ls) rest i =
      let fs = qt.split (qt.trimmed (qt.from_ascii l)) (lit " ") in
      line_then (request_fields qt s c fs) (unread ls rest)
        (request_fields-IsLineRead qt s files c fs i)

  -- Any bytes that a socket delivers leave a consistent connection consistent.
  pub ready_read-IsConsistent :
      (c : Connection) (a : QByteArray)
      → IsConsistent c
      → IsConsistent (ready_read qt s files c a).1
  unfolding read_method_line
  ready_read-IsConsistent c a (inl i) =
      rw (ready_read-0 qt s files c a i.0) (read_request_line-IsConsistent c _ _ i)
  ready_read-IsConsistent c a (inr (inl (inl e, w, m))) =
      rw (ready_read-1 qt s files c a e) (read_headers-IsConsistent qt s files c a (inl e, w, m))
  ready_read-IsConsistent c a (inr (inl (inr e, w, m))) =
      rw (ready_read-2 qt s files c a e) (read_body-IsConsistent qt s files c a (inr e, w, m))
  ready_read-IsConsistent c a (inr (inr r)) =
      rw (ready_read-10 qt s files c a r.0)
        (IsConsistent-stage c (read_websocket qt c a) (stage-read_websocket qt c a) (inr (inr r)))

module _ (qt : Library) (files : QString → File) where
  deliver-keeps :
      (s : Server) (c : Connection) (held : QByteArray) (ps : List QByteArray)
      → IsConsistent c
      → IsConsistent (deliver qt s files c held ps).1
  unfolding deliver
  deliver-keeps s c held [] h = h
  deliver-keeps s c held (p ∷ ps) h =
      let r = ready_read qt s files c (held ++ p) in
      deliver-keeps r.0 r.1 r.2 ps (ready_read-IsConsistent qt s files c (held ++ p) h)

  -- A new connection is consistent after any pieces of any bytes: its parse state is 0, 1, 2 or 10,
  -- it is a WebSocket exactly in state 10, and in the states behind the request line the method is
  -- GET, POST or HEAD and the version 1.0 or 1.1.
  pub deliver-IsConsistent :
      (s : Server) (id unset : ℕ) (ps : List QByteArray)
      → IsConsistent (deliver qt s files (new_connection id unset) [] ps).1
  unfolding new_connection
  deliver-IsConsistent s id unset ps = deliver-keeps s _ [] ps (inl (refl, refl, refl))
