-- ===== src/Server/Reading.antt =====
-- What reads a request from the socket: `readyReadData`, `ReadMethodLine`, `ReadHeaders` and
-- `ReadBody` of src/wh/whhttpserver.cpp. A handler takes the bytes that the socket has buffered, and
-- gives those that it leaves there.
use webhost.Base.{
  ℕ, Bool, true, false, ◌||◌, ◌&&◌, not, List, [], ◌∷◌, ◌++◌, if◌then◌else◌, get_or, take, drop,
  ltb, ◌==◌, length, ℤ, pos, negsuc, sub_of_ℕ, eq_ℤ,
}
use webhost.Qt.{
  QString, QByteArray, QStringList, lit, str_eq, is_empty, join, buffered_lines, unread, Library,
}
use webhost.Connection.{
  Connection, Method, none_method, get, post, head, set_protocol_version, set_host,
  set_authorization, add_header, append_body, is_get,
}
use webhost.Connection.Response.{send_error, send_error_text}
use webhost.WebSocket.Receive.{read_websocket}
use webhost.Server.{Server, File, is_cgi_script}
use webhost.Server.Requests.{process_request}

-- What `read(n)` takes: nothing if n is negative.
unfoldable pub read_count : ℤ → ℕ
read_count (pos n) = n
read_count (negsuc n) = 0

-- What a line does to the headers: they go on, they end, or an error is sent.
pub data HeaderStep : Type 0 where
  next_header headers_end refused : Connection → HeaderStep

abbrev pub is_unset : Method → Bool
is_unset none_method = true
is_unset _ = false

module _ (qt : Library) where
  open qt use {trimmed, split, to_lower, from_ascii}

  -- `ReadBody`
  unfoldable pub read_body :
      Server → (QString → File) → Connection → QByteArray → Server × Connection × QByteArray
  unfolding read_count
  read_body s files c data' =
      let n = read_count (sub_of_ℕ c.content_length (length c.body)) in
      let c1 = append_body c (take n data') in
      if eq_ℤ (length c1.body) c1.content_length
      then (let (s1, c2) = process_request qt s files c1 in (s1, c2, drop n data'))
      else (s, c1, drop n data')

  unfoldable pub set_length : Connection → ℤ × Bool → HeaderStep
  set_length c (len, ok) =
      if ok
      then next_header (record c { content_length = len })
      else refused
          (send_error_text qt c 400 (lit "400 Bad Request Malformed Content-Length: header"))

  unfoldable pub set_host_or_refuse : Connection × Bool → HeaderStep
  set_host_or_refuse (c, ok) =
      if ok
      then next_header c
      else refused (send_error_text qt c 400 (lit "400 Bad Request Malformed Host: header"))

  -- One header, its name in lower case.
  unfoldable pub store_header : Connection → QString → QString → HeaderStep
  unfolding set_length set_host_or_refuse
  store_header c hdr value =
      if str_eq hdr (lit "authorization")
      then next_header (set_authorization qt c value).0
      else if str_eq hdr (lit "content-length")
      then set_length c (qt.to_long_long value)
      else if str_eq hdr (lit "content-type")
      then next_header (record c { content_type = get_or (split value (lit ";")) 0 [] })
      else if str_eq hdr (lit "host")
      then set_host_or_refuse (set_host qt c value)
      else if str_eq hdr (lit "referer")
      then next_header (record c { referrer = value })
      else if str_eq hdr (lit "sec-websocket-protocol")
      then next_header (record c { sub_protocol = value })
      else if str_eq hdr (lit "upgrade")
      then next_header (record c { upgrade = value })
      else if str_eq hdr (lit "user-agent")
      then next_header (record c { user_agent = value })
      else next_header (add_header c hdr value)

  unfoldable pub end_headers : Connection → HeaderStep
  end_headers c =
      if (c.minor_protocol_version == 1) && (c.host_port == 0)
      then refused
          (send_error_text qt c 400 (lit "400 Bad Request -- Missing/malformed Host: header"))
      else headers_end c

  unfoldable pub header_fields : Connection → QString → QStringList → HeaderStep
  header_fields c line (name ∷ v ∷ vs) =
      store_header c (to_lower (trimmed name)) (join (v ∷ vs) (lit ": "))
  header_fields c line _ = if is_empty line then end_headers c else next_header c

  unfoldable pub header_line : Connection → QByteArray → HeaderStep
  unfolding end_headers header_fields
  header_line c data' =
      let line = trimmed (from_ascii data') in header_fields c line (split line (lit ": "))

  unfoldable pub request_complete :
      Server → (QString → File) → Connection → QByteArray → Server × Connection × QByteArray
  request_complete s files c data' =
      if is_get c.method
      then (let (s1, c1) = process_request qt s files c in (s1, c1, data'))
      else read_body s files (record c { parse_state = 2 }) data'

  unfoldable pub read_header_lines :
      Server
      → (QString → File)
      → Connection
      → List QByteArray
      → QByteArray
      → Server × Connection × QByteArray
  unfolding request_complete
  read_header_lines s files c [] rest = (s, c, rest)
  read_header_lines s files c (l ∷ ls) rest = elim (header_line c l) [
    | next_header c1 ↦ read_header_lines s files c1 ls rest
    | headers_end c1 ↦ request_complete s files c1 (unread ls rest)
    | refused c1 ↦ (s, c1, unread ls rest)
  ]

  -- `ReadHeaders`
  unfoldable pub read_headers :
      Server → (QString → File) → Connection → QByteArray → Server × Connection × QByteArray
  read_headers s files c data' =
      let (ls, rest) = buffered_lines data' in read_header_lines s files c ls rest

  unfoldable pub method_named : Method → QString → Method
  method_named m name =
      if str_eq name (lit "GET")
      then get
      else if str_eq name (lit "POST")
      then post
      else if str_eq name (lit "HEAD")
      then head
      else m

  unfoldable pub malformed : Connection → Connection
  malformed c = send_error_text qt c 400 (lit "400 Bad Request<br>Malformed HTTP request")

  unfoldable pub not_implemented : Server → Connection → QString → Connection
  not_implemented s c uri = send_error qt c 501 (lit "501 Not implemented") (lit "Allow" ∷ []) (
      (if is_cgi_script s.cgi_uris (trimmed uri) then lit "GET" ++ lit ",POST" else lit "GET") ∷ [])

  -- The version of the request line, and whether the headers may be read.
  unfoldable pub read_version : Connection → QStringList → Connection × Bool
  unfolding malformed
  read_version c (proto ∷ version ∷ []) =
      let (c1, ok) = set_protocol_version qt c version in
      if not ok
      then (malformed c1, false)
      else if not (c1.major_protocol_version == 1) || ltb 1 c1.minor_protocol_version
      then (
        send_error_text qt c1 505
            (lit "505 HTTP Version Not Supported<br>This server only supports HTTP v1.x"),
        false,
      )
      else (record c1 { parse_state = 1 }, true)
  read_version c _ = (malformed c, false)

  -- The request line, and whether the headers may be read.
  unfoldable pub request_fields : Server → Connection → QStringList → Connection × Bool
  unfolding not_implemented malformed
  request_fields s c (name ∷ uri ∷ version ∷ []) =
      let c1 = record c { method = method_named c.method (trimmed name) } in
      if is_unset c1.method
      then (not_implemented s c1 uri, false)
      else read_version (record c1 { uri = trimmed uri }) (split (trimmed version) (lit "/"))
  request_fields s c _ = (malformed c, false)

  unfoldable pub read_request_line :
      Server
      → (QString → File)
      → Connection
      → List QByteArray
      → QByteArray
      → Server × Connection × QByteArray
  read_request_line s files c [] rest = (s, c, rest)
  read_request_line s files c (l ∷ ls) rest =
      let (c1, ok) = request_fields s c (split (trimmed (from_ascii l)) (lit " ")) in
      if ok then read_headers s files c1 (unread ls rest) else (s, c1, unread ls rest)

  -- `ReadMethodLine`
  unfoldable pub read_method_line :
      Server → (QString → File) → Connection → QByteArray → Server × Connection × QByteArray
  read_method_line s files c data' =
      let (ls, rest) = buffered_lines data' in read_request_line s files c ls rest

  -- `readyReadData`
  unfoldable pub ready_read :
      Server → (QString → File) → Connection → QByteArray → Server × Connection × QByteArray
  ready_read s files c data' =
      if c.parse_state == 0
      then read_method_line s files c data'
      else if c.parse_state == 1
      then read_headers s files c data'
      else if c.parse_state == 2
      then read_body s files c data'
      else if c.parse_state == 10
      then (s, read_websocket qt c data', [])
      else (s, c, data')
