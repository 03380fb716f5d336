-- ===== src/Server/Sources.antt =====
-- Answers from the sources: `AuthenticateRealm`, `SendStaticSource`, `SendCgiSource`,
-- `StartWebsocket` and `GetWebsocketHandshake` of src/wh/whhttpserver.cpp. A handler gives the server
-- back too, since a look at a realm may create it.
use webhost.Base.{
  ℕ, Bool, true, false, not, ◌||◌, [], ◌∷◌, ◌++◌, Option, none, some, if◌then◌else◌, get_or, take,
  length,
}
use webhost.Qt.{QString, QByteArray, QStringList, lit, str_eq, is_empty, c_string, Library}
use webhost.Connection.{
  Connection, Method, get, post, head, call, write, new_socket_connection, protocol_at_least,
  is_get,
}
use webhost.Connection.Response.{
  send_header, send_response_header, send_response, send_body, send_error_text,
}
use webhost.Users.{authenticate_user}
use webhost.Server.{Server, File, missing, unreadable, content}
use webhost.Server.Cgi.{start_cgi_script}

module _ (qt : Library) where
  open qt use {trimmed, to_utf8, to_base64}

  refuse : Connection → QString → Connection
  refuse c realm =
      send_response qt c 401 (lit "WWW-Authenticate" ∷ [])
        ((lit "Basic realm=\"" ++ (realm ++ lit "\"")) ∷ []) (lit "401 Unauthorized") []

  -- An empty realm is open to all, and the users are not looked at.
  unfoldable pub authenticate_realm :
      Server → Connection → QString → QString → QString → Server × Connection × Bool
  unfolding refuse
  authenticate_realm s c realm name passwd =
      if is_empty realm
      then (s, c, true)
      else let (known, users) = authenticate_user s.users realm name passwd in
        let s1 = record s { users = users } in
        if known then (s1, c, true) else (s1, refuse c realm, false)

  unfoldable pub static_answer : Connection → Method → QByteArray → QString → Connection
  static_answer c get data' mimetype = send_body qt c 200 data' mimetype
  static_answer c post data' mimetype = send_body qt c 200 data' mimetype
  static_answer c head data' mimetype =
      send_header qt (send_response_header qt c 200 mimetype) [] []
  static_answer c _ data' mimetype = send_body qt c 405 (lit "Method not allowed") []

  unfoldable pub static_file : Connection → File → QString → Connection
  unfolding static_answer
  static_file c missing mimetype = send_error_text qt c 404 []
  static_file c unreadable mimetype = send_error_text qt c 500 []
  static_file c (content data') mimetype = static_answer c c.method data' mimetype

  unfoldable pub send_static_source :
      Server → (QString → File) → Connection → ℕ → Server × Connection
  unfolding static_file
  send_static_source s files c n =
      let (s1, c1, ok) =
        authenticate_realm s c (get_or s.static_realms n []) c.auth_name c.auth_password in
      if not ok then (s1, c1) else (
        s1,
        static_file c1 (files (get_or s.static_filenames n [])) (get_or s.static_mimetypes n []),
      )

  unfoldable pub cgi_answer : Connection → Method → QString → Connection
  cgi_answer c head filename = send_body qt c 405 (lit "405 Method Not Allowd") []
  cgi_answer c _ filename = start_cgi_script qt c filename

  unfoldable pub send_cgi_source : Server → Connection → ℕ → Server × Connection
  unfolding cgi_answer
  send_cgi_source s c n =
      let (s1, c1, ok) =
        authenticate_realm s c (get_or s.cgi_realms n []) c.auth_name c.auth_password in
      if not ok then (s1, c1) else (s1, cgi_answer c1 c1.method (get_or s.cgi_filenames n []))

  -- The text that the key is joined to.
  abbrev pub magic_string : QString
  magic_string = lit "258EAFA5-E914-47DA-95CA-C5AB0DC85B11"

  handshake_of : Option QByteArray → QByteArray
  handshake_of none = []
  handshake_of (some digest) = to_base64 (c_string (digest ++ qt.buffer_rest))

  -- The buffer of the digest is read as a `const char *`.
  unfoldable pub websocket_handshake : QString → QByteArray
  unfolding handshake_of
  websocket_handshake key =
      let text = key ++ magic_string in handshake_of (qt.sha1 (take (length text) (to_utf8 text)))

  -- The last header of that name counts.
  unfoldable pub websocket_key : QString → QStringList → QStringList → QString
  websocket_key key (n ∷ ns) (v ∷ vs) =
      websocket_key (if str_eq n (lit "sec-websocket-key") then trimmed v else key) ns vs
  websocket_key key _ _ = key

  unfoldable pub switch_protocols : Connection → QByteArray → Connection
  switch_protocols c resp =
      let c1 = write c (to_utf8 (lit "HTTP/1.1 101 Switching Protocols" ++ 13 ∷ 10 ∷ [])) in
      let c2 = send_header qt c1 (lit "Upgrade") (lit "websocket") in
      let c3 = send_header qt c2 (lit "Connection") (lit "upgrade") in
      let c4 = send_header qt c3 (lit "Sec-WebSocket-Accept") (qt.from_ascii resp) in
      let c5 = send_header qt c4 (lit "Sec-WebSocket-Protocol") c.sub_protocol in
      let c6 = record (send_header qt c5 [] []) { parse_state = 10; websocket = true } in
      call c6 (new_socket_connection c.id c.uri c.sub_protocol)

  unfoldable pub accept_websocket : Connection → Connection
  unfolding switch_protocols
  accept_websocket c =
      let key = websocket_key [] c.header_names c.header_values in
      let resp = websocket_handshake key in
      if not (protocol_at_least qt c 1 1) || not (is_get c.method) || is_empty key
      then send_error_text qt c 400 []
      else if is_empty resp
      then send_error_text qt c 500 (lit "500 Internal processing error")
      else switch_protocols c resp

  unfoldable pub start_websocket : Server → Connection → ℕ → Server × Connection
  unfolding accept_websocket
  start_websocket s c n =
      let (s1, c1, ok) =
        authenticate_realm s c (get_or s.socket_realms n []) c.auth_name c.auth_password in
      if not ok then (s1, c1) else (s1, accept_websocket c1)
