-- ===== src/Server/Access.antt =====
-- Who gets an answer from a source (src/wh/whhttpserver.cpp): what the handlers of a request do to the
-- connection, and on which credentials.
pub mod Sources
pub mod Requests
pub mod Secrecy
use webhost.Base.{
  ℕ, zero, suc, ◌+◌, ◌≡◌, refl, sym, ap, ◌∙◌, subst, Bool, true, false, not, ◌||◌, List, [], ◌∷◌,
  ◌++◌, map, Option, none, some, append_assoc, append-nil, Bool-cases, ◌⊎◌, inl, inr, if◌then◌else◌,
  All, All-append, get_or, get_elem?, arith,
}
use webhost.Qt.{QString, QByteArray, QStringList, is_empty, str_eq, str_eq_iff, lit, Library}
use webhost.Connection.{
  Connection, Call, call, socket_write, socket_close, process_start, process_write, cgi_finished,
  new_socket_connection, socket_message_received, Method, none_method, get, post, head, put, delete,
  protocol_at_least, is_get,
}
use webhost.Connection.Response.{send_header, send_response_header, send_response, send_error}
use webhost.Connection.Writes.{
  Writes, Writes-none, Writes-write, send_header-Writes, send_response_header-Writes,
  send_response-Writes, send_error-Writes,
}
use webhost.Users.{realm_users, any_valid, authenticate_user}
use webhost.Server.{Server, File, missing, unreadable, content}
use webhost.Server.Cgi.{start_cgi_script, cgi_environment}
use webhost.Server.Sources.{
  authenticate_realm, send_static_source, send_cgi_source, start_websocket, static_answer,
  static_file, cgi_answer, accept_websocket, switch_protocols, websocket_key, websocket_handshake,
}

-- A realm is open to the credentials of the connection: it has no name, or a user of it has them.
abbrev pub is_open : Server → Connection → QString → Bool
is_open s c realm =
    is_empty realm || any_valid (realm_users s.users realm) c.auth_name c.auth_password

-- The WebSocket source of a number that there is, and the request names its URI or its protocol.
abbrev pub IsSocketOf : Server → Connection → ℕ → Type 0
IsSocketOf s c i =
    (uri : QString) × (get_elem? s.socket_uris i ≡ some uri)
    × ((uri ≡ c.uri) ⊎ (c.sub_protocol ≡ get_or s.socket_protocols i []))

-- What a request may cause: bytes on its socket, a CGI process of its own URI and a WebSocket of its
-- URI or protocol, each only where the realm of the source is open to it.
abbrev pub Permitted : Server → Connection → Call → Type 0
Permitted s c (socket_write b) = Unit
Permitted s c (process_start filename env) =
    (i : ℕ) × (get_elem? s.cgi_uris i ≡ some c.uri)
    × (filename ≡ get_or s.cgi_filenames i [])
    × (is_open s c (get_or s.cgi_realms i []) ≡ true)
Permitted s c (new_socket_connection id uri proto) =
    (i : ℕ) × IsSocketOf s c i × (is_open s c (get_or s.socket_realms i []) ≡ true)
Permitted s c _ = ⊥

-- What a handler makes of a connection: permitted calls, and perhaps the switch to a WebSocket.
pub record Handled (s : Server) (c d : Connection) : Type 0 where
  pub more : List Call
  pub cgi : Bool
  pub switched : Bool
  pub permitted : All (Permitted s c) more
  pub result : d ≡ record c {
    calls = c.calls ++ more;
    cgi_active = cgi;
    parse_state = if switched then 10 else c.parse_state;
    websocket = if switched then true else c.websocket;
  }

pub writes-Permitted :
    (s : Server) (c : Connection) (w : List QByteArray) → All (Permitted s c) (map socket_write w)
writes-Permitted s c [] = tt
writes-Permitted s c (x ∷ w) = (tt, writes-Permitted s c w)

pub Handled-Writes : (s : Server) (c d : Connection) → Writes c d → Handled s c d
Handled-Writes s c d (w, p) = record {
  more = map socket_write w;
  cgi = c.cgi_active;
  switched = false;
  permitted = writes-Permitted s c w;
  result = p;
}
