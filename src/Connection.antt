-- ===== src/Connection.antt =====
-- WHHttpConnection (src/wh/whhttpconnection.h, src/wh/whhttpconnection.cpp). The calls that a method makes
-- on its socket, its CGI process and its signals are appended to `calls`, in order; what Qt does
-- with them is outside the model.
pub mod Status
pub mod Response
pub mod Writes
use webhost.Base.{
  ℕ, ◌+◌, ◌%◌, ◌^◌, Bool, true, false, ◌||◌, ◌&&◌, not, List, [], ◌∷◌, ◌++◌, Option, none, some,
  ◌==◌, if◌then◌else◌, length, ℤ, pos, to_unsigned, String,
}
use webhost.Qt.{QString, QByteArray, QStringList, lit, str_eq, join, Library}
use webhost.WebSocket.Message.{SocketMessage, new_message}

pub data Method : Type 0 where
  none_method get post head put delete : Method

abbrev pub is_get : Method → Bool
is_get get = true
is_get _ = false

pub data AuthType : Type 0 where
  auth_none auth_basic auth_digest : AuthType

-- What a method calls on objects of Qt: the socket, the CGI process, the timers, its signals.
pub data Call : Type 0 where
  socket_write : QByteArray → Call
  socket_close : Call
  process_start : QString → List (QString × QString) → Call
  process_write : QByteArray → Call
  cgi_finished : Call
  new_socket_connection : ℕ → QString → QString → Call
  socket_message_received : ℕ → SocketMessage → Call

pub record Connection : Type 0 where
  pub id : ℕ
  pub method : Method
  pub websocket : Bool
  pub major_protocol_version : ℕ
  pub minor_protocol_version : ℕ
  pub uri : QString
  pub host_name : QString
  pub host_port : ℕ
  pub auth_type : AuthType
  pub auth_name : QString
  pub auth_password : QString
  pub content_length : ℤ
  pub content_type : QString
  pub referrer : QString
  pub sub_protocol : QString
  pub upgrade : QString
  pub user_agent : QString
  pub socket_close_status : ℕ
  pub socket_close_body : QByteArray
  pub header_names : QStringList
  pub header_values : QStringList
  pub body : QByteArray
  pub app_socket_message : SocketMessage
  pub cntl_socket_message : SocketMessage
  pub cgi_active : Bool
  pub cgi_headers : QStringList
  pub cgi_headers_active : Bool
  pub parse_state : ℕ
  pub calls : List Call

-- The constructor. It leaves `socket_close_status` unset, so the value that is there is an argument.
unfoldable pub new_connection : ℕ → ℕ → Connection
new_connection id unset = record {
  id = id;
  method = none_method;
  websocket = false;
  major_protocol_version = 0;
  minor_protocol_version = 0;
  uri = [];
  host_name = [];
  host_port = 0;
  auth_type = auth_none;
  auth_name = [];
  auth_password = [];
  content_length = pos 0;
  content_type = lit "application/octet-stream";
  referrer = [];
  sub_protocol = [];
  upgrade = [];
  user_agent = [];
  socket_close_status = unset;
  socket_close_body = [];
  header_names = [];
  header_values = [];
  body = [];
  app_socket_message = new_message;
  cntl_socket_message = new_message;
  cgi_active = false;
  cgi_headers = [];
  cgi_headers_active = true;
  parse_state = 0;
  calls = [];
}

abbrev pub call : Connection → Call → Connection
call c e = record c { calls = c.calls ++ e ∷ [] }

-- `socket()->write(data)`
abbrev pub write : Connection → QByteArray → Connection
write c data' = call c (socket_write data')

abbrev pub add_header : Connection → QString → QString → Connection
add_header c name value = record c {
  header_names = c.header_names ++ name ∷ [];
  header_values = c.header_values ++ value ∷ [];
}

abbrev pub append_body : Connection → QByteArray → Connection
append_body c data' = record c { body = c.body ++ data' }

-- How far a connection is in the protocol, and its request line.
abbrev pub stage : Connection → ℕ × Bool × Method × ℕ × ℕ
stage c = (c.parse_state, c.websocket, c.method, c.major_protocol_version, c.minor_protocol_version)

-- `headerValue`: the value of the first header of that name.
pub value_of : QString → QStringList → QStringList → QString
value_of name (n ∷ ns) (v ∷ vs) = if str_eq n name then v else value_of name ns vs
value_of name _ _ = []

pub header_value : Connection → QString → QString
unfolding value_of
header_value c name = value_of name c.header_names c.header_values

module _ (qt : Library) where
  open qt use {split, trimmed, to_lower, to_int, to_uint, from_base64, to_ascii, from_ascii}

  -- A failed conversion of Qt gives 0, which is stored before the flag is looked at.
  unfoldable pub set_version_parts : Connection → QStringList → Connection × Bool
  set_version_parts c (a ∷ b ∷ []) =
      let (major, ok) = to_int a in
      let c1 = record c { major_protocol_version = to_unsigned major } in
      let (minor, ok2) = to_int b in
      if not ok
      then (c1, false)
      else (record c1 { minor_protocol_version = to_unsigned minor }, ok2)
  set_version_parts c _ = (c, false)

  unfoldable pub set_protocol_version : Connection → QString → Connection × Bool
  unfolding set_version_parts
  set_protocol_version c s = set_version_parts c (split s (lit "."))

  unfoldable pub set_host_parts : Connection → QStringList → Connection × Bool
  set_host_parts c [] = (c, false)
  set_host_parts c (name ∷ []) = (record c { host_name = name; host_port = 80 }, true)
  set_host_parts c (name ∷ port ∷ []) =
      let (value, ok) = to_uint port in
      let p = value % 2 ^ 16 in
      (record c { host_name = name; host_port = p }, not (not ok || p == 0))
  set_host_parts c _ = (c, false)

  -- The close status is set here, before the value is looked at.
  unfoldable pub set_host : Connection → QString → Connection × Bool
  unfolding set_host_parts
  set_host c s = set_host_parts (record c { socket_close_status = 1005 }) (split s (lit ":"))

  -- The two parts of decoded credentials, of which the second may hold colons.
  unfoldable pub set_credentials : Connection → QStringList → Connection × Bool
  set_credentials c (name ∷ p ∷ ps) =
      (record c { auth_name = name; auth_password = join (p ∷ ps) (lit ":") }, true)
  set_credentials c _ = (c, false)

  unfoldable pub set_authorization_parts : Connection → QStringList → Connection × Bool
  set_authorization_parts c (scheme ∷ token ∷ []) =
      if str_eq (to_lower scheme) (lit "basic")
      then set_credentials c (split (from_ascii (from_base64 (to_ascii token))) (lit ":"))
      else (c, false)
  set_authorization_parts c _ = (c, false)

  unfoldable pub set_authorization : Connection → QString → Connection × Bool
  unfolding set_authorization_parts set_credentials
  set_authorization c s = set_authorization_parts c (split (trimmed s) (lit " "))

  -- Versions are compared as the numbers that their texts stand for, the connection's first.
  pub protocol_at_least : Connection → ℕ → ℕ → Bool
  protocol_at_least c major minor =
      qt.float_le (qt.version_text c.major_protocol_version c.minor_protocol_version)
        (qt.version_text major minor)
