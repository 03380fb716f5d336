-- ===== src/Server/Requests.antt =====
-- What answers a request that is read: `ProcessRequest` and `requestReceived` of
-- src/wh/whhttpserver.cpp, with the handlers of the class itself, which a subclass may replace.
use webhost.Base.{ℕ, suc, ◌||◌, [], ◌∷◌, Option, none, some, if◌then◌else◌, get_or}
use webhost.Qt.{QString, QStringList, lit, str_eq, Library}
use webhost.Connection.{Connection}
use webhost.Connection.Response.{send_error_text}
use webhost.Server.{Server, File}
use webhost.Server.Sources.{send_static_source, send_cgi_source, start_websocket}

-- The first source of that URI, from position `i` on.
unfoldable pub find_uri : QStringList → QString → ℕ → Option ℕ
find_uri [] uri i = none
find_uri (u ∷ us) uri i = if str_eq uri u then some i else find_uri us uri (suc i)

-- The first socket source of that URI or of that protocol, from position `i` on.
unfoldable pub find_socket : QStringList → QStringList → QString → QString → ℕ → Option ℕ
find_socket [] protocols uri proto i = none
find_socket (u ∷ us) protocols uri proto i =
    if str_eq uri u || str_eq proto (get_or protocols i [])
    then some i
    else find_socket us protocols uri proto (suc i)

module _ (qt : Library) where
  unfoldable pub not_found : Connection → Connection
  not_found c = send_error_text qt c 404 (lit "404 Not found")

  unfoldable pub request_received : Connection → Connection
  unfolding not_found
  request_received c = not_found c

  unfoldable pub socket_answer : Server → Connection → Option ℕ → Server × Connection
  socket_answer s c none = (s, request_received c)
  socket_answer s c (some n) = start_websocket qt s c n

  unfoldable pub cgi_or_none : Server → Connection → Option ℕ → Server × Connection
  cgi_or_none s c none = (s, request_received c)
  cgi_or_none s c (some n) = send_cgi_source qt s c n

  unfoldable pub page_answer :
      Server → (QString → File) → Connection → Option ℕ → Server × Connection
  page_answer s files c none = cgi_or_none s c (find_uri s.cgi_uris c.uri 0)
  page_answer s files c (some n) = send_static_source qt s files c n

  unfoldable pub process_request : Server → (QString → File) → Connection → Server × Connection
  unfolding socket_answer cgi_or_none page_answer
  process_request s files c =
      if str_eq (qt.to_lower c.upgrade) (lit "websocket")
      then socket_answer s c (find_socket s.socket_uris s.socket_protocols c.uri c.sub_protocol 0)
      else page_answer s files c (find_uri s.static_uris c.uri 0)
