-- ===== src/Server.antt =====
-- WHHttpServer (src/wh/whhttpserver.h, src/wh/whhttpserver.cpp): the sources, the requests and what reads
-- them. The users are in `Users`, the frames of a WebSocket in `WebSocket`.
pub mod Cgi
pub mod Sources
pub mod Requests
pub mod Reading
pub mod Access
pub mod Dispatch
pub mod Table
pub mod Delivery
pub mod Phases
use webhost.Base.{ℕ, Bool, List, [], ◌∷◌, ◌++◌, if◌then◌else◌, false, true}
use webhost.Qt.{QString, QStringList, QByteArray, str_eq}
use webhost.Users.{UserMap}

pub record Server : Type 0 where
  pub static_filenames : QStringList
  pub static_uris : QStringList
  pub static_mimetypes : QStringList
  pub static_realms : QStringList
  pub cgi_filenames : QStringList
  pub cgi_uris : QStringList
  pub cgi_realms : QStringList
  pub socket_uris : QStringList
  pub socket_protocols : QStringList
  pub socket_realms : QStringList
  pub users : UserMap

-- What a file name stands for when a request asks for it.
pub data File : Type 0 where
  missing unreadable : File
  content : QByteArray → File

pub add_static_source : Server → QString → QString → QString → QString → Server
add_static_source s uri mimetype filename realm = record s {
  static_uris = s.static_uris ++ uri ∷ [];
  static_mimetypes = s.static_mimetypes ++ mimetype ∷ [];
  static_filenames = s.static_filenames ++ filename ∷ [];
  static_realms = s.static_realms ++ realm ∷ [];
}

pub add_cgi_source : Server → QString → QString → QString → Server
add_cgi_source s uri filename realm = record s {
  cgi_uris = s.cgi_uris ++ uri ∷ [];
  cgi_filenames = s.cgi_filenames ++ filename ∷ [];
  cgi_realms = s.cgi_realms ++ realm ∷ [];
}

pub add_socket_source : Server → QString → QString → QString → Server
add_socket_source s uri proto realm = record s {
  socket_uris = s.socket_uris ++ uri ∷ [];
  socket_protocols = s.socket_protocols ++ proto ∷ [];
  socket_realms = s.socket_realms ++ realm ∷ [];
}

-- `IsCgiScript`
unfoldable pub is_cgi_script : QStringList → QString → Bool
is_cgi_script [] uri = false
is_cgi_script (u ∷ us) uri = if str_eq u uri then true else is_cgi_script us uri
