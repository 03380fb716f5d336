-- ===== src/Server/Delivery.antt =====
-- Requests that reach the socket in pieces: `readyReadData` of src/wh/whhttpserver.cpp, once for each
-- piece, on what the handlers have left in the socket and the piece behind it.
pub mod Body
pub mod Repeat
pub mod Steps
pub mod Headers
use webhost.Base.{ℕ, List, [], ◌∷◌, ◌++◌}
use webhost.Qt.{QString, QByteArray, Library}
use webhost.Connection.{Connection}
use webhost.Server.{Server, File}
use webhost.Server.Reading.{ready_read}

abbrev pub concat : List QByteArray → QByteArray
concat [] = []
concat (p ∷ ps) = p ++ concat ps

module _ (qt : Library) where
  unfoldable pub deliver :
      Server
      → (QString → File)
      → Connection
      → QByteArray
      → List QByteArray
      → Server × Connection × QByteArray
  deliver s files c held [] = (s, c, held)
  deliver s files c held (p ∷ ps) =
      let (s1, c1, held1) = ready_read qt s files c (held ++ p) in deliver s1 files c1 held1 ps
