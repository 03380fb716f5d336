-- ===== src/Server/Table.antt =====
-- The connections of a server (src/wh/whhttpserver.cpp): `newConnectionData`, `disconnectedData` and
-- `garbageData` on the array `http_connections`, whose free places hold no connection. Whether a
-- socket is still connected is an argument.
pub mod Slots
use webhost.Base.{ℕ, suc, Bool, List, [], ◌∷◌, Option, none, some, if◌then◌else◌}
use webhost.Qt.{QByteArray}
use webhost.Connection.{Connection, new_connection}

abbrev pub Connections : Type 0
Connections = List (Option Connection)

-- The first free place from number `i` on, or a new place at the end, and its number. The argument
-- `unset` is what stands in the status that a new connection leaves unset.
unfoldable pub take_slot : Connections → ℕ → ℕ → Connections × ℕ
take_slot [] i unset = (some (new_connection i unset) ∷ [], i)
take_slot (none ∷ t) i unset = (some (new_connection i unset) ∷ t, i)
take_slot (some c ∷ t) i unset = let (rest, id) = take_slot t (suc i) unset in (some c ∷ rest, id)

unfoldable pub new_connection_data : Connections → ℕ → Connections × ℕ
new_connection_data t unset = take_slot t 0 unset

-- `socketConnectionClosed(id,status,body)`, for a WebSocket, and the interval that the garbage timer
-- is then started with.
pub disconnected_data : Connection → ℕ → List (ℕ × ℕ × QByteArray) × ℕ
disconnected_data c id =
    (if c.websocket then (id, c.socket_close_status, c.socket_close_body) ∷ [] else [], 0)

-- The connections whose socket is not connected are deleted, from number `i` on.
unfoldable pub garbage_from : (ℕ → Bool) → Connections → ℕ → Connections
garbage_from connected [] i = []
garbage_from connected (none ∷ t) i = none ∷ garbage_from connected t (suc i)
garbage_from connected (some c ∷ t) i =
    (if connected i then some c else none) ∷ garbage_from connected t (suc i)

unfoldable pub garbage_data : (ℕ → Bool) → Connections → Connections
garbage_data connected t = garbage_from connected t 0
