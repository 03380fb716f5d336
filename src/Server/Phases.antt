-- ===== src/Server/Phases.antt =====
-- The parse states of a connection (src/wh/whhttpserver.cpp), whatever it is sent.
pub mod Request
pub mod RequestLine
pub mod Reading
use webhost.Base.{
  ℕ, zero, suc, ◌+◌, ◌≤◌, ◌≡◌, refl, sym, ap, ◌∙◌, subst, Bool, true, false, not, ◌||◌, ◌&&◌, List,
  [], ◌∷◌, ◌++◌, Bool-cases, ◌⊎◌, inl, inr, if◌then◌else◌, ltb, leb, ◌==◌, ==_iff, arith, length,
  take, eq_ℤ, sub_of_ℕ, is_nonneg,
}
use webhost.Qt.{QString, QByteArray, QStringList, buffered_lines, unread, str_eq, lit, Library}
use webhost.Connection.{
  Connection, Method, none_method, get, post, head, put, delete, stage, is_get, append_body,
  new_connection, set_version_parts, set_protocol_version,
}
use webhost.Connection.Writes.{Writes, send_error-Writes}
use webhost.WebSocket.Receive.{read_websocket}
use webhost.WebSocket.Receive.Stage.{stage-read_websocket}
use webhost.Server.{Server, File}
use webhost.Server.Requests.{process_request}
use webhost.Server.Reading.{
  ready_read, read_body, read_count, read_headers, read_header_lines, request_complete, header_line,
  HeaderStep, next_header, headers_end, refused, read_method_line, read_request_line,
  request_fields, read_version, is_unset, malformed, not_implemented, method_named,
}
use webhost.Server.Access.{Handled}
use webhost.Server.Access.Requests.{process_request-Handled}
use webhost.Server.Dispatch.{ready_read-0, ready_read-1, ready_read-2, ready_read-10}
use webhost.Server.Delivery.{deliver}
use webhost.Server.Delivery.Steps.{Keeps, StepKeeps, header_line-Keeps}

-- A request line that the server supports: GET, POST or HEAD of HTTP/1.0 or HTTP/1.1.
abbrev pub is_supported : Method → ℕ → ℕ → Bool
is_supported get major minor = (major == 1) && not (ltb 1 minor)
is_supported post major minor = (major == 1) && not (ltb 1 minor)
is_supported head major minor = (major == 1) && not (ltb 1 minor)
is_supported _ major minor = false

-- A method that a request line can set, or none.
abbrev pub is_readable : Method → Bool
is_readable put = false
is_readable delete = false
is_readable _ = true

-- A parse state, and what it says of the connection: a request is read behind a request line that
-- is supported, and a WebSocket is open exactly in state 10.
abbrev pub IsPhase : ℕ × Bool × Method × ℕ × ℕ → Type 0
IsPhase (state, ws, method, major, minor) =
    ((state ≡ 0) × (ws ≡ false) × (is_readable method ≡ true))
    ⊎ (((state ≡ 1) ⊎ (state ≡ 2)) × (ws ≡ false) × (is_supported method major minor ≡ true))
    ⊎ ((state ≡ 10) × (ws ≡ true) × (is_supported method major minor ≡ true))

abbrev pub IsConsistent : Connection → Type 0
IsConsistent c = IsPhase (stage c)

pub IsConsistent-stage : (c d : Connection) → stage d ≡ stage c → IsConsistent c → IsConsistent d
IsConsistent-stage c d e h = subst IsPhase (sym e) h

pub stage-Writes : (c d : Connection) → Writes c d → stage d ≡ stage c
stage-Writes c d (w, p) = ap stage p

-- A connection whose headers are being read, or whose body.
abbrev pub IsRequest : Connection → Type 0
IsRequest c =
    ((c.parse_state ≡ 1) ⊎ (c.parse_state ≡ 2))
    × (c.websocket ≡ false)
    × (is_supported c.method c.major_protocol_version c.minor_protocol_version ≡ true)

pub IsConsistent-Handled :
    (s : Server) (c d : Connection) → IsRequest c → Handled s c d → IsConsistent d
IsConsistent-Handled s c d r h = elim (Bool-cases h.switched) [
  | inl e ↦
      IsConsistent-stage (record c { parse_state = 10; websocket = true }) d
        (ap stage h.result ∙ (rw e)) (inr (inr (refl, refl, r.2)))
  | inr e ↦ IsConsistent-stage c d (ap stage h.result ∙ (rw e)) (inr (inl r))
]
