-- ===== src/Tests/Server.antt =====
-- The theorems on the server at a concrete server, with one source of each kind, and its users.
use webhost.Base.{
  false, ℕ, zero, suc, ◌≡◌, ◌≢◌, get_elem?, none, ◌==◌, refl, List, [], ◌∷◌, ◌++◌, some, arith, pos,
  All,
}
use webhost.Qt.{QString, QByteArray, lit, str_eq, buffered_lines, is_empty, join}
use webhost.Connection.{Connection, Call, get, post, new_connection}
use webhost.Users.{realm_users, any_valid}
use webhost.Server.{Server, File, missing, content}
use webhost.Server.Requests.{process_request}
use webhost.Server.Reading.{ready_read, header_line, header_fields, store_header}
use webhost.Server.Access.{Permitted}
use webhost.Server.Access.Requests.{process_request-Permitted}
use webhost.Server.Access.Secrecy.{process_request-SameOpen, SameOpen}
use webhost.Server.Delivery.{deliver, concat}
use webhost.Server.Delivery.Body.{deliver-body, processed}
use webhost.Server.Delivery.Repeat.{deliver-processed_again, processed_again}
use webhost.Server.Delivery.Headers.{deliver-headers, after_lines}
use webhost.Server.Phases.{IsConsistent}
use webhost.Server.Phases.Reading.{deliver-IsConsistent}
use webhost.Server.Table.{Connections, new_connection_data, garbage_data}
use webhost.Server.Table.Slots.{
  IsFree, IsNumbered, new_connection_data-fresh, garbage_data-new_connection_data-IsNumbered,
}
use webhost.Tests.SampleQt.{sample, split_text, trim, to_lower_char}

abbrev staff : QString
staff = b's' ∷ b't' ∷ []

abbrev ann : QString
ann = b'a' ∷ b'n' ∷ []

abbrev page : QString
page = b'/' ∷ b'p' ∷ []

abbrev script : QString
script = b'/' ∷ b'c' ∷ []

abbrev server : Server
server = record {
  static_filenames = page ∷ [];
  static_uris = page ∷ [];
  static_mimetypes = [] ∷ [];
  static_realms = staff ∷ [];
  cgi_filenames = script ∷ [];
  cgi_uris = script ∷ [];
  cgi_realms = staff ∷ [];
  socket_uris = [];
  socket_protocols = [];
  socket_realms = [];
  users = (staff, (record { name = ann; password = ann }) ∷ []) ∷ [];
}

-- A request of the script with the right credentials, and one of the page with none.
abbrev trusted : Connection
trusted = record (new_connection 0 0) {
  method = get;
  uri = script;
  auth_name = ann;
  auth_password = ann;
  parse_state = 1;
}

abbrev stranger : Connection
stranger = record (new_connection 0 0) { method = get; uri = page; parse_state = 1 }

abbrev empty_disk : QString → File
empty_disk name = missing

abbrev page_disk : QString → File
page_disk [] = missing
page_disk (c ∷ name) = content (b'x' ∷ [])

process_request-Permitted_example :
    (more : List Call) × ((process_request sample server empty_disk trusted).1.calls
      ≡ trusted.calls ++ more)
    × All (Permitted server trusted) more
process_request-Permitted_example = process_request-Permitted sample server empty_disk trusted

same_open : SameOpen server stranger empty_disk page_disk
unfolding realm_users any_valid str_eq is_empty new_connection
same_open zero h = absurd (ground arith)
same_open (suc i) h = refl

process_request-SameOpen_example :
    process_request sample server empty_disk stranger
    ≡ process_request sample server page_disk stranger
process_request-SameOpen_example =
    process_request-SameOpen sample server empty_disk page_disk stranger same_open

-- A request of five bytes, of which two have come.
abbrev posting : Connection
posting = record (new_connection 0 0) {
  method = post;
  uri = script;
  content_length = pos 5;
  parse_state = 2;
}

abbrev he : QByteArray
he = b'h' ∷ b'e' ∷ []

abbrev llo : QByteArray
llo = b'l' ∷ b'l' ∷ b'o' ∷ []

deliver-body_example :
    deliver sample server empty_disk posting [] (he ∷ llo ∷ [])
    ≡ processed sample server empty_disk (record posting { body = he ++ llo })
unfolding new_connection
deliver-body_example =
    deliver-body sample server empty_disk posting 5 (he ∷ []) llo refl refl (omega arith) refl

posted_closed :
    (process_request sample server empty_disk (record posting { body = he ++ llo })).1.websocket
    ≡ false
unfolding process_request str_eq new_connection lit webhost.Server.Requests.find_uri
    webhost.Server.Sources.send_cgi_source webhost.Server.Sources.authenticate_realm is_empty
    webhost.Users.authenticate_user any_valid realm_users webhost.Connection.Response.send_response
    webhost.Connection.Response.send_header webhost.Connection.Response.send_response_header
posted_closed = refl

deliver-processed_again_example :
    deliver sample server empty_disk posting [] (he ∷ llo ∷ he ∷ [])
    ≡ processed_again sample empty_disk server (record posting { body = he ++ llo }) he
unfolding new_connection
deliver-processed_again_example =
    deliver-processed_again sample empty_disk server posting 5 (he ∷ []) llo he refl refl
      (omega arith) refl posted_closed

deliver-IsConsistent_example :
    IsConsistent (deliver sample server empty_disk (new_connection 3 0) [] (he ∷ llo ∷ [])).1
deliver-IsConsistent_example = deliver-IsConsistent sample empty_disk server 3 0 (he ∷ llo ∷ [])

-- Two pieces with a header line between them, and the start of another.
abbrev first_piece : QByteArray
first_piece = b'x' ∷ b':' ∷ []

abbrev second_piece : QByteArray
second_piece = b'y' ∷ 10 ∷ b'h' ∷ []

abbrev with_header : Connection
with_header = record stranger { header_names = (b'x' ∷ []) ∷ []; header_values = (b'y' ∷ []) ∷ [] }

header_stored :
    after_lines sample stranger (buffered_lines (concat (first_piece ∷ second_piece ∷ []))).0
    ≡ some with_header
unfolding after_lines buffered_lines header_line header_fields store_header split_text trim str_eq
    lit join to_lower_char new_connection
header_stored = refl

deliver-headers_example :
    deliver sample server empty_disk stranger [] (first_piece ∷ second_piece ∷ he ∷ [])
    ≡ ready_read sample server empty_disk stranger (concat (first_piece ∷ second_piece ∷ []) ++ he)
deliver-headers_example =
    deliver-headers sample server empty_disk stranger with_header (first_piece ∷ second_piece ∷ [])
      he refl header_stored

-- A table whose second place is free.
abbrev connections : Connections
connections = some stranger ∷ none ∷ some (record stranger { id = 2 }) ∷ []

new_connection_data-fresh_example :
    let (t1, id) = new_connection_data connections 0 in
    IsFree connections id
    × (get_elem? t1 id ≡ some (some (new_connection id 0)))
    × ((j : ℕ) → j ≢ id → get_elem? t1 j ≡ get_elem? connections j)
new_connection_data-fresh_example = new_connection_data-fresh connections 0

garbage_data-new_connection_data-IsNumbered_example :
    IsNumbered (new_connection_data connections 0).0 0
    × IsNumbered (garbage_data (λ i. i == 0) connections) 0
unfolding new_connection
garbage_data-new_connection_data-IsNumbered_example =
    garbage_data-new_connection_data-IsNumbered (λ i. i == 0) connections 0 (refl, (refl, tt))
