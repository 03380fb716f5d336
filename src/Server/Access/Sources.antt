-- ===== src/Server/Access/Sources.antt =====
-- What the handlers of the sources do to a connection, by the realm of the source.
use webhost.Base.{
  ℕ, ◌≡◌, refl, ap, ◌∙◌, true, false, not, ◌||◌, [], ◌∷◌, ◌++◌, map, some, append_assoc, Bool-cases,
  inl, inr, if◌then◌else◌, All-append, get_or, get_elem?, arith,
}
use webhost.Qt.{QString, QByteArray, is_empty, lit, Library}
use webhost.Connection.{
  Connection, call, socket_write, process_start, new_socket_connection, Method, none_method, get,
  post, head, put, delete, protocol_at_least, is_get,
}
use webhost.Connection.Writes.{
  Writes, Writes-none, Writes-write, send_header-Writes, send_response_header-Writes,
  send_response-Writes, send_error-Writes,
}
use webhost.Users.{authenticate_user}
use webhost.Server.{Server, File, missing, unreadable, content}
use webhost.Server.Cgi.{start_cgi_script}
use webhost.Server.Sources.{
  authenticate_realm, send_static_source, send_cgi_source, start_websocket, static_answer,
  static_file, cgi_answer, accept_websocket, switch_protocols, websocket_key, websocket_handshake,
}
use webhost.Server.Access.{
  IsSocketOf, is_open, Permitted, Handled, Handled-Writes, writes-Permitted,
}

module _ (qt : Library) where
  pub authenticate_realm-open :
      (s : Server) (c : Connection) (realm : QString)
      → is_open s c realm ≡ true
      → (s1 : Server) × (authenticate_realm qt s c realm c.auth_name c.auth_password
          ≡ (s1, c, true))
  unfolding authenticate_realm authenticate_user
  authenticate_realm-open s c realm h = elim (Bool-cases (is_empty realm)) [
    | inl e ↦ rw e (_, refl)
    | inr e ↦ rw (e, rw e at h) (_, refl)
  ]

  pub authenticate_realm-closed :
      (s : Server) (c : Connection) (realm : QString)
      → is_open s c realm ≡ false
      → (s1 : Server) × (d : Connection) × Writes c d
        × (authenticate_realm qt s c realm c.auth_name c.auth_password ≡ (s1, d, false))
  unfolding authenticate_realm authenticate_user
  authenticate_realm-closed s c realm h = elim (Bool-cases (is_empty realm)) [
    | inl e ↦ absurd (ground (arith, rw e at h))
    | inr e ↦ rw (e, rw e at h) (_, _, send_response-Writes qt c 401 _ _ _ _, refl)
  ]

  -- A handler that asks for a realm first.
  guarded :
      (s : Server) (c : Connection) (realm : QString) (answer : Connection → Connection)
      → (is_open s c realm ≡ true → Handled s c (answer c))
      → let (s1, c1, ok) = authenticate_realm qt s c realm c.auth_name c.auth_password in
        Handled s c (if◌then◌else◌ {A = Server × Connection} (not ok) (s1, c1) (s1, answer c1)).1
  guarded s c realm answer h = elim (Bool-cases (is_open s c realm)) [
    | inl e ↦ let (s1, p) = authenticate_realm-open s c realm e in rw p (h e)
    | inr e ↦
        let (s1, d, w, p) = authenticate_realm-closed s c realm e in rw p (Handled-Writes s c d w)
  ]

  static_answer-Writes :
      (c : Connection) (m : Method) (b : QByteArray) (t : QString)
      → Writes c (static_answer qt c m b t)
  unfolding static_answer
  static_answer-Writes c get b t = send_response-Writes qt c 200 [] [] b t
  static_answer-Writes c post b t = send_response-Writes qt c 200 [] [] b t
  static_answer-Writes c head b t =
      send_header-Writes qt c _ [] [] (send_response_header-Writes qt c c 200 t (Writes-none c))
  static_answer-Writes c none_method b t = send_response-Writes qt c 405 [] [] _ []
  static_answer-Writes c put b t = send_response-Writes qt c 405 [] [] _ []
  static_answer-Writes c delete b t = send_response-Writes qt c 405 [] [] _ []

  static_file-Writes : (c : Connection) (f : File) (t : QString) → Writes c (static_file qt c f t)
  unfolding static_file
  static_file-Writes c missing t = send_error-Writes qt c 404 [] [] []
  static_file-Writes c unreadable t = send_error-Writes qt c 500 [] [] []
  static_file-Writes c (content b) t = static_answer-Writes c c.method b t

  pub send_static_source-Handled :
      (s : Server) (files : QString → File) (c : Connection) (n : ℕ)
      → Handled s c (send_static_source qt s files c n).1
  unfolding send_static_source
  send_static_source-Handled s files c n =
      guarded s c (get_or s.static_realms n [])
        (λ d.
          static_file qt d (files (get_or s.static_filenames n []))
            (get_or s.static_mimetypes n []))
        (λ _. Handled-Writes s c _ (
          static_file-Writes c (files (get_or s.static_filenames n []))
            (get_or s.static_mimetypes n [])))

  -- What a source's number says of it: it is the source of the request's URI.
  cgi_answer-Handled :
      (s : Server) (c : Connection) (n : ℕ) (m : Method)
      → (get_elem? s.cgi_uris n ≡ some c.uri)
      → (is_open s c (get_or s.cgi_realms n []) ≡ true)
      → Handled s c (cgi_answer qt c m (get_or s.cgi_filenames n []))
  unfolding cgi_answer start_cgi_script
  cgi_answer-Handled s c n head u o =
      Handled-Writes s c _ (send_response-Writes qt c 405 [] [] _ [])
  cgi_answer-Handled s c n _ u o = record {
    more = process_start (get_or s.cgi_filenames n []) _ ∷ [];
    cgi = true;
    switched = false;
    permitted = ((n, u, refl, o), tt);
    result = refl;
  }

  pub send_cgi_source-Handled :
      (s : Server) (c : Connection) (n : ℕ)
      → (get_elem? s.cgi_uris n ≡ some c.uri)
      → Handled s c (send_cgi_source qt s c n).1
  unfolding send_cgi_source
  send_cgi_source-Handled s c n u =
      guarded s c (get_or s.cgi_realms n [])
        (λ d. cgi_answer qt d d.method (get_or s.cgi_filenames n []))
        (λ o. cgi_answer-Handled s c n c.method u o)

  switch_protocols-Handled :
      (s : Server) (c : Connection) (n : ℕ) (resp : QByteArray)
      → IsSocketOf s c n
      → (is_open s c (get_or s.socket_realms n []) ≡ true)
      → Handled s c (switch_protocols qt c resp)
  unfolding switch_protocols
  switch_protocols-Handled s c n resp u o =
      let (w, p) = send_header-Writes qt c _ [] [] (
        send_header-Writes qt c _ (lit "Sec-WebSocket-Protocol") c.sub_protocol (
          send_header-Writes qt c _ (lit "Sec-WebSocket-Accept") (qt.from_ascii resp) (
            send_header-Writes qt c _ (lit "Connection") (lit "upgrade") (
              send_header-Writes qt c _ (lit "Upgrade") (lit "websocket")
                (Writes-write c c _ (Writes-none c)))))) in
      record {
        more = map socket_write w ++ new_socket_connection c.id c.uri c.sub_protocol ∷ [];
        cgi = c.cgi_active;
        switched = true;
        permitted = All-append (Permitted s c) _ _ (writes-Permitted s c w) ((n, u, o), tt);
        result =
            ap
              (λ x.
                call (record x { parse_state = 10; websocket = true })
                  (new_socket_connection c.id c.uri c.sub_protocol))
              p
            ∙ ap (λ k. record c { calls = k; parse_state = 10; websocket = true })
                (append_assoc c.calls _ _);
      }

  accept_websocket-Handled :
      (s : Server) (c : Connection) (n : ℕ)
      → IsSocketOf s c n
      → (is_open s c (get_or s.socket_realms n []) ≡ true)
      → Handled s c (accept_websocket qt c)
  unfolding accept_websocket
  accept_websocket-Handled s c n u o =
      let key = websocket_key qt [] c.header_names c.header_values in
      elim (Bool-cases
        (not (protocol_at_least qt c 1 1) || not (is_get c.method) || is_empty key)) [
          | inl e ↦ rw e (Handled-Writes s c _ (send_error-Writes qt c 400 [] [] []))
          | inr e ↦ elim (Bool-cases (is_empty (websocket_handshake qt key))) [
            | inl f ↦ rw (e, f) (Handled-Writes s c _ (send_error-Writes qt c 500 _ [] []))
            | inr f ↦ rw (e, f) (switch_protocols-Handled s c n _ u o)
          ]
        ]

  pub start_websocket-Handled :
      (s : Server) (c : Connection) (n : ℕ)
      → IsSocketOf s c n
      → Handled s c (start_websocket qt s c n).1
  unfolding start_websocket
  start_websocket-Handled s c n u =
      guarded s c (get_or s.socket_realms n []) (accept_websocket qt)
        (accept_websocket-Handled s c n u)
