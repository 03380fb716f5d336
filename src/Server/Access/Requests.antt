-- ===== src/Server/Access/Requests.antt =====
-- What a whole request may do: the source that answers it is its own, and open to it.
use webhost.Base.{
  ℕ, suc, ◌+◌, ◌≡◌, refl, sym, ap, subst, List, [], ◌∷◌, ◌++◌, Option, none, some, Bool-cases, ◌⊎◌,
  inl, inr, All, get_or, get_elem?, arith,
}
use webhost.Qt.{QString, QStringList, str_eq, str_eq_iff, lit, Library}
use webhost.Connection.{Connection, Call}
use webhost.Connection.Writes.{send_error-Writes}
use webhost.Server.{Server, File}
use webhost.Server.Requests.{
  find_uri, find_socket, process_request, request_received, not_found, cgi_or_none, page_answer,
  socket_answer,
}
use webhost.Server.Access.{Permitted, Handled, Handled-Writes}
use webhost.Server.Access.Sources.{
  send_static_source-Handled, send_cgi_source-Handled, start_websocket-Handled,
}

-- A position that the search gives is one of the URI.
find_uri-found :
    (us : QStringList) (uri : QString) (k n : ℕ)
    → find_uri us uri k ≡ some n
    → (i : ℕ) × (n ≡ i + k) × (get_elem? us i ≡ some uri)
unfolding find_uri
find_uri-found [] uri k n h = absurd (ground arith)
find_uri-found (u ∷ us) uri k n h = elim (Bool-cases (str_eq uri u)) [
  | inl e ↦ (0, ground (arith, rw e at h), ap some (sym ((str_eq_iff uri u).0 e)))
  | inr e ↦ let (i, p, q) = find_uri-found us uri (suc k) n (rw e at h) in (suc i, omega (arith), q)
]

find_socket-found :
    (us ps : QStringList) (uri proto : QString) (k n : ℕ)
    → find_socket us ps uri proto k ≡ some n
    → (i : ℕ) × (n ≡ i + k)
      × (u : QString) × (get_elem? us i ≡ some u)
      × ((u ≡ uri) ⊎ (proto ≡ get_or ps n []))
unfolding find_socket
find_socket-found [] ps uri proto k n h = absurd (ground arith)
find_socket-found (u ∷ us) ps uri proto k n h = elim (Bool-cases (str_eq uri u)) [
  | inl e ↦ (0, ground (arith, rw e at h), u, refl, inl (sym ((str_eq_iff uri u).0 e)))
  | inr e ↦ elim (Bool-cases (str_eq proto (get_or ps k []))) [
    | inl f ↦
        let p : k ≡ n = ground (arith, rw (e, f) at h) in
        (
          0,
          omega arith,
          u,
          refl,
          inr (subst (λ j. proto ≡ get_or ps j []) p ((str_eq_iff proto _).0 f)),
        )
    | inr f ↦
        let (i, p, v, there, match) =
          find_socket-found us ps uri proto (suc k) n (rw (e, f) at h) in
        (suc i, omega arith, v, there, match)
  ]
]

module _ (qt : Library) where
  not_found-Handled : (s : Server) (c : Connection) → Handled s c (request_received qt c)
  unfolding request_received not_found
  not_found-Handled s c = Handled-Writes s c _ (send_error-Writes qt c 404 _ [] [])

  cgi_or_none-Handled :
      (s : Server) (c : Connection) (r : Option ℕ)
      → find_uri s.cgi_uris c.uri 0 ≡ r
      → Handled s c (cgi_or_none qt s c r).1
  unfolding cgi_or_none
  cgi_or_none-Handled s c none h = not_found-Handled s c
  cgi_or_none-Handled s c (some n) h =
      let (i, p, q) = find_uri-found s.cgi_uris c.uri 0 n h in
      send_cgi_source-Handled qt s c n
        (subst (λ j. get_elem? s.cgi_uris j ≡ some c.uri) (omega arith) q)

  page_answer-Handled :
      (s : Server) (files : QString → File) (c : Connection) (r : Option ℕ)
      → Handled s c (page_answer qt s files c r).1
  unfolding page_answer
  page_answer-Handled s files c none = cgi_or_none-Handled s c _ refl
  page_answer-Handled s files c (some n) = send_static_source-Handled qt s files c n

  socket_answer-Handled :
      (s : Server) (c : Connection) (r : Option ℕ)
      → find_socket s.socket_uris s.socket_protocols c.uri c.sub_protocol 0 ≡ r
      → Handled s c (socket_answer qt s c r).1
  unfolding socket_answer
  socket_answer-Handled s c none h = not_found-Handled s c
  socket_answer-Handled s c (some n) h =
      let (i, p, uri, there, match) =
        find_socket-found s.socket_uris s.socket_protocols c.uri c.sub_protocol 0 n h in
      start_websocket-Handled qt s c n
        (uri, subst (λ j. get_elem? s.socket_uris j ≡ some uri) (omega arith) there, match)

  pub process_request-Handled :
      (s : Server) (files : QString → File) (c : Connection)
      → Handled s c (process_request qt s files c).1
  unfolding process_request
  process_request-Handled s files c =
      elim (Bool-cases (str_eq (qt.to_lower c.upgrade) (lit "websocket"))) [
        | inl e ↦ rw e (socket_answer-Handled s c _ refl)
        | inr e ↦ rw e (page_answer-Handled s files c _)
      ]

  -- `ProcessRequest` adds calls that are all permitted: bytes written to the socket, the start of the
  -- CGI program of a source whose URI the request names and whose realm is open to its credentials,
  -- or the opening of a WebSocket of a source that the server has, whose URI or protocol the request
  -- names and whose realm is likewise open. A realm is open if it has no name or a user of it has the name and password.
  pub process_request-Permitted :
      (s : Server) (files : QString → File) (c : Connection)
      → (more : List Call) × ((process_request qt s files c).1.calls ≡ c.calls ++ more)
        × All (Permitted s c) more
  process_request-Permitted s files c =
      let h = process_request-Handled s files c in (h.more, ap (λ d. d.calls) h.result, h.permitted)
