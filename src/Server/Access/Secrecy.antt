-- ===== src/Server/Access/Secrecy.antt =====
-- What a request learns of the files of static sources.
use webhost.Base.{ℕ, ◌≡◌, refl, true, [], Option, none, some, Bool-cases, inl, inr, get_or}
use webhost.Qt.{QString, str_eq, lit, Library}
use webhost.Connection.{Connection}
use webhost.Server.{Server, File}
use webhost.Server.Sources.{send_static_source}
use webhost.Server.Requests.{find_uri, process_request, page_answer}
use webhost.Server.Access.{is_open}
use webhost.Server.Access.Sources.{authenticate_realm-open, authenticate_realm-closed}

-- Two contents of the disk agree on the static sources whose realm is open to the connection.
abbrev pub SameOpen : Server → Connection → (QString → File) → (QString → File) → Type 0
SameOpen s c f g =
    (i : ℕ)
    → is_open s c (get_or s.static_realms i []) ≡ true
    → f (get_or s.static_filenames i []) ≡ g (get_or s.static_filenames i [])

module _ (qt : Library) where
  send_static_source-SameOpen :
      (s : Server) (f g : QString → File) (c : Connection) (n : ℕ)
      → SameOpen s c f g
      → send_static_source qt s f c n ≡ send_static_source qt s g c n
  unfolding send_static_source
  send_static_source-SameOpen s f g c n same =
      elim (Bool-cases (is_open s c (get_or s.static_realms n []))) [
        | inl e ↦
            let (s1, p) = authenticate_realm-open qt s c (get_or s.static_realms n []) e in
            rw (p, same n e)
        | inr e ↦
            let (s1, d, w, p) = authenticate_realm-closed qt s c (get_or s.static_realms n []) e in
            rw p
      ]

  page_answer-SameOpen :
      (s : Server) (f g : QString → File) (c : Connection) (r : Option ℕ)
      → SameOpen s c f g
      → page_answer qt s f c r ≡ page_answer qt s g c r
  unfolding page_answer
  page_answer-SameOpen s f g c none same = refl
  page_answer-SameOpen s f g c (some n) same = send_static_source-SameOpen s f g c n same

  -- What `ProcessRequest` does is the same for two contents of the disk that agree on the files of
  -- the static sources whose realm is open to the credentials of the request: it reveals nothing of
  -- the others, not even whether they exist.
  pub process_request-SameOpen :
      (s : Server) (f g : QString → File) (c : Connection)
      → SameOpen s c f g
      → process_request qt s f c ≡ process_request qt s g c
  unfolding process_request
  process_request-SameOpen s f g c same =
      elim (Bool-cases (str_eq (qt.to_lower c.upgrade) (lit "websocket"))) [
        | inl e ↦ rw e
        | inr e ↦ rw e (page_answer-SameOpen s f g c (find_uri s.static_uris c.uri 0) same)
      ]
