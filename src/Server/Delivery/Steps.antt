-- ===== src/Server/Delivery/Steps.antt =====
-- What a header line (src/wh/whhttpserver.cpp, `ReadHeaders`) leaves as it is.
use webhost.Base.{
  ℕ, ◌≡◌, refl, Bool, true, false, List, [], ◌∷◌, ◌==◌, ◌&&◌, if◌then◌else◌, ℤ, Bool-cases, inl,
  inr,
}
use webhost.Qt.{QString, QByteArray, QStringList, is_empty, str_eq, lit, Library}
use webhost.Connection.{
  Connection, Method, Call, set_host, set_authorization, set_host_parts, set_authorization_parts,
  set_credentials,
}
use webhost.Connection.Writes.{Writes, send_error-Writes}
use webhost.Server.Reading.{
  HeaderStep, next_header, headers_end, refused, store_header, header_line, header_fields,
  end_headers, set_length, set_host_or_refuse,
}

-- How far a connection is in the protocol, its request line and its calls.
abbrev pub core : Connection → ℕ × Bool × Method × ℕ × ℕ × List Call
core c = (
  c.parse_state, c.websocket, c.method, c.major_protocol_version, c.minor_protocol_version, c.calls,
)

abbrev pub Keeps : Connection → Connection → Type 0
Keeps c d = core d ≡ core c

-- What a step keeps; one that refuses the request writes behind that.
abbrev pub StepKeeps : Connection → HeaderStep → Type 0
StepKeeps c (next_header d) = Keeps c d
StepKeeps c (headers_end d) = Keeps c d
StepKeeps c (refused d) = (e : Connection) × Keeps c e × Writes e d

if-StepKeeps :
    (c : Connection) (b : Bool) (x y : HeaderStep)
    → StepKeeps c x
    → StepKeeps c y
    → StepKeeps c (if b then x else y)
if-StepKeeps c true x y hx hy = hx
if-StepKeeps c false x y hx hy = hy

module _ (qt : Library) where
  set_host_parts-Keeps :
      (c d : Connection) (ps : QStringList) → Keeps c d → Keeps c (set_host_parts qt d ps).0
  unfolding set_host_parts
  set_host_parts-Keeps c d [] h = h
  set_host_parts-Keeps c d (a ∷ []) h = h
  set_host_parts-Keeps c d (a ∷ b ∷ []) h = h
  set_host_parts-Keeps c d (a ∷ b ∷ x ∷ ps) h = h

  set_host-Keeps : (c : Connection) (s : QString) → Keeps c (set_host qt c s).0
  unfolding set_host
  set_host-Keeps c s =
      set_host_parts-Keeps c (record c { socket_close_status = 1005 }) (qt.split s (lit ":")) refl

  set_host_or_refuse-Keeps :
      (c : Connection) (r : Connection × Bool) → Keeps c r.0 → StepKeeps c (set_host_or_refuse qt r)
  unfolding set_host_or_refuse
  set_host_or_refuse-Keeps c (d, true) h = h
  set_host_or_refuse-Keeps c (d, false) h = (d, h, send_error-Writes qt d 400 _ [] [])

  set_length-Keeps : (c : Connection) (r : ℤ × Bool) → StepKeeps c (set_length qt c r)
  unfolding set_length
  set_length-Keeps c (n, true) = refl
  set_length-Keeps c (n, false) = (c, refl, send_error-Writes qt c 400 _ [] [])

  set_credentials-Keeps : (c : Connection) (ps : QStringList) → Keeps c (set_credentials qt c ps).0
  unfolding set_credentials
  set_credentials-Keeps c [] = refl
  set_credentials-Keeps c (a ∷ []) = refl
  set_credentials-Keeps c (a ∷ b ∷ ps) = refl

  set_authorization_parts-Keeps :
      (c : Connection) (ps : QStringList) → Keeps c (set_authorization_parts qt c ps).0
  unfolding set_authorization_parts
  set_authorization_parts-Keeps c [] = refl
  set_authorization_parts-Keeps c (a ∷ []) = refl
  set_authorization_parts-Keeps c (a ∷ b ∷ []) =
      elim (Bool-cases (str_eq (qt.to_lower a) (lit "basic"))) [
        | inl e ↦ rw e (set_credentials-Keeps c _)
        | inr e ↦ rw e refl
      ]
  set_authorization_parts-Keeps c (a ∷ b ∷ x ∷ ps) = refl

  store_header-Keeps :
      (c : Connection) (hdr value : QString) → StepKeeps c (store_header qt c hdr value)
  unfolding store_header set_authorization
  store_header-Keeps c hdr value =
      if-StepKeeps c (str_eq hdr (lit "authorization")) _ _ (set_authorization_parts-Keeps c _) (
        if-StepKeeps c (str_eq hdr (lit "content-length")) _ _ (set_length-Keeps c _) (
          if-StepKeeps c (str_eq hdr (lit "content-type")) _ _ refl (
            if-StepKeeps c (str_eq hdr (lit "host")) _ _
              (set_host_or_refuse-Keeps c (set_host qt c value) (set_host-Keeps c value))
              (if-StepKeeps c (str_eq hdr (lit "referer")) _ _ refl (
                if-StepKeeps c (str_eq hdr (lit "sec-websocket-protocol")) _ _ refl (
                  if-StepKeeps c (str_eq hdr (lit "upgrade")) _ _ refl
                    (if-StepKeeps c (str_eq hdr (lit "user-agent")) _ _ refl refl)))))))

  end_or_skip :
      (c : Connection) (line : QString)
      → StepKeeps c (if is_empty line then end_headers qt c else next_header c)
  unfolding end_headers
  end_or_skip c line =
      if-StepKeeps c (is_empty line) _ _
        (if-StepKeeps c ((c.minor_protocol_version == 1) && (c.host_port == 0)) _ _
          (c, refl, send_error-Writes qt c 400 _ [] []) refl)
        refl

  header_fields-Keeps :
      (c : Connection) (line : QString) (fs : QStringList)
      → StepKeeps c (header_fields qt c line fs)
  unfolding header_fields end_headers
  header_fields-Keeps c line (n ∷ v ∷ vs) = store_header-Keeps c _ _
  header_fields-Keeps c line [] = end_or_skip c line
  header_fields-Keeps c line (n ∷ []) = end_or_skip c line

  pub header_line-Keeps : (c : Connection) (l : QByteArray) → StepKeeps c (header_line qt c l)
  unfolding header_line
  header_line-Keeps c l =
      let line = qt.trimmed (qt.from_ascii l) in
      header_fields-Keeps c line (qt.split line (lit ": "))
