-- ===== src/Server/Phases/RequestLine.antt =====
-- A request line is read, or refused.
use webhost.Base.{
  ℕ, ◌≡◌, refl, ap, ◌∙◌, Bool, true, false, not, ◌||◌, [], ◌∷◌, Bool-cases, inl, inr, ltb, ◌==◌,
  arith,
}
use webhost.Qt.{QString, QStringList, str_eq, lit, Library}
use webhost.Connection.{
  Connection, Method, none_method, get, post, head, put, delete, set_version_parts,
  set_protocol_version,
}
use webhost.Connection.Writes.{Writes, send_error-Writes}
use webhost.Server.{Server, File}
use webhost.Server.Reading.{
  request_fields, read_version, is_unset, malformed, not_implemented, method_named,
}
use webhost.Server.Phases.{
  is_supported, is_readable, IsConsistent, IsConsistent-stage, stage-Writes, IsRequest,
}

-- A request line that is read, or refused.
abbrev pub IsLineRead : Connection × Bool → Type 0
IsLineRead (d, true) = (d.parse_state ≡ 1) × IsRequest d
IsLineRead (d, false) = IsConsistent d

-- A connection that waits for its request line.
abbrev pub IsIdle : Connection → Type 0
IsIdle c = (c.parse_state ≡ 0) × (c.websocket ≡ false) × (is_readable c.method ≡ true)

refused-IsConsistent : (c d : Connection) → IsIdle c → Writes c d → IsConsistent d
refused-IsConsistent c d i w = IsConsistent-stage c d (stage-Writes c d w) (inl i)

is_supported-version :
    (m : Method) (major minor : ℕ)
    → is_readable m ≡ true
    → is_unset m ≡ false
    → (not (major == 1) || ltb 1 minor) ≡ false
    → is_supported m major minor ≡ true
is_supported-version none_method a b r u v = absurd (ground arith)
is_supported-version get a b r u v = ground arith
is_supported-version post a b r u v = ground arith
is_supported-version head a b r u v = ground arith
is_supported-version put a b r u v = absurd (ground arith)
is_supported-version delete a b r u v = absurd (ground arith)

module _ (qt : Library) (s : Server) (files : QString → File) where
  set_version_parts-Keeps :
      (c : Connection) (ps : QStringList)
      → let d = (set_version_parts qt c ps).0 in
        (d.parse_state ≡ c.parse_state) × (d.websocket ≡ c.websocket) × (d.method ≡ c.method)
  unfolding set_version_parts
  set_version_parts-Keeps c [] = (refl, refl, refl)
  set_version_parts-Keeps c (a ∷ []) = (refl, refl, refl)
  set_version_parts-Keeps c (a ∷ b ∷ []) = elim (Bool-cases (qt.to_int a).1) [
    | inl e ↦ rw e (refl, refl, refl)
    | inr e ↦ rw e (refl, refl, refl)
  ]
  set_version_parts-Keeps c (a ∷ b ∷ x ∷ ps) = (refl, refl, refl)

  read_version-IsLineRead :
      (c : Connection) (fs : QStringList)
      → IsIdle c
      → is_unset c.method ≡ false
      → IsLineRead (read_version qt c fs)
  unfolding read_version malformed set_protocol_version
  read_version-IsLineRead c [] i u = refused-IsConsistent c _ i (send_error-Writes qt c 400 _ [] [])
  read_version-IsLineRead c (a ∷ []) i u =
      refused-IsConsistent c _ i (send_error-Writes qt c 400 _ [] [])
  read_version-IsLineRead c (a ∷ b ∷ x ∷ fs) i u =
      refused-IsConsistent c _ i (send_error-Writes qt c 400 _ [] [])
  read_version-IsLineRead c (a ∷ b ∷ []) i u =
      let r = set_version_parts qt c (qt.split b (lit ".")) in
      let k = set_version_parts-Keeps c (qt.split b (lit ".")) in
      let j : IsIdle r.0 = (k.0 ∙ i.0, k.1 ∙ i.1, ap is_readable k.2 ∙ i.2) in
      elim (Bool-cases r.1) [
        | inr e ↦ rw e (refused-IsConsistent r.0 _ j (send_error-Writes qt r.0 400 _ [] []))
        | inl e ↦
            elim (Bool-cases
              (not (r.0.major_protocol_version == 1) || ltb 1 r.0.minor_protocol_version)) [
                | inl f ↦
                    rw (e, f) (refused-IsConsistent r.0 _ j (send_error-Writes qt r.0 505 _ [] []))
                | inr f ↦
                    rw (e, f)
                      (
                        refl,
                        (
                          inl refl,
                          j.1,
                          is_supported-version r.0.method _ _ j.2 (ap is_unset k.2 ∙ u) f,
                        ),
                      )
              ]
      ]

  is_readable-method_named :
      (m : Method) (name : QString)
      → is_readable m ≡ true
      → is_readable (method_named qt m name) ≡ true
  unfolding method_named
  is_readable-method_named m name h = elim (Bool-cases (str_eq name (lit "GET"))) [
    | inl e ↦ rw e
    | inr e ↦ elim (Bool-cases (str_eq name (lit "POST"))) [
      | inl f ↦ rw (e, f)
      | inr f ↦ elim (Bool-cases (str_eq name (lit "HEAD"))) [
        | inl g ↦ rw (e, f, g)
        | inr g ↦ rw (e, f, g) h
      ]
    ]
  ]

  pub request_fields-IsLineRead :
      (c : Connection) (fs : QStringList) → IsIdle c → IsLineRead (request_fields qt s c fs)
  unfolding request_fields not_implemented malformed
  request_fields-IsLineRead c [] i = refused-IsConsistent c _ i (send_error-Writes qt c 400 _ [] [])
  request_fields-IsLineRead c (a ∷ []) i =
      refused-IsConsistent c _ i (send_error-Writes qt c 400 _ [] [])
  request_fields-IsLineRead c (a ∷ b ∷ []) i =
      refused-IsConsistent c _ i (send_error-Writes qt c 400 _ [] [])
  request_fields-IsLineRead c (a ∷ b ∷ v ∷ x ∷ fs) i =
      refused-IsConsistent c _ i (send_error-Writes qt c 400 _ [] [])
  request_fields-IsLineRead c (a ∷ b ∷ v ∷ []) i =
      let c1 = record c { method = method_named qt c.method (qt.trimmed a) } in
      let named : IsIdle c1 = (i.0, i.1, is_readable-method_named c.method (qt.trimmed a) i.2) in
      elim (Bool-cases (is_unset c1.method)) [
        | inl e ↦ rw e (refused-IsConsistent c1 _ named (send_error-Writes qt c1 501 _ _ _))
        | inr e ↦ rw e (read_version-IsLineRead (record c1 { uri = qt.trimmed b }) _ named e)
      ]
