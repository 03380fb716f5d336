-- ===== src/Server/Phases/Request.antt =====
-- The headers and the body of a request keep a connection consistent.
use webhost.Base.{
  ◌≡◌, refl, sym, subst, true, false, List, [], ◌∷◌, Bool-cases, ◌⊎◌, inl, inr, length, take, eq_ℤ,
  sub_of_ℕ,
}
use webhost.Qt.{QString, QByteArray, unread, Library}
use webhost.Connection.{Connection, is_get, append_body}
use webhost.Server.{Server, File}
use webhost.Server.Reading.{
  read_body, read_count, read_headers, read_header_lines, request_complete, header_line,
  next_header, headers_end, refused,
}
use webhost.Server.Access.Requests.{process_request-Handled}
use webhost.Server.Delivery.Steps.{Keeps, StepKeeps, header_line-Keeps}
use webhost.Server.Phases.{
  is_supported, IsConsistent, IsConsistent-stage, stage-Writes, IsRequest, IsConsistent-Handled,
}

module _ (qt : Library) (s : Server) (files : QString → File) where
  pub read_body-IsConsistent :
      (c : Connection) (a : QByteArray) → IsRequest c → IsConsistent (read_body qt s files c a).1
  unfolding read_body
  read_body-IsConsistent c a r =
      let n = read_count (sub_of_ℕ c.content_length (length c.body)) in
      let c1 = append_body c (take n a) in
      elim (Bool-cases (eq_ℤ (length c1.body) c.content_length)) [
        | inl e ↦ rw e (IsConsistent-Handled s c1 _ r (process_request-Handled qt s files c1))
        | inr e ↦ rw e (inr (inl r))
      ]

  request_complete-IsConsistent :
      (c : Connection) (a : QByteArray)
      → IsRequest c
      → IsConsistent (request_complete qt s files c a).1
  unfolding request_complete
  request_complete-IsConsistent c a r = elim (Bool-cases (is_get c.method)) [
    | inl e ↦ rw e (IsConsistent-Handled s c _ r (process_request-Handled qt s files c))
    | inr e ↦ rw e (read_body-IsConsistent (record c { parse_state = 2 }) a (inr refl, r.1, r.2))
  ]

  IsRequest-Keeps : (c d : Connection) → Keeps c d → IsRequest c → IsRequest d
  IsRequest-Keeps c d k r =
      subst (λ x. ((x.0 ≡ 1) ⊎ (x.0 ≡ 2)) × (x.1 ≡ false) × (is_supported x.2 x.3 x.4 ≡ true))
        (sym k) r

  read_header_lines-IsConsistent :
      (c : Connection) (ls : List QByteArray) (rest : QByteArray)
      → IsRequest c
      → IsConsistent (read_header_lines qt s files c ls rest).1
  unfolding read_header_lines
  read_header_lines-IsConsistent c [] rest r = inr (inl r)
  read_header_lines-IsConsistent c (l ∷ ls) rest r =
      (elim (header_line qt c l)
          as (λ h.
            StepKeeps c h
            → IsConsistent
                (elim h as (λ _. Server × Connection × QByteArray) [
                  | next_header c1 ↦ read_header_lines qt s files c1 ls rest
                  | headers_end c1 ↦ request_complete qt s files c1 (unread ls rest)
                  | refused c1 ↦ (s, c1, unread ls rest)
                ]).1) [
                  | next_header c1 ↦
                      λ k. read_header_lines-IsConsistent c1 ls rest (IsRequest-Keeps c c1 k r)
                  | headers_end c1 ↦
                      λ k. request_complete-IsConsistent c1 _ (IsRequest-Keeps c c1 k r)
                  | refused c1 ↦ λ k.
                      IsConsistent-stage k.0 c1 (stage-Writes k.0 c1 k.2)
                        (inr (inl (IsRequest-Keeps c k.0 k.1 r)))
                ])
        (header_line-Keeps qt c l)

  pub read_headers-IsConsistent :
      (c : Connection) (a : QByteArray) → IsRequest c → IsConsistent (read_headers qt s files c a).1
  unfolding read_headers
  read_headers-IsConsistent c a r = read_header_lines-IsConsistent c _ _ r
