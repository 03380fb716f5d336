-- ===== src/Server/Delivery/Headers.antt =====
-- The headers of a request may come in any pieces.
use webhost.Base.{
  ℕ, ◌≡◌, refl, sym, ap, ◌∙◌, subst, List, [], ◌∷◌, ◌++◌, Option, none, some, ◌==◌, Bool-cases, inl,
  inr, arith, append-nil, append_assoc,
}
use webhost.Qt.{QString, QByteArray, add_byte, buffered_lines, unread, Library}
use webhost.Connection.{Connection}
use webhost.Server.{Server, File}
use webhost.Server.Reading.{
  ready_read, read_headers, read_header_lines, header_line, next_header, headers_end, refused,
  request_complete,
}
use webhost.Server.Dispatch.{ready_read-1}
use webhost.Server.Delivery.{concat, deliver}
use webhost.Server.Delivery.Steps.{core, Keeps, StepKeeps, header_line-Keeps}

add_byte-append :
    (c : ℕ) (p q : List QByteArray × QByteArray) (b : QByteArray)
    → q ≡ buffered_lines (p.1 ++ b)
    → add_byte c (p.0 ++ q.0, q.1)
      ≡ let r = add_byte c p in let t = buffered_lines (r.1 ++ b) in (r.0 ++ t.0, t.1)
unfolding buffered_lines
add_byte-append c ([], rest) ([], rest2) b h = elim (Bool-cases (c == 10)) [
  | inl e ↦ rw (e, ← h)
  | inr e ↦ rw (e, ← h) rw e
]
add_byte-append c ([], rest) (m ∷ ms, rest2) b h = elim (Bool-cases (c == 10)) [
  | inl e ↦ rw (e, ← h)
  | inr e ↦ rw (e, ← h) rw e
]
add_byte-append c (l ∷ ls, rest) (ms, rest2) b h = elim (Bool-cases (c == 10)) [
  | inl e ↦ rw (e, ← h)
  | inr e ↦ rw (e, ← h)
]

-- The lines of two pieces are those of the first, and those of what it leaves with the second.
buffered_lines-append :
    (a b : QByteArray)
    → buffered_lines (a ++ b)
      ≡ let t = buffered_lines ((buffered_lines a).1 ++ b) in ((buffered_lines a).0 ++ t.0, t.1)
unfolding buffered_lines
buffered_lines-append [] b = refl
buffered_lines-append (x ∷ a) b =
    ap (add_byte x) (buffered_lines-append a b)
    ∙ add_byte-append x (buffered_lines a) (buffered_lines ((buffered_lines a).1 ++ b)) b refl

some_injective : (c d : Connection) → some c ≡ some d → c ≡ d
some_injective c d h = ap (λ o. elim o [ none ↦ c | some x ↦ x ]) h

module _ (qt : Library) where
  -- What header lines make of a connection, if none of them ends the headers or is refused.
  unfoldable pub after_lines : Connection → List QByteArray → Option Connection
  after_lines c [] = some c
  after_lines c (l ∷ ls) = elim (header_line qt c l) [
    | next_header c1 ↦ after_lines c1 ls
    | _ ↦ none
  ]

  after_lines-Keeps :
      (c d : Connection) (ls : List QByteArray) → after_lines c ls ≡ some d → Keeps c d
  unfolding after_lines
  after_lines-Keeps c d [] h = sym (ap core (some_injective c d h))
  after_lines-Keeps c d (l ∷ ls) h =
      (elim (header_line qt c l)
          as (λ r.
            StepKeeps c r
            → (elim r [ next_header c1 ↦ after_lines c1 ls | _ ↦ none ]) ≡ some d
            → Keeps c d) [
              | next_header c1 ↦ λ k e. after_lines-Keeps c1 d ls e ∙ k
              | headers_end c1 ↦ λ k e. absurd (ground arith)
              | refused c1 ↦ λ k e. absurd (ground arith)
            ])
        (header_line-Keeps qt c l) h

  after_lines-append :
      (c d : Connection) (ls ms : List QByteArray)
      → after_lines c (ls ++ ms) ≡ some d
      → (e : Connection) × (after_lines c ls ≡ some e) × (after_lines e ms ≡ some d)
  unfolding after_lines
  after_lines-append c d [] ms h = (c, refl, h)
  after_lines-append c d (l ∷ ls) ms h =
      (elim (header_line qt c l)
          as (λ r.
            (elim r [ next_header c1 ↦ after_lines c1 (ls ++ ms) | _ ↦ none ]) ≡ some d
            → (e : Connection) × ((elim r [ next_header c1 ↦ after_lines c1 ls | _ ↦ none ])
                ≡ some e)
              × (after_lines e ms ≡ some d)) [
                | next_header c1 ↦ λ e. after_lines-append c1 d ls ms e
                | headers_end c1 ↦ λ e. absurd (ground arith)
                | refused c1 ↦ λ e. absurd (ground arith)
              ])
        h

  module _ (s : Server) (files : QString → File) where
    read_header_lines-append :
        (c d : Connection) (ls ms : List QByteArray) (rest : QByteArray)
        → after_lines c ls ≡ some d
        → read_header_lines qt s files c (ls ++ ms) rest ≡ read_header_lines qt s files d ms rest
    unfolding after_lines read_header_lines
    read_header_lines-append c d [] ms rest h =
        ap (λ x. read_header_lines qt s files x ms rest) (some_injective c d h)
    read_header_lines-append c d (l ∷ ls) ms rest h =
        (elim (header_line qt c l)
            as (λ r.
              (elim r [ next_header c1 ↦ after_lines c1 ls | _ ↦ none ]) ≡ some d
              → (elim r [
                | next_header c1 ↦ read_header_lines qt s files c1 (ls ++ ms) rest
                | headers_end c1 ↦ request_complete qt s files c1 (unread (ls ++ ms) rest)
                | refused c1 ↦ (s, c1, unread (ls ++ ms) rest)
              ])
                ≡ read_header_lines qt s files d ms rest) [
                  | next_header c1 ↦ λ e. read_header_lines-append c1 d ls ms rest e
                  | headers_end c1 ↦ λ e. absurd (ground arith)
                  | refused c1 ↦ λ e. absurd (ground arith)
                ])
          h

    -- What a read does with header lines that all go on.
    read_headers-append :
        (c d : Connection) (a b : QByteArray)
        → after_lines c (buffered_lines a).0 ≡ some d
        → read_headers qt s files c (a ++ b) ≡ read_headers qt s files d ((buffered_lines a).1 ++ b)
    unfolding read_headers
    read_headers-append c d a b h =
        ap (λ p. read_header_lines qt s files c p.0 p.1) (buffered_lines-append a b)
        ∙ read_header_lines-append c d (buffered_lines a).0 _ _ h

    read_headers-held :
        (c d : Connection) (a : QByteArray)
        → after_lines c (buffered_lines a).0 ≡ some d
        → read_headers qt s files c a ≡ (s, d, (buffered_lines a).1)
    unfolding read_headers read_header_lines
    read_headers-held c d a h =
        ap (λ ls. read_header_lines qt s files c ls (buffered_lines a).1)
          (sym (append-nil (buffered_lines a).0))
        ∙ read_header_lines-append c d (buffered_lines a).0 [] _ h

    deliver-pieces :
        (c d : Connection) (held : QByteArray) (ps : List QByteArray) (p : QByteArray)
        → c.parse_state ≡ 1
        → after_lines c (buffered_lines (held ++ concat ps)).0 ≡ some d
        → deliver qt s files c held (ps ++ p ∷ [])
          ≡ ready_read qt s files c (held ++ (concat ps ++ p))
    unfolding deliver
    deliver-pieces c d held [] p st h = refl
    deliver-pieces c d held (q ∷ ps) p st h =
        let whole =
          subst (λ x. after_lines c (buffered_lines x).0 ≡ some d)
            (sym (append_assoc held q (concat ps))) h in
        let split' =
          subst (λ x. after_lines c x.0 ≡ some d) (buffered_lines-append (held ++ q) (concat ps))
            whole in
        let (e, first, second) = after_lines-append c d (buffered_lines (held ++ q)).0 _ split' in
        let st' = ap (λ x. x.0) (after_lines-Keeps c e _ first) ∙ st in
        ap (λ r. deliver qt r.0 files r.1 r.2 (ps ++ p ∷ []))
          (ready_read-1 qt s files c (held ++ q) st ∙ read_headers-held c e (held ++ q) first)
        ∙ deliver-pieces e d (buffered_lines (held ++ q)).1 ps p st' second
        ∙ ready_read-1 qt s files e _ st'
        ∙ sym (read_headers-append c e (held ++ q) (concat ps ++ p) first)
        ∙ sym (ready_read-1 qt s files c _ st)
        ∙ ap (ready_read qt s files c) (
            append_assoc held q (concat ps ++ p)
            ∙ ap (◌++◌ held) (sym (append_assoc q (concat ps) p)))

    -- Behind the request line, headers that come in pieces, cut at any byte, are read as if they came
    -- at once: the last piece leaves the server, the connection and the socket as the whole would. The
    -- lines that are complete before the last piece neither end the headers nor are refused.
    pub deliver-headers :
        (c d : Connection) (ps : List QByteArray) (p : QByteArray)
        → c.parse_state ≡ 1
        → after_lines c (buffered_lines (concat ps)).0 ≡ some d
        → deliver qt s files c [] (ps ++ p ∷ []) ≡ ready_read qt s files c (concat ps ++ p)
    deliver-headers c d ps p st h = deliver-pieces c d [] ps p st h
