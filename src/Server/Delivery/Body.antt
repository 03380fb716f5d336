-- ===== src/Server/Delivery/Body.antt =====
-- The body of a request may come in any pieces.
use webhost.Base.{
  ℕ, ==_iff, ◌+◌, ◌-◌, ◌<◌, ◌≤◌, ◌≡◌, ap, ◌∙◌, false, List, [], ◌∷◌, ◌++◌, length, length-append,
  append_assoc, append-nil, take-all, drop-all, arith, ◌==◌, pos, sub_of_ℕ,
}
use webhost.Qt.{QString, QByteArray, Library}
use webhost.Connection.{Connection}
use webhost.Server.{Server, File}
use webhost.Server.Requests.{process_request}
use webhost.Server.Reading.{ready_read, read_body, read_count}
use webhost.Server.Delivery.{concat, deliver}

-- What is left of the body.
read_count-sub : (n k : ℕ) → k ≤ n → read_count (sub_of_ℕ (pos n) k) ≡ n - k
unfolding read_count
read_count-sub n k h = ground arith

nothing_left : (n k : ℕ) → k ≡ n → n - k ≡ 0
nothing_left n k h = omega arith

not_equal : (a b : ℕ) → a < b → (a == b) ≡ false
not_equal a b h = ground arith

module _ (qt : Library) (s : Server) (files : QString → File) where
  -- A piece that does not end the body is kept, and nothing else happens.
  ready_read-part :
      (c : Connection) (n : ℕ) (p : QByteArray)
      → c.parse_state ≡ 2
      → c.content_length ≡ pos n
      → length c.body + length p < n
      → ready_read qt s files c p ≡ (s, record c { body = c.body ++ p }, [])
  unfolding ready_read read_body read_count
  ready_read-part c n p st len h = rw (
    st,
    len,
    read_count-sub n (length c.body) (omega arith),
    take-all (n - length c.body) p (omega arith),
    drop-all (n - length c.body) p (omega arith),
    length-append c.body p,
    not_equal (length c.body + length p) n (omega arith),
  )

  ready_read-last :
      (c : Connection) (n : ℕ) (p : QByteArray)
      → c.parse_state ≡ 2
      → c.content_length ≡ pos n
      → length c.body + length p ≡ n
      → let (s1, c1) = process_request qt s files (record c { body = c.body ++ p }) in
        ready_read qt s files c p ≡ (s1, c1, [])
  unfolding ready_read read_body read_count
  ready_read-last c n p st len h = rw (
    st,
    len,
    read_count-sub n (length c.body) (omega arith),
    take-all (n - length c.body) p (omega arith),
    drop-all (n - length c.body) p (omega arith),
    length-append c.body p,
    (==_iff _ n).1 h,
  )

  -- At a complete body, `ReadBody` takes nothing and processes the request.
  pub ready_read-repeat :
      (c : Connection) (n : ℕ) (p : QByteArray)
      → c.parse_state ≡ 2
      → c.content_length ≡ pos n
      → length c.body ≡ n
      → let (s1, c1) = process_request qt s files c in ready_read qt s files c p ≡ (s1, c1, p)
  unfolding ready_read read_body read_count
  ready_read-repeat c n p st len h = rw (
    st,
    len,
    read_count-sub n (length c.body) (omega arith),
    nothing_left n (length c.body) h,
    append-nil c.body,
    (==_iff _ n).1 h,
  )

  -- What processing a request leaves, with nothing in the socket.
  abbrev pub processed : Connection → Server × Connection × QByteArray
  processed c = let (s1, c1) = process_request qt s files c in (s1, c1, [])

  -- A request whose headers are read and whose body comes in pieces is processed once, when the last
  -- piece comes, with the whole body: the pieces before the last leave the body short of the
  -- Content-Length, and the last one fills it. Nothing is left in the socket.
  pub deliver-body :
      (c : Connection) (n : ℕ) (ps : List QByteArray) (p : QByteArray)
      → c.parse_state ≡ 2
      → c.content_length ≡ pos n
      → length c.body + length (concat ps) < n
      → length c.body + length (concat ps) + length p ≡ n
      → deliver qt s files c [] (ps ++ p ∷ [])
        ≡ processed (record c { body = c.body ++ concat (ps ++ p ∷ []) })
  unfolding deliver
  deliver-body c n [] p st len h e = rw (append-nil p) (ready_read-last c n p st len (omega arith))
  deliver-body c n (q ∷ ps) p st len h e =
      ap (λ r. deliver qt r.0 files r.1 r.2 (ps ++ p ∷ []))
        (ready_read-part c n q st len (omega (arith, length-append q (concat ps))))
      ∙ deliver-body (record c { body = c.body ++ q }) n ps p st len
          (omega (arith, length-append q (concat ps), length-append c.body q))
          (omega (arith, length-append q (concat ps), length-append c.body q))
      ∙ ap (λ b. processed (record c { body = b })) (append_assoc c.body q (concat (ps ++ p ∷ [])))
