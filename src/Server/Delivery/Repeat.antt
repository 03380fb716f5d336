-- ===== src/Server/Delivery/Repeat.antt =====
-- What comes behind a body that is complete (src/wh/whhttpserver.cpp).
use webhost.Base.{
  ℕ, ◌+◌, ◌<◌, ◌≡◌, refl, ap, ◌∙◌, false, List, [], ◌∷◌, ◌++◌, length, length-append, arith, pos,
  Bool-cases, inl, inr,
}
use webhost.Qt.{QByteArray, QString, Library}
use webhost.Connection.{Connection}
use webhost.Server.{Server, File}
use webhost.Server.Requests.{process_request}
use webhost.Server.Access.Requests.{process_request-Handled}
use webhost.Server.Delivery.{concat, deliver}
use webhost.Server.Delivery.Body.{ready_read-repeat, deliver-body}

length-concat_snoc :
    (ps : List QByteArray) (p : QByteArray)
    → length (concat (ps ++ p ∷ [])) ≡ length (concat ps) + length p
length-concat_snoc [] p = omega (arith, length-append p [])
length-concat_snoc (q ∷ ps) p = omega (
  arith,
  length-append q (concat (ps ++ p ∷ [])),
  length-append q (concat ps),
  length-concat_snoc ps p,
)

module _ (qt : Library) (files : QString → File) where
  deliver-append :
      (ps qs : List QByteArray) (s : Server) (c : Connection) (held : QByteArray)
      → deliver qt s files c held (ps ++ qs)
        ≡ (let (s1, c1, held1) = deliver qt s files c held ps in deliver qt s1 files c1 held1 qs)
  unfolding deliver
  deliver-append [] qs s c held = refl
  deliver-append (p ∷ ps) qs s c held = deliver-append ps qs _ _ _

  -- A request that did not become a WebSocket leaves the state of its reading as it was.
  kept :
      (s : Server) (c : Connection)
      → (process_request qt s files c).1.websocket ≡ false
      → ((process_request qt s files c).1.parse_state ≡ c.parse_state)
        × ((process_request qt s files c).1.content_length ≡ c.content_length)
        × ((process_request qt s files c).1.body ≡ c.body)
  kept s c w =
      let h = process_request-Handled qt s files c in
      let d = (process_request qt s files c).1 in
      elim (Bool-cases h.switched) [
        | inl e ↦ absurd (cc (w, rw e at (ap (λ x. x.websocket) h.result)))
        | inr e ↦ (
          rw e at (ap (λ x. x.parse_state) h.result),
          ap (λ x. x.content_length) h.result,
          ap (λ x. x.body) h.result,
        )
      ]

  -- What processing a request twice leaves, with the bytes still in the socket.
  abbrev pub processed_again : Server → Connection → QByteArray → Server × Connection × QByteArray
  processed_again s c held =
      let (s1, c1) = process_request qt s files c in
      let (s2, c2) = process_request qt s1 files c1 in (s2, c2, held)

  -- A request whose headers are read and whose body comes in pieces, the last of which fills it, is
  -- processed again by the next bytes that come, whatever they are, unless it became a WebSocket: the
  -- server and the connection are as after two requests, and these bytes stay in the socket.
  pub deliver-processed_again :
      (s : Server) (c : Connection) (n : ℕ) (ps : List QByteArray) (p q : QByteArray)
      → c.parse_state ≡ 2
      → c.content_length ≡ pos n
      → length c.body + length (concat ps) < n
      → length c.body + length (concat ps) + length p ≡ n
      → (process_request qt s files
          (record c { body = c.body ++ concat (ps ++ p ∷ []) })).1.websocket
        ≡ false
      → deliver qt s files c [] ((ps ++ p ∷ []) ++ q ∷ [])
        ≡ processed_again s (record c { body = c.body ++ concat (ps ++ p ∷ []) }) q
  unfolding deliver
  deliver-processed_again s c n ps p q st len h e w =
      let whole : Connection = record c { body = c.body ++ concat (ps ++ p ∷ []) } in
      let done = process_request qt s files whole in
      let (state, size, body) = kept s whole w in
      deliver-append (ps ++ p ∷ []) (q ∷ []) s c []
      ∙ ap (λ r. deliver qt r.0 files r.1 r.2 (q ∷ []))
          (deliver-body qt s files c n ps p st len h e)
      ∙ ready_read-repeat qt done.0 files done.1 n q (state ∙ st) (size ∙ len) (
          omega (
            arith,
            ap length body,
            e,
            length-append c.body (concat (ps ++ p ∷ [])),
            length-concat_snoc ps p,
          ))
