-- ===== src/Connection/Writes.antt =====
-- What the responses of src/wh/whhttpconnection.cpp do to a connection: they write, and no more.
use webhost.Base.{
  ℕ, ◌≡◌, refl, sym, ap, ◌∙◌, List, [], ◌∷◌, ◌++◌, map, append_assoc, append-nil, Bool-cases, inl,
  inr, ltb, length, ◌&&◌,
}
use webhost.Qt.{QString, QByteArray, QStringList, is_empty, Library}
use webhost.Connection.{Connection, socket_write, write}
use webhost.Connection.Response.{
  send_header, send_response_header, send_headers, send_response, send_error,
}

-- The second connection is the first after some writes to the socket.
abbrev pub Writes : Connection → Connection → Type 0
Writes c d = (w : List QByteArray) × (d ≡ record c { calls = c.calls ++ map socket_write w })

map-append :
    (w v : List QByteArray) → map socket_write (w ++ v) ≡ map socket_write w ++ map socket_write v
map-append [] v = refl
map-append (x ∷ w) v = ap (◌∷◌ (socket_write x)) (map-append w v)

pub Writes-none : (c : Connection) → Writes c c
Writes-none c = ([], ap (λ k. record c { calls = k }) (sym (append-nil c.calls)))

pub Writes-write : (c d : Connection) (b : QByteArray) → Writes c d → Writes c (write d b)
Writes-write c d b (w, p) = (
  w ++ b ∷ [],
  ap (λ x. write x b) p
      ∙ ap (λ k. record c { calls = k })
          (append_assoc c.calls _ _ ∙ ap (◌++◌ c.calls) (sym (map-append w (b ∷ [])))),
)

module _ (qt : Library) where
  pub send_header-Writes :
      (c d : Connection) (n v : QString) → Writes c d → Writes c (send_header qt d n v)
  unfolding send_header
  send_header-Writes c d n v h = elim (Bool-cases (is_empty n && is_empty v)) [
    | inl e ↦ rw e (Writes-write c d _ h)
    | inr e ↦ rw e (Writes-write c d _ h)
  ]

  pub send_response_header-Writes :
      (c d : Connection) (k : ℕ) (m : QString)
      → Writes c d
      → Writes c (send_response_header qt d k m)
  unfolding send_response_header
  send_response_header-Writes c d k m h =
      let h4 =
        send_header-Writes c _ _ _
          (send_header-Writes c _ _ _ (send_header-Writes c _ _ _ (Writes-write c d _ h))) in
      elim (Bool-cases (is_empty m)) [
        | inl e ↦ rw e h4
        | inr e ↦ rw e (send_header-Writes c _ _ _ h4)
      ]

  send_headers-Writes :
      (c d : Connection) (ns vs : QStringList) → Writes c d → Writes c (send_headers qt d ns vs)
  unfolding send_headers
  send_headers-Writes c d [] vs h = h
  send_headers-Writes c d (n ∷ ns) [] h = h
  send_headers-Writes c d (n ∷ ns) (v ∷ vs) h =
      send_headers-Writes c (send_header qt d n v) ns vs (send_header-Writes c d n v h)

  pub send_response-Writes :
      (c : Connection) (k : ℕ) (ns vs : QStringList) (b : QByteArray) (m : QString)
      → Writes c (send_response qt c k ns vs b m)
  unfolding send_response
  send_response-Writes c k ns vs b m =
      let h1 = send_response_header-Writes c c k m (Writes-none c) in
      elim (Bool-cases (ltb 0 (length b))) [
        | inl e ↦ rw e (
            Writes-write c _ _ (
              send_header-Writes c _ [] []
                (send_headers-Writes c _ ns vs (send_header-Writes c _ _ _ h1))))
        | inr e ↦
            rw e
              (Writes-write c _ _ (send_header-Writes c _ [] [] (send_headers-Writes c _ ns vs h1)))
      ]

  pub send_error-Writes :
      (c : Connection) (k : ℕ) (msg : QString) (ns vs : QStringList)
      → Writes c (send_error qt c k msg ns vs)
  unfolding send_error
  send_error-Writes c k msg ns vs = send_response-Writes c k ns vs _ _
