-- ===== src/Server/Table/Slots.antt =====
-- Places of connections: a new one disturbs no other, and each has its own number.
use webhost.Base.{
  ℕ, zero, suc, ◌+◌, ◌≡◌, ◌≢◌, refl, ap, ◌∙◌, subst, Bool, [], ◌∷◌, Option, none, some, ◌⊎◌, inl,
  inr, get_elem?, arith, Bool-cases,
}
use webhost.Connection.{Connection, new_connection}
use webhost.Server.Table.{Connections, take_slot, new_connection_data, garbage_from, garbage_data}

-- No connection stands at this place.
abbrev pub IsFree : Connections → ℕ → Type 0
IsFree t j = (get_elem? t j ≡ none) ⊎ (get_elem? t j ≡ some none)

-- Each connection has the number of its place, from `i` on.
abbrev pub IsNumbered : Connections → ℕ → Type 0
IsNumbered [] i = Unit
IsNumbered (none ∷ t) i = IsNumbered t (suc i)
IsNumbered (some c ∷ t) i = (c.id ≡ i) × IsNumbered t (suc i)

at_end : (x : Option Connection) (j : ℕ) → j ≢ 0 → get_elem? (x ∷ []) j ≡ none
at_end x zero h = absurd (h refl)
at_end x (suc j) h = refl

other_places :
    (x y : Option Connection) (t : Connections) (j : ℕ)
    → j ≢ 0
    → get_elem? (x ∷ t) j ≡ get_elem? (y ∷ t) j
other_places x y t zero h = absurd (h refl)
other_places x y t (suc j) h = refl

behind :
    (x : Option Connection) (s t : Connections) (k : ℕ)
    → ((j : ℕ) → j ≢ k → get_elem? s j ≡ get_elem? t j)
    → (j : ℕ) → j ≢ suc k
    → get_elem? (x ∷ s) j ≡ get_elem? (x ∷ t) j
behind x s t k others zero h = refl
behind x s t k others (suc j) h = others j (λ p. h (ap suc p))

take_slot-found :
    (t : Connections) (i u : ℕ)
    → (k : ℕ) × ((take_slot t i u).1 ≡ k + i)
      × IsFree t k
      × (get_elem? (take_slot t i u).0 k ≡ some (some (new_connection (take_slot t i u).1 u)))
      × ((j : ℕ) → j ≢ k → get_elem? (take_slot t i u).0 j ≡ get_elem? t j)
unfolding take_slot
take_slot-found [] i u = (0, omega arith, inl refl, refl, at_end _)
take_slot-found (none ∷ t) i u = (0, omega arith, inr refl, refl, other_places _ _ t)
take_slot-found (some c ∷ t) i u =
    let (k, e, free, at, others) = take_slot-found t (suc i) u in
    (suc k, omega arith, free, at, behind (some c) _ t k others)

-- `newConnectionData` puts the new connection at the place of its number, which was free, and leaves
-- every other place as it was.
pub new_connection_data-fresh :
    (t : Connections) (unset : ℕ)
    → let (t1, id) = new_connection_data t unset in
      IsFree t id
      × (get_elem? t1 id ≡ some (some (new_connection id unset)))
      × ((j : ℕ) → j ≢ id → get_elem? t1 j ≡ get_elem? t j)
unfolding new_connection_data
new_connection_data-fresh t unset =
    let (k, e, free, at, others) = take_slot-found t 0 unset in
    let p : k ≡ (take_slot t 0 unset).1 = omega arith in
    (
      subst (IsFree t) p free,
      subst
          (λ j.
            get_elem? (take_slot t 0 unset).0 j
            ≡ some (some (new_connection (take_slot t 0 unset).1 unset)))
          p at,
      λ j h. others j (λ q. h (q ∙ p)),
    )

take_slot-IsNumbered :
    (t : Connections) (i u : ℕ) → IsNumbered t i → IsNumbered (take_slot t i u).0 i
unfolding take_slot new_connection
take_slot-IsNumbered [] i u h = (refl, tt)
take_slot-IsNumbered (none ∷ t) i u h = (refl, h)
take_slot-IsNumbered (some c ∷ t) i u h = (h.0, take_slot-IsNumbered t (suc i) u h.1)

garbage_from-IsNumbered :
    (up : ℕ → Bool) (t : Connections) (i : ℕ) → IsNumbered t i → IsNumbered (garbage_from up t i) i
unfolding garbage_from
garbage_from-IsNumbered up [] i h = tt
garbage_from-IsNumbered up (none ∷ t) i h = garbage_from-IsNumbered up t (suc i) h
garbage_from-IsNumbered up (some c ∷ t) i h = elim (Bool-cases (up i)) [
  | inl e ↦ rw e (h.0, garbage_from-IsNumbered up t (suc i) h.1)
  | inr e ↦ rw e (garbage_from-IsNumbered up t (suc i) h.1)
]

-- A new connection and a collection of the closed ones keep the numbers right: if each connection
-- has the number of its place, it does so after either.
pub garbage_data-new_connection_data-IsNumbered :
    (up : ℕ → Bool) (t : Connections) (unset : ℕ)
    → IsNumbered t 0
    → IsNumbered (new_connection_data t unset).0 0 × IsNumbered (garbage_data up t) 0
unfolding new_connection_data garbage_data
garbage_data-new_connection_data-IsNumbered up t unset h =
    (take_slot-IsNumbered t 0 unset h, garbage_from-IsNumbered up t 0 h)
