-- ===== src/WebSocket/Receive/Payload.antt =====
-- The loop of `ReadWebsocket` that takes the mask off a payload.
use webhost.Base.{
  ℕ, suc, ◌+◌, ◌%◌, ◌^◌, ◌<◌, ◌≡◌, ap, ◌∙◌, sym, [], ◌∷◌, ◌++◌, arith, length, get_elem?-append_mid,
  length-append, bit_xor, bit_xor_twice, All, append_assoc, append-nil,
}
use native.Mathlib.Nat.{mod-eq_of_lt}
use webhost.Qt.{QByteArray, Library}
use webhost.WebSocket.Frame.{masked}
use webhost.WebSocket.Message.{SocketMessage, append_payload}
use webhost.WebSocket.Receive.{byte_at, extract_payload}

abbrev pub IsByte : ℕ → Type 0
IsByte b = b < 256

module _ (qt : Library) where
  pub byte_at-append_mid :
      (front rest : QByteArray) (b i : ℕ) → i ≡ length front → byte_at qt (front ++ b ∷ rest) i ≡ b
  unfolding byte_at
  byte_at-append_mid front rest b i e = rw (get_elem?-append_mid front rest b i e, byte_at)

  module _ (key : ℕ → ℕ) (keys : (j : ℕ) → IsByte (key j)) (data' : QByteArray) (o : ℕ)
      (bound : length data' < 2 ^ 32)
      (mask : (j : ℕ) → j < 4 → byte_at qt data' (o + 2 + j) ≡ key j) where
    unmask_byte :
        (front rest : QByteArray) (b i : ℕ)
        → IsByte b
        → data' ≡ front ++ bit_xor b (key (i % 4)) ∷ rest
        → length front ≡ o + 6 + i
        → bit_xor
            (byte_at qt data' ((o + 6 + i) % 2 ^ 32))
            (byte_at qt data' ((o + 2 + i % 4) % 2 ^ 32))
          ≡ b
    unmask_byte front rest b i hb e f =
        let len = ap length e ∙ length-append front (bit_xor b (key (i % 4)) ∷ rest) in
        let below : o + 6 + i < 2 ^ 32 = omega arith in
        let low : o + 2 + i % 4 < 2 ^ 32 = omega arith in
        let place : byte_at qt data' (o + 6 + i) ≡ bit_xor b (key (i % 4)) =
          rw e (byte_at-append_mid front rest _ (o + 6 + i) (sym f)) in
        rw (mod-eq_of_lt below, place, mod-eq_of_lt low, mask (i % 4) (omega arith))
          (bit_xor_twice b (key (i % 4)) hb (keys (i % 4)))

    pub extract_payload-masked :
        (p front rest : QByteArray) (i : ℕ) (msg : SocketMessage)
        → All IsByte p
        → data' ≡ front ++ (masked key i p ++ rest)
        → length front ≡ o + 6 + i
        → extract_payload qt data' o (length p) i msg ≡ record msg { payload = msg.payload ++ p }
    unfolding extract_payload masked
    extract_payload-masked [] front rest i msg bs e f = rw append-nil
    extract_payload-masked (b ∷ p) front rest i msg bs e f =
        let front' = front ++ bit_xor b (key (i % 4)) ∷ [] in
        ap (λ x. extract_payload qt data' o (length p) (suc i) (append_payload msg x))
          (unmask_byte front (masked key (suc i) p ++ rest) b i bs.0 e f)
        ∙ extract_payload-masked p front' rest (suc i) (append_payload msg b) bs.1
            (rw append_assoc e)
            (omega (arith, length-append front (bit_xor b (key (i % 4)) ∷ []), f))
        ∙ rw append_assoc
