-- ===== src/Post/Host/Netmask.antt =====
-- Netmasks: the loops of `ReadIpConfig` (src/wh/whcgipost.cpp) that build one from its size, and the
-- loop of `Ip` (src/webhostd/ip.cpp) that counts its size.
use webhost.Base.{
  ◌*◌, ◌%◌, ℕ, zero, suc, ◌+◌, ◌-◌, ◌^◌, ◌<◌, ◌≤◌, ◌≡◌, refl, ap, ◌∙◌, inl, inr, Bool, true, false,
  ◌&&◌, if◌then◌else◌, ◌==◌, ==_iff, arith, min, ltb, Bool-cases,
}
use webhost.Qt.{ipv4}
use webhost.Daemon.Ip.{mask_size, count_ones}
use webhost.Post.Host.Settings.{shift_ones, shift_zeros, mask_of_size}

-- The sizes below a number have the mask that they should have, and it counts so many ones.
sizes_hold : ℕ → Bool
sizes_hold zero = true
sizes_hold (suc n) =
    if mask_of_size n == 2 ^ 32 - 2 ^ (32 - n) && mask_size (ipv4 (mask_of_size n)) == n
    then sizes_hold n
    else false

abbrev IsMask : ℕ → Type 0
IsMask n = (mask_of_size n ≡ 2 ^ 32 - 2 ^ (32 - n)) × (mask_size (ipv4 (mask_of_size n)) ≡ min n 32)

sizes_hold-lt :
    (bound n : ℕ)
    → sizes_hold bound ≡ true
    → n < bound
    → (mask_of_size n ≡ 2 ^ 32 - 2 ^ (32 - n)) × (mask_size (ipv4 (mask_of_size n)) ≡ n)
unfolding sizes_hold
sizes_hold-lt zero n h lt = absurd (omega arith)
sizes_hold-lt (suc bound) n h lt = ground (
  arith,
  sizes_hold-lt bound n,
  (==_iff (mask_of_size bound) (2 ^ 32 - 2 ^ (32 - bound))).0,
  (==_iff (mask_size (ipv4 (mask_of_size bound))) bound).0,
)

sizes_below : sizes_hold 33 ≡ true
unfolding sizes_hold mask_of_size shift_ones shift_zeros mask_size count_ones
sizes_below = refl

shift_ones-add : (m k x : ℕ) → shift_ones (m + k) x ≡ shift_ones k (shift_ones m x)
unfolding shift_ones
shift_ones-add zero k x = let e : 0 + k ≡ k = omega arith in ap (λ n. shift_ones n x) e
shift_ones-add (suc m) k x =
    let e : suc m + k ≡ suc (m + k) = omega arith in
    ap (λ n. shift_ones n x) e ∙ shift_ones-add m k ((x * 2 + 1) % 2 ^ 32)

shift_ones-full : (k : ℕ) → shift_ones k 4294967295 ≡ 4294967295
unfolding shift_ones
shift_ones-full zero = refl
shift_ones-full (suc k) = shift_ones-full k

-- Sizes that are too large give the mask of all ones.
mask_of_size-large : (k : ℕ) → mask_of_size (32 + k) ≡ 4294967295
unfolding mask_of_size shift_zeros shift_ones
mask_of_size-large k =
    let e : 32 - (32 + k) ≡ 0 = omega arith in
    ap (λ n. shift_zeros n (shift_ones (32 + k) 0)) e ∙ shift_ones-add 32 k 0 ∙ shift_ones-full k

large_IsMask : (n : ℕ) → 33 ≤ n → IsMask n
unfolding mask_size count_ones
large_IsMask n h =
    let e : n ≡ 32 + (n - 32) = omega arith in
    let full : mask_of_size n ≡ 4294967295 = ap mask_of_size e ∙ mask_of_size-large (n - 32) in
    let none_left : 32 - n ≡ 0 = omega arith in rw (full, none_left) (refl, omega arith)

-- The mask of a size is so many ones of 32 bits, from the highest on, and all 32 from 32 on; the
-- daemon counts that size in it.
pub mask_size-mask_of_size :
    (n : ℕ)
    → (mask_of_size n ≡ 2 ^ 32 - 2 ^ (32 - n)) × (mask_size (ipv4 (mask_of_size n)) ≡ min n 32)
mask_size-mask_of_size n = elim (Bool-cases (ltb n 33)) [
  | inl small ↦
      let (mask, size) = sizes_hold-lt 33 n sizes_below (ground arith) in
      (mask, size ∙ ground arith)
  | inr large ↦ large_IsMask n (ground arith)
]
