-- ===== src/Base/Bits.antt =====
-- Bit fields of a machine word, in the form that `omega` reads at a numeral width, and the law of
-- exclusive or on bytes.
use Prim.Native.Nat.{ℕ, zero, suc, ◌/◌, ◌%◌, ◌^◌, ◌<◌, bit_xor}
use mathlib.Core.Path.{◌≡◌, refl}
use mathlib.Core.Bool.{Bool, true, false}
use native.Mathlib.Omega.{arith}
use webhost.Base.Tests.{◌==◌, ==_iff, if◌then◌else◌}

-- `x >> k`
abbrev pub shr : ℕ → ℕ → ℕ
shr x k = x / 2 ^ k

-- `x & (2^k - 1)`
abbrev pub low_bits : ℕ → ℕ → ℕ
low_bits x k = x % 2 ^ k

-- The keys below a number, each of which masks `x` and then unmasks it.
unmasks : ℕ → ℕ → Bool
unmasks x zero = true
unmasks x (suc key) = if bit_xor (bit_xor x key) key == x then unmasks x key else false

-- The values below a number, each of which all keys unmask.
unmasked : ℕ → Bool
unmasked zero = true
unmasked (suc x) = if unmasks x 256 then unmasked x else false

unmasks-lt : (x keys key : ℕ) → unmasks x keys ≡ true → key < keys → bit_xor (bit_xor x key) key ≡ x
unfolding unmasks
unmasks-lt x zero key h lt = absurd (omega arith)
unmasks-lt x (suc keys) key h lt =
    ground (arith, unmasks-lt x keys key, (==_iff (bit_xor (bit_xor x keys) keys) x).0)

unmasked-lt : (bound x : ℕ) → unmasked bound ≡ true → x < bound → unmasks x 256 ≡ true
unfolding unmasked
unmasked-lt zero x h lt = absurd (omega arith)
unmasked-lt (suc bound) x h lt = ground (arith, unmasked-lt bound x)

bytes_unmasked : unmasked 256 ≡ true
unfolding unmasked unmasks
bytes_unmasked = refl

-- A byte masked twice with the same byte is itself.
pub bit_xor_twice : (x k : ℕ) → x < 256 → k < 256 → bit_xor (bit_xor x k) k ≡ x
bit_xor_twice x k hx hk = unmasks-lt x 256 k (unmasked-lt 256 x bytes_unmasked hx) hk
