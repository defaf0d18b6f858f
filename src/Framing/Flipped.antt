-- ===== src/Framing/Flipped.antt =====
-- `x ^ 0xFFFFFFFF` is the complement of 32 bits.
use Prim.Native.Nat.{differ, digits, bit_xor-bitwise}
use python_json_socket.Prelude.{
  ℕ, zero, suc, ◌+◌, ◌-◌, ◌*◌, ◌/◌, ◌%◌, ◌^◌, ◌≤◌, ◌<◌, ◌≡◌, ◌≢◌, refl, ◌∙◌, arith, bit_xor,
}

-- The number of `k` ones.
ones : ℕ → ℕ
ones zero = 0
ones (suc k) = 2 * ones k + 1

differ_one : (x : ℕ) → x < 2 → differ x 1 ≡ 1 - x
differ_one zero h = refl
differ_one (suc zero) h = refl
differ_one (suc (suc x)) h = absurd (omega arith)

digits-ones : (k n a : ℕ) → a ≤ n → a ≤ ones k → digits (λ b. b) differ n a (ones k) ≡ ones k - a
unfolding ones
digits-ones k zero zero p q = omega arith
digits-ones k zero (suc a) p q = absurd (omega arith)
digits-ones k (suc n) zero p q = omega arith
digits-ones zero (suc n) (suc a) p q = absurd (omega arith)
digits-ones (suc k) (suc n) (suc a) p q =
    let half : (2 * ones k + 1) / 2 ≡ ones k = omega arith in
    let odd : (2 * ones k + 1) % 2 ≡ 1 = omega arith in
    rw (half, odd)
      (omega (
        arith,
        digits-ones k n (suc a / 2) (omega arith) (omega arith),
        differ_one (suc a % 2) (omega arith),
      ))

pub bit_xor-complement : (x : ℕ) → x < 2 ^ 32 → bit_xor x 0xFFFFFFFF ≡ 0xFFFFFFFF - x
unfolding ones
bit_xor-complement x h =
    bit_xor-bitwise x 0xFFFFFFFF ∙ digits-ones 32 x x (omega arith) (omega arith)

-- The complement is another number of 32 bits.
pub bit_xor-differs :
    (x : ℕ) → x < 2 ^ 32 → (bit_xor x 0xFFFFFFFF ≢ x) × (bit_xor x 0xFFFFFFFF < 2 ^ 32)
bit_xor-differs x h =
    (λ e. omega (arith, e, bit_xor-complement x h), omega (arith, bit_xor-complement x h))
