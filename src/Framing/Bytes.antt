-- ===== src/Framing/Bytes.antt =====
-- The `I` of a `struct` format with network order: four bytes, the highest first.
use python_json_socket.Prelude.{
  ℕ, ◌+◌, ◌*◌, ◌/◌, ◌%◌, ◌^◌, ◌<◌, ◌≡◌, refl, List, [], ◌∷◌, All, arith,
}

abbrev pub IsByte : ℕ → Type 0
IsByte b = b < 256

unfoldable pub be32 : ℕ → List ℕ
be32 n = (n / 16777216 % 256) ∷ (n / 65536 % 256) ∷ (n / 256 % 256) ∷ (n % 256) ∷ []

unfoldable pub of_be32 : ℕ → ℕ → ℕ → ℕ → ℕ
of_be32 a b c d = a * 16777216 + b * 65536 + c * 256 + d

pub be32-bytes : (n : ℕ) → All IsByte (be32 n)
unfolding be32
be32-bytes n = omega arith

pub of_be32-be32 :
    (n : ℕ)
    → n < 2 ^ 32
    → of_be32 (n / 16777216 % 256) (n / 65536 % 256) (n / 256 % 256) (n % 256) ≡ n
unfolding of_be32
of_be32-be32 n h = omega arith

pub of_be32-lt :
    (a b c d : ℕ) → IsByte a → IsByte b → IsByte c → IsByte d → of_be32 a b c d < 2 ^ 32
unfolding of_be32
of_be32-lt a b c d ha hb hc hd = omega arith

be32_digits :
    (a b c d : ℕ)
    → IsByte a
    → IsByte b
    → IsByte c
    → IsByte d
    → let n : ℕ = of_be32 a b c d in
      (n / 16777216 % 256 ≡ a) × (n / 65536 % 256 ≡ b) × (n / 256 % 256 ≡ c) × (n % 256 ≡ d)
unfolding of_be32
be32_digits a b c d ha hb hc hd = omega arith

pub be32-of_be32 :
    (a b c d : ℕ)
    → IsByte a
    → IsByte b
    → IsByte c
    → IsByte d
    → be32 (of_be32 a b c d) ≡ a ∷ b ∷ c ∷ d ∷ []
unfolding be32
be32-of_be32 a b c d ha hb hc hd =
    let e = be32_digits a b c d ha hb hc hd in rw (e.0, e.1, e.2, e.3)

be32_example : be32 0x01020304 ≡ 1 ∷ 2 ∷ 3 ∷ 4 ∷ []
unfolding be32
be32_example = refl
