-- ===== src/Framing/Header.antt =====
-- `struct.pack` and `struct.unpack` with the format "!4sII". `none` is `struct.error`.
use mathlib.Core.Path.{subst, ap₂}
use mathlib.Core.Option.{some-injective}
use python_json_socket.Prelude.{
  ℕ, ◌^◌, ◌<◌, ◌&&◌, ◌≡◌, refl, ◌∙◌, List, [], ◌∷◌, ◌++◌, length, take, replicate, All, Option,
  none, some, arith, ltb, lt→ltb, if◌then◌else◌,
}
use python_json_socket.Framing.Bytes.{IsByte, be32, of_be32, of_be32-be32, of_be32-lt, be32-of_be32}

-- A `4s` field: cut, or filled with zero bytes.
abbrev pub field_4s : List ℕ → List ℕ
field_4s s = take 4 (s ++ replicate 4 0)

-- An `I` field takes only numbers below 2 ^ 32.
unfoldable pub pack_header : List ℕ → ℕ → ℕ → Option (List ℕ)
pack_header magic size checksum =
    if ltb size (2 ^ 32) && ltb checksum (2 ^ 32)
    then some (field_4s magic ++ be32 size ++ be32 checksum)
    else none

unfoldable pub unpack_header : List ℕ → Option (List ℕ × ℕ × ℕ)
unpack_header (m ∷ n ∷ o ∷ p ∷ a ∷ b ∷ c ∷ d ∷ e ∷ f ∷ g ∷ h ∷ []) =
    some (m ∷ n ∷ o ∷ p ∷ [], of_be32 a b c d, of_be32 e f g h)
unpack_header _ = none

-- Twelve bytes always unpack.
pub unpack_header-twelve :
    (header : List ℕ)
    → length header ≡ 12
    → (magic : List ℕ) × (size : ℕ) × (checksum : ℕ) × (unpack_header header
        ≡ some (magic, size, checksum))
unfolding unpack_header
unpack_header-twelve (m ∷ n ∷ o ∷ p ∷ a ∷ b ∷ c ∷ d ∷ e ∷ f ∷ g ∷ h ∷ []) q =
    (m ∷ n ∷ o ∷ p ∷ [], of_be32 a b c d, of_be32 e f g h, refl)
unpack_header-twelve _ q = absurd (omega arith)

pub pack_header_fits :
    (magic : List ℕ) (size checksum : ℕ)
    → size < 2 ^ 32
    → checksum < 2 ^ 32
    → pack_header magic size checksum ≡ some (field_4s magic ++ be32 size ++ be32 checksum)
unfolding pack_header
pack_header_fits magic size checksum hs hc =
    rw (lt→ltb size (2 ^ 32) hs, lt→ltb checksum (2 ^ 32) hc)

pub unpack_fields :
    (m n o p size checksum : ℕ)
    → size < 2 ^ 32
    → checksum < 2 ^ 32
    → unpack_header ((m ∷ n ∷ o ∷ p ∷ []) ++ be32 size ++ be32 checksum)
      ≡ some (m ∷ n ∷ o ∷ p ∷ [], size, checksum)
unfolding unpack_header be32
unpack_fields m n o p size checksum hs hc = rw (of_be32-be32 size hs, of_be32-be32 checksum hc)

-- What three unpacked fields say of the bytes that they came from.
abbrev PacksTo : List ℕ → List ℕ × ℕ × ℕ → Type 0
PacksTo header (magic, size, checksum) =
    (pack_header magic size checksum ≡ some header) × (size < 2 ^ 32) × (checksum < 2 ^ 32)

PacksTo-fields :
    (m n o p a b c d e f g h : ℕ)
    → All IsByte (m ∷ n ∷ o ∷ p ∷ a ∷ b ∷ c ∷ d ∷ e ∷ f ∷ g ∷ h ∷ [])
    → PacksTo
        (m ∷ n ∷ o ∷ p ∷ a ∷ b ∷ c ∷ d ∷ e ∷ f ∷ g ∷ h ∷ [])
        (m ∷ n ∷ o ∷ p ∷ [], of_be32 a b c d, of_be32 e f g h)
PacksTo-fields m n o p a b c d e f g h v =
    let size = of_be32 a b c d in
    let checksum = of_be32 e f g h in
    let bs = v.1.1.1.1 in
    let cs = bs.1.1.1.1 in
    let hs = of_be32-lt a b c d bs.0 bs.1.0 bs.1.1.0 bs.1.1.1.0 in
    let hc = of_be32-lt e f g h cs.0 cs.1.0 cs.1.1.0 cs.1.1.1.0 in
    (
      pack_header_fits (m ∷ n ∷ o ∷ p ∷ []) size checksum hs hc
          ∙ ap₂ (λ x y. some ((m ∷ n ∷ o ∷ p ∷ []) ++ x ++ y))
              (be32-of_be32 a b c d bs.0 bs.1.0 bs.1.1.0 bs.1.1.1.0)
              (be32-of_be32 e f g h cs.0 cs.1.0 cs.1.1.0 cs.1.1.1.0),
      hs,
      hc,
    )

-- Twelve bytes that unpack to three fields are what those fields pack to.
pub unpack-pack :
    (header magic : List ℕ) (size checksum : ℕ)
    → All IsByte header
    → unpack_header header ≡ some (magic, size, checksum)
    → (pack_header magic size checksum ≡ some header) × (size < 2 ^ 32) × (checksum < 2 ^ 32)
unfolding unpack_header
unpack-pack (m ∷ n ∷ o ∷ p ∷ a ∷ b ∷ c ∷ d ∷ e ∷ f ∷ g ∷ h ∷ []) magic size checksum v q =
    subst (PacksTo _) (some-injective _ _ q) (PacksTo-fields m n o p a b c d e f g h v)
unpack-pack _ magic size checksum v q = cc
