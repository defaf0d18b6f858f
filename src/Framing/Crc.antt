-- ===== src/Framing/Crc.antt =====
-- `zlib.crc32`: the CRC-32 with the reflected polynomial 0xEDB88320, a bit at a time.
use python_json_socket.Prelude.{
  ℕ, zero, suc, ◌/◌, ◌%◌, List, [], ◌∷◌, ◌≡◌, refl, codes, bit_xor, ◌==◌, if◌then◌else◌,
}

-- One bit of the register.
crc_bit : ℕ → ℕ
crc_bit r = if r % 2 == 1 then bit_xor (r / 2) 0xEDB88320 else r / 2

crc_bits : ℕ → ℕ → ℕ
crc_bits zero r = r
crc_bits (suc k) r = crc_bits k (crc_bit r)

crc_bytes : ℕ → List ℕ → ℕ
crc_bytes r [] = r
crc_bytes r (b ∷ bs) = crc_bytes (crc_bits 8 (bit_xor r b)) bs

unfoldable pub crc32 : List ℕ → ℕ
unfolding crc_bytes crc_bits crc_bit
crc32 bs = bit_xor (crc_bytes 0xFFFFFFFF bs) 0xFFFFFFFF

-- The check value of the standard.
crc32_check_value : crc32 (codes "123456789") ≡ 0xCBF43926
unfolding crc32
crc32_check_value = refl

crc32_empty : crc32 [] ≡ 0
unfolding crc32
crc32_empty = refl
