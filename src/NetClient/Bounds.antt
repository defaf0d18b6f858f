-- ===== src/NetClient/Bounds.antt =====
-- The sizes of what net_client.py draws.
use python_json_socket.Prelude.{
  ℕ, ◌+◌, ◌-◌, ◌*◌, ◌/◌, ◌≡◌, ◌≤◌, ◌<◌, Text, length, length-take, arith,
}
use python_json_socket.NetClient.{random_hex}

-- `secrets.randbelow(n)` is below `n`.
abbrev pub IsBelow : (ℕ → ℕ) → Type 0
IsBelow randbelow = (n : ℕ) → 0 < n → randbelow n < n

-- `randbelow(n)` is below `n`, `token_hex(n)` has two digits for each of `n` bytes, and the bounds are
-- in order: `random_hex` has as many digits as `min_len` and the number drawn below
-- `max_len - min_len + 1` together, at least `min_len` and at most `max_len`.
pub random_hex-bounds :
    (randbelow : ℕ → ℕ) (token_hex : ℕ → Text) (min_len max_len : ℕ)
    → IsBelow randbelow
    → ((n : ℕ) → length (token_hex n) ≡ 2 * n)
    → min_len ≤ max_len
    → (length (random_hex randbelow token_hex min_len max_len)
        ≡ randbelow (max_len - min_len + 1) + min_len)
      × (min_len ≤ length (random_hex randbelow token_hex min_len max_len))
      × (length (random_hex randbelow token_hex min_len max_len) ≤ max_len)
unfolding random_hex
random_hex-bounds randbelow token_hex min_len max_len below twice ordered =
    let size = randbelow (max_len - min_len + 1) + min_len in
    let e = length-take size (token_hex ((size + 1) / 2)) in
    let t = twice ((size + 1) / 2) in
    let b = below (max_len - min_len + 1) (omega arith) in omega (arith, e, t, b)
