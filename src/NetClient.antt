-- ===== src/NetClient.antt =====
-- scripts/net_client.py: what the client draws, what it sends and what it looks for in a response.
-- `secrets.randbelow`, the index of `secrets.choice` and the text of `secrets.token_hex` are
-- arguments, and so is what `json.loads` makes of `--message`: a value, or a `JSONDecodeError`. A
-- message for which it raises something else ends the client before it sends, and is left out.
pub mod Bounds
pub mod Echoed
pub mod Sending
pub mod Modes
use python_json_socket.Prelude.{
  ℕ, zero, suc, ◌+◌, ◌-◌, ◌/◌, ◌≡◌, ◌<◌, Bool, true, false, List, [], ◌∷◌, Option, none, some, Text,
  codes, text_eq, length, take, replicate, leb, ◌==◌, if◌then◌else◌,
}
use python_json_socket.Codec.{Value, null, nonneg, str, dict, Fields, end, field}
use python_json_socket.Stats.Identity.{get_field}
use python_json_socket.NetServer.{or_null}

-- `randbelow` is `secrets.randbelow`. The script calls `random_hex` with its default bounds only, 4 and
-- 64; with bounds out of order `secrets.randbelow` raises a `ValueError`.
unfoldable pub random_hex : (ℕ → ℕ) → (ℕ → Text) → ℕ → ℕ → Text
random_hex randbelow token_hex min_len max_len =
    let size = randbelow (max_len - min_len + 1) + min_len in take size (token_hex ((size + 1) / 2))

unfoldable pub random_pad_size : (ℕ → ℕ) → ℕ → ℕ → ℕ
random_pad_size randbelow min_len max_len =
    if leb max_len min_len then min_len else randbelow (max_len - min_len + 1) + min_len

abbrev pub perf_pad_ranges : List (ℕ × ℕ)
perf_pad_ranges =
    (0, 0)
    ∷ (8, 64)
    ∷ (64, 256)
    ∷ (256, 1024)
    ∷ (1024, 4096)
    ∷ (4096, 16384)
    ∷ (16384, 65536)
    ∷ (65536, 131072)
    ∷ []

abbrev pub adaptive_slow_pad_range : ℕ × ℕ
adaptive_slow_pad_range = (0, 256)

abbrev pub adaptive_burst_pad_range : ℕ × ℕ
adaptive_burst_pad_range = (0, 8192)

abbrev pub adaptive_large_pad_range : ℕ × ℕ
adaptive_large_pad_range = (65536, 262144)

-- `secrets.choice(ranges)` picks one by its index; no index is past the end.
unfoldable pub random_pad_from_ranges : (ℕ → ℕ) → List (ℕ × ℕ) → ℕ → ℕ
unfolding random_pad_size
random_pad_from_ranges randbelow [] index = 0
random_pad_from_ranges randbelow ((min_len, max_len) ∷ ranges) zero =
    random_pad_size randbelow min_len max_len
random_pad_from_ranges randbelow (range ∷ ranges) (suc index) =
    random_pad_from_ranges randbelow ranges index

unfoldable pub erase_field : Text → Fields → Fields
erase_field key end = end
erase_field key (field k v fields) =
    let rest = erase_field key fields in if text_eq k key then rest else field k v rest

-- `payload[key] = value`: in its place, or at the end. A dict has no second entry of the key.
unfoldable pub set_field : Text → Value → Fields → Fields
unfolding erase_field
set_field key value end = field key value end
set_field key value (field k v fields) =
    let rest = set_field key value fields in
    if text_eq k key then field k value (erase_field key fields) else field k v rest

-- `{"data": data}`, or the payload with the data in it.
abbrev pub with_data : Text → Value → Value
with_data content (dict fields) = dict (set_field (codes "data") (str content) fields)
with_data content payload =
    dict (field (codes "data") (str content) (field (codes "message") payload end))

-- A text that is no JSON is a message itself.
abbrev or_message : Text → Option Value → Value
or_message raw none = dict (field (codes "message") (str raw) end)
or_message raw (some payload) = payload

unfoldable pub payload_from_message : (Text → Option Value) → Option Text → Text → Value
unfolding set_field
payload_from_message loads none content = dict (field (codes "data") (str content) end)
payload_from_message loads (some raw) content = with_data content (or_message raw (loads raw))

-- `"x" * pad_size`, unless it is empty.
abbrev pad_field : ℕ → Fields
pad_field zero = end
pad_field (suc n) = field (codes "pad") (str (replicate (suc n) b'x')) end

unfoldable pub make_payload : ℕ → ℕ → Text → ℕ → Text → Value
make_payload client_id seq label pad_size content = dict (
    field (codes "client") (nonneg client_id) (
      field (codes "seq") (nonneg seq) (
        field (codes "label") (str label)
          (field (codes "data") (str content) (pad_field pad_size)))))

unfoldable pub extract_response_data : Value → Value
unfolding get_field
extract_response_data (dict fields) = or_null (get_field (codes "data") fields)
extract_response_data (str s) = str s
extract_response_data other = null
