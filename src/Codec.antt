-- ===== src/Codec.antt =====
-- The values that messages carry, and what jsocket_base.py takes from `json` and `str`: the four
-- conversions of `send_obj` and `read_obj`, as an interface with the law that the code relies on.
use python_json_socket.Prelude.{ℕ, Bool, Text, ◌≡◌, List, Option, some, All}
use python_json_socket.Framing.Bytes.{IsByte}

-- A decoded JSON value. A float is its `repr`.
mutual
  pub data Value : Type 0 where
    null : Value
    bool : Bool → Value
    nonneg : ℕ → Value
    negative : ℕ → Value
    float : Text → Value
    str : Text → Value
    list : Items → Value
    dict : Fields → Value

  pub data Items : Type 0 where
    nil : Items
    cons : Value → Items → Items

  pub data Fields : Type 0 where
    end : Fields
    field : Text → Value → Fields → Fields

pub record Codec : Type 0 where
  -- `json.dumps(obj, ensure_ascii=False)`; `none` is a `TypeError`.
  pub dumps : Value → Option Text
  -- `msg.encode('utf-8')`; `none` is a `UnicodeEncodeError` (a lone surrogate).
  pub encode : Text → Option (List ℕ)
  -- `data.decode('utf-8')`; `none` is a `UnicodeDecodeError`.
  pub decode : List ℕ → Option Text
  -- `json.loads(decoded)`; `none` is an exception.
  pub loads : Text → Option Value
  -- Whether that is a `JSONDecodeError`. It may be another one: a `ValueError` for an integer of too
  -- many digits, a `RecursionError` for a text that is nested too deeply.
  pub is_decode_error : Text → Bool

-- What is encoded is bytes and decodes to the same text; what is dumped loads to the same value.
pub record IsLossless (c : Codec) : Type 0 where
  pub decode-encode : (t : Text) (b : List ℕ) → c.encode t ≡ some b → c.decode b ≡ some t
  pub encode-bytes : (t : Text) (b : List ℕ) → c.encode t ≡ some b → All IsByte b
  pub loads-dumps : (v : Value) (t : Text) → c.dumps v ≡ some t → c.loads t ≡ some v
