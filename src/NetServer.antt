-- ===== src/NetServer.antt =====
-- scripts/net_server.py: the echo server. `EchoWorker` answers every message with its data.
pub mod Report
use python_json_socket.Prelude.{
  ℕ, zero, suc, ◌||◌, Bool, true, false, List, [], ◌∷◌, Option, none, some, Text, codes, text_eq,
  length, if◌then◌else◌,
}
use python_json_socket.Codec.{
  Value, null, bool, nonneg, negative, float, str, list, dict, Items, nil, cons, Fields, end, field,
}
use python_json_socket.JsonSocket.{ok}
use python_json_socket.Stats.{Now}
use python_json_socket.Stats.Identity.{get_field, normalize_client_id}
use python_json_socket.Serving.{Turn}

-- `obj.get(key)`, with `None` for a key that is missing.
abbrev pub or_null : Option Value → Value
or_null none = null
or_null (some v) = v

-- `bool(value)`
unfoldable pub is_true : Value → Bool
is_true null = false
is_true (bool b) = b
is_true (nonneg zero) = false
is_true (nonneg (suc n)) = true
is_true (negative n) = true
is_true (float s) = if text_eq s (codes "0.0") || text_eq s (codes "-0.0") then false else true
is_true (str []) = false
is_true (str (c ∷ s)) = true
is_true (list nil) = false
is_true (list (cons v items)) = true
is_true (dict end) = false
is_true (dict (field k v fields)) = true

-- `data`, `data_len` and `pad_len`
pub record Summary : Type 0 where
  pub content : Value
  pub data_len : ℕ
  pub pad_len : ℕ

-- `len(value) if isinstance(value, str) else 0`
abbrev pub text_length : Value → ℕ
text_length (str s) = length s
text_length other = 0

unfoldable pub summarize_payload : Value → Summary
unfolding get_field
summarize_payload (dict fields) =
    let content = or_null (get_field (codes "data") fields) in
    record {
      content = content;
      data_len = text_length content;
      pad_len = text_length (or_null (get_field (codes "pad") fields));
    }
summarize_payload (str s) = record { content = str s; data_len = length s; pad_len = 0 }
summarize_payload other = record { content = null; data_len = 0; pad_len = 0 }

-- `{"data": data}`
abbrev pub reply_of : Value → Value
reply_of content = dict (field (codes "data") content end)

module _ (repr : Value → Text) where
  -- `_normalize_client_id(client_id) if client_id is not None else None`
  abbrev pub normalized : Value → Option Text
  normalized null = none
  normalized value = normalize_client_id repr value

  -- `obj.get("client") or obj.get("client_id")`
  unfoldable pub client_of : Fields → Option Text
  unfolding get_field is_true normalize_client_id
  client_of fields =
      let client = or_null (get_field (codes "client") fields) in
      let client_id = or_null (get_field (codes "client_id") fields) in
      normalized (if is_true client then client else client_id)

  -- The id that `_process_message` sets, if it is not empty.
  abbrev pub identifies : Value → Option Text
  identifies (dict fields) = client_of fields
  identifies other = none

  -- `EchoWorker._process_message`, in a pass through the loop of its thread.
  unfoldable pub echo_turn : Now → Now → Turn
  unfolding client_of summarize_payload
  echo_turn at_read at_reply = record {
    at_read = at_read;
    at_reply = at_reply;
    process = λ obj. ok (some (reply_of (summarize_payload obj).content));
    identifies = identifies;
  }
