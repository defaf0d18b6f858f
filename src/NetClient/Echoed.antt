-- ===== src/NetClient/Echoed.antt =====
-- The echo server's reply to a payload of net_client.py carries the data that the payload has.
use python_json_socket.Prelude.{
  ℕ, zero, suc, ◌≡◌, refl, ap, Option, none, some, Text, codes, text_eq, text_eq_refl, Bool-cases,
  inl, inr,
}
use python_json_socket.Codec.{Value, str, dict, Fields, end, field}
use python_json_socket.Stats.Identity.{get_field}
use python_json_socket.NetServer.{summarize_payload, reply_of, or_null}
use python_json_socket.NetClient.{
  erase_field, set_field, or_message, with_data, payload_from_message, make_payload,
  extract_response_data,
}

get_field-erase_field :
    (key : Text) (fields : Fields) → get_field key (erase_field key fields) ≡ none
unfolding get_field erase_field
get_field-erase_field key end = refl
get_field-erase_field key (field k v fields) = elim (Bool-cases (text_eq k key)) [
  | inl same ↦ rw same (get_field-erase_field key fields)
  | inr other ↦ rw (other, get_field-erase_field key fields) (rw other refl)
]

get_field-set_field :
    (key : Text) (value : Value) (fields : Fields)
    → get_field key (set_field key value fields) ≡ some value
unfolding get_field set_field
get_field-set_field key value end = rw (text_eq_refl key) refl
get_field-set_field key value (field k v fields) = elim (Bool-cases (text_eq k key)) [
  | inl same ↦ rw (same, get_field-erase_field key fields) (rw same refl)
  | inr other ↦ rw (other, get_field-set_field key value fields) refl
]

-- What the client finds in the echo server's reply to the payload.
abbrev pub echo_of : Value → Value
echo_of payload = extract_response_data (reply_of (summarize_payload payload).content)

pub echo_of-make_payload :
    (client_id seq : ℕ) (label : Text) (pad_size : ℕ) (content : Text)
    → echo_of (make_payload client_id seq label pad_size content) ≡ str content
unfolding make_payload get_field text_eq summarize_payload extract_response_data
echo_of-make_payload client_id seq label zero content = refl
echo_of-make_payload client_id seq label (suc pad) content = refl

with_data-echo :
    (content : Text) (payload : Value) → echo_of (with_data content payload) ≡ str content
unfolding summarize_payload extract_response_data get_field text_eq
with_data-echo content (dict fields) =
    ap or_null (get_field-set_field (codes "data") (str content) fields)
with_data-echo content other = refl

-- Whatever the message is that the user gives (none, JSON of any kind, with or without data of its
-- own, or no JSON): the client finds the data that it drew in the echo server's reply.
pub echo_of-payload_from_message :
    (loads : Text → Option Value) (raw : Option Text) (content : Text)
    → echo_of (payload_from_message loads raw content) ≡ str content
unfolding payload_from_message summarize_payload extract_response_data get_field text_eq
echo_of-payload_from_message loads none content = refl
echo_of-payload_from_message loads (some raw) content =
    with_data-echo content (or_message raw (loads raw))
