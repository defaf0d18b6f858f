-- ===== src/NetServer/Report.antt =====
-- scripts/net_server.py: `format_stats`, line by line. What Python writes for a float (`.2f` of an
-- average or a duration, `str` of a timestamp) is an argument.
pub mod Sorted
use python_json_socket.Prelude.{
  ℕ, zero, suc, ◌+◌, Bool, true, false, List, [], ◌∷◌, ◌++◌, map, Option, none, some, Text, codes,
  ltb, leb, ◌==◌, if◌then◌else◌,
}
use python_json_socket.Dict.{Dict, lookup}
use python_json_socket.Stats.{ClientStats, size_or_zero}
use python_json_socket.Stats.Identity.{decimal}
use python_json_socket.Stats.Merge.{id_or}
use python_json_socket.Stats.Snapshot.{ClientSnapshot, Snapshot}

abbrev pub concat : List Text → Text
concat [] = []
concat (s ∷ more) = s ++ concat more

-- `"\n".join(lines)`
abbrev pub join_lines : List Text → Text
join_lines [] = []
join_lines (s ∷ []) = s
join_lines (s ∷ t ∷ more) = s ++ (10 ∷ join_lines (t ∷ more))

abbrev ansi : Text → Text
ansi code = 27 ∷ (codes "[" ++ (code ++ codes "m"))

abbrev color_of : ℕ → Text
color_of num =
    if num == 0
    then ansi (codes "32")
    else (if leb num 3 then ansi (codes "33") else ansi (codes "31"))

-- A count of failures is an `int`, so that `int(value)` returns.
unfoldable pub colorize : ℕ → Text
unfolding decimal
colorize num = color_of num ++ (decimal num ++ ansi (codes "0"))

-- Python's order of `str`: by code points, a prefix first.
unfoldable pub text_leb : Text → Text → Bool
text_leb [] t = true
text_leb (c ∷ s) [] = false
text_leb (c ∷ s) (d ∷ t) = if ltb c d then true else (if ltb d c then false else text_leb s t)

unfoldable pub insert_key : Text → List Text → List Text
unfolding text_leb
insert_key k [] = k ∷ []
insert_key k (j ∷ more) = if text_leb k j then k ∷ (j ∷ more) else j ∷ insert_key k more

-- `sorted(keys)`
unfoldable pub sorted : List Text → List Text
unfolding insert_key
sorted [] = []
sorted (k ∷ keys) = insert_key k (sorted keys)

abbrev pub keys {ℓ} : {V : Type ℓ} → Dict V → List Text
keys [] = []
keys ((k, v) ∷ d) = k ∷ keys d

abbrev str_bool : Bool → Text
str_bool true = codes "True"
str_bool false = codes "False"

module _ (str_ts : Option ℕ → Text) (two_decimals : ℕ × ℕ → Text) where
  abbrev count_line : Dict ℕ → Text → Text
  count_line failures kind = colorize (size_or_zero (lookup kind failures))

  -- The lines of one client.
  unfoldable pub client_lines : Text → ClientSnapshot → List Text
  unfolding colorize lookup
  client_lines client_id c =
      let s = c.stats in
      let failed = count_line s.failures in
      concat (codes "  client=" ∷ id_or s.client_id client_id ∷ [])
      ∷ concat (
          codes "    connected="
          ∷ str_bool s.connected
          ∷ codes " connects="
          ∷ decimal s.connects
          ∷ codes " disconnects="
          ∷ decimal s.disconnects
          ∷ [])
      ∷ concat (
          codes "    messages_in="
          ∷ decimal s.messages_in
          ∷ codes " messages_out="
          ∷ decimal s.messages_out
          ∷ [])
      ∷ concat (
          codes "    bytes_in="
          ∷ decimal s.bytes_in
          ∷ codes " bytes_out="
          ∷ decimal s.bytes_out
          ∷ [])
      ∷ concat (
          codes "    avg_payload_in="
          ∷ two_decimals c.avg_payload_in
          ∷ codes " avg_payload_out="
          ∷ two_decimals c.avg_payload_out
          ∷ [])
      ∷ concat (
          codes "    failures timeout="
          ∷ failed (codes "timeout")
          ∷ codes " bad_write="
          ∷ failed (codes "bad_write")
          ∷ codes " bad_crc="
          ∷ failed (codes "bad_crc")
          ∷ codes " bad_header="
          ∷ failed (codes "bad_header")
          ∷ [])
      ∷ concat (
          codes "    failures oversize="
          ∷ failed (codes "oversize")
          ∷ codes " invalid_utf8="
          ∷ failed (codes "invalid_utf8")
          ∷ codes " invalid_json="
          ∷ failed (codes "invalid_json")
          ∷ [])
      ∷ concat (
          codes "    failures handler="
          ∷ failed (codes "handler")
          ∷ codes " framing="
          ∷ failed (codes "framing")
          ∷ [])
      ∷ concat (
          codes "    last_connect_ts="
          ∷ str_ts s.last_connect_ts
          ∷ codes " last_disconnect_ts="
          ∷ str_ts s.last_disconnect_ts
          ∷ [])
      ∷ concat (
          codes "    last_message_ts="
          ∷ str_ts s.last_message_ts
          ∷ codes " connected_duration="
          ∷ two_decimals (c.connected_duration, 1)
          ∷ [])
      ∷ concat (
          codes "    total_connected_duration=" ∷ two_decimals (s.total_connected_duration, 1) ∷ [])
      ∷ []

  -- Every key is one of `clients`.
  abbrev pub found_lines : Text → Option ClientSnapshot → List Text
  found_lines client_id none = []
  found_lines client_id (some c) = client_lines client_id c

  abbrev pub all_lines : List Text → Dict ClientSnapshot → List Text
  all_lines [] clients = []
  all_lines (k ∷ ks) clients = found_lines k (lookup k clients) ++ all_lines ks clients

  abbrev pub body_lines : Dict ClientSnapshot → List Text
  body_lines [] = codes "  (no clients)" ∷ []
  body_lines (c ∷ clients) = all_lines (sorted (keys (c ∷ clients))) (c ∷ clients)

  abbrev pub report_lines : Snapshot → List Text
  report_lines s =
      concat (codes "client stats: connected_clients=" ∷ decimal s.connected_clients ∷ [])
      ∷ body_lines s.clients

  unfoldable pub format_stats : Snapshot → Text
  unfolding client_lines sorted
  format_stats s = join_lines (report_lines s)
