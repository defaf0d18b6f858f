-- ===== src/JsonSocket/Message/Framed.antt =====
-- `read_obj` on a stream that begins with a frame.
use python_json_socket.Prelude.{
  ℕ, ◌^◌, ◌≤◌, ◌<◌, ◌≡◌, refl, ap, ◌∙◌, true, false, List, ◌++◌, length, Option, none, some, Text,
  arith, ==_refl, text_eq_refl,
}
use python_json_socket.Framing.{frame_magic, frame_header_size, checksum_of}
use python_json_socket.Framing.Header.{unpack_header}
use python_json_socket.Framing.Frame.{header_bytes, length-header_bytes, unpack-header_bytes}
use python_json_socket.Codec.{Codec, Value}
use python_json_socket.Os.Halves.{Receives, Receives-trans}
use python_json_socket.JsonSocket.{
  State, JsonSocket, ok, bind-ok, or_raise, struct_error, pure, ◌>>=◌,
}
use python_json_socket.JsonSocket.Read.{read}
use python_json_socket.JsonSocket.Read.Exact.{HasStream, Returns, read-Returns}
use python_json_socket.JsonSocket.Message.{
  check_header, check_read_size, read_header, read_payload, decode_payload, read_obj,
}

-- A length that the limit lets through.
abbrev pub Fits : Option ℕ → ℕ → Type 0
Fits none size = Unit
Fits (some limit) size = size ≤ limit

check_read_size-Fits :
    (size : ℕ) (s : State) → Fits s.self.max_message_size size → check_read_size size s ≡ (ok tt, s)
check_read_size-Fits size s fits = ground arith

pub check_header-Fits :
    (size checksum : ℕ) (s : State)
    → Fits s.self.max_message_size size
    → check_header (frame_magic, size, checksum) s ≡ (ok (size, checksum), s)
check_header-Fits size checksum s fits = rw (text_eq_refl frame_magic) (
    bind-ok (check_read_size size) (λ _. pure (size, checksum)) s s tt
      (check_read_size-Fits size s fits))

-- What `read_obj` gives on a stream that begins with a frame.
pub record Delivers (c : Codec) (v : Value) (size h : ℕ) (rest : List ℕ) (s : State) : Type 0 where
  pub after : State
  pub result : read_obj c s ≡ (ok v, after)
  pub same_self : after.self ≡ record s.self { last_read_size = some size }
  pub has_rest : HasStream h after rest
  pub receives : Receives (s.os h) (after.os h)

decode_payload_good :
    (c : Codec) (payload : List ℕ) (t : Text) (v : Value) (s : State)
    → c.decode payload ≡ some t
    → c.loads t ≡ some v
    → decode_payload c (checksum_of payload) payload s ≡ (ok v, s)
decode_payload_good c payload t v s hd hl = ground (arith, ==_refl (checksum_of payload))

-- A header that says the length and the checksum of the payload.
abbrev pub Announces : List ℕ → List ℕ → Type 0
Announces header payload =
    (length header ≡ frame_header_size)
    × (unpack_header header ≡ some (frame_magic, length payload, checksum_of payload))

-- A header that announces a payload is read, whatever comes behind it.
pub read_header-Announces :
    (header payload behind : List ℕ) (h : ℕ) (s : State)
    → (r : Returns header behind h frame_header_size true s) → Announces header payload
    → Fits s.self.max_message_size (length payload)
    → read_header s ≡ (ok (length payload, checksum_of payload), r.after)
unfolding read_header
read_header-Announces header payload behind h s r (twelve, unpacked) fits =
    bind-ok (read frame_header_size true)
      (λ header. or_raise struct_error (unpack_header header) >>= check_header) s r.after header
      r.result
    ∙ bind-ok (or_raise struct_error (unpack_header header)) check_header r.after r.after
        (frame_magic, length payload, checksum_of payload)
        (ap (λ o. or_raise struct_error o r.after) unpacked)
    ∙ check_header-Fits (length payload) (checksum_of payload) r.after (rw r.same_self fits)

module _ (c : Codec) (header payload rest : List ℕ) (h : ℕ) (s : State) where
  noted : State → State
  noted t = record t { self = record t.self { last_read_size = some (length payload) } }

  read_payload-payload :
      (t : Text) (v : Value) (u : State)
      → c.decode payload ≡ some t
      → c.loads t ≡ some v
      → (r : Returns payload rest h (length payload) false (noted u))
      → read_payload c (length payload, checksum_of payload) u ≡ (ok v, r.after)
  unfolding noted
  read_payload-payload t v u hd hl r =
      bind-ok (read (length payload) false) (decode_payload c (checksum_of payload)) (noted u)
        r.after payload r.result
      ∙ decode_payload_good c payload t v r.after hd hl

  pub read_obj-announced :
      (t : Text) (v : Value)
      → Announces header payload
      → c.decode payload ≡ some t
      → c.loads t ≡ some v
      → Fits s.self.max_message_size (length payload)
      → HasStream h s (header ++ (payload ++ rest))
      → Delivers c v (length payload) h rest s
  unfolding read_obj noted
  read_obj-announced t v ann hd hl fits st =
      let first = read-Returns header (payload ++ rest) h frame_header_size true s ann.0 st in
      let left = first.has_rest in
      let st' : HasStream h (noted first.after) (payload ++ rest) = record {
        is_conn = left.is_conn;
        is_open = left.is_open;
        stream = left.stream;
      } in
      let second =
        read-Returns payload rest h (length payload) false (noted first.after) refl st' in
      record {
        after = second.after;
        result =
            bind-ok read_header (read_payload c) s first.after (length payload, checksum_of payload)
              (read_header-Announces header payload (payload ++ rest) h s first ann fits)
            ∙ read_payload-payload t v first.after hd hl second;
        same_self =
            second.same_self
            ∙ ap (λ (o : JsonSocket). record o { last_read_size = some (length payload) })
                first.same_self;
        has_rest = second.has_rest;
        receives =
            Receives-trans (s.os h) (first.after.os h) (second.after.os h) first.receives
              second.receives;
      }

pub read_obj-Delivers :
    (c : Codec) (payload rest : List ℕ) (h : ℕ) (s : State) (t : Text) (v : Value)
    → c.decode payload ≡ some t
    → c.loads t ≡ some v
    → length payload < 2 ^ 32
    → Fits s.self.max_message_size (length payload)
    → HasStream h s (header_bytes payload ++ (payload ++ rest))
    → Delivers c v (length payload) h rest s
read_obj-Delivers c payload rest h s t v hd hl small fits st =
    read_obj-announced c (header_bytes payload) payload rest h s t v
      (length-header_bytes payload, unpack-header_bytes payload small) hd hl fits st
