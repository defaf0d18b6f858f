-- ===== src/Tests/Reading.antt =====
-- Reads of the same bytes in different segments, and the theorems at these.
use python_json_socket.Prelude.{◌+◌, ◌≡◌, ◌↔◌, refl, List, [], ◌∷◌, ◌++◌, none, some, take, drop}
use python_json_socket.Framing.Bytes.{of_be32}
use python_json_socket.Framing.Crc.{crc32}
use python_json_socket.Codec.{null}
use python_json_socket.Os.{Recv, segment, timed_out}
use python_json_socket.JsonSocket.{ok}
use python_json_socket.JsonSocket.Message.{read_obj}
use python_json_socket.JsonSocket.Read.Volume.{Takes}
use python_json_socket.JsonSocket.Message.Bounded.{read_obj-Takes}
use python_json_socket.Exchange.{read_all}
use python_json_socket.JsonSocket.Message.Spec.Messages.{
  ReadsAll, messages, read_all-messages, read_all-segments,
}
use python_json_socket.Tests.{null_codec, client_with, null_frame}

-- Two frames, cut in the payload of the first, and then nothing in time; or all at once.
abbrev cut_frames : List Recv
cut_frames =
    segment (take 14 null_frame) ∷ segment (drop 14 null_frame ++ null_frame) ∷ timed_out ∷ []

abbrev whole_frames : List Recv
whole_frames = segment (null_frame ++ null_frame) ∷ []

read_all-messages_example :
    ReadsAll 0
      (messages null_codec (some 10485760) 2 (null_frame ++ null_frame))
      (read_all null_codec 2 (client_with cut_frames))
read_all-messages_example =
    read_all-messages null_codec 0 (some 10485760) 2 (null_frame ++ null_frame)
      (client_with cut_frames) refl refl refl
      (record { is_conn = refl; is_open = refl; stream = refl })

read_all-segments_example :
    ((read_all null_codec 2 (client_with cut_frames)).0 ≡ ok (null ∷ null ∷ []))
    ↔ ((read_all null_codec 2 (client_with whole_frames)).0 ≡ ok (null ∷ null ∷ []))
read_all-segments_example =
    read_all-segments null_codec 2 0 0 (null_frame ++ null_frame) (client_with cut_frames)
      (client_with whole_frames) (null ∷ null ∷ []) refl refl refl refl refl
      (record { is_conn = refl; is_open = refl; stream = refl })
      (record { is_conn = refl; is_open = refl; stream = refl })

-- There are two messages, and not three.
two_messages :
    messages null_codec (some 10485760) 2 (null_frame ++ null_frame) ≡ some (null ∷ null ∷ [], [])
unfolding messages of_be32 crc32
two_messages = refl

no_third : messages null_codec (some 10485760) 3 (null_frame ++ null_frame) ≡ none
unfolding messages of_be32 crc32
no_third = refl

-- The limit is that of the object.
read_obj-Takes_example :
    Takes 0
      (12 + 10485760)
      (client_with cut_frames)
      (read_obj null_codec (client_with cut_frames)).1
read_obj-Takes_example =
    read_obj-Takes null_codec 0 10485760 (client_with cut_frames) refl refl
      (null_frame ++ null_frame) refl (record { is_conn = refl; is_open = refl; stream = refl })
