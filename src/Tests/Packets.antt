-- ===== src/Tests/Packets.antt =====
-- Packets: the parser, the encoder and the replies.
use net_frame.Common.{
  ℕ, zero, suc, ◌+◌, ◌*◌, ◌≡◌, ◌≤◌, ◌<◌, ◌⊎◌, refl, Bool, true, false, none, some, List, [], ◌∷◌,
  ◌++◌, map, length, arith, ap,
}
use mathlib.Core.List.{append-nil}
use net_frame.Server.Bytes.{Bytes, codes, lookup}
use net_frame.Server.Packet.{HttpPacket, get, request, response, http_1_1}
use net_frame.Server.Parser.{
  Parser, requests, responses, cleared, StartLine, headers_complete, body, decode, new_packet,
}
use net_frame.Server.Parser.Fields.{
  Pieces, callbacks_of, put_all, at, reads_all, read_head, decode-reads_all,
}
use net_frame.Server.Parser.EmptyValue.{merge, decode-merge}
use net_frame.Server.Parser.Limits.{with_body, decode-bodies}
use net_frame.Server.Encoder.{HttpEncoder, new_encoder, uses_chunks}
use net_frame.Server.Encoder.TooLong.{decode-uses_chunks}
use net_frame.Server.Connection.{Connection, connected, Answer, wrote, again}
use net_frame.Server.Connection.Stream.{stream}
use net_frame.Server.Replies.Numbers.{has}
use net_frame.Server.Replies.Exchange.{Happening, receives, replies, writes, replied_of, happened}
use net_frame.Server.Replies.Wire.{
  send_encoded, ask_close, write_what_waits, is_live, never_fails, encoded_first, replies-stream,
}

abbrev parser : Parser
parser = record {
  url_max = 4096;
  body_max = 4;
  packet_list = [];
  current_packet = none;
  data_type = requests;
  head_info = cleared;
}

abbrev host_pieces : Pieces
host_pieces = record {
  first = codes "Ho";
  more = codes "st" ∷ [];
  values = codes "a" ∷ codes "b" ∷ [];
}

abbrev accept_pieces : Pieces
accept_pieces = record { first = codes "Accept"; more = []; values = codes "*" ∷ [] }

abbrev empty_pieces : Pieces
empty_pieces = record { first = codes "X"; more = []; values = [] }

abbrev get_line : StartLine
get_line = record { method = get; uri = none; status_code = 0; major = 1; minor = 1 }

decode-reads_all_example :
    decode
      (reads_all (codes "/") [] parser (host_pieces ∷ accept_pieces ∷ []) get_line)
      (at (codes "/") [] parser [] [] [])
    ≡ read_head (codes "/") [] parser get_line (put_all (host_pieces ∷ accept_pieces ∷ []) [])
decode-reads_all_example =
    decode-reads_all (codes "/") [] parser (host_pieces ∷ accept_pieces ∷ []) get_line
      (refl, refl, (refl, refl, tt))

decode-merge_example :
    decode
      (callbacks_of (empty_pieces ∷ accept_pieces ∷ []) ++ headers_complete get_line ∷ [])
      (at (codes "/") [] parser [] [] [])
    ≡ decode
        (callbacks_of (merge empty_pieces accept_pieces ∷ []) ++ headers_complete get_line ∷ [])
        (at (codes "/") [] parser [] [] [])
decode-merge_example =
    decode-merge (codes "/") [] parser empty_pieces accept_pieces [] [] [] []
      (headers_complete get_line ∷ []) refl

abbrev empty_request : HttpPacket
empty_request = new_packet (request get (codes "/"))

decode-bodies_example :
    decode (map body (codes "ab" ∷ codes "cde" ∷ [])) (with_body parser empty_request []) ≡ none
decode-bodies_example = decode-bodies (codes "ab" ∷ codes "cde" ∷ []) [] parser empty_request refl

abbrev small_chunks : HttpEncoder
small_chunks = record { data_type = some responses; chunked_threshold = 3; chunked_size = 2 }

abbrev answer : HttpPacket
answer = record {
  is_keep_alive = true;
  version = http_1_1;
  header_map = [];
  body = codes "abcde";
  kind = response (codes "OK") 200;
}

-- Two requests, of which the second asks to close; the second reply is given first, the connection writes
-- one byte, and then what waits.
abbrev open_connection : Connection
open_connection = record { state = connected; blobs = []; written = []; close_after_send = false }

-- The socket has no room while a reply is given.
abbrev numbered : ℕ → List ℕ × List Answer
numbered n = (n ∷ 7 ∷ [], again ∷ [])

never_fails-numbered : (n : ℕ) → never_fails (numbered n).1 ≡ true
never_fails-numbered n = refl

abbrev exchange : List (Happening (Bool × List Answer))
exchange =
    writes (true, wrote 1 ∷ again ∷ [])
    ∷ replies 0
    ∷ replies 1
    ∷ receives false
    ∷ receives true
    ∷ []

two_replied : (k : ℕ) → k < 2 → has k (replied_of exchange) ≡ true
two_replied k h = ground arith

replies-stream_example :
    let h = happened send_encoded ask_close write_what_waits numbered exchange open_connection in
    (stream h.connection ≡ encoded_first numbered h.send_no)
    × ((is_live h.connection.state ≡ false) ⊎ (2 ≤ h.send_no))
replies-stream_example =
    replies-stream numbered open_connection never_fails-numbered exchange 2 (refl, (refl, tt))
      two_replied

-- A body of more than a mebibyte.
unfoldable zeros : ℕ → Bytes
zeros zero = []
zeros (suc n) = 0 ∷ zeros n

length-zeros : (n : ℕ) → length (zeros n) ≡ n
unfolding zeros
length-zeros zero = refl
length-zeros (suc n) = ap suc (length-zeros n)

abbrev long_answer : HttpPacket
long_answer = record answer { body = zeros (1024 * 1024 + 1) }

abbrev new_parser : Parser
new_parser = record parser { body_max = 1024 * 1024 }

no_length : lookup (codes "content-length") [] ≡ none
unfolding lookup
no_length = refl

is_chunked : uses_chunks (new_encoder (some responses)) long_answer ≡ true
unfolding uses_chunks
is_chunked = ground (arith, no_length, length-zeros (1024 * 1024 + 1))

decode-uses_chunks_example :
    decode (map body (zeros (1024 * 1024 + 1) ∷ [])) (with_body new_parser answer []) ≡ none
decode-uses_chunks_example =
    decode-uses_chunks (some responses) long_answer answer new_parser (zeros (1024 * 1024 + 1) ∷ [])
      is_chunked refl (append-nil (zeros (1024 * 1024 + 1)))
