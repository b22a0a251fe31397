-- ===== src/Server/Encoder.antt =====
-- The encoder of packets (src/packet/http_encoder.cc). An encoding is the bytes that `Encode` appends to
-- the blob; `none` is false, and also what is not an encoding: a loop over chunks that does not end, or
-- that goes back.
pub mod Chunked
pub mod TooLong
use Prim.Native.Nat.{◌%◌}
use Prim.Native.String.{String}
use net_frame.Common.{
  ℕ, zero, suc, ◌+◌, ◌-◌, ◌*◌, ◌/◌, Bool, true, false, not, ◌&&◌, ◌||◌, Option, none, some, List,
  [], ◌∷◌, ◌++◌, ltb, leb, if◌then◌else◌, length, is_some,
}
use net_frame.Server.Bytes.{Bytes, Headers, codes, is_empty, lookup}
use net_frame.Server.Packet.{
  HttpVersion, http_1_0, http_1_1, HttpMethod, unspecified, get, head, post, put_method, connect,
  patch, delete, other, Kind, request, response, HttpPacket,
}
use net_frame.Server.Parser.{DataType, requests, responses}
use net_frame.Server.Connection.{take, drop}

pub record HttpEncoder : Type 0 where
  pub data_type : Option DataType
  pub chunked_threshold : ℕ
  pub chunked_size : ℕ

-- The constructor's values.
abbrev pub new_encoder : Option DataType → HttpEncoder
new_encoder type = record {
  data_type = type;
  chunked_threshold = 1024 * 1024;
  chunked_size = 1024 * 64;
}

abbrev set_http_packet_type : DataType → HttpEncoder → HttpEncoder
set_http_packet_type type e = record e { data_type = some type }

abbrev set_chunked_threshold : ℕ → HttpEncoder → HttpEncoder
set_chunked_threshold threshold e = record e { chunked_threshold = threshold }

abbrev set_chunked_size : ℕ → HttpEncoder → HttpEncoder
set_chunked_size size e = record e { chunked_size = size }

abbrev pub crlf : Bytes
crlf = 13 ∷ 10 ∷ []

-- `stringstream << n`, and with `std::hex`.
abbrev pub digit : ℕ → ℕ
digit d = if ltb d 10 then 48 + d else 87 + d

unfoldable pub digits_from : ℕ → ℕ → ℕ → Bytes → Bytes
digits_from base zero n rest = rest
digits_from base (suc fuel) n rest =
    let more = digits_from base fuel (n / base) (digit (n % base) ∷ rest) in
    if ltb n base then digit n ∷ rest else more

abbrev pub decimal : ℕ → Bytes
decimal n = digits_from 10 (suc n) n []

abbrev pub hex : ℕ → Bytes
hex n = digits_from 16 (suc n) n []

abbrev pub has_header : String → Headers → Bool
has_header name m = is_some (lookup (codes name) m)

abbrev pub connection_line : HttpVersion → Bool → Headers → Bytes
connection_line http_1_0 keep_alive m =
    if keep_alive && not (has_header "connection" m)
    then codes "Connection: Keep-Alive" ++ crlf
    else []
connection_line http_1_1 keep_alive m =
    if not keep_alive && not (has_header "connection" m)
    then codes "Connection: Close" ++ crlf
    else []

abbrev pub header_lines : Headers → Bytes
header_lines [] = []
header_lines ((k, v) ∷ m) = (k ++ (codes ": " ++ (v ++ crlf))) ++ header_lines m

abbrev pub is_http_1_1 : HttpVersion → Bool
is_http_1_1 http_1_0 = false
is_http_1_1 http_1_1 = true

abbrev pub content_length : Bytes → Bytes
content_length body = codes "content-length: " ++ (decimal (length body) ++ crlf)

-- `useChunk`
unfoldable pub uses_chunks : HttpEncoder → HttpPacket → Bool
uses_chunks e p =
    not (has_header "content-length" p.header_map)
    && (ltb 0 e.chunked_size
        && (ltb e.chunked_threshold (length p.body) && (is_http_1_1 p.version && p.is_keep_alive)))

abbrev pub length_line : HttpEncoder → HttpPacket → Bytes
length_line e p =
    if has_header "content-length" p.header_map
    then []
    else (if uses_chunks e p
        then codes "transfer-encoding: chunked" ++ crlf
        else content_length p.body)

abbrev pub chunk : Bytes → Bytes
chunk payload = hex (length payload) ++ (crlf ++ (payload ++ crlf))

-- `int end = index + _ChunkedSize`, which wraps, and the test by which a negative `end` is too long.
abbrev pub chunk_end : ℕ → ℕ → ℕ → ℕ
chunk_end index size total =
    let e = (index + size) % 4294967296 in if leb 2147483648 e || ltb total e then total else e

abbrev pub put_chunk : Bytes → Option Bytes → Option Bytes
put_chunk payload none = none
put_chunk payload (some wire) = some (chunk payload ++ wire)

-- The loop over the chunks; `none` is that the fuel runs out, or that `end` is in front of `index`.
unfoldable pub chunks : ℕ → ℕ → Bytes → ℕ → Option Bytes
chunks zero size body index = none
chunks (suc fuel) size body index =
    let end = chunk_end index size (length body) in
    let rest = chunks fuel size body end in
    if ltb index (length body)
    then (if ltb end index then none else put_chunk (take (end - index) (drop index body)) rest)
    else some []

abbrev pub last_chunk : Bytes
last_chunk = codes "0" ++ (crlf ++ crlf)

abbrev pub end_chunks : Option Bytes → Option Bytes
end_chunks none = none
end_chunks (some wire) = some (wire ++ last_chunk)

unfoldable pub encode_body : HttpEncoder → HttpPacket → Option Bytes
unfolding uses_chunks chunks
encode_body e p =
    if is_empty p.body
    then some []
    else (if uses_chunks e p
        then end_chunks (chunks (suc (length p.body)) e.chunked_size p.body 0)
        else some p.body)

abbrev pub version_text : HttpVersion → Bytes
version_text http_1_0 = codes "HTTP/1.0"
version_text http_1_1 = codes "HTTP/1.1"

abbrev pub response_head : Bytes → ℕ → HttpEncoder → HttpPacket → Bytes
response_head status code e p =
    version_text p.version
    ++ (codes " "
        ++ (decimal code
            ++ (codes " "
                ++ (status
                    ++ (crlf
                        ++ (connection_line p.version p.is_keep_alive p.header_map
                            ++ (header_lines p.header_map ++ (length_line e p ++ crlf))))))))

abbrev pub put_before_body : Bytes → Option Bytes → Option Bytes
put_before_body start none = none
put_before_body start (some wire) = some (start ++ wire)

unfoldable pub encode_response : Bytes → ℕ → HttpEncoder → HttpPacket → Option Bytes
unfolding encode_body
encode_response status code e p =
    if is_empty status
    then none
    else put_before_body (response_head status code e p) (encode_body e p)

-- The name of a method in the start line, where it can be sent.
abbrev pub method_text : HttpMethod → Option Bytes
method_text get = some (codes "GET ")
method_text head = some (codes "HEAD ")
method_text post = some (codes "POST ")
method_text put_method = some (codes "PUT ")
method_text patch = some (codes "PATCH ")
method_text delete = some (codes "DELETE ")
method_text connect = none
method_text other = none
method_text unspecified = none

abbrev pub request_length : HttpPacket → Bytes
request_length p =
    if is_empty p.body || has_header "content-length" p.header_map
    then []
    else content_length p.body

abbrev pub request_head : Bytes → Bytes → HttpPacket → Bytes
request_head method uri p =
    method
    ++ (uri
        ++ (codes " "
            ++ (version_text p.version
                ++ (crlf
                    ++ (connection_line p.version p.is_keep_alive p.header_map
                        ++ (header_lines p.header_map ++ (request_length p ++ crlf)))))))

unfoldable pub encode_request : HttpMethod → Bytes → HttpPacket → Option Bytes
encode_request method uri p = elim (method_text method) [
  | none ↦ none
  | some text ↦ if is_empty uri then none else some (request_head text uri p ++ p.body)
]

-- A packet that is not of the encoder's type has no encoding here; the code does not look whether its cast
-- succeeded.
abbrev pub encode_as : Option DataType → Kind → HttpEncoder → HttpPacket → Option Bytes
encode_as none kind e p = none
encode_as (some requests) (request method uri) e p = encode_request method uri p
encode_as (some requests) (response status code) e p = none
encode_as (some responses) (request method uri) e p = none
encode_as (some responses) (response status code) e p = encode_response status code e p

unfoldable pub encode : HttpEncoder → HttpPacket → Option Bytes
unfolding encode_request encode_response
encode e p = encode_as e.data_type p.kind e p
