-- ===== src/Server/Encoder/Chunked.antt =====
-- The body that is sent in chunks (src/packet/http_encoder.cc, `EncodeResponse`), against the grammar of
-- RFC 7230, section 4.1.
use net_frame.Common.{
  ℕ, ◌+◌, ◌-◌, ◌*◌, ◌≡◌, ◌≢◌, Bool, true, false, ◌&&◌, Option, none, some, List, [], ◌∷◌, ◌++◌, leb,
  if◌then◌else◌, length,
}
use net_frame.Server.Bytes.{Bytes}
use net_frame.Server.Encoder.{crlf}

abbrev pub hex_digit : ℕ → Option ℕ
hex_digit b =
    if leb 48 b && leb b 57
    then some (b - 48)
    else (if leb 97 b && leb b 102 then some (b - 87) else none)

-- The number that hexadecimal digits write, behind one that was read.
abbrev pub hex_from : ℕ → Bytes → Option ℕ
hex_from n [] = some n
hex_from n (b ∷ bs) = elim (hex_digit b) [ none ↦ none | some d ↦ hex_from (16 * n + d) bs ]

-- How a chunked body is written, and the body: chunks that hold something, each behind its size, and the
-- last chunk, with no trailer.
pub data IsChunked : Bytes → Bytes → Type 0 where
  last : IsChunked (48 ∷ 13 ∷ 10 ∷ 13 ∷ 10 ∷ []) []
  next :
      (size payload wire body : Bytes)
      → hex_from 0 size ≡ some (length payload)
      → payload ≢ []
      → IsChunked wire body
      → IsChunked (size ++ (crlf ++ (payload ++ (crlf ++ wire)))) (payload ++ body)

-- How the body follows the head: in chunks, or as it is.
abbrev pub IsBody : Bool → Bytes → Bytes → Type 0
IsBody true wire body = IsChunked wire body
IsBody false wire body = wire ≡ body
