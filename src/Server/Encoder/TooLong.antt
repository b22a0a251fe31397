-- ===== src/Server/Encoder/TooLong.antt =====
-- Responses in chunks (src/packet/http_encoder.cc), read by the parser (src/packet/http_parser.cc).
use net_frame.Common.{
  ℕ, zero, suc, refl, ◌*◌, ◌≡◌, ap, ◌∙◌, true, false, Option, none, List, [], map, length, arith,
}
use net_frame.Server.Bytes.{Bytes}
use net_frame.Server.Packet.{HttpPacket}
use net_frame.Server.Parser.{DataType, Parser, body, decode}
use net_frame.Server.Parser.Fields.{join}
use net_frame.Server.Parser.Limits.{with_body, fits, bounded_body, bounded_body-over, decode-bodies}
use net_frame.Server.Encoder.{new_encoder, uses_chunks}

chunked-fits :
    (type : Option DataType) (p : HttpPacket) (limit : ℕ)
    → uses_chunks (new_encoder type) p ≡ true
    → limit ≡ 1024 * 1024
    → fits limit (length p.body) ≡ false
unfolding uses_chunks
chunked-fits type p limit h e = rw e (ground arith)

empty-fits : (limit : ℕ) → fits limit 0 ≡ true
empty-fits zero = refl
empty-fits (suc limit) = ground arith

-- No parser with the limit that the constructor sets accepts the body of a response that an encoder with
-- the constructor's threshold sends in chunks, in whatever pieces it comes: the limit is the threshold.
pub decode-uses_chunks :
    (type : Option DataType) (p packet : HttpPacket) (q : Parser) (bs : List Bytes)
    → uses_chunks (new_encoder type) p ≡ true
    → q.body_max ≡ 1024 * 1024
    → join bs ≡ p.body
    → decode (map body bs) (with_body q packet []) ≡ none
decode-uses_chunks type p packet q bs h limit whole =
    decode-bodies bs [] q packet (empty-fits q.body_max)
    ∙ ap (bounded_body q packet) whole
    ∙ bounded_body-over q packet p.body (chunked-fits type p q.body_max h limit)
