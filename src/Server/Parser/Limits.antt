-- ===== src/Server/Parser/Limits.antt =====
-- The limits of the parser (src/packet/http_parser.cc): how long a url and a body may be.
use mathlib.Core.List.{append_assoc, append-nil}
use net_frame.Common.{
  ℕ, zero, suc, ◌+◌, leb, not, Bool, ◌≡◌, refl, ap, ◌∙◌, sym, Bool-cases, true, false, Option, none,
  some, List, [], ◌∷◌, ◌++◌, map, if◌then◌else◌, arith, inl, inr, length,
}
use net_frame.Server.Bytes.{Bytes, length-append}
use net_frame.Server.Packet.{HttpPacket, append_body}
use net_frame.Server.Parser.{Parser, is_over, Callback, body, on_body, call, decode}
use net_frame.Server.Parser.Fields.{join, decode-call}

-- The parser with a body under way.
abbrev pub with_body : Parser → HttpPacket → Bytes → Parser
with_body p packet bytes = record p { current_packet = some (record packet { body = bytes }) }

-- Independent of the code: a limit of 0 lets every length pass, another one the lengths up to it.
abbrev pub fits : ℕ → ℕ → Bool
fits zero n = true
fits (suc limit) n = leb n (suc limit)

-- What comes of a body under way.
abbrev pub bounded_body : Parser → HttpPacket → Bytes → Option Parser
bounded_body p packet bytes =
    if fits p.body_max (length bytes) then some (with_body p packet bytes) else none

is_over-fits : (limit n : ℕ) → is_over limit n ≡ not (fits limit n)
is_over-fits zero n = ground arith
is_over-fits (suc limit) n = ground arith

fits-append :
    (limit : ℕ) (bs cs : Bytes)
    → fits limit (length bs) ≡ false
    → fits limit (length (bs ++ cs)) ≡ false
fits-append zero bs cs h = cc
fits-append (suc limit) bs cs h = ground (arith, length-append bs cs)

call-body :
    (b bytes : Bytes) (p : Parser) (packet : HttpPacket)
    → call (body b) (with_body p packet bytes) ≡ bounded_body p packet (bytes ++ b)
unfolding call on_body append_body
call-body b bytes p packet =
    ground (arith, length-append bytes b, is_over-fits p.body_max (length b + length bytes))

decode-stop :
    (c : Callback) (cs : List Callback) (p : Parser) → call c p ≡ none → decode (c ∷ cs) p ≡ none
unfolding decode
decode-stop c cs p e = rw (e, decode) refl

pub bounded_body-over :
    (p : Parser) (packet : HttpPacket) (bytes : Bytes)
    → fits p.body_max (length bytes) ≡ false
    → bounded_body p packet bytes ≡ none
bounded_body-over p packet bytes over = rw over refl

bounded_body-within :
    (p : Parser) (packet : HttpPacket) (bytes : Bytes)
    → fits p.body_max (length bytes) ≡ true
    → bounded_body p packet bytes ≡ some (with_body p packet bytes)
bounded_body-within p packet bytes within = rw within refl

-- A body that comes in pieces, the first of which are in the packet and within the limit, is put together
-- if its length is the limit at most or the limit is 0, and otherwise refused.
pub decode-bodies :
    (bs : List Bytes) (bytes : Bytes) (p : Parser) (packet : HttpPacket)
    → fits p.body_max (length bytes) ≡ true
    → decode (map body bs) (with_body p packet bytes) ≡ bounded_body p packet (bytes ++ join bs)
unfolding decode
decode-bodies [] bytes p packet within =
    sym (ap (bounded_body p packet) (append-nil bytes) ∙ bounded_body-within p packet bytes within)
decode-bodies (b ∷ bs) bytes p packet within =
    elim (Bool-cases (fits p.body_max (length (bytes ++ b)))) [
      | inr over ↦
          decode-stop (body b) (map body bs) (with_body p packet bytes)
            (call-body b bytes p packet ∙ bounded_body-over p packet (bytes ++ b) over)
          ∙ sym (
              bounded_body-over p packet ((bytes ++ b) ++ join bs)
                (fits-append p.body_max (bytes ++ b) (join bs) over))
          ∙ ap (bounded_body p packet) (append_assoc bytes b (join bs))
      | inl short ↦
          decode-call (body b) (map body bs) (with_body p packet bytes)
            (with_body p packet (bytes ++ b))
            (call-body b bytes p packet ∙ bounded_body-within p packet (bytes ++ b) short)
          ∙ decode-bodies bs (bytes ++ b) p packet short
          ∙ ap (bounded_body p packet) (append_assoc bytes b (join bs))
    ]
