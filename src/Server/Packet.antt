-- ===== src/Server/Packet.antt =====
-- A packet (src/packet/http_packet.h, src/packet/http_packet.cc).
use Prim.Native.String.{String}
use net_frame.Common.{
  ℕ, ◌==◌, ◌≡◌, Bool, true, false, Option, some, List, [], ◌∷◌, ◌++◌, if◌then◌else◌,
}
use net_frame.Server.Bytes.{
  Bytes, Headers, codes, is_empty, bytes_eq, to_lower, put, lookup, lookup-put,
}

pub data HttpVersion : Type 0 where
  http_1_0 http_1_1 : HttpVersion

pub data HttpMethod : Type 0 where
  unspecified get head post put_method connect patch delete other : HttpMethod

-- A request, or a response with its status and code.
pub data Kind : Type 0 where
  request : HttpMethod → Bytes → Kind
  response : Bytes → ℕ → Kind

pub record HttpPacket : Type 0 where
  pub is_keep_alive : Bool
  pub version : HttpVersion
  pub header_map : Headers
  pub body : Bytes
  pub kind : Kind

-- HTTP 1.1 keeps a connection alive by default.
unfoldable pub set_http_version : HttpVersion → HttpPacket → HttpPacket
set_http_version http_1_0 p = record p { version = http_1_0 }
set_http_version http_1_1 p = record p { version = http_1_1; is_keep_alive = true }

unfoldable pub get_header : Bytes → HttpPacket → Option Bytes
unfolding lookup to_lower
get_header key p = lookup (to_lower key) p.header_map

unfoldable pub add_header : Bytes → Bytes → HttpPacket → HttpPacket × Bool
unfolding put to_lower
add_header key value p =
    if is_empty key
    then (p, false)
    else (record p { header_map = put (to_lower key) value p.header_map }, true)

unfoldable pub append_body : Bytes → HttpPacket → HttpPacket
append_body bytes p = record p { body = p.body ++ bytes }

-- `CODE_TO_STRING`
abbrev pub code_to_string : List (ℕ × String)
code_to_string =
    (200, "OK")
    ∷ (201, "Created")
    ∷ (202, "Accepted")
    ∷ (204, "No Content")
    ∷ (206, "Partial Content")
    ∷ (301, "Moved Permanently")
    ∷ (302, "Moved Temporarily")
    ∷ (303, "See Other")
    ∷ (304, "Not Modified")
    ∷ (307, "Temporary Redirect")
    ∷ (400, "Bad Request")
    ∷ (401, "Temporary Redirect")
    ∷ (402, "Payment Required")
    ∷ (403, "Forbidden")
    ∷ (404, "Not Found")
    ∷ (405, "Not Allowed")
    ∷ (406, "Not Acceptable")
    ∷ (408, "Request Time-out")
    ∷ (409, "Conflict")
    ∷ (410, "Gone")
    ∷ (411, "Length Required")
    ∷ (412, "Precondition Failed")
    ∷ (413, "Request Entity Too Large")
    ∷ (414, "Request-URI Too Large")
    ∷ (415, "Unsupported Media Type")
    ∷ (416, "Requested Range Not Satisfiable")
    ∷ (500, "Internal Server Error")
    ∷ (502, "Bad Gateway")
    ∷ (503, "Service Unavailable")
    ∷ (504, "Gateway Timeout")
    ∷ []

unfoldable pub status_of : ℕ → List (ℕ × String) → Bytes
status_of n [] = codes "UNKNOW"
status_of n ((c, s) ∷ m) = let rest = status_of n m in if c == n then codes s else rest

-- The text goes with the code, whatever it was.
unfoldable pub set_status_code : ℕ → HttpPacket → HttpPacket
unfolding status_of
set_status_code n p = elim (p.kind) [
  | request m uri ↦ p
  | response status old ↦ record p { kind = response (status_of n code_to_string) n }
]

-- A header that was added is found under its name in any case, and every other is as it was.
pub get_header-add_header :
    (key name value : Bytes) (p : HttpPacket)
    → is_empty key ≡ false
    → get_header name (add_header key value p).0
      ≡ (if bytes_eq (to_lower key) (to_lower name) then some value else get_header name p)
unfolding get_header add_header
get_header-add_header key name value p named =
    rw named (lookup-put (to_lower key) (to_lower name) value p.header_map)
