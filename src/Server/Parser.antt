-- ===== src/Server/Parser.antt =====
-- The parser of packets (src/packet/http_parser.cc): what the callbacks of the tokenizer (the third-party
-- http_parser) make of its tokens. The tokenizer gives each token in one piece or in several.
pub mod Fields
pub mod EmptyValue
pub mod Limits
use net_frame.Common.{
  ℕ, zero, suc, ◌+◌, Bool, true, false, not, ◌&&◌, Option, none, some, List, [], ◌∷◌, ◌++◌, ◌==◌,
  ltb, if◌then◌else◌, length,
}
use net_frame.Server.Bytes.{Bytes, Headers, is_empty, to_lower, put}
use net_frame.Server.Packet.{
  HttpVersion, http_1_0, http_1_1, HttpMethod, get, head, post, put_method, connect, patch, delete,
  other, Kind, request, response, HttpPacket, set_http_version, append_body, set_status_code,
}

pub data DataType : Type 0 where
  requests responses : DataType

pub record HeadInfo : Type 0 where
  pub url : Bytes
  pub status : Bytes
  pub field : Bytes
  pub value : Bytes
  pub header_map : Headers

pub record Parser : Type 0 where
  pub url_max : ℕ
  pub body_max : ℕ
  pub packet_list : List HttpPacket
  pub current_packet : Option HttpPacket
  pub data_type : DataType
  pub head_info : HeadInfo

abbrev pub cleared : HeadInfo
cleared = record { url = []; status = []; field = []; value = []; header_map = [] }

-- A limit of 0 is none.
abbrev pub is_over : ℕ → ℕ → Bool
is_over limit n = not (limit == 0) && ltb limit n

-- The pair that is complete goes to the map.
unfoldable pub store_pair : HeadInfo → HeadInfo
store_pair h = record h {
  header_map = put (to_lower h.field) h.value h.header_map;
  field = [];
  value = [];
}

unfoldable pub on_header_field : Bytes → HeadInfo → HeadInfo
unfolding store_pair
on_header_field bytes h =
    let q = if is_empty h.value then h else store_pair h in record q { field = q.field ++ bytes }

unfoldable pub on_header_value : Bytes → HeadInfo → HeadInfo
on_header_value bytes h = record h { value = h.value ++ bytes }

-- What the tokenizer knows of the start line when the headers are complete, its method already mapped,
-- and the part of the url behind the host, where it parses.
pub record StartLine : Type 0 where
  pub method : HttpMethod
  pub uri : Option Bytes
  pub status_code : ℕ
  pub major : ℕ
  pub minor : ℕ

unfoldable pub parse_version : StartLine → Option HttpVersion
parse_version l =
    if l.major == 1
    then (if l.minor == 0 then some http_1_0 else if l.minor == 1 then some http_1_1 else none)
    else none

-- `GetUri`, or the url as it stands.
abbrev pub uri_or : Option Bytes → Bytes → Bytes
uri_or none url = url
uri_or (some uri) url = uri

abbrev pub new_packet : Kind → HttpPacket
new_packet kind = record {
  is_keep_alive = false;
  version = http_1_0;
  header_map = [];
  body = [];
  kind = kind;
}

-- The packet before its version is known; a request without a url is an error.
unfoldable pub create_packet : DataType → StartLine → HeadInfo → Option HttpPacket
unfolding set_status_code
create_packet requests l h =
    if is_empty h.url then none else some (new_packet (request l.method (uri_or l.uri h.url)))
create_packet responses l h =
    some (set_status_code l.status_code (new_packet (response h.status 0)))

abbrev pub with_version : Option HttpVersion → Headers → HttpPacket → Option HttpPacket
with_version none headers p = none
with_version (some v) headers p = some (record (set_http_version v p) { header_map = headers })

-- The last pair is stored without the test of its value.
unfoldable pub last_pair : HeadInfo → HeadInfo
last_pair h =
    if is_empty h.field
    then h
    else record h { header_map = put (to_lower h.field) h.value h.header_map }

abbrev pub complete_head : DataType → StartLine → HeadInfo → Option HttpPacket
complete_head type l h = elim (create_packet type l h) [
  | none ↦ none
  | some p ↦ with_version (parse_version l) h.header_map p
]

-- The callbacks; `none` is an answer of -1, at which the tokenizer stops.
pub data Callback : Type 0 where
  message_begin : Callback
  url status header_field header_value body : Bytes → Callback
  headers_complete : StartLine → Callback
  message_complete : Bool → Callback

unfoldable pub on_url : Bytes → Parser → Option Parser
on_url bytes p =
    if is_over p.url_max (length bytes + length p.head_info.url)
    then none
    else some (record p { head_info = record (p.head_info) { url = p.head_info.url ++ bytes } })

unfoldable pub on_headers_complete : StartLine → Parser → Option Parser
unfolding last_pair create_packet parse_version
on_headers_complete l p = elim (complete_head p.data_type l (last_pair p.head_info)) [
  | none ↦ none
  | some packet ↦ some (record p { current_packet = some packet; head_info = cleared })
]

-- The packet that is under way is there in these two, as the tokenizer calls them behind the headers.
unfoldable pub on_body : Bytes → Parser → Option Parser
unfolding append_body
on_body bytes p = elim (p.current_packet) [
  | none ↦ none
  | some packet ↦
      if is_over p.body_max (length bytes + length packet.body)
      then none
      else some (record p { current_packet = some (append_body bytes packet) })
]

unfoldable pub on_message_complete : Bool → Parser → Option Parser
on_message_complete keep_alive p = elim (p.current_packet) [
  | none ↦ none
  | some packet ↦ some (record p {
    packet_list = p.packet_list ++ record packet { is_keep_alive = keep_alive } ∷ [];
    current_packet = none;
  })
]

unfoldable pub call : Callback → Parser → Option Parser
unfolding on_header_field on_header_value on_url on_headers_complete on_body on_message_complete
call message_begin p = some (record p { head_info = cleared })
call (url bytes) p = on_url bytes p
call (status bytes) p =
    some (record p { head_info = record (p.head_info) { status = p.head_info.status ++ bytes } })
call (header_field bytes) p = some (record p { head_info = on_header_field bytes p.head_info })
call (header_value bytes) p = some (record p { head_info = on_header_value bytes p.head_info })
call (headers_complete l) p = on_headers_complete l p
call (body bytes) p = on_body bytes p
call (message_complete keep_alive) p = on_message_complete keep_alive p

-- One `http_parser_execute`, as the callbacks that it makes.
unfoldable pub decode : List Callback → Parser → Option Parser
decode [] p = some p
decode (c ∷ cs) p = elim (call c p) [ none ↦ none | some q ↦ decode cs q ]

unfoldable pub get_packet : Parser → Parser × Option HttpPacket
get_packet p = elim (p.packet_list) [
  | [] ↦ (p, none)
  | packet ∷ rest ↦ (record p { packet_list = rest }, some packet)
]
