-- ===== src/Server/Parser/Fields.antt =====
-- The headers of a packet (src/packet/http_parser.cc): they do not depend on the pieces in which the
-- tokenizer gives them, but a value that is empty spoils the next name.
use mathlib.Core.List.{append_assoc, append-nil}
use net_frame.Common.{
  ◌≡◌, refl, ap, ◌∙◌, sym, Option-cases, false, Option, none, some, List, [], ◌∷◌, ◌++◌, map, arith,
  inl, inr,
}
use net_frame.Server.Bytes.{Bytes, Headers, is_empty, to_lower, put}
use net_frame.Server.Packet.{HttpPacket}
use net_frame.Server.Parser.{
  DataType, requests, responses, Parser, cleared, store_pair, on_header_field, StartLine,
  create_packet, last_pair, complete_head, Callback, header_field, header_value, headers_complete,
  on_headers_complete, call, decode,
}

abbrev pub join : List Bytes → Bytes
join [] = []
join (p ∷ ps) = p ++ join ps

-- A header in the pieces of its name, of which there is a first, and of its value.
pub record Pieces : Type 0 where
  pub first : Bytes
  pub more : List Bytes
  pub values : List Bytes

abbrev pub name_of : Pieces → Bytes
name_of p = p.first ++ join p.more

abbrev pub value_of : Pieces → Bytes
value_of p = join p.values

abbrev pub callbacks_of : List Pieces → List Callback
callbacks_of [] = []
callbacks_of (p ∷ ps) =
    header_field p.first
    ∷ (map header_field p.more ++ (map header_value p.values ++ callbacks_of ps))

-- The headers as they should be: each under its name in lower case, the last of a name counts.
abbrev pub put_all : List Pieces → Headers → Headers
put_all [] m = m
put_all (p ∷ ps) m = put_all ps (put (to_lower (name_of p)) (value_of p) m)

-- No name and no value is empty.
abbrev pub AreWhole : List Pieces → Type 0
AreWhole [] = Unit {0}
AreWhole (p ∷ ps) = (is_empty (name_of p) ≡ false) × (is_empty (value_of p) ≡ false) × AreWhole ps

pub decode-append :
    (cs ds : List Callback) (p q : Parser)
    → decode cs p ≡ some q
    → decode (cs ++ ds) p ≡ decode ds q
unfolding decode
decode-append [] ds p q e = cc
decode-append (c ∷ cs) ds p q e = elim (Option-cases (call c p)) [
  | inl stops ↦ let never = rw (stops, decode) at e in cc
  | inr (r, goes) ↦ rw (goes, decode) (decode-append cs ds r q (rw (goes, decode) at e))
]

pub decode-call :
    (c : Callback) (cs : List Callback) (p q : Parser)
    → call c p ≡ some q
    → decode (c ∷ cs) p ≡ decode cs q
unfolding decode
decode-call c cs p q e = rw (e, decode) refl

pub callbacks_assoc :
    (h : Pieces) (cs ds : List Callback)
    → (map header_field h.more ++ (map header_value h.values ++ cs)) ++ ds
      ≡ map header_field h.more ++ (map header_value h.values ++ (cs ++ ds))
callbacks_assoc h cs ds =
    append_assoc (map header_field h.more) (map header_value h.values ++ cs) ds
    ∙ ap (λ es. map header_field h.more ++ es) (append_assoc (map header_value h.values) cs ds)

decode-one : (c : Callback) (p : Parser) → decode (c ∷ []) p ≡ call c p
unfolding decode
decode-one c p = elim (Option-cases (call c p)) [
  | inl stops ↦ rw (stops, decode) refl
  | inr (q, goes) ↦ rw (goes, decode) refl
]

module _ (url status : Bytes) (p : Parser) where
  -- The parser with a pair under way.
  abbrev pub at : Bytes → Bytes → Headers → Parser
  at field value m = record p {
    head_info = record { url = url; status = status; field = field; value = value; header_map = m };
  }

  pub more-join :
      (fs : List Bytes) (field : Bytes) (m : Headers)
      → decode (map header_field fs) (at field [] m) ≡ some (at (field ++ join fs) [] m)
  unfolding decode call
  more-join [] field m = ap (λ f. some (at f [] m)) (sym (append-nil field))
  more-join (f ∷ fs) field m =
      more-join fs (field ++ f) m ∙ ap (λ g. some (at g [] m)) (append_assoc field f (join fs))

  pub values-join :
      (vs : List Bytes) (field value : Bytes) (m : Headers)
      → decode (map header_value vs) (at field value m) ≡ some (at field (value ++ join vs) m)
  unfolding decode call
  values-join [] field value m = ap (λ v. some (at field v m)) (sym (append-nil value))
  values-join (v ∷ vs) field value m =
      values-join vs field (value ++ v) m
      ∙ ap (λ w. some (at field w m)) (append_assoc value v (join vs))

  -- The rest of a header, behind the first piece of its name.
  rest_of_pair :
      (h : Pieces) (m : Headers) (cs : List Callback)
      → decode (map header_field h.more ++ (map header_value h.values ++ cs)) (at h.first [] m)
        ≡ decode cs (at (name_of h) (value_of h) m)
  rest_of_pair h m cs =
      decode-append (map header_field h.more) _ (at h.first [] m) (at (name_of h) [] m)
        (more-join h.more h.first m)
      ∙ decode-append (map header_value h.values) cs (at (name_of h) [] m)
          (at (name_of h) (value_of h) m) (values-join h.values (name_of h) [] m)

  pub field-start :
      (field f value : Bytes) (m : Headers)
      → is_empty value ≡ false
      → call (header_field f) (at field value m) ≡ some (at f [] (put (to_lower field) value m))
  unfolding call on_header_field store_pair
  field-start field f value m whole = ground arith

  next_pair :
      (h : Pieces) (field value : Bytes) (m : Headers) (cs : List Callback)
      → is_empty value ≡ false
      → decode
          (header_field h.first ∷ (map header_field h.more ++ (map header_value h.values ++ cs)))
          (at field value m)
        ≡ decode cs (at (name_of h) (value_of h) (put (to_lower field) value m))
  next_pair h field value m cs whole =
      decode-call (header_field h.first) _ _ _ (field-start field h.first value m whole)
      ∙ rest_of_pair h (put (to_lower field) value m) cs

  first_pair :
      (h : Pieces) (m : Headers) (cs : List Callback)
      → decode
          (header_field h.first ∷ (map header_field h.more ++ (map header_value h.values ++ cs)))
          (at [] [] m)
        ≡ decode cs (at (name_of h) (value_of h) m)
  unfolding decode call
  first_pair h m cs = rest_of_pair h m cs

  -- The pair that is under way when the headers `ps` are read, and that it completes them.
  record IsRead (field value : Bytes) (m : Headers) (ps : List Pieces) (cs : List Callback)
      : Type 0 where
    last_field : Bytes
    last_value : Bytes
    stored : Headers
    reads :
        decode (callbacks_of ps ++ cs) (at field value m)
        ≡ decode cs (at last_field last_value stored)
    named : is_empty last_field ≡ false
    complete :
        put (to_lower last_field) last_value stored ≡ put_all ps (put (to_lower field) value m)

  pairs-IsRead :
      (ps : List Pieces) (field value : Bytes) (m : Headers) (cs : List Callback)
      → is_empty field ≡ false
      → is_empty value ≡ false
      → AreWhole ps
      → IsRead field value m ps cs
  pairs-IsRead [] field value m cs named whole all = record {
    last_field = field;
    last_value = value;
    stored = m;
    reads = refl;
    named = named;
    complete = refl;
  }
  pairs-IsRead (h ∷ ps) field value m cs named whole (n, v, all) =
      let r = pairs-IsRead ps (name_of h) (value_of h) (put (to_lower field) value m) cs n v all in
      record {
        last_field = r.last_field;
        last_value = r.last_value;
        stored = r.stored;
        reads =
            ap (λ es. decode (header_field h.first ∷ es) (at field value m))
              (callbacks_assoc h (callbacks_of ps) cs)
            ∙ next_pair h field value m (callbacks_of ps ++ cs) whole
            ∙ r.reads;
        named = r.named;
        complete = r.complete;
      }

  -- The callbacks of a start line and of the headers `ps`, behind the url or the status.
  abbrev pub reads_all : List Pieces → StartLine → List Callback
  reads_all ps l = callbacks_of ps ++ headers_complete l ∷ []

  last_pair-named :
      (field value : Bytes) (m : Headers)
      → is_empty field ≡ false
      → last_pair (at field value m).head_info
        ≡ (at field value (put (to_lower field) value m)).head_info
  unfolding last_pair
  last_pair-named field value m named = rw named refl

  -- What the head makes of the parser, with its headers at once.
  abbrev finish_head : Option HttpPacket → Option Parser
  finish_head none = none
  finish_head (some packet) = some (record p { current_packet = some packet; head_info = cleared })

  abbrev pub read_head : StartLine → Headers → Option Parser
  read_head l m = finish_head (complete_head p.data_type l (at [] [] m).head_info)

  complete_head-at :
      (type : DataType) (l : StartLine) (field value : Bytes) (m : Headers)
      → complete_head type l (at field value m).head_info
        ≡ complete_head type l (at [] [] m).head_info
  unfolding create_packet
  complete_head-at requests l field value m = refl
  complete_head-at responses l field value m = refl

  headers_complete-at :
      (l : StartLine) (field value : Bytes) (m : Headers)
      → call (headers_complete l) (at field value m)
        ≡ finish_head (complete_head p.data_type l (last_pair (at field value m).head_info))
  unfolding call on_headers_complete
  headers_complete-at l field value m = refl

  headers_complete-named :
      (l : StartLine) (field value : Bytes) (m : Headers)
      → is_empty field ≡ false
      → decode (headers_complete l ∷ []) (at field value m)
        ≡ read_head l (put (to_lower field) value m)
  headers_complete-named l field value m named =
      decode-one (headers_complete l) (at field value m)
      ∙ headers_complete-at l field value m
      ∙ ap (λ h. finish_head (complete_head p.data_type l h)) (last_pair-named field value m named)
      ∙ ap finish_head (complete_head-at p.data_type l field value (put (to_lower field) value m))

  -- Where no name and no value is empty, the packet has each header under its name in lower case, the
  -- last of a name, in whatever pieces the tokenizer gave the names and the values.
  pub decode-reads_all :
      (ps : List Pieces) (l : StartLine)
      → AreWhole ps
      → decode (reads_all ps l) (at [] [] []) ≡ read_head l (put_all ps [])
  unfolding last_pair
  decode-reads_all [] l all =
      decode-one (headers_complete l) (at [] [] []) ∙ headers_complete-at l [] [] []
  decode-reads_all (h ∷ ps) l (n, v, all) =
      let r = pairs-IsRead ps (name_of h) (value_of h) [] (headers_complete l ∷ []) n v all in
      ap (λ es. decode (header_field h.first ∷ es) (at [] [] []))
        (callbacks_assoc h (callbacks_of ps) (headers_complete l ∷ []))
      ∙ first_pair h [] (callbacks_of ps ++ headers_complete l ∷ [])
      ∙ r.reads
      ∙ headers_complete-named l r.last_field r.last_value r.stored r.named
      ∙ ap (read_head l) r.complete
