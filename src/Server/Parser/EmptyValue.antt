-- ===== src/Server/Parser/EmptyValue.antt =====
-- A header with an empty value (`OnHeaderField` of src/packet/http_parser.cc).
use net_frame.Common.{◌≡◌, refl, ap, ◌∙◌, sym, some, List, [], ◌∷◌, ◌++◌, map}
use net_frame.Server.Bytes.{Bytes, Headers, to_lower, put}
use net_frame.Server.Parser.{
  Parser, on_header_field, Callback, header_field, header_value, call, decode,
}
use net_frame.Server.Parser.Fields.{
  join, Pieces, callbacks_assoc, value_of, callbacks_of, decode-append, decode-call, at, more-join,
  values-join, field-start,
}

-- One header with both names, and the value of the second.
abbrev pub merge : Pieces → Pieces → Pieces
merge h j = record { first = h.first; more = h.more ++ j.first ∷ j.more; values = j.values }

map-append-pieces :
    (fs gs : List Bytes) (cs : List Callback)
    → map header_field (fs ++ gs) ++ cs ≡ map header_field fs ++ (map header_field gs ++ cs)
map-append-pieces [] gs cs = refl
map-append-pieces (f ∷ fs) gs cs = ap (λ es. header_field f ∷ es) (map-append-pieces fs gs cs)

module _ (url status : Bytes) (p : Parser) where
  field-more :
      (field f : Bytes) (m : Headers)
      → call (header_field f) (at url status p field [] m)
        ≡ some (at url status p (field ++ f) [] m)
  unfolding call on_header_field
  field-more field f m = refl

  fields-join :
      (fs : List Bytes) (field : Bytes) (m : Headers) (cs : List Callback)
      → decode (map header_field fs ++ cs) (at url status p field [] m)
        ≡ decode cs (at url status p (field ++ join fs) [] m)
  fields-join fs field m cs =
      decode-append (map header_field fs) cs _ _ (more-join url status p fs field m)

  -- Behind the first piece of the first name.
  merged :
      (h j : Pieces) (field : Bytes) (m : Headers) (cs : List Callback)
      → value_of h ≡ []
      → decode
          (map header_field h.more
            ++ (map header_value h.values
                ++ header_field j.first ∷ (map header_field j.more ++ cs)))
          (at url status p field [] m)
        ≡ decode (map header_field (h.more ++ j.first ∷ j.more) ++ cs) (at url status p field [] m)
  merged h j field m cs empty =
      let ds = header_field j.first ∷ (map header_field j.more ++ cs) in
      fields-join h.more field m (map header_value h.values ++ ds)
      ∙ decode-append (map header_value h.values) ds _ _
          (values-join url status p h.values (field ++ join h.more) [] m)
      ∙ ap (λ v. decode ds (at url status p (field ++ join h.more) v m)) empty
      ∙ sym (fields-join h.more field m ds)
      ∙ ap (λ es. decode es (at url status p field [] m))
          (sym (map-append-pieces h.more (j.first ∷ j.more) cs))

  -- The same behind a pair that is under way.
  first-merged :
      (f field value : Bytes) (m : Headers) (cs ds : List Callback)
      → ((g : Bytes) (n : Headers)
          → decode cs (at url status p g [] n) ≡ decode ds (at url status p g [] n))
      → decode (header_field f ∷ cs) (at url status p field value m)
        ≡ decode (header_field f ∷ ds) (at url status p field value m)
  first-merged f field [] m cs ds same =
      decode-call _ cs _ _ (field-more field f m)
      ∙ same (field ++ f) m
      ∙ sym (decode-call _ ds _ _ (field-more field f m))
  first-merged f field (b ∷ bs) m cs ds same =
      let starts = field-start url status p field f (b ∷ bs) m refl in
      decode-call _ cs _ _ starts
      ∙ same f (put (to_lower field) (b ∷ bs) m)
      ∙ sym (decode-call _ ds _ _ starts)

  -- A header with an empty value is lost: the parser does what it does where its name and the next are
  -- one name, with the value of the next.
  pub decode-merge :
      (h j : Pieces) (ps : List Pieces) (field value : Bytes) (m : Headers) (cs : List Callback)
      → value_of h ≡ []
      → decode (callbacks_of (h ∷ j ∷ ps) ++ cs) (at url status p field value m)
        ≡ decode (callbacks_of (merge h j ∷ ps) ++ cs) (at url status p field value m)
  decode-merge h j ps field value m cs empty = first-merged h.first field value m _ _ (λ g n.
      ap (λ es. decode es (at url status p g [] n)) (callbacks_assoc h (callbacks_of (j ∷ ps)) cs)
      ∙ ap
          (λ es.
            decode
              (map header_field h.more ++ (map header_value h.values ++ header_field j.first ∷ es))
              (at url status p g [] n))
          (callbacks_assoc j (callbacks_of ps) cs)
      ∙ merged h j g n (map header_value j.values ++ (callbacks_of ps ++ cs)) empty
      ∙ ap (λ es. decode es (at url status p g [] n))
          (sym (callbacks_assoc (merge h j) (callbacks_of ps) cs)))
