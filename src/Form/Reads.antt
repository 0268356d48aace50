-- ===== src/Form/Reads.antt =====
-- What a handler reads of a form behind `parse_form_data`, by the accessors of
-- src/server/fcgi_handler.h.
use fcgi_cpp_appserver.Common.{
  ℕ, ◌<◌, ◌≡◌, refl, ap, ◌∙◌, Bool, true, false, Option, none, some, List, [], ◌∷◌, if◌then◌else◌,
  take,
}
use fcgi_cpp_appserver.Common.Bytes.{Bytes, equal}
use fcgi_cpp_appserver.Common.Dict.{
  Dict, All, lookup, insert, or_else, IsSorted, insert-IsSorted, lookup-insert,
}
use fcgi_cpp_appserver.Form.{
  parse_form_data, strtol, returns, has_formdata_param, get_formdata_param,
}
use fcgi_cpp_appserver.Form.Fields.{parse_form_data-body}
use fcgi_cpp_appserver.Multipart.RoundTrip.{Field, IsField, IsBoundary, body, content_type, stored}

-- The value of the first field of a name, cut to `size`.
abbrev pub first_named : ℕ → Bytes → List Field → Option Bytes
first_named size name [] = none
first_named size name ((n, v) ∷ fs) =
    if equal n name then some (take size v) else first_named size name fs

or_else_test :
    (o r : Option Bytes) (b : Bool) (v : Bytes)
    → or_else (or_else o (if b then some v else none)) r ≡ or_else o (if b then some v else r)
or_else_test none r true v = refl
or_else_test none r false v = refl
or_else_test (some w) r b v = refl

or_else-none : (o : Option Bytes) → o ≡ or_else o none
or_else-none none = refl
or_else-none (some w) = refl

lookup-stored :
    (size : ℕ) (name : Bytes) (m : Dict Bytes) (fs : List Field)
    → IsSorted m
    → lookup name (stored size m fs) ≡ or_else (lookup name m) (first_named size name fs)
lookup-stored size name m [] h = or_else-none (lookup name m)
lookup-stored size name m ((n, v) ∷ fs) h =
    lookup-stored size name (insert n (take size v) m) fs (insert-IsSorted n (take size v) m h)
    ∙ ap (λ o. or_else o (first_named size name fs)) (lookup-insert n name (take size v) m h)
    ∙ or_else_test (lookup name m) (first_named size name fs) (equal n name) (take size v)

abbrev pub text_or_empty : Option Bytes → Bytes
text_or_empty none = []
text_or_empty (some v) = v

abbrev pub is_there : Option Bytes → Bool
is_there none = false
is_there (some v) = true

-- A handler that calls `parse_form_data` on a form's body, with a boundary of ASCII characters that the
-- parser reads, fields that can be sent and a Content-Length above 0, reads for each name the value of the
-- first field of that name, cut to 128 KB, or the empty text where there is none, and can tell these apart.
pub parse_form_data-first_named :
    (b length_text name : Bytes) (fs : List Field)
    → IsBoundary b
    → 0 < strtol length_text
    → All (IsField b 512) fs
    → (params : Dict Bytes) × (parse_form_data (content_type b) length_text (body b fs) []
        ≡ returns params)
      × (get_formdata_param params name ≡ text_or_empty (first_named 131072 name fs))
      × (has_formdata_param params name ≡ is_there (first_named 131072 name fs))
unfolding get_formdata_param has_formdata_param lookup
parse_form_data-first_named b length_text name fs ok l h =
    let e : lookup name (stored 131072 [] fs) ≡ first_named 131072 name fs =
      lookup-stored 131072 name [] fs tt in
    (
      stored 131072 [] fs,
      parse_form_data-body b length_text [] fs ok l h,
      ap text_or_empty e,
      ap is_there e,
    )
