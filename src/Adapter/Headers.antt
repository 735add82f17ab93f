-- ===== src/Adapter/Headers.antt =====
-- `_parse_headers` of src/django_fast_multipart/parser.py, and what `_begin_part` reads of headers.
use django_fast_multipart.Adapter.Env.{Env, Params, ℤ}
use django_fast_multipart.Base.{
  Bool, true, false, ◌||◌, Option, none, some, List, [], ◌∷◌, Bytes, Text, codes, equal,
  if◌then◌else◌,
}
use django_fast_multipart.Core.{Headers}
use django_fast_multipart.Exc.{
  Exc, unicode_decode_error, lookup_error, type_error, Result, ok, err, ◌>>=◌, is_value_error,
}
use django_fast_multipart.Python.Strings.{rstrip_spaces, decode}

module _ {V : Type 0} where
  -- `d.get(key)`
  unfoldable pub lookup : Text → List (Text × V) → Option V
  lookup key [] = none
  lookup key ((k, v) ∷ d) = if equal k key then some v else lookup key d

  -- `d[key] = value`
  unfoldable pub insert : Text → V → List (Text × V) → List (Text × V)
  insert key value [] = (key, value) ∷ []
  insert key value ((k, v) ∷ d) =
      if equal k key then (k, value) ∷ d else (k, v) ∷ insert key value d

-- The headers of a part by name: a value and its parameters.
abbrev pub HeaderDict : Type 0
HeaderDict = List (Text × (Text × Params))

abbrev pub decoded : Option Text → Result Text
decoded none = err (unicode_decode_error "invalid UTF-8")
decoded (some t) = ok t

unfoldable pub is_type_error : Exc → Bool
is_type_error (type_error m) = true
is_type_error _ = false

-- `except (UnicodeDecodeError, ValueError, LookupError)`
unfoldable pub is_header_error : Exc → Bool
is_header_error (lookup_error m) = true
is_header_error e = is_value_error e

module _ (env : Env) where
  -- The name and the value of one raw header.
  unfoldable pub read_header : Bytes × Bytes → Result (Text × (Text × Params))
  read_header (raw_name, raw_value) = do
    name ← decoded (decode raw_name)
    text ← decoded (decode raw_value)
    value ← env.parse_header_parameters text
    ok (rstrip_spaces (env.lower name), value)

  unfoldable pub parse_headers_from : HeaderDict → Headers → Result HeaderDict
  parse_headers_from headers [] = ok headers
  parse_headers_from headers (h ∷ hs) = elim (read_header h) [
    | ok (name, value) ↦ parse_headers_from (insert name value headers) hs
    | err e ↦ elim (is_header_error e) [ true ↦ parse_headers_from headers hs | false ↦ err e ]
  ]

  -- `_parse_headers`
  unfoldable pub parse_headers : Headers → Result HeaderDict
  parse_headers = parse_headers_from []

  -- `{key: value.encode(…) for key, value in parameters.items()}`
  unfoldable pub encode_all : Params → Result (List (Text × Bytes))
  encode_all [] = ok []
  encode_all ((key, value) ∷ rest) = do
    bytes ← env.encode value
    more ← encode_all rest
    ok ((key, bytes) ∷ more)

  -- `int(raw_content_length[0])`, with `None` for a `TypeError` or a `ValueError`.
  unfoldable pub content_length_of : HeaderDict → Result (Option ℤ)
  content_length_of headers = elim (lookup (codes "content-length") headers) [
    | none ↦ ok none
    | some (text, ps) ↦ elim (env.int_of text) [
      | ok n ↦ ok (some n)
      | err e ↦ if is_type_error e || is_value_error e then ok none else err e
    ]
  ]
