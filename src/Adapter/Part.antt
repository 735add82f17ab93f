-- ===== src/Adapter/Part.antt =====
-- `_Part`, `_begin_part` and `_enforce_field_count` of src/django_fast_multipart/parser.py: a part,
-- and what its headers make of it.
use django_fast_multipart.Adapter.Decoder.{Base64Decoder, fresh}
use django_fast_multipart.Adapter.Env.{Env, Params, ℤ}
use django_fast_multipart.Adapter.Headers.{
  lookup, HeaderDict, parse_headers, encode_all, content_length_of,
}
use django_fast_multipart.Adapter.State.{Exec, ◌>>=◌, ◌>>◌, pure, lift, modify, raise_when}
use django_fast_multipart.Base.{
  ℕ, ◌+◌, Bool, true, false, not, ◌&&◌, Option, none, some, List, [], Bytes, Text, codes, equal,
  length, replicate, ltb, ◌==◌, if◌then◌else◌, is_some_and, is_some,
}
use django_fast_multipart.Core.{Headers}
use django_fast_multipart.Exc.{too_many_files_sent, too_many_fields_sent, Result, ok, err}
use django_fast_multipart.Python.Strings.{strip}

pub record Part : Type 0 where
  pub field_name : Option Text
  pub file_name : Option Text
  pub content_type : Text
  pub content_length : Option ℤ
  pub charset : Option Bytes
  pub content_type_extra : List (Text × Bytes)
  pub is_file : Bool
  pub ignored : Bool
  pub started : Bool
  pub base64_encoded : Bool
  pub base64_decoder : Option Base64Decoder
  pub content : Bytes
  pub counters : List ℕ

-- `_Part()`, all defaults.
abbrev pub plain_part : Part
plain_part = record {
  field_name = none;
  file_name = none;
  content_type = [];
  content_length = none;
  charset = none;
  content_type_extra = [];
  is_file = false;
  ignored = false;
  started = false;
  base64_encoded = false;
  base64_decoder = none;
  content = [];
  counters = [];
}

-- `count > maximum`, where there is a maximum.
abbrev pub exceeds : ℕ → Option ℕ → Bool
exceeds count maximum = is_some_and maximum (λ m. ltb m count)

module _ (env : Env) where
  -- `_enforce_field_count`
  unfoldable pub enforce_field_count : Bool → Exec (Unit {0})
  enforce_field_count allow_missing_terminal_raw s =
      raise_when
        (is_some_and env.settings.data_upload_max_number_fields
          (λ maximum. ltb (maximum + (if allow_missing_terminal_raw then 1 else 0)) s.field_count))
        (too_many_fields_sent
          "The number of GET/POST parameters exceeded settings.DATA_UPLOAD_MAX_NUMBER_FIELDS.")
        s

  unfoldable pub count_field : Exec (Unit {0})
  count_field = do
    modify (λ s. record s { field_count = s.field_count + 1 })
    enforce_field_count true

  unfoldable pub count_file : Exec (Unit {0})
  count_file = do
    modify (λ s. record s { file_count = s.file_count + 1 })
    λ s.
        raise_when (exceeds s.file_count env.settings.data_upload_max_number_files)
          (too_many_files_sent
            "The number of files exceeded settings.DATA_UPLOAD_MAX_NUMBER_FILES.")
          s

  abbrev disposition : HeaderDict → Params
  disposition headers = elim (lookup (codes "content-disposition") headers) [
    | none ↦ []
    | some (value, ps) ↦ ps
  ]

  abbrev content_type_of : HeaderDict → Text × Params
  content_type_of headers = elim (lookup (codes "content-type") headers) [
    | none ↦ ([], [])
    | some t ↦ t
  ]

  abbrev is_base64 : HeaderDict → Bool
  is_base64 headers =
      is_some_and (lookup (codes "content-transfer-encoding") headers)
        (λ t. equal (strip t.0) (codes "base64"))

  -- The file name of a file, which may be refused.
  unfoldable pub clean_file_name : Option Text → Result (Option Text)
  clean_file_name none = ok none
  clean_file_name (some raw) = elim (env.force_str raw) [
    | ok name ↦ ok (env.sanitize_file_name name)
    | err e ↦ err e
  ]

  -- `_begin_part` behind its counting, for a part with a name.
  unfoldable pub describe_part : HeaderDict → Bool → Option Text → Text → Exec Part
  describe_part headers is_file raw_file_name raw_field_name = do
    field_name ← lift (env.force_str (strip raw_field_name))
    file_name ← lift (clean_file_name (if is_file then raw_file_name else none))
    let ignored = is_file && not (is_some file_name)
    content_type_extra ← lift (encode_all env (content_type_of headers).1)
    content_length ← lift (content_length_of env headers)
    pure (record {
      field_name = some field_name;
      file_name = file_name;
      content_type = strip (content_type_of headers).0;
      content_length = content_length;
      charset = lookup (codes "charset") content_type_extra;
      content_type_extra = content_type_extra;
      is_file = is_file;
      ignored = ignored;
      started = is_file && not ignored;
      base64_encoded = is_base64 headers;
      base64_decoder = if is_file && is_base64 headers then some fresh else none;
      content = [];
      counters = replicate env.handlers 0;
    })

  -- A part with a file name; one without a field name is ignored before it is counted.
  unfoldable pub begin_file : HeaderDict → Option Text → Option Text → Exec Part
  begin_file headers raw_file_name none =
      pure (record plain_part { is_file = true; ignored = true })
  begin_file headers raw_file_name (some name) = do
    count_file
    describe_part headers true raw_file_name name

  -- Any other part; it is counted first.
  unfoldable pub begin_field : HeaderDict → Option Text → Option Text → Exec Part
  begin_field headers raw_file_name none = do
    count_field
    pure (record plain_part { ignored = true })
  begin_field headers raw_file_name (some name) = do
    count_field
    describe_part headers false raw_file_name name

  -- `bool(raw_file_name)`
  abbrev is_named : Option Text → Bool
  is_named raw = is_some_and raw (λ t. not (length t == 0))

  -- The branch of `_begin_part` on the file name, up to its return.
  unfoldable pub begin_named : HeaderDict → Option Text → Option Text → Exec Part
  begin_named headers raw_file_name raw_field_name =
      if is_named raw_file_name
      then begin_file headers raw_file_name raw_field_name
      else begin_field headers raw_file_name raw_field_name

  -- `_begin_part`
  unfoldable pub begin_part : Headers → Exec Part
  begin_part raw_headers = do
    headers ← lift (parse_headers env raw_headers)
    begin_named headers (lookup (codes "filename") (disposition headers))
        (lookup (codes "name") (disposition headers))
