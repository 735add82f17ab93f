-- ===== src/Adapter/Upload.antt =====
-- The methods of `RustMultiPartParser` (src/django_fast_multipart/parser.py) that drive the upload
-- handlers: `_open_part`, `_start_file`, `_receive_part_data`, `_finish_part` and those that end
-- an upload. A loop over the handlers is a recursion on those left, with the index of the next.
use django_fast_multipart.Adapter.Decoder
use django_fast_multipart.Adapter.Decoder.{Base64Decoder}
use django_fast_multipart.Adapter.Env.{
  Env, Object, FileInfo, new_file, receive_data_chunk, file_complete, close_files,
}
use django_fast_multipart.Adapter.Part.{Part, begin_part}
use django_fast_multipart.Adapter.State.{
  State, Exec, ◌>>=◌, ◌>>◌, pure, raise, lift, modify, raise_when, ask, try_except,
}
use django_fast_multipart.Base.{
  ℕ, zero, suc, ◌+◌, true, false, not, Option, none, some, List, [], ◌∷◌, ◌++◌, Bytes, length,
  get_or, ltb, ◌==◌, if◌then◌else◌, is_some_and,
}
use django_fast_multipart.Core.{Headers}
use django_fast_multipart.Exc.{
  multipart_parser_error, request_data_too_big, skip_file, stop_future_handlers, binascii_error,
  Result, ok, err,
}
use django_fast_multipart.Python.Base64.{b64decode}

abbrev pub file_info : Part → FileInfo
file_info part = record {
  field_name = part.field_name;
  file_name = part.file_name;
  content_type = part.content_type;
  content_length = part.content_length;
  charset = part.charset;
  content_type_extra = part.content_type_extra;
}

-- `len(part.field_name or "")`
abbrev pub name_length : Part → ℕ
name_length part = elim part.field_name [ none ↦ 0 | some name ↦ length name ]

-- `counters[index] += amount`
unfoldable pub add_at : ℕ → ℕ → List ℕ → List ℕ
add_at index amount [] = []
add_at zero amount (n ∷ ns) = (n + amount) ∷ ns
add_at (suc i) amount (n ∷ ns) = n ∷ add_at i amount ns

-- `except binascii.Error as exc: raise MultiPartParserError(…)`
abbrev pub base64_checked : {A : Type 0} → Result A → Result A
base64_checked (err (binascii_error m)) =
    err (multipart_parser_error "Could not decode base64 data.")
base64_checked r = r

-- `except SkipFile: handler`
abbrev pub except_skip_file : {A : Type 0} → Exec A → Exec A → Exec A
except_skip_file m handler =
    try_except m (λ e. elim e [ skip_file ↦ handler | other ↦ raise other ])

module _ (env : Env) where
  abbrev ask_close : Exec (Unit {0})
  ask_close = ask close_files env.on_close_files

  -- The loop of `_start_file` behind one call.
  unfoldable pub after_new_file :
      Exec (Unit {0}) → Result (Unit {0}) × State → Result (Unit {0}) × State
  after_new_file rest (ok _, s) = rest s
  after_new_file rest (err stop_future_handlers, s) = (ok tt, s)
  after_new_file rest (err e, s) = (err e, s)

  unfoldable pub new_file_from : ℕ → ℕ → FileInfo → Exec (Unit {0})
  new_file_from zero index info s = (ok tt, s)
  new_file_from (suc left) index info s =
      after_new_file (new_file_from left (suc index) info)
        (ask (new_file index info) (λ h. env.on_new_file h index info) s)

  -- `_start_file`
  unfoldable pub start_file : Part → Exec (Unit {0})
  start_file part = new_file_from env.handlers 0 (file_info part)

  -- A part that is a file to keep: it is ignored if a handler skips it.
  unfoldable pub start_part : Part → Exec Part
  start_part part = do
    modify (λ s. record s { unfinished_upload = true })
    except_skip_file (start_file part >> pure part)
        (ask_close >> pure (record part { ignored = true }))

  -- `_open_part`
  unfoldable pub open_part : Headers → Exec Part
  open_part raw_headers = do
    part ← begin_part env raw_headers
    if part.started then start_part part else pure part

  -- `_check_field_memory_size`
  unfoldable pub check_field_memory_size : Part → Exec (Unit {0})
  check_field_memory_size part s =
      let projected_size = s.field_bytes + length part.content + name_length part + 2 in
      raise_when
        (is_some_and env.settings.data_upload_max_memory_size
          (λ maximum_size. ltb maximum_size projected_size))
        (request_data_too_big "Request body exceeded settings.DATA_UPLOAD_MAX_MEMORY_SIZE.") s

  -- A handler's answer to a chunk of `amount` bytes; a skipped file is ignored from then on.
  unfoldable pub after_chunk :
      (Part → Option Bytes → Exec Part)
      → ℕ
      → ℕ
      → Part
      → Result (Option Bytes) × State
      → Result Part × State
  after_chunk rest index amount part (ok chunk, s) =
      rest (record part { counters = add_at index amount part.counters }) chunk s
  after_chunk rest index amount part (err skip_file, s) =
      (ask_close >> pure (record part { ignored = true })) s
  after_chunk rest index amount part (err e, s) = (err e, s)

  -- The loop of `_receive_part_data`: each handler gets what the one before it returned.
  unfoldable pub deliver_from : ℕ → ℕ → Part → Option Bytes → Exec Part
  deliver_from zero index part chunk s = (ok part, s)
  deliver_from (suc left) index part none s = (ok part, s)
  deliver_from (suc left) index part (some chunk) s =
      after_chunk (deliver_from left (suc index)) index (length chunk) part (
        ask (receive_data_chunk index chunk (get_or part.counters index 0))
          (λ h. env.on_data_chunk h index chunk (get_or part.counters index 0)) s)

  unfoldable pub deliver_decoded : Part → Option Bytes × Base64Decoder → Exec Part
  deliver_decoded part (none, decoder) = pure (record part { base64_decoder = some decoder })
  deliver_decoded part (some chunk, decoder) =
      deliver_from env.handlers 0 (record part { base64_decoder = some decoder }) (some chunk)

  unfoldable pub receive_file_data : Part → Option Base64Decoder → Bytes → Exec Part
  receive_file_data part none bytes = deliver_from env.handlers 0 part (some bytes)
  receive_file_data part (some decoder) bytes = do
    fed ← lift (base64_checked (Decoder.feed decoder bytes))
    deliver_decoded part fed

  -- `_receive_part_data`; the part comes back as it is behind the call.
  unfoldable pub receive_part_data : Part → Bytes → Exec Part
  receive_part_data part bytes =
      if part.ignored
      then pure part
      else if not part.is_file
      then (let longer = record part { content = part.content ++ bytes } in
          check_field_memory_size longer >> pure longer)
      else receive_file_data part part.base64_decoder bytes

  -- The data of a field: decoded if it is base64, and as it is if it does not decode.
  unfoldable pub field_data : Part → Result Bytes
  field_data part =
      if part.base64_encoded
      then elim (b64decode part.content) [
        | ok bytes ↦ ok bytes
        | err (binascii_error m) ↦ ok part.content
        | err e ↦ err e
      ]
      else ok part.content

  unfoldable pub finish_field : Part → Exec (Unit {0})
  finish_field part = do
    check_field_memory_size part
    modify (λ s. record s {
      field_bytes = s.field_bytes + (length part.content + name_length part + 2);
    })
    bytes ← lift (field_data part)
    text ← lift (env.force_str_bytes bytes)
    modify (λ s. record s { post = s.post ++ (part.field_name, text) ∷ [] })

  abbrev append_file : Part → Object → Exec (Unit {0})
  append_file part uploaded_file =
      modify (λ s. record s { files = s.files ++ (part.field_name, uploaded_file) ∷ [] })

  unfoldable pub after_complete :
      Exec (Unit {0}) → Part → Result (Option Object) × State → Result (Unit {0}) × State
  after_complete rest part (ok none, s) = rest s
  after_complete rest part (ok (some uploaded_file), s) =
      if env.is_truthy uploaded_file then append_file part uploaded_file s else rest s
  after_complete rest part (err e, s) = (err e, s)

  -- The loop over `file_complete`: the first handler that returns a file ends it.
  unfoldable pub complete_from : ℕ → ℕ → Part → Exec (Unit {0})
  complete_from zero index part s = (ok tt, s)
  complete_from (suc left) index part s =
      after_complete (complete_from left (suc index) part) part (
        ask (file_complete index (get_or part.counters index 0))
          (λ h. env.on_file_complete h index (get_or part.counters index 0)) s)

  unfoldable pub finish_decoder : Option Base64Decoder → Result (Unit {0})
  finish_decoder none = ok tt
  finish_decoder (some decoder) = base64_checked (Decoder.finish decoder)

  unfoldable pub finish_file : Part → Exec (Unit {0})
  finish_file part = if name_length part == 0 then pure tt else do
    lift (finish_decoder part.base64_decoder)
    complete_from env.handlers 0 part
    modify (λ s. record s { unfinished_upload = false })

  -- `_finish_part`
  unfoldable pub finish_part : Part → Exec (Unit {0})
  finish_part part =
      if part.ignored
      then pure tt
      else if not part.is_file
      then finish_field part
      else finish_file part
