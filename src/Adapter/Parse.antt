-- ===== src/Adapter/Parse.antt =====
-- `_parse` of src/django_fast_multipart/parser.py.
use django_fast_multipart.Adapter.Ending.{
  multipart_error, interrupt_upload, abort_upload, complete_upload_from, drain_input,
}
use django_fast_multipart.Adapter.Env.{Env, Object, handle_raw_input, read, close_files}
use django_fast_multipart.Adapter.Part.{Part, enforce_field_count, count_field}
use django_fast_multipart.Adapter.State.{State, Exec, ◌>>=◌, ◌>>◌, pure, raise, lift, modify, ask}
use django_fast_multipart.Adapter.Upload.{open_part, receive_part_data, finish_part}
use django_fast_multipart.Base.{
  ℕ, zero, suc, ◌-◌, ◌/◌, Bool, true, false, not, ◌&&◌, ◌||◌, Option, none, some, List, [], ◌∷◌,
  ◌++◌, Bytes, Text, ◌==◌, if◌then◌else◌,
}
use django_fast_multipart.Core.Memmem.{Memmem}
use django_fast_multipart.Core.Parser as Native
use django_fast_multipart.Core.Parser.{is_body}
use django_fast_multipart.Core.{
  MultipartParser, MultipartState, MultipartEvent, begin, part_data, raw,
}
use django_fast_multipart.Exc.{
  Exc, multipart_parser_error, stop_upload, Result, ok, err, is_value_error, is_runtime_error,
  is_exception,
}

abbrev pub Event : Type 0
Event = MultipartEvent Bytes

-- The local variables of `_parse` that its loops change.
pub record Cursor : Type 0 where
  pub current_part : Option Part
  pub terminal_raw : Bool

abbrev pub at_start : Cursor
at_start = record { current_part = none; terminal_raw = false }

abbrev pub new_before_end : Exc
new_before_end =
    multipart_parser_error "Received a new multipart part before the previous part ended."

abbrev pub data_before_headers : Exc
data_before_headers = multipart_parser_error "Received multipart data before part headers."

abbrev pub end_without_beginning : Exc
end_without_beginning =
    multipart_parser_error "Received a multipart part ending without a beginning."

abbrev pub raw_before_end : Exc
raw_before_end =
    multipart_parser_error "Received raw multipart data before the previous part ended."

abbrev pub is_end : MultipartState → Bool
is_end MultipartState.end = true
is_end _ = false

-- What `_parse` returns: the fields and the files, or the reply of a handler to the raw input.
pub data Reply : Type 0 where
  parsed : List (Option Text × Text) → List (Option Text × Object) → Reply
  replied : Object → Reply

module _ (env : Env) where
  -- `_record_raw_part`
  unfoldable pub record_raw_part : Option Part → Exec (Unit {0})
  record_raw_part (some part) = raise raw_before_end
  record_raw_part none = count_field env

  -- The body of the loop over the events, with what it does for the end of a part.
  unfoldable pub on_event : (Part → Exec (Unit {0})) → Option Part → Bool → Event → Exec Cursor
  on_event on_end (some part) terminal_raw (begin headers) = raise new_before_end
  on_event on_end none terminal_raw (begin headers) = do
    part ← open_part env headers
    pure (record { current_part = some part; terminal_raw = false })
  on_event on_end none terminal_raw (part_data bytes) = raise data_before_headers
  on_event on_end (some part) terminal_raw (part_data bytes) = do
    after ← receive_part_data env part bytes
    pure (record { current_part = some after; terminal_raw = terminal_raw })
  on_event on_end none terminal_raw MultipartEvent.end = raise end_without_beginning
  on_event on_end (some part) terminal_raw MultipartEvent.end = do
    on_end part
    pure (record { current_part = none; terminal_raw = true })
  on_event on_end current terminal_raw raw = do
    record_raw_part current
    pure (record { current_part = current; terminal_raw = true })

  unfoldable pub on_events : (Part → Exec (Unit {0})) → Cursor → List Event → Exec Cursor
  on_events on_end cursor [] = pure cursor
  on_events on_end cursor (event ∷ events) = do
    next ← on_event on_end cursor.current_part cursor.terminal_raw event
    on_events on_end next events

  -- At an exact boundary token at the end of the input, a file is not finished.
  unfoldable pub finish_at_eof : Bool → Part → Exec (Unit {0})
  finish_at_eof exact_boundary_at_eof part =
      if not (exact_boundary_at_eof && part.is_file) then finish_part env part else pure tt

  -- What is left of a field is kept when the message is not complete.
  unfoldable pub finish_truncated : Option Part → Exec (Unit {0})
  finish_truncated none = pure tt
  finish_truncated (some part) = if not part.is_file then finish_part env part else pure tt

  -- `try: parser.finish() except ValueError: …`
  unfoldable pub finish_parser : Result (Unit {0}) → Option Part → Exec (Unit {0})
  finish_parser (ok _) current = pure tt
  finish_parser (err e) current = if is_value_error e then finish_truncated current else raise e

  unfoldable pub raw_input_from : ℕ → ℕ → Exec (Option Object)
  raw_input_from zero index = pure none
  raw_input_from (suc left) index = do
    result ← ask (handle_raw_input index) (λ h. env.on_raw_input h index)
    elim result [ some reply ↦ pure (some reply) | none ↦ raw_input_from left (suc index) ]

  module _ (mm : Memmem) where
    abbrev pub feed : MultipartParser → Bytes → Result (List Event × MultipartParser)
    feed = Native.feed_map_data mm (λ bytes. bytes)

    abbrev pub feed_eof : MultipartParser → Result (List Event × MultipartParser)
    feed_eof = Native.feed_eof_map_data mm (λ bytes. bytes)

    -- The state behind a read that leaves `rest`.
    abbrev pub after_read : List (Result Bytes) → State → State
    after_read rest s = record s { input = rest; calls = s.calls ++ read env.chunk_size ∷ [] }

    -- `while chunk := self._input_data.read(self._chunk_size)`, on the reads that are left.
    unfoldable pub read_loop :
        List (Result Bytes) → MultipartParser → Cursor → Exec (MultipartParser × Cursor)
    read_loop [] parser cursor s = (ok (parser, cursor), after_read [] s)
    read_loop (err e ∷ rest) parser cursor s = (err e, after_read rest s)
    read_loop (ok [] ∷ rest) parser cursor s = (ok (parser, cursor), after_read rest s)
    read_loop (ok (b ∷ bs) ∷ rest) parser cursor s =
        (do
          (events, next) ← lift (feed parser (b ∷ bs))
          after ← on_events (finish_part env) cursor events
          read_loop rest next after)
          (after_read rest s)

    -- From the end of the input to the end of the `try` block.
    unfoldable pub parse_eof : MultipartParser → Cursor → Exec Cursor
    parse_eof parser cursor = do
      (events, last) ← lift (feed_eof parser)
      let exact_boundary_at_eof = is_body parser.state && is_end last.state
      after ← on_events (finish_at_eof exact_boundary_at_eof) cursor events
      finish_parser (Native.finish last) after.current_part
      pure (record {
        current_part = after.current_part;
        terminal_raw = if exact_boundary_at_eof then false else after.terminal_raw;
      })

    -- The `try` block.
    unfoldable pub parse_input : MultipartParser → Exec Cursor
    parse_input parser = do
      (last, cursor) ← λ s. read_loop s.input parser at_start s
      parse_eof last cursor

    -- The `else` block.
    unfoldable pub parse_ended : Cursor → Exec (Unit {0})
    parse_ended cursor = do
      if cursor.terminal_raw then enforce_field_count env false else pure tt
      λ s. (if s.unfinished_upload then interrupt_upload env s else pure tt s)

    -- The `except` clauses.
    unfoldable pub parse_failed : Exc → Exec (Unit {0})
    parse_failed (stop_upload connection_reset) = do
      ask close_files env.on_close_files
      if connection_reset then pure tt else drain_input
    parse_failed e =
        if is_runtime_error e || is_value_error e
        then abort_upload env >> raise (multipart_error e)
        else if is_exception e
        then abort_upload env >> raise e
        else raise e

    unfoldable pub after_try : Result Cursor × State → Result (Unit {0}) × State
    after_try (ok cursor, s) = parse_ended cursor s
    after_try (err e, s) = parse_failed e s

    -- `_parse` behind the creation of the parser.
    unfoldable pub parse_with : MultipartParser → Exec Reply
    parse_with parser = do
      λ s. after_try (parse_input parser s)
      _ ← complete_upload_from env env.handlers 0
      modify (λ s. record s { post_mutable = false })
      λ s. (ok (parsed s.post s.files), s)

    abbrev pub max_header_count : ℕ
    max_header_count = (env.max_total_header_size - 2) / 3

    abbrev pub new_parser : Result MultipartParser
    new_parser =
        Native.new env.boundary none max_header_count env.max_total_header_size
          (some env.max_total_header_size)

    -- The fields that `_parse` resets.
    abbrev pub reset : State → State
    reset s = record s {
      post = [];
      files = [];
      post_mutable = true;
      field_bytes = 0;
      field_count = 0;
      file_count = 0;
      unfinished_upload = false;
    }

    unfoldable pub parse_new : Result MultipartParser → Exec Reply
    parse_new (ok parser) = parse_with parser
    parse_new (err e) =
        raise (if is_runtime_error e || is_value_error e then multipart_error e else e)

    -- A reply of a handler to the raw input is returned at once.
    unfoldable pub parse_unless_replied : Option Object → Exec Reply
    parse_unless_replied (some reply) = pure (replied reply)
    parse_unless_replied none = modify reset >> parse_new new_parser

    -- `_parse`
    unfoldable pub parse : Exec Reply
    parse =
        if env.content_length == 0
        then pure (parsed [] [])
        else raw_input_from env.handlers 0 >>= parse_unless_replied
