-- ===== src/Adapter/Tests.antt =====
-- The adapter run on concrete requests. The code outside is given by concrete functions: one
-- upload handler that takes every chunk and returns a file, and header texts of a fixed form.
use django_fast_multipart.Adapter.Decoder
use django_fast_multipart.Adapter.Ending.{
  multipart_error, is_header_limit_error, interrupt_from, interrupt_upload, abort_upload,
  complete_upload_from, drain_from, drain_input,
}
use django_fast_multipart.Adapter.Env.{Env, Params, Settings, upload_interrupted, close_files, pos}
use django_fast_multipart.Adapter.Headers.{
  lookup, insert, is_type_error, is_header_error, read_header, parse_headers_from, parse_headers,
  encode_all, content_length_of,
}
use django_fast_multipart.Adapter.Parse.{
  Reply, parsed, record_raw_part, on_event, on_events, finish_at_eof, finish_truncated,
  finish_parser, raw_input_from, read_loop, parse_eof, parse_input, parse_ended, parse_failed,
  after_try, parse_with, parse_new, parse_unless_replied, parse, new_parser,
}
use django_fast_multipart.Adapter.Part.{
  enforce_field_count, count_field, count_file, clean_file_name, describe_part, begin_file,
  begin_field, begin_named, begin_part,
}
use django_fast_multipart.Adapter.State.{State, ◌>>=◌}
use django_fast_multipart.Adapter.Upload.{
  add_at, after_new_file, new_file_from, start_file, start_part, open_part, check_field_memory_size,
  after_chunk, deliver_from, deliver_decoded, receive_file_data, receive_part_data, field_data,
  finish_field, after_complete, complete_from, finish_decoder, finish_file, finish_part,
}
use django_fast_multipart.Base.{
  ◌+◌, ◌≤◌, ◌≡◌, refl, true, false, none, some, List, [], ◌∷◌, Bytes, Text, codes, equal,
  starts_with, if◌then◌else◌,
}
use django_fast_multipart.Core.Memmem.Naive.{naive}
use django_fast_multipart.Adapter.Decoder.Streaming
use django_fast_multipart.Adapter.Decoder.Streaming.{feed-b64decode}
use django_fast_multipart.Adapter.Decoder.{fresh}
use django_fast_multipart.Adapter.Limits.Served.{parse_limits}
use django_fast_multipart.Adapter.Guards.{input_unchecked, unchecked_input}
use django_fast_multipart.Adapter.Ending.HeaderLimits.{BecomesTooLarge, feed_errors}
use django_fast_multipart.Core.Checks.{line_too_long}
use django_fast_multipart.Core.Failures.{RaisesOnly}
use django_fast_multipart.Adapter.Ending.Abort.{abort_upload_lem}
use django_fast_multipart.Core.{MultipartParser, preamble}
use django_fast_multipart.Python.Base64.{b64decode, base64_value}
use django_fast_multipart.Core.Parser as Native
use django_fast_multipart.Core.Tests.{feed_all}
use django_fast_multipart.Exc.{
  Result, ok, err, value_error, is_value_error, is_runtime_error, is_exception, message,
}
use django_fast_multipart.Python.Strings.{
  strip, strip_start, rstrip_spaces, decode, join, split, split_from, squeeze, index_of, is_space,
}

unfoldable pub lower_ascii : Text → Text
lower_ascii [] = []
lower_ascii (c ∷ cs) =
    (if starts_with (c ∷ []) (codes "C")
      then b'c'
      else if starts_with (c ∷ []) (codes "D")
      then b'd'
      else c)
    ∷ lower_ascii cs

unfoldable pub header_parameters : Text → Result (Text × Params)
header_parameters text =
    if equal text (codes "form-data; name=f; filename=g")
    then ok (codes "form-data", (codes "name", codes "f") ∷ (codes "filename", codes "g") ∷ [])
    else if equal text (codes "form-data; name=a")
    then ok (codes "form-data", (codes "name", codes "a") ∷ [])
    else err (value_error "unknown")

abbrev settings : Settings
settings = record {
  data_upload_max_number_files = some 1;
  data_upload_max_number_fields = some 2;
  data_upload_max_memory_size = some 100;
}

abbrev pub env : Env
env = record {
  settings = settings;
  content_length = 1;
  boundary = codes "AB";
  chunk_size = 64;
  max_total_header_size = 1024;
  handlers = 1;
  on_raw_input = λ h i. ok none;
  on_new_file = λ h i info. ok tt;
  on_data_chunk = λ h i bytes start. ok none;
  on_file_complete = λ h i size. ok (some size);
  on_upload_complete = λ h i. ok false;
  on_upload_interrupted = λ h i. ok tt;
  on_close_files = λ h. ok tt;
  is_truthy = λ o. true;
  parse_header_parameters = header_parameters;
  force_str = λ t. ok t;
  force_str_bytes = λ bs. ok bs;
  sanitize_file_name = λ t. some t;
  encode = λ t. ok t;
  lower = lower_ascii;
  int_of = λ t. ok (pos 0);
}

abbrev pub state_of : List (Result Bytes) → State
state_of input = record {
  post = [];
  files = [];
  post_mutable = true;
  field_bytes = 0;
  field_count = 0;
  file_count = 0;
  unfinished_upload = false;
  input = input;
  calls = [];
}

-- `_parse` on a request body that arrives in the given chunks.
unfoldable pub run : List Bytes → Result Reply × State
unfolding ◌>>=◌ Decoder.feed Native.finish Native.new abort_upload add_at after_chunk after_complete
    after_new_file after_try begin_field begin_file begin_named begin_part check_field_memory_size
    clean_file_name complete_from complete_upload_from content_length_of count_field count_file
    decode deliver_decoded deliver_from describe_part drain_from drain_input encode_all
    enforce_field_count equal feed_all field_data finish_at_eof finish_decoder finish_field
    finish_file finish_parser finish_part finish_truncated header_parameters insert interrupt_from
    interrupt_upload is_exception is_header_error is_header_limit_error is_runtime_error
    is_type_error is_value_error lookup lower_ascii message multipart_error new_file_from on_event
    on_events open_part parse parse_ended parse_eof parse_failed parse_headers parse_headers_from
    parse_input parse_new parse_unless_replied parse_with raw_input_from read_header read_loop
    receive_file_data receive_part_data record_raw_part rstrip_spaces start_file start_part
    starts_with strip strip_start
run chunks = parse env naive (state_of (oks chunks))
  where
    oks : List Bytes → List (Result Bytes)
    oks [] = []
    oks (c ∷ cs) = ok c ∷ oks cs

field_request : List Bytes
field_request =
    codes "--AB\r\nContent-Disposition: form-data; name=a\r\n\r\nhe"
    ∷ codes "llo\r\n--AB--\r\n"
    ∷ []

field_parsed : (run field_request).0 ≡ ok (parsed ((some (codes "a"), codes "hello") ∷ []) [])
unfolding run field_request
field_parsed = refl

file_request : List Bytes
file_request =
    codes "--AB\r\nContent-Disposition: form-data; name=f; filename=g\r\n\r\nhel"
    ∷ codes "lo\r\n--AB--\r\n"
    ∷ []

file_parsed : (run file_request).0 ≡ ok (parsed [] ((some (codes "f"), 5) ∷ []))
unfolding run file_request
file_parsed = refl

-- Base64 data in two chunks, with white space in it.
abbrev base64_chunks : List Bytes
base64_chunks = codes "aGVs\r\nb" ∷ codes "G8=" ∷ []

base64_run :
    Streaming.feed_all fresh base64_chunks
    ≡ ok (codes "hello", record { buffer = []; padding_complete = true })
unfolding Streaming.feed_all b64decode base64_value join split split_from index_of is_space
    Decoder.feed Decoder.feed_stripped Decoder.decode_groups
base64_run = refl

base64_finished : Decoder.finish (record { buffer = []; padding_complete = true }) ≡ ok tt
unfolding Decoder.finish
base64_finished = refl

feed-b64decode_example : b64decode (squeeze (join base64_chunks)) ≡ ok (codes "hello")
feed-b64decode_example = feed-b64decode base64_chunks base64_run base64_finished

-- The parser that `_parse` makes.
abbrev fresh_parser : MultipartParser
fresh_parser = record {
  max_size = none;
  max_header_count = 340;
  max_header_size = 1024;
  max_total_header_size = some 1024;
  state = preamble;
  buffer = [];
  dash_boundary = codes "--AB";
  delimiter_length = 6;
  size = 0;
  current_headers = [];
  current_total_header_size = 0;
  pending_headers = false;
  eof_received = false;
}

new_parser_made : new_parser env naive ≡ ok fresh_parser
unfolding Native.new
new_parser_made = refl

input_unchecked_example :
    parse_input env naive fresh_parser (state_of (ok (codes "--AB\r\n") ∷ []))
    ≡ unchecked_input env naive fresh_parser (state_of (ok (codes "--AB\r\n") ∷ []))
input_unchecked_example =
    input_unchecked env naive fresh_parser (state_of (ok (codes "--AB\r\n") ∷ [])) new_parser_made

abort_upload_example :
    abort_upload env (record (state_of []) { unfinished_upload = true })
    ≡ (ok tt, record (state_of []) { calls = upload_interrupted 0 ∷ close_files ∷ [] })
abort_upload_example =
    abort_upload_lem env (λ h i. tt) (λ h. tt) (record (state_of []) { unfinished_upload = true })

-- A field and a file, in two chunks.
mixed_request : List Bytes
mixed_request =
    codes "--AB\r\nContent-Disposition: form-data; name=a\r\n\r\nhello\r\n--AB\r\nCon"
    ∷ codes "tent-Disposition: form-data; name=f; filename=g\r\n\r\nhello\r\n--AB--\r\n"
    ∷ []

mixed_reads : List (Result Bytes)
mixed_reads =
    ok (codes "--AB\r\nContent-Disposition: form-data; name=a\r\n\r\nhello\r\n--AB\r\nCon")
    ∷ ok (codes "tent-Disposition: form-data; name=f; filename=g\r\n\r\nhello\r\n--AB--\r\n")
    ∷ []

mixed_run : parse env naive (state_of mixed_reads) ≡ (
  ok (parsed ((some (codes "a"), codes "hello") ∷ []) ((some (codes "f"), 5) ∷ [])),
  (run mixed_request).1,
)
unfolding run mixed_request mixed_reads
mixed_run = refl

parse_limits_example :
    (1 ≤ 1)
    × (1 ≤ 3)
    × ((run mixed_request).1.field_bytes ≤ 100)
    × (1 + 2 + 0 ≤ (run mixed_request).1.field_bytes)
parse_limits_example =
    parse_limits env naive (state_of mixed_reads) (run mixed_request).1
      ((some (codes "a"), codes "hello") ∷ []) ((some (codes "f"), 5) ∷ []) refl mixed_run

mixed_bytes : (run mixed_request).1.field_bytes ≡ 8
unfolding run mixed_request
mixed_bytes = refl

-- A parser with a small limit on header lines, and a line beyond it.
abbrev tight_parser : MultipartParser
tight_parser = record fresh_parser { max_header_size = 3 }

feed_errors_example :
    RaisesOnly BecomesTooLarge
      (Native.feed_map_data naive (λ (b : Bytes). b) tight_parser (codes "--AB\r\nabcdefgh"))
    × RaisesOnly BecomesTooLarge (Native.feed_eof_map_data naive (λ (b : Bytes). b) tight_parser)
feed_errors_example =
    feed_errors naive (λ b. b) tight_parser (codes "--AB\r\nabcdefgh") (refl, refl)

tight_raises : feed_all tight_parser (codes "--AB\r\nabcdefgh" ∷ []) ≡ err line_too_long
unfolding feed_all
tight_raises = refl
