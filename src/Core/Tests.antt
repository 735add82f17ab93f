-- ===== src/Core/Tests.antt =====
-- The parser run on concrete bytes.
use django_fast_multipart.Base.{
  ◌≡◌, ◌+◌, ◌≤◌, length, refl, true, false, arith, none, some, List, [], ◌∷◌, Bytes, codes,
  starts_with, ends_with,
}
use django_fast_multipart.Core.Boundary.{
  handle_raw_boundary, raw_boundary_at, preamble_boundary_at, preamble_tail, body_boundary_at,
  body_tail, emit_data,
}
use django_fast_multipart.Core.Checks.{
  check_total_header_size, check_incomplete_header_prefix, incomplete_header_prefix_size,
  eof_header_size, check_eof_header_size,
}
use django_fast_multipart.Core.Delimiter.{
  body_data_end, longest_suffix, partial_suffix_length, padding, line_ending, suffix_of_tail,
  delimiter_suffix,
}
use django_fast_multipart.Core.Header.{name_length, trim_ascii_start, trim_ascii, split_line}
use django_fast_multipart.Core.Lines.{
  push_header, header_boundary, header_line, header_tail, header_found, handle_header,
}
use django_fast_multipart.Core.Memmem.Naive.{find_naive, naive}
use django_fast_multipart.Core.Parser.{
  new, preamble_found, handle_preamble, raw_segment_next, raw_segment_found, handle_raw_segment,
  body_found, body_scan, handle_body, handle_in, after_round, feed_loop, feed_map_data, accept,
  eof_rest, eof_boundary, feed_eof_map_data,
}
use django_fast_multipart.Core.Grammar.Order.{IsTracked, Ensures}
use django_fast_multipart.Core.Grammar.{feed-IsTracked, feed_eof-IsTracked}
use django_fast_multipart.Core.Buffer.{IsFor}
use django_fast_multipart.Core.Buffer.Rounds.{feed_bounded}
use django_fast_multipart.Core.Buffer.Padding.{spaces, IsPadded, feed-spaces}
use django_fast_multipart.Core.Progress.{Runs, feed-Runs}
use django_fast_multipart.Core.Types.{
  body, discard, preamble, MultipartEvent, begin, part_data, MultipartParser, saturating_add,
}
use django_fast_multipart.Exc.{Result, ok, ◌>>=◌}

-- A parser that reads `chunks` and then the end of the input; the events, batch by batch.
unfoldable pub feed_all : MultipartParser → List Bytes → Result (List (List (MultipartEvent Bytes)))
unfolding handle_raw_boundary raw_boundary_at preamble_boundary_at preamble_tail body_boundary_at
    body_tail emit_data check_total_header_size check_incomplete_header_prefix
    incomplete_header_prefix_size eof_header_size check_eof_header_size body_data_end longest_suffix
    partial_suffix_length padding line_ending suffix_of_tail delimiter_suffix name_length
    trim_ascii_start trim_ascii split_line push_header header_boundary header_line header_tail
    header_found handle_header find_naive preamble_found handle_preamble raw_segment_next
    raw_segment_found handle_raw_segment body_found body_scan handle_body handle_in after_round
    feed_loop feed_map_data eof_rest eof_boundary feed_eof_map_data starts_with ends_with
    saturating_add
feed_all p [] = do (es, q) ← feed_eof_map_data naive (λ b. b) p; ok (es ∷ [])
feed_all p (c ∷ cs) = do
  (es, q) ← feed_map_data naive (λ b. b) p c
  rest ← feed_all q cs
  ok (es ∷ rest)

parse_all : List Bytes → Result (List (List (MultipartEvent Bytes)))
unfolding feed_all new
parse_all chunks = do p ← new (codes "AB") none 8 4224 none; feed_all p chunks

abbrev field_headers : List (Bytes × Bytes)
field_headers = (codes "a", codes "b c") ∷ []

two_parts :
    parse_all
      (codes "pre--AB\r\na : b c \r\n\r\nhel\r" ∷ codes "\n--AB\r\n\r\nx\r\n--AB--\r\n" ∷ [])
    ≡ ok (
        (begin field_headers ∷ [])
        ∷ (part_data (codes "hel")
            ∷ MultipartEvent.end
            ∷ begin []
            ∷ part_data (codes "x")
            ∷ MultipartEvent.end
            ∷ [])
        ∷ []
        ∷ [])
unfolding parse_all
two_parts = refl

-- In the data of a part, and at the start of a request body.
abbrev in_data : MultipartParser
in_data = record {
  max_size = none;
  max_header_count = 8;
  max_header_size = 64;
  max_total_header_size = some 64;
  state = body;
  buffer = codes "he";
  dash_boundary = codes "--AB";
  delimiter_length = 6;
  size = 20;
  current_headers = [];
  current_total_header_size = 2;
  pending_headers = false;
  eof_received = false;
}

feed-IsTracked_example :
    Ensures
      (IsTracked true)
      (feed_map_data naive (λ (b : Bytes). b) in_data (codes "llo\r\n--AB--"))
feed-IsTracked_example = feed-IsTracked naive (λ b. b) in_data (codes "llo\r\n--AB--") (λ h. refl)

feed_eof-IsTracked_example :
    Ensures (IsTracked true) (feed_eof_map_data naive (λ (b : Bytes). b) in_data)
feed_eof-IsTracked_example = feed_eof-IsTracked naive (λ b. b) in_data (λ h. refl)

feed-Runs_example :
    Runs naive
      (λ (b : Bytes). b)
      (accept in_data (codes "llo\r\n--AB--"))
      (feed_map_data naive (λ b. b) in_data (codes "llo\r\n--AB--"))
feed-Runs_example =
    feed-Runs naive (λ b. b) in_data (codes "llo\r\n--AB--") (omega arith) (refl, refl)

-- Behind the next chunk, still in the data.
abbrev behind : MultipartParser
behind = record in_data { buffer = codes "llo\r\n"; size = 25 }

fed_behind :
    feed_map_data naive (λ (b : Bytes). b) in_data (codes "llo\r\n")
    ≡ ok (part_data (codes "he") ∷ [], behind)
unfolding feed_all
fed_behind = refl

feed_bounded_example : IsFor (codes "--AB") 64 behind × (5 ≤ 4 + 64 + 3)
feed_bounded_example =
    feed_bounded Bytes (codes "--AB") 64 (omega arith) naive (λ b. b) in_data (codes "llo\r\n")
      (part_data (codes "he") ∷ []) behind (omega arith)
      (record { same_token = refl; same_delimiter = refl; same_limit = refl }) fed_behind refl

-- At the padding of a boundary token in a raw segment.
abbrev at_padding : MultipartParser
at_padding = record in_data {
  state = discard;
  buffer = codes "--AB ";
  size = 10;
  current_total_header_size = 0;
}

-- A new parser comes there.
fed_to_padding :
    feed_map_data naive
      (λ (b : Bytes). b)
      (record at_padding { state = preamble; buffer = []; size = 0 })
      (codes "--ABX--AB ")
    ≡ ok ([], at_padding)
unfolding feed_all
fed_to_padding = refl

feed-spaces_example :
    (feed_map_data naive (λ (b : Bytes). b) at_padding (spaces 100)
      ≡ ok ([], accept at_padding (spaces 100)))
    × IsPadded (1 + 100) (accept at_padding (spaces 100))
    × (length (accept at_padding (spaces 100)).buffer ≡ 4 + (1 + 100))
feed-spaces_example =
    feed-spaces naive (λ b. b) at_padding 1 100 (omega arith)
      (record { in_raw = refl; padded = refl }) (refl, refl)
