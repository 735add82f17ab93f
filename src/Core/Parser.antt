-- ===== src/Core/Parser.antt =====
-- rust/src/multipart.rs: the constructor and the methods of `MultipartParser`. `feed` and
-- `feed_eof` of rust/src/bindings.rs are `feed_map_data` and `feed_eof_map_data` with a copy of
-- the slice for `map_data`.
use django_fast_multipart.Base.{
  ℕ, zero, suc, ◌+◌, ◌*◌, ◌%◌, ◌^◌, Bool, true, false, not, ◌&&◌, ◌||◌, Option, none, some, List,
  [], ◌∷◌, ◌++◌, Bytes, starts_with, length, ltb, ◌==◌, if◌then◌else◌, is_some_and, is_none_or,
}
use django_fast_multipart.Core.Boundary.{
  Step, handle_raw_boundary, preamble_boundary_at, preamble_tail, body_boundary_at, body_tail,
  emit_data,
}
use django_fast_multipart.Core.Checks.{
  check_total_header_size, is_incomplete, check_eof_header_size,
}
use django_fast_multipart.Core.Delimiter.{crlf, body_data_end, delimiter_suffix}
use django_fast_multipart.Core.Lines.{handle_header}
use django_fast_multipart.Core.Memmem.{Memmem}
use django_fast_multipart.Core.Types.{
  MultipartState, preamble, header, body, discard, MultipartEvent, begin, part_data,
  MultipartParser, saturating_add,
}
use django_fast_multipart.Exc.{runtime_error, value_error, Result, ok, err, ◌>>=◌, ◌>>◌, raise_if}

abbrev pub max_boundary_length : ℕ
max_boundary_length = 201

-- `MultipartParser::new`
unfoldable pub new : Bytes → Option ℕ → ℕ → ℕ → Option ℕ → Result MultipartParser
new boundary max_size max_header_count max_header_size max_total_header_size =
    if length boundary == 0 || ltb max_boundary_length (length boundary)
    then err (value_error "Boundary length must be between 1 and 201 bytes.")
    else ok (record {
      max_size = max_size;
      max_header_count = max_header_count;
      max_header_size = max_header_size;
      max_total_header_size = max_total_header_size;
      state = preamble;
      buffer = [];
      dash_boundary = b'-' ∷ b'-' ∷ boundary;
      delimiter_length = 2 + length boundary + 2;
      size = 0;
      current_headers = [];
      current_total_header_size = 0;
      pending_headers = false;
      eof_received = false;
    })

-- `finish`
unfoldable pub finish : MultipartParser → Result (Unit {0})
finish p = elim p.state [
  | MultipartState.end ↦ ok tt
  | _ ↦ err (value_error "Incomplete multipart message: closing boundary not received.")
]

module _ {D : Type 0} where
  -- `handle_preamble`, by the index of the first boundary token.
  unfoldable pub preamble_found : MultipartParser → Option ℕ → Result (Step D)
  preamble_found p none = preamble_tail p
  preamble_found p (some index) =
      preamble_boundary_at p index (index + length p.dash_boundary)
        (delimiter_suffix p.buffer (index + length p.dash_boundary))

  -- `handle_raw_segment` without the end of a header block before the next boundary token.
  unfoldable pub raw_segment_next : MultipartParser → Option ℕ → Result (Step D)
  raw_segment_next p (some index) = handle_raw_boundary p index
  raw_segment_next p none = do
    check_total_header_size p (length p.buffer)
    ok (record { progressed = false; parser = p; events = [] })

  -- `handle_raw_segment`, by what it finds.
  unfoldable pub raw_segment_found : MultipartParser → Option ℕ → Option ℕ → Result (Step D)
  raw_segment_found p next_boundary header_end =
      if is_some_and header_end (λ index. is_none_or next_boundary (λ boundary. ltb index boundary))
      then ok (record {
        progressed = true;
        parser = record p { current_headers = []; current_total_header_size = 0; state = header };
        events = [];
      })
      else raw_segment_next p next_boundary

module _ {D : Type 0} (mm : Memmem) where
  open mm use {find}

  unfoldable pub handle_preamble : MultipartParser → Result (Step D)
  handle_preamble p = preamble_found p (find p.buffer p.dash_boundary)

  unfoldable pub handle_raw_segment : MultipartParser → Result (Step D)
  handle_raw_segment p =
      raw_segment_found p (find p.buffer p.dash_boundary) (find p.buffer (crlf ++ crlf))

abbrev pub Fed : Type 0 → Type 0
Fed D = Result (List (MultipartEvent D) × MultipartParser)

-- The events of a round stand before those of the rounds behind it.
abbrev pub prepend : {D : Type 0} → List (MultipartEvent D) → Fed D → Fed D
prepend es r = do (rest, p) ← r; ok (es ++ rest, p)

-- The loop goes on from a round that progressed.
unfoldable pub after_round : {D : Type 0} → (MultipartParser → Fed D) → Result (Step D) → Fed D
after_round rest (err e) = err e
after_round rest (ok s) = elim s.progressed [
  | true ↦ prepend s.events (rest s.parser)
  | false ↦ ok (s.events, s.parser)
]

-- Every round that progresses drains the buffer, but for one that ends a discarded segment.
abbrev pub fuel_for : MultipartParser → ℕ
fuel_for p = 2 * length p.buffer + 2

abbrev pub accept : MultipartParser → Bytes → MultipartParser
accept p bytes = record p { size = (p.size + length bytes) % 2 ^ 64; buffer = p.buffer ++ bytes }

-- The headers are taken, and the part begins.
abbrev pub take_headers : MultipartParser → MultipartParser
take_headers p = record p {
  current_headers = [];
  current_total_header_size = 0;
  pending_headers = false;
}

abbrev pub is_body : MultipartState → Bool
is_body body = true
is_body _ = false

-- At the end of the input, pending headers begin a part.
abbrev pub eof_begin : {D : Type 0} → MultipartParser → List (MultipartEvent D)
eof_begin p = if p.pending_headers then begin p.current_headers ∷ [] else []

abbrev pub eof_start : MultipartParser → MultipartParser
eof_start p =
    let q = record p { eof_received = true } in if p.pending_headers then take_headers q else q

module _ {D : Type 0} (map_data : Bytes → D) where
  -- The search of a body, by the index of the first boundary token; `es` holds the events pushed
  -- before it.
  unfoldable pub body_found : List (MultipartEvent D) → MultipartParser → Option ℕ → Result (Step D)
  body_found es p none = body_tail map_data es p
  body_found es p (some index) =
      body_boundary_at map_data es p (body_data_end p.buffer index) (index + length p.dash_boundary)
        (delimiter_suffix p.buffer (index + length p.dash_boundary))

  -- The buffer is taken; what is left of a part is data.
  unfoldable pub eof_rest : List (MultipartEvent D) → MultipartParser → Fed D
  eof_rest es p = ok (
    es
        ++ (if is_body p.state && not (length p.buffer == 0)
            then part_data (map_data p.buffer) ∷ []
            else []),
    record p { buffer = [] },
  )

  -- In a body, a boundary token whose suffix is incomplete ends the part.
  unfoldable pub eof_boundary : List (MultipartEvent D) → MultipartParser → Option ℕ → Fed D
  eof_boundary es p none = eof_rest es p
  eof_boundary es p (some index) =
      let after_boundary = index + length p.dash_boundary in
      if is_incomplete (delimiter_suffix p.buffer after_boundary)
      then ok (
        es ++ (emit_data map_data p (body_data_end p.buffer index) ++ MultipartEvent.end ∷ []),
        record p {
          state = if after_boundary == length p.buffer then MultipartState.end else discard;
          buffer = [];
        },
      )
      else eof_rest es p

module _ {D : Type 0} (mm : Memmem) (map_data : Bytes → D) where
  open mm use {find}

  -- `handle_body` behind its test of `pending_headers`.
  unfoldable pub body_scan : List (MultipartEvent D) → MultipartParser → Result (Step D)
  body_scan es p = body_found map_data es p (find p.buffer p.dash_boundary)

  unfoldable pub handle_body : MultipartParser → Result (Step D)
  handle_body p =
      if p.pending_headers
      then (if ltb (length p.buffer) (length p.dash_boundary)
            && starts_with p.dash_boundary p.buffer
          then ok (record { progressed = false; parser = p; events = [] })
          else if starts_with p.buffer p.dash_boundary
          then handle_raw_boundary (record (take_headers p) { state = discard }) 0
          else body_scan (begin p.current_headers ∷ []) (take_headers p))
      else body_scan [] p

  -- One round of the loop of `feed_map_data`.
  unfoldable pub handle_in : MultipartState → MultipartParser → Result (Step D)
  handle_in preamble p = handle_preamble mm p
  handle_in header p = handle_header mm p
  handle_in body p = handle_body p
  handle_in discard p = handle_raw_segment mm p
  handle_in MultipartState.end p = handle_raw_segment mm p

  abbrev pub handle : MultipartParser → Result (Step D)
  handle p = handle_in p.state p

  -- The loop of `feed_map_data`, on fuel.
  unfoldable pub feed_loop : ℕ → MultipartParser → Fed D
  feed_loop zero p = ok ([], p)
  feed_loop (suc fuel) p = after_round (feed_loop fuel) (handle p)

  unfoldable pub feed_map_data : MultipartParser → Bytes → Fed D
  feed_map_data p bytes = do
    raise_if p.eof_received (value_error "Cannot feed data after EOF.")
    raise_if
        (is_some_and p.max_size (λ max_size. ltb max_size (saturating_add p.size (length bytes))))
        (runtime_error "Data exceeds maximum size.")
    feed_loop (fuel_for (accept p bytes)) (accept p bytes)

  unfoldable pub feed_eof_map_data : MultipartParser → Fed D
  feed_eof_map_data p = if p.eof_received then ok ([], p) else do
    check_eof_header_size (eof_start p)
    let q = record (eof_start p) { current_headers = [] }
    if is_body q.state
        then eof_boundary map_data (eof_begin p) q (find q.buffer q.dash_boundary)
        else eof_rest map_data (eof_begin p) q
