-- ===== src/Core/Boundary.antt =====
-- rust/src/multipart.rs: what the handlers do at a boundary token, by what follows it. A handler
-- returns whether it progressed, the parser behind it and the events that it pushed, in order; an
-- error is the exception that the Python binding raises.
use django_fast_multipart.Base.{
  ℕ, ◌+◌, ◌-◌, Bool, true, false, List, [], ◌∷◌, ◌++◌, Bytes, take, drop, length, ltb,
  if◌then◌else◌,
}
use django_fast_multipart.Core.Checks.{check_incomplete_header_prefix}
use django_fast_multipart.Core.Delimiter.{delimiter_suffix}
use django_fast_multipart.Core.Types.{
  MultipartState, header, discard, MultipartEvent, part_data, raw, DelimiterSuffix, open_at, close,
  incomplete, MultipartParser,
}
use django_fast_multipart.Exc.{Result, ok, ◌>>◌}

-- What a handler leaves.
pub record Step (D : Type 0) : Type 0 where
  pub progressed : Bool
  pub parser : MultipartParser
  pub events : List (MultipartEvent D)

-- `self.buffer.drain(..n)` and a new state.
abbrev pub advance : MultipartParser → ℕ → MultipartState → MultipartParser
advance p n s = record p { buffer = drop n p.buffer; state = s }

module _ {D : Type 0} where
  -- The `match` of `handle_raw_boundary` on the suffix.
  unfoldable pub raw_boundary_at : MultipartParser → ℕ → ℕ → DelimiterSuffix → Result (Step D)
  raw_boundary_at p index after_boundary (open_at consumed) = ok (record {
    progressed = true;
    parser = record (advance p consumed header) {
      current_total_header_size = consumed - after_boundary;
    };
    events = raw ∷ [];
  })
  raw_boundary_at p index after_boundary close = ok (record {
    progressed = true;
    parser = advance p after_boundary MultipartState.end;
    events = raw ∷ [];
  })
  raw_boundary_at p index after_boundary incomplete =
      ok (record { progressed = false; parser = advance p index p.state; events = [] })
  raw_boundary_at p index after_boundary _ =
      ok
        (record { progressed = true; parser = advance p after_boundary discard; events = raw ∷ [] })

  unfoldable pub handle_raw_boundary : MultipartParser → ℕ → Result (Step D)
  handle_raw_boundary p index =
      let after_boundary = index + length p.dash_boundary in
      raw_boundary_at p index after_boundary (delimiter_suffix p.buffer after_boundary)

  -- The `match` of `handle_preamble` on the suffix.
  unfoldable pub preamble_boundary_at : MultipartParser → ℕ → ℕ → DelimiterSuffix → Result (Step D)
  preamble_boundary_at p index after_boundary (open_at consumed) = ok (record {
    progressed = true;
    parser = record (advance p consumed header) {
      current_total_header_size = consumed - after_boundary;
    };
    events = [];
  })
  preamble_boundary_at p index after_boundary close = ok (record {
    progressed = true;
    parser = advance p after_boundary MultipartState.end;
    events = [];
  })
  preamble_boundary_at p index after_boundary incomplete = do
    check_incomplete_header_prefix p after_boundary
    ok (record { progressed = false; parser = advance p index p.state; events = [] })
  preamble_boundary_at p index after_boundary _ =
      ok (record { progressed = true; parser = advance p after_boundary discard; events = [] })

  -- Without a boundary token, only a possible beginning of one is kept.
  unfoldable pub preamble_tail : MultipartParser → Result (Step D)
  preamble_tail p =
      let retained = length p.dash_boundary + 1 in
      ok (record {
        progressed = false;
        parser =
            if ltb retained (length p.buffer)
            then advance p (length p.buffer - retained) p.state
            else p;
        events = [];
      })

  -- `emit_data`, with the slice mapped.
  unfoldable pub emit_data : (Bytes → D) → MultipartParser → ℕ → List (MultipartEvent D)
  emit_data map_data p n = if ltb 0 n then part_data (map_data (take n p.buffer)) ∷ [] else []

  -- The `match` of `handle_body` on the suffix; `es` holds the events pushed before it.
  unfoldable pub body_boundary_at :
      (Bytes → D)
      → List (MultipartEvent D)
      → MultipartParser
      → ℕ
      → ℕ
      → DelimiterSuffix
      → Result (Step D)
  body_boundary_at map_data es p data_end after_boundary (open_at consumed) = ok (record {
    progressed = true;
    parser = record (advance p consumed header) {
      current_total_header_size = consumed - after_boundary;
    };
    events = es ++ (emit_data map_data p data_end ++ MultipartEvent.end ∷ []);
  })
  body_boundary_at map_data es p data_end after_boundary close = ok (record {
    progressed = true;
    parser = advance p after_boundary MultipartState.end;
    events = es ++ (emit_data map_data p data_end ++ MultipartEvent.end ∷ []);
  })
  body_boundary_at map_data es p data_end after_boundary incomplete = do
    check_incomplete_header_prefix p after_boundary
    ok (record {
      progressed = false;
      parser = advance p data_end p.state;
      events = es ++ emit_data map_data p data_end;
    })
  body_boundary_at map_data es p data_end after_boundary _ = ok (record {
    progressed = true;
    parser = advance p after_boundary discard;
    events = es ++ (emit_data map_data p data_end ++ MultipartEvent.end ∷ []);
  })

  -- Without a boundary token, all is data but what may begin a delimiter.
  unfoldable pub body_tail :
      (Bytes → D) → List (MultipartEvent D) → MultipartParser → Result (Step D)
  body_tail map_data es p =
      let retained = p.delimiter_length - 1 in
      let emitted = length p.buffer - retained in
      ok (
        if ltb retained (length p.buffer)
        then record {
          progressed = false;
          parser = advance p emitted p.state;
          events = es ++ emit_data map_data p emitted;
        }
        else record { progressed = false; parser = p; events = es })
