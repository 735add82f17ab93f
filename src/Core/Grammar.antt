-- ===== src/Core/Grammar.antt =====
-- The order of the events of rust/src/multipart.rs: parts do not overlap or nest, and what the
-- adapter of src/django_fast_multipart/parser.py checks about that order never fails.
mod Handlers
pub mod Order
use django_fast_multipart.Base.{
  ℕ, zero, suc, Bool, true, false, not, ◌&&◌, ◌≡◌, refl, ◌∙◌, append-nil, Option, none, some, List,
  [], ◌∷◌, ◌++◌, Bytes, arith, inl, inr, Option-cases, Bool-cases, ◌+◌, ◌-◌, length,
}
use django_fast_multipart.Core.Boundary.{
  Step, handle_raw_boundary, raw_boundary_at, preamble_boundary_at, preamble_tail, body_boundary_at,
  body_tail, emit_data,
}
use django_fast_multipart.Core.Delimiter.{body_data_end, delimiter_suffix}
use django_fast_multipart.Core.Lines.{
  header_boundary, header_line, header_tail, header_found, handle_header,
}
use django_fast_multipart.Core.Memmem.{Memmem}
use django_fast_multipart.Core.Parser.{
  new, preamble_found, handle_preamble, raw_segment_next, raw_segment_found, handle_raw_segment,
  body_found, body_scan, handle_body, handle_in, handle, feed_loop, feed_map_data, eof_rest,
  eof_boundary, feed_eof_map_data, is_body, take_headers, Fed, prepend, after_round, eof_start,
  eof_begin, accept, fuel_for,
}
use django_fast_multipart.Core.Types.{
  MultipartState, body, discard, header, preamble, MultipartEvent, begin, part_data, raw,
  MultipartParser, DelimiterSuffix, open_at, close, incomplete, invalid, bare_line_feed,
}
use django_fast_multipart.Exc.{Result, ok, err, ◌>>=◌}
use django_fast_multipart.Core.Grammar.Order.{
  track, is_inside, PendingInBody, IsOrdered, Ensures, track-append, IsTracked,
}
use Handlers.{handle_in-IsOrdered, tracked_end}

module _ {D : Type 0} where
  prepend-IsTracked :
      (b : Bool) (s : Step D) (r : Fed D)
      → IsOrdered b s
      → Ensures (IsTracked (is_inside s.parser)) r
      → Ensures (IsTracked b) (prepend s.events r)
  prepend-IsTracked b s (ok (es, q)) h k = record {
    tracked = track-append b _ s.events es h.tracked ∙ k.tracked;
    pending = k.pending;
  }
  prepend-IsTracked b s (err e) h k = tt

  after_round-IsTracked :
      (b : Bool) (rest : MultipartParser → Fed D) (r : Result (Step D))
      → ((q : MultipartParser) → PendingInBody q → Ensures (IsTracked (is_inside q)) (rest q))
      → Ensures (IsOrdered b) r
      → Ensures (IsTracked b) (after_round rest r)
  unfolding after_round
  after_round-IsTracked b rest (err e) k h = tt
  after_round-IsTracked b rest (ok s) k h = elim (Bool-cases s.progressed) [
    | inl more ↦ rw more (prepend-IsTracked b s (rest s.parser) h (k s.parser h.pending))
    | inr done ↦ rw done (record { tracked = h.tracked; pending = h.pending })
  ]

  eof_rest-IsTracked :
      (map_data : Bytes → D) (b : Bool) (es : List (MultipartEvent D)) (p : MultipartParser)
      → track b es ≡ some (is_inside p)
      → p.pending_headers ≡ false
      → Ensures (IsTracked b) (eof_rest map_data es p)
  unfolding eof_rest
  eof_rest-IsTracked map_data b es p h t =
      ground (
        arith,
        track-append b (is_inside p) es (part_data (map_data p.buffer) ∷ []) h,
        append-nil es,
      )

  eof_boundary-IsTracked :
      (map_data : Bytes → D) (b : Bool) (es : List (MultipartEvent D)) (p : MultipartParser)
      (o : Option ℕ)
      → track b es ≡ some true
      → p.pending_headers ≡ false
      → is_body p.state ≡ true
      → Ensures (IsTracked b) (eof_boundary map_data es p o)
  unfolding eof_boundary
  eof_boundary-IsTracked map_data b es p none h t k =
      eof_rest-IsTracked map_data b es p (ground arith) t
  eof_boundary-IsTracked map_data b es p (some i) h t k = ground (
    arith,
    eof_rest-IsTracked map_data b es p,
    tracked_end map_data b es p h t k (body_data_end p.buffer i),
  )

module _ {D : Type 0} (mm : Memmem) (map_data : Bytes → D) where
  feed_loop-IsTracked :
      (fuel : ℕ) (p : MultipartParser)
      → PendingInBody p
      → Ensures (IsTracked (is_inside p)) (feed_loop mm map_data fuel p)
  unfolding feed_loop
  feed_loop-IsTracked zero p v = record { tracked = refl; pending = v }
  feed_loop-IsTracked (suc fuel) p v =
      after_round-IsTracked _ _ _ (feed_loop-IsTracked fuel)
        (handle_in-IsOrdered mm map_data p p.state refl v)

  -- From a parser whose headers wait for a part only in a body, a successful call of `feed` gives
  -- events in order, from inside or outside of a part as the parser stands before it to where it
  -- stands behind it; and there again headers wait for a part only in a body.
  pub feed-IsTracked :
      (p : MultipartParser) (bytes : Bytes)
      → PendingInBody p
      → Ensures (IsTracked (is_inside p)) (feed_map_data mm map_data p bytes)
  unfolding feed_map_data
  feed-IsTracked p bytes v =
      ground (arith, feed_loop-IsTracked (fuel_for (accept p bytes)) (accept p bytes) v)

  -- So does a successful call of `feed_eof`, from such a parser.
  pub feed_eof-IsTracked :
      (p : MultipartParser)
      → PendingInBody p
      → Ensures (IsTracked (is_inside p)) (feed_eof_map_data mm map_data p)
  unfolding feed_eof_map_data
  feed_eof-IsTracked p v =
      let q = record (eof_start p) { current_headers = [] } in
      ground (
        arith,
        v,
        eof_rest-IsTracked map_data (is_inside p) (eof_begin p) q,
        eof_boundary-IsTracked map_data (is_inside p) (eof_begin p) q
            (mm.find q.buffer q.dash_boundary),
      )
