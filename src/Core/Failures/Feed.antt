-- ===== src/Core/Failures/Feed.antt =====
-- What `feed` and `feed_eof` of rust/src/multipart.rs raise.
use django_fast_multipart.Base.{
  ℕ, zero, suc, ◌+◌, ◌&&◌, Option, none, some, List, [], Bytes, length, Bool-cases, inl, inr, ltb,
  starts_with,
}
use django_fast_multipart.Core.Boundary.{Step, handle_raw_boundary, body_boundary_at, body_tail}
use django_fast_multipart.Core.Checks.{
  line_too_long, too_many_headers, total_too_large, check_total_header_size,
  check_incomplete_header_prefix, check_eof_header_size, is_incomplete,
}
use django_fast_multipart.Core.Delimiter.{delimiter_suffix}
use django_fast_multipart.Core.Lines.{push_header, header_line, header_found, handle_header}
use django_fast_multipart.Core.Memmem.{Memmem}
use django_fast_multipart.Core.Parser.{
  handle_preamble, handle_raw_segment, body_found, body_scan, handle_body, handle_in, feed_loop,
  feed_map_data, eof_rest, eof_boundary, feed_eof_map_data, is_body, take_headers, Fed, eof_start,
  after_round, accept, fuel_for,
}
use django_fast_multipart.Core.Progress.{IsOpenFor, feed-eq-loop}
use django_fast_multipart.Core.Types.{
  MultipartState, preamble, header, body, discard, MultipartEvent, MultipartParser, DelimiterSuffix,
  open_at, close, incomplete, invalid, bare_line_feed,
}
use django_fast_multipart.Exc.{Exc, Result, ok, err, raise_if}
use django_fast_multipart.Core.Failures.{
  RaisesOnly, bind-RaisesOnly, if-RaisesOnly, raise_if-RaisesOnly, check_total-RaisesOnly,
  check_prefix-RaisesOnly, push_header-RaisesOnly, preamble_found-RaisesOnly,
  handle_raw_boundary-RaisesOnly, raw_segment_found-RaisesOnly, header_boundary-RaisesOnly,
  header_tail-RaisesOnly,
}

module _ (L : Exc → Type 0) (line : L line_too_long) (count : L too_many_headers)
    (total : L total_too_large) (D : Type 0) where
  module _ (mm : Memmem) where
    header_line-RaisesOnly :
        (p : MultipartParser) (index : ℕ) → RaisesOnly L (header_line {D = D} mm p index)
    unfolding header_line
    header_line-RaisesOnly p zero =
        bind-RaisesOnly L (check_total_header_size p _) _
          (check_total-RaisesOnly L line count total p _) (λ u. tt)
    header_line-RaisesOnly p (suc i) =
        bind-RaisesOnly L (raise_if (ltb p.max_header_size (suc i)) line_too_long) _
          (raise_if-RaisesOnly L _ line_too_long line)
          λ u.
            bind-RaisesOnly L (check_total_header_size p _) _
              (check_total-RaisesOnly L line count total p _)
              λ u.
                bind-RaisesOnly L (push_header p _ _) _
                  (push_header-RaisesOnly L line count total p _ _) (λ u. tt)

    header_found-RaisesOnly :
        (p : MultipartParser) (o e : Option ℕ) → RaisesOnly L (header_found {D = D} mm p o e)
    unfolding header_found
    header_found-RaisesOnly p (some index) e =
        header_boundary-RaisesOnly L line count total D p index
    header_found-RaisesOnly p none (some index) = header_line-RaisesOnly p index
    header_found-RaisesOnly p none none = header_tail-RaisesOnly L line count total D p

    module _ (map_data : Bytes → D) where
      body_boundary_at-RaisesOnly :
          (es : List (MultipartEvent D)) (p : MultipartParser) (n after : ℕ)
          (suffix : DelimiterSuffix)
          → RaisesOnly L (body_boundary_at map_data es p n after suffix)
      unfolding body_boundary_at
      body_boundary_at-RaisesOnly es p n after (open_at k) = tt
      body_boundary_at-RaisesOnly es p n after close = tt
      body_boundary_at-RaisesOnly es p n after incomplete =
          bind-RaisesOnly L (check_incomplete_header_prefix p _) _
            (check_prefix-RaisesOnly L line count total p _) (λ u. tt)
      body_boundary_at-RaisesOnly es p n after invalid = tt
      body_boundary_at-RaisesOnly es p n after bare_line_feed = tt

      body_found-RaisesOnly :
          (es : List (MultipartEvent D)) (p : MultipartParser) (o : Option ℕ)
          → RaisesOnly L (body_found map_data es p o)
      unfolding body_found body_tail
      body_found-RaisesOnly es p none = tt
      body_found-RaisesOnly es p (some index) = body_boundary_at-RaisesOnly es p _ _ _

      handle_body-RaisesOnly : (p : MultipartParser) → RaisesOnly L (handle_body mm map_data p)
      unfolding handle_body body_scan
      handle_body-RaisesOnly p =
          if-RaisesOnly L p.pending_headers _ (body_found map_data [] p _)
            (if-RaisesOnly L
              (ltb (length p.buffer) (length p.dash_boundary)
                && starts_with p.dash_boundary p.buffer)
              _ _ tt
              (if-RaisesOnly L (starts_with p.buffer p.dash_boundary)
                (handle_raw_boundary (record (take_headers p) { state = discard }) 0) _
                (handle_raw_boundary-RaisesOnly L line count total D _ 0)
                (body_found-RaisesOnly _ (take_headers p) _)))
            (body_found-RaisesOnly [] p _)

      handle_in-RaisesOnly :
          (state : MultipartState) (p : MultipartParser)
          → RaisesOnly L (handle_in mm map_data state p)
      unfolding handle_in handle_preamble handle_header handle_raw_segment
      handle_in-RaisesOnly preamble p = preamble_found-RaisesOnly L line count total D p _
      handle_in-RaisesOnly header p = header_found-RaisesOnly p _ _
      handle_in-RaisesOnly body p = handle_body-RaisesOnly p
      handle_in-RaisesOnly discard p = raw_segment_found-RaisesOnly L line count total D p _ _
      handle_in-RaisesOnly MultipartState.end p =
          raw_segment_found-RaisesOnly L line count total D p _ _

      after_round-RaisesOnly :
          (rest : MultipartParser → Fed D) (r : Result (Step D))
          → RaisesOnly L r
          → ((q : MultipartParser) → RaisesOnly L (rest q))
          → RaisesOnly L (after_round rest r)
      unfolding after_round
      after_round-RaisesOnly rest (err e) h k = h
      after_round-RaisesOnly rest (ok s) h k = elim (Bool-cases s.progressed) [
        | inl e ↦ rw e (bind-RaisesOnly L (rest s.parser) _ (k s.parser) (λ u. tt))
        | inr e ↦ rw e tt
      ]

      feed_loop-RaisesOnly :
          (fuel : ℕ) (p : MultipartParser) → RaisesOnly L (feed_loop mm map_data fuel p)
      unfolding feed_loop
      feed_loop-RaisesOnly zero p = tt
      feed_loop-RaisesOnly (suc fuel) p =
          after_round-RaisesOnly (feed_loop mm map_data fuel) _ (handle_in-RaisesOnly p.state p)
            (feed_loop-RaisesOnly fuel)

      pub feed-RaisesOnly :
          (p : MultipartParser) (bytes : Bytes)
          → IsOpenFor p bytes
          → RaisesOnly L (feed_map_data mm map_data p bytes)
      feed-RaisesOnly p bytes o =
          rw (feed-eq-loop mm map_data p bytes o)
            (feed_loop-RaisesOnly (fuel_for (accept p bytes)) (accept p bytes))

      eof_rest-RaisesOnly :
          (es : List (MultipartEvent D)) (p : MultipartParser)
          → RaisesOnly L (eof_rest map_data es p)
      unfolding eof_rest
      eof_rest-RaisesOnly es p = tt

      eof_boundary-RaisesOnly :
          (es : List (MultipartEvent D)) (p : MultipartParser) (o : Option ℕ)
          → RaisesOnly L (eof_boundary map_data es p o)
      unfolding eof_boundary
      eof_boundary-RaisesOnly es p none = eof_rest-RaisesOnly es p
      eof_boundary-RaisesOnly es p (some index) =
          if-RaisesOnly L
            (is_incomplete (delimiter_suffix p.buffer (index + length p.dash_boundary))) _
            (eof_rest map_data es p) tt (eof_rest-RaisesOnly es p)

      pub feed_eof-RaisesOnly :
          (p : MultipartParser) → RaisesOnly L (feed_eof_map_data mm map_data p)
      unfolding feed_eof_map_data check_eof_header_size
      feed_eof-RaisesOnly p = if-RaisesOnly L p.eof_received (ok ([], p)) _ tt (
          bind-RaisesOnly L (raise_if _ total_too_large) _
            (raise_if-RaisesOnly L _ total_too_large total)
            λ u.
              if-RaisesOnly L (is_body (eof_start p).state) _ _ (eof_boundary-RaisesOnly _ _ _)
                (eof_rest-RaisesOnly _ _))
