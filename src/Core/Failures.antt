-- ===== src/Core/Failures.antt =====
-- What the parser of rust/src/multipart.rs raises behind the checks of `feed` on the end of the
-- input and on the size: only the errors of the limits on headers.
pub mod Feed
use django_fast_multipart.Base.{
  ℕ, zero, suc, ◌+◌, Bool, true, false, not, ◌&&◌, Option, none, some, List, [], ◌∷◌, Bytes, length,
  if◌then◌else◌, Bool-cases, inl, inr, is_some_and, is_none_or, ltb, drop, starts_with, ◌==◌,
}
use django_fast_multipart.Core.Boundary.{
  Step, handle_raw_boundary, raw_boundary_at, preamble_boundary_at, preamble_tail, body_boundary_at,
  body_tail,
}
use django_fast_multipart.Core.Checks.{
  line_too_long, too_many_headers, total_too_large, check_total_header_size,
  check_incomplete_header_prefix, check_eof_header_size, is_incomplete,
}
use django_fast_multipart.Core.Delimiter.{delimiter_suffix}
use django_fast_multipart.Core.Lines.{
  push_header, header_boundary, header_line, header_tail, header_found, handle_header,
}
use django_fast_multipart.Core.Memmem.{Memmem}
use django_fast_multipart.Core.Parser.{
  preamble_found, handle_preamble, raw_segment_next, raw_segment_found, handle_raw_segment,
  body_found, body_scan, handle_body, handle_in, feed_loop, feed_map_data, eof_rest, eof_boundary,
  feed_eof_map_data, is_body, take_headers, Fed, eof_start, after_round, accept, fuel_for,
}
use django_fast_multipart.Core.Progress.{IsOpenFor, feed-eq-loop}
use django_fast_multipart.Core.Types.{
  MultipartState, preamble, header, body, discard, MultipartEvent, MultipartParser, DelimiterSuffix,
  open_at, close, incomplete, invalid, bare_line_feed,
}
use django_fast_multipart.Exc.{Exc, Result, ok, err, raise_if, ◌>>=◌}

module _ (L : Exc → Type 0) where
  -- What is raised has the property.
  abbrev pub RaisesOnly : {A : Type 0} → Result A → Type 0
  RaisesOnly (ok a) = Unit
  RaisesOnly (err e) = L e

  pub raise_if-RaisesOnly : (b : Bool) (e : Exc) → L e → RaisesOnly (raise_if b e)
  raise_if-RaisesOnly true e h = h
  raise_if-RaisesOnly false e h = tt

  pub bind-RaisesOnly :
      {A B : Type 0} (r : Result A) (f : A → Result B)
      → RaisesOnly r
      → ((a : A) → RaisesOnly (f a))
      → RaisesOnly (r >>= f)
  bind-RaisesOnly (ok a) f h k = k a
  bind-RaisesOnly (err e) f h k = h

  pub if-RaisesOnly :
      {A : Type 0} (b : Bool) (r q : Result A)
      → RaisesOnly r
      → RaisesOnly q
      → RaisesOnly (if b then r else q)
  if-RaisesOnly true r q h k = h
  if-RaisesOnly false r q h k = k

  raw_boundary_at-RaisesOnly :
      (D : Type 0) (p : MultipartParser) (index after : ℕ) (suffix : DelimiterSuffix)
      → RaisesOnly (raw_boundary_at {D = D} p index after suffix)
  unfolding raw_boundary_at
  raw_boundary_at-RaisesOnly D p index after (open_at n) = tt
  raw_boundary_at-RaisesOnly D p index after close = tt
  raw_boundary_at-RaisesOnly D p index after incomplete = tt
  raw_boundary_at-RaisesOnly D p index after invalid = tt
  raw_boundary_at-RaisesOnly D p index after bare_line_feed = tt

  module _ (line : L line_too_long) (count : L too_many_headers) (total : L total_too_large) where
    pub check_total-RaisesOnly :
        (p : MultipartParser) (n : ℕ) → RaisesOnly (check_total_header_size p n)
    unfolding check_total_header_size
    check_total-RaisesOnly p n = raise_if-RaisesOnly _ total_too_large total

    pub check_prefix-RaisesOnly :
        (p : MultipartParser) (n : ℕ) → RaisesOnly (check_incomplete_header_prefix p n)
    unfolding check_incomplete_header_prefix
    check_prefix-RaisesOnly p n =
        if-RaisesOnly (not (starts_with (drop n p.buffer) (b'-' ∷ [])))
          (check_total_header_size p (length (drop n p.buffer))) (ok tt)
          (check_total-RaisesOnly p _) tt

    pub push_header-RaisesOnly :
        (p : MultipartParser) (line : Bytes) (separator : Option ℕ)
        → RaisesOnly (push_header p line separator)
    unfolding push_header
    push_header-RaisesOnly p bytes none = tt
    push_header-RaisesOnly p bytes (some separator) =
        bind-RaisesOnly (raise_if (length p.current_headers == p.max_header_count) too_many_headers)
          _ (raise_if-RaisesOnly _ too_many_headers count) (λ u. tt)

    module _ (D : Type 0) where
      pub preamble_found-RaisesOnly :
          (p : MultipartParser) (o : Option ℕ) → RaisesOnly (preamble_found {D = D} p o)
      unfolding preamble_found preamble_tail preamble_boundary_at
      preamble_found-RaisesOnly p none = tt
      preamble_found-RaisesOnly p (some index) =
          at_suffix (delimiter_suffix p.buffer (index + length p.dash_boundary))
        where
          at_suffix :
              (suffix : DelimiterSuffix)
              → RaisesOnly
                  (preamble_boundary_at {D = D} p index (index + length p.dash_boundary) suffix)
          at_suffix (open_at n) = tt
          at_suffix close = tt
          at_suffix incomplete =
              bind-RaisesOnly (check_incomplete_header_prefix p _) _ (check_prefix-RaisesOnly p _)
                (λ u. tt)
          at_suffix invalid = tt
          at_suffix bare_line_feed = tt

      pub handle_raw_boundary-RaisesOnly :
          (p : MultipartParser) (index : ℕ) → RaisesOnly (handle_raw_boundary {D = D} p index)
      unfolding handle_raw_boundary
      handle_raw_boundary-RaisesOnly p index = raw_boundary_at-RaisesOnly D p index _ _

      raw_segment_next-RaisesOnly :
          (p : MultipartParser) (o : Option ℕ) → RaisesOnly (raw_segment_next {D = D} p o)
      unfolding raw_segment_next
      raw_segment_next-RaisesOnly p (some index) = handle_raw_boundary-RaisesOnly p index
      raw_segment_next-RaisesOnly p none =
          bind-RaisesOnly (check_total_header_size p (length p.buffer)) _
            (check_total-RaisesOnly p _) (λ u. tt)

      pub raw_segment_found-RaisesOnly :
          (p : MultipartParser) (o e : Option ℕ) → RaisesOnly (raw_segment_found {D = D} p o e)
      unfolding raw_segment_found
      raw_segment_found-RaisesOnly p o e =
          if-RaisesOnly (is_some_and e (λ i. is_none_or o (λ b. ltb i b))) _ (raw_segment_next p o)
            tt (raw_segment_next-RaisesOnly p o)

      pub header_boundary-RaisesOnly :
          (p : MultipartParser) (index : ℕ) → RaisesOnly (header_boundary {D = D} p index)
      unfolding header_boundary
      header_boundary-RaisesOnly p index =
          bind-RaisesOnly (raise_if (ltb p.max_header_size index) line_too_long) _
            (raise_if-RaisesOnly _ line_too_long line)
            λ u.
              bind-RaisesOnly (check_total_header_size p index) _ (check_total-RaisesOnly p index)
                λ u. handle_raw_boundary-RaisesOnly _ index

      pub header_tail-RaisesOnly : (p : MultipartParser) → RaisesOnly (header_tail {D = D} p)
      unfolding header_tail
      header_tail-RaisesOnly p =
          bind-RaisesOnly (raise_if _ line_too_long) _ (raise_if-RaisesOnly _ line_too_long line)
            λ u.
              bind-RaisesOnly (check_total_header_size p _) _ (check_total-RaisesOnly p _) (λ u. tt)
