-- ===== src/Core/Grammar/Handlers.antt =====
-- Each handler of rust/src/multipart.rs keeps the order of the events.
use django_fast_multipart.Base.{
  ℕ, zero, suc, Bool, true, false, ◌≡◌, refl, Option, none, some, List, [], ◌∷◌, ◌++◌, Bytes, arith,
  ◌+◌, ◌-◌, length,
}
use django_fast_multipart.Core.Boundary.{
  handle_raw_boundary, raw_boundary_at, preamble_boundary_at, preamble_tail, body_boundary_at,
  body_tail, emit_data,
}
use django_fast_multipart.Core.Delimiter.{delimiter_suffix}
use django_fast_multipart.Core.Lines.{
  header_boundary, header_line, header_tail, header_found, handle_header,
}
use django_fast_multipart.Core.Memmem.{Memmem}
use django_fast_multipart.Core.Parser.{
  preamble_found, handle_preamble, raw_segment_next, raw_segment_found, handle_raw_segment,
  body_found, body_scan, handle_body, handle_in, is_body, take_headers,
}
use django_fast_multipart.Core.Types.{
  MultipartState, body, discard, header, preamble, MultipartEvent, begin, MultipartParser,
  DelimiterSuffix, open_at, incomplete,
}
use django_fast_multipart.Core.Grammar.Order.{
  track, is_inside, PendingInBody, IsOrdered, Ensures, track-append,
}

module _ (D : Type 0) where
  pub raw_boundary_at-IsOrdered :
      (p : MultipartParser) (i a : ℕ) (x : DelimiterSuffix)
      → p.pending_headers ≡ false
      → is_body p.state ≡ false
      → Ensures (IsOrdered {D = D} false) (raw_boundary_at p i a x)
  unfolding raw_boundary_at
  raw_boundary_at-IsOrdered p i a (open_at n) h k = ground arith
  raw_boundary_at-IsOrdered p i a _ h k = ground arith

  pub preamble_boundary_at-IsOrdered :
      (p : MultipartParser) (i a : ℕ) (x : DelimiterSuffix)
      → p.pending_headers ≡ false
      → is_body p.state ≡ false
      → Ensures (IsOrdered {D = D} false) (preamble_boundary_at p i a x)
  unfolding preamble_boundary_at
  preamble_boundary_at-IsOrdered p i a (open_at n) h k = ground arith
  preamble_boundary_at-IsOrdered p i a _ h k = ground arith

module _ {D : Type 0} where
  module _ (map_data : Bytes → D) (b : Bool) (es : List (MultipartEvent D)) (p : MultipartParser)
      (opened : track b es ≡ some true) (taken : p.pending_headers ≡ false)
      (in_body : is_body p.state ≡ true) where
    pub tracked_data : (n : ℕ) → track b (es ++ emit_data map_data p n) ≡ some true
    unfolding emit_data
    tracked_data n = rw (track-append b true es (emit_data map_data p n) opened) (ground arith)

    pub tracked_end :
        (n : ℕ) → track b (es ++ (emit_data map_data p n ++ MultipartEvent.end ∷ [])) ≡ some false
    unfolding emit_data
    tracked_end n =
        rw (track-append b true es (emit_data map_data p n ++ MultipartEvent.end ∷ []) opened)
          (ground arith)

    pub body_boundary_at-IsOrdered :
        (n a : ℕ) (x : DelimiterSuffix)
        → Ensures (IsOrdered b) (body_boundary_at map_data es p n a x)
    unfolding body_boundary_at
    body_boundary_at-IsOrdered n a (open_at m) = ground (arith, tracked_end n)
    body_boundary_at-IsOrdered n a incomplete = ground (arith, tracked_data n)
    body_boundary_at-IsOrdered n a _ = ground (arith, tracked_end n)

    pub body_tail-IsOrdered : Ensures (IsOrdered b) (body_tail map_data es p)
    unfolding body_tail
    body_tail-IsOrdered = ground (arith, tracked_data (length p.buffer - (p.delimiter_length - 1)))

    pub body_found-IsOrdered : (o : Option ℕ) → Ensures (IsOrdered b) (body_found map_data es p o)
    unfolding body_found
    body_found-IsOrdered none = body_tail-IsOrdered
    body_found-IsOrdered (some i) = body_boundary_at-IsOrdered _ _ _

module _ (D : Type 0) (mm : Memmem) (p : MultipartParser) (taken : p.pending_headers ≡ false)
    (outside : is_body p.state ≡ false) where
  pub preamble_found-IsOrdered :
      (o : Option ℕ) → Ensures (IsOrdered {D = D} false) (preamble_found p o)
  unfolding preamble_found preamble_tail
  preamble_found-IsOrdered none = ground arith
  preamble_found-IsOrdered (some i) = preamble_boundary_at-IsOrdered D p i _ _ taken outside

  pub raw_segment_next-IsOrdered :
      (o : Option ℕ) → Ensures (IsOrdered {D = D} false) (raw_segment_next p o)
  unfolding raw_segment_next handle_raw_boundary
  raw_segment_next-IsOrdered none = ground arith
  raw_segment_next-IsOrdered (some i) = raw_boundary_at-IsOrdered D p i _ _ taken outside

  pub raw_segment_found-IsOrdered :
      (next end : Option ℕ) → Ensures (IsOrdered {D = D} false) (raw_segment_found p next end)
  unfolding raw_segment_found
  raw_segment_found-IsOrdered next end = ground (arith, raw_segment_next-IsOrdered next)

  pub header_boundary-IsOrdered : (i : ℕ) → Ensures (IsOrdered {D = D} false) (header_boundary p i)
  unfolding header_boundary handle_raw_boundary
  header_boundary-IsOrdered i =
      let q = record p { current_headers = []; current_total_header_size = 0 } in
      let a = i + length p.dash_boundary in
      ground (arith, raw_boundary_at-IsOrdered D q i a (delimiter_suffix q.buffer a) taken outside)

  pub header_found-IsOrdered :
      (next line_end : Option ℕ)
      → Ensures (IsOrdered {D = D} false) (header_found mm p next line_end)
  unfolding header_found header_line header_tail
  header_found-IsOrdered (some i) _ = header_boundary-IsOrdered i
  header_found-IsOrdered none (some zero) = ground arith
  header_found-IsOrdered none (some (suc i)) = ground arith
  header_found-IsOrdered none none = ground arith

module _ {D : Type 0} (mm : Memmem) (map_data : Bytes → D) (p : MultipartParser) where
  pub handle_body-IsOrdered :
      is_body p.state ≡ true → Ensures (IsOrdered (is_inside p)) (handle_body mm map_data p)
  unfolding handle_body body_scan handle_raw_boundary
  handle_body-IsOrdered h =
      let started = take_headers p in
      let gone = record started { state = discard } in
      ground (
        arith,
        raw_boundary_at-IsOrdered D gone 0 (length p.dash_boundary)
            (delimiter_suffix p.buffer (length p.dash_boundary)) refl refl,
        body_found-IsOrdered map_data false (begin p.current_headers ∷ []) started refl refl h
            (mm.find p.buffer p.dash_boundary),
        λ (t : p.pending_headers ≡ false).
            body_found-IsOrdered map_data true [] p refl t h (mm.find p.buffer p.dash_boundary),
      )

  -- Outside of a body no headers wait, and no part is open.
  pub outside_body :
      is_body p.state ≡ false
      → PendingInBody p
      → (p.pending_headers ≡ false) × (is_inside p ≡ false)
  outside_body h v = ground (arith, v)

  pub handle_in-IsOrdered :
      (m : MultipartState)
      → p.state ≡ m
      → PendingInBody p
      → Ensures (IsOrdered (is_inside p)) (handle_in mm map_data m p)
  unfolding handle_in handle_preamble handle_header handle_raw_segment
  handle_in-IsOrdered body e v = handle_body-IsOrdered (rw e)
  handle_in-IsOrdered preamble e v =
      let (t, o) = outside_body (rw e) v in rw o (preamble_found-IsOrdered D mm p t (rw e) _)
  handle_in-IsOrdered header e v =
      let (t, o) = outside_body (rw e) v in rw o (header_found-IsOrdered D mm p t (rw e) _ _)
  handle_in-IsOrdered discard e v =
      let (t, o) = outside_body (rw e) v in rw o (raw_segment_found-IsOrdered D mm p t (rw e) _ _)
  handle_in-IsOrdered MultipartState.end e v =
      let (t, o) = outside_body (rw e) v in rw o (raw_segment_found-IsOrdered D mm p t (rw e) _ _)
