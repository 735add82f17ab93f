-- ===== src/Core/Progress.antt =====
-- The loop of `feed_map_data` in rust/src/multipart.rs ends: every round that progresses shortens
-- the buffer, or leaves a discarded segment.
pub mod Drain
use django_fast_multipart.Base.{
  ℕ, zero, suc, ◌+◌, ◌-◌, ◌*◌, ◌≤◌, ◌<◌, Bool, true, false, ◌≡◌, ◌∙◌, refl, Option, none, some,
  List, [], ◌∷◌, Bytes, starts_with, drop, length, length-drop, if◌then◌else◌, arith, Bool-cases,
  inl, inr, is_some_and, is_none_or, ltb,
}
use django_fast_multipart.Core.Boundary.{
  Step, handle_raw_boundary, raw_boundary_at, preamble_boundary_at, preamble_tail, body_boundary_at,
  body_tail,
}
use django_fast_multipart.Core.Delimiter.{
  body_data_end, padding, line_ending, suffix_of_tail, delimiter_suffix, crlf,
}
use django_fast_multipart.Core.Grammar.Order.{Ensures}
use django_fast_multipart.Core.Lines.{
  boundary_in_line, header_boundary, header_line, header_tail, header_found, handle_header,
}
use django_fast_multipart.Core.Memmem.{Memmem}
use django_fast_multipart.Core.Parser.{
  preamble_found, handle_preamble, raw_segment_next, raw_segment_found, handle_raw_segment,
  body_found, body_scan, handle_body, handle_in, handle, feed_loop, feed_map_data, Fed, prepend,
  after_round, fuel_for, accept, take_headers,
}
use django_fast_multipart.Core.Types.{
  MultipartState, preamble, header, body, discard, MultipartEvent, begin, DelimiterSuffix, open_at,
  close, incomplete, invalid, bare_line_feed, MultipartParser, saturating_add,
}
use django_fast_multipart.Exc.{Exc, Result, ok, err, ◌>>=◌}
use Drain.{
  is_discarding, measure, IsDrained, IsShorter, starts_with-length, find-length, Found, find-Found,
  handle_raw_boundary-IsDrained, preamble_found-IsDrained, body_found-IsDrained,
  raw_segment_next-IsDrained,
}

-- A drained buffer makes the round shorter, whatever the state.
IsDrained-IsShorter :
    {D : Type 0} (p q : MultipartParser) (r : Result (Step D))
    → length q.buffer ≤ length p.buffer
    → q.dash_boundary ≡ p.dash_boundary
    → Ensures (IsDrained q) r
    → Ensures (IsShorter p) r
IsDrained-IsShorter p q (err e) l e' h = tt
IsDrained-IsShorter p q (ok s) l e' h = record {
  shorter = λ more. ground (arith, h.drained more);
  same_boundary = h.same_boundary ∙ e';
}

module _ (D : Type 0) (p : MultipartParser) (token : 0 < length p.dash_boundary) where
  header_boundary-IsShorter :
      (i : ℕ)
      → i + length p.dash_boundary ≤ length p.buffer
      → Ensures (IsShorter {D = D} p) (header_boundary p i)
  unfolding header_boundary
  header_boundary-IsShorter i h =
      let q = record p { current_headers = []; current_total_header_size = 0 } in
      ground (
        arith,
        IsDrained-IsShorter p q (handle_raw_boundary q i) (omega arith) refl
            (handle_raw_boundary-IsDrained D q token i h),
      )

  raw_segment_found-IsShorter :
      is_discarding p.state ≡ true
      → (next end : Option ℕ) → Found p next
      → Ensures (IsShorter {D = D} p) (raw_segment_found p next end)
  unfolding raw_segment_found
  raw_segment_found-IsShorter k next end h = ground (
    arith,
    IsDrained-IsShorter p p (raw_segment_next p next) (omega arith) refl
        (raw_segment_next-IsDrained D p token next h),
  )

  header_found-IsShorter :
      (mm : Memmem)
      → p.state ≡ header
      → (next line_end : Option ℕ) → Found p next
      → ((i : ℕ) → line_end ≡ some i → i + 2 ≤ length p.buffer)
      → Ensures (IsShorter {D = D} p) (header_found mm p next line_end)
  unfolding header_found header_line header_tail
  header_found-IsShorter mm k (some i) _ h l = header_boundary-IsShorter i h
  header_found-IsShorter mm k none (some zero) h l =
      ground (arith, l 0 refl, length-drop 2 p.buffer)
  header_found-IsShorter mm k none (some (suc i)) h l =
      ground (arith, l (suc i) refl, length-drop (suc i + 2) p.buffer)
  header_found-IsShorter mm k none none h l = ground arith

module _ {D : Type 0} (mm : Memmem) (map_data : Bytes → D) (p : MultipartParser)
    (token : 0 < length p.dash_boundary) where
  found : Found p (mm.find p.buffer p.dash_boundary)
  found = find-Found mm p

  body_scan-IsDrained :
      (es : List (MultipartEvent D)) → Ensures (IsDrained p) (body_scan mm map_data es p)
  unfolding body_scan
  body_scan-IsDrained es =
      body_found-IsDrained D p token map_data es (mm.find p.buffer p.dash_boundary) found

  in_line-Found :
      (next line_end : Option ℕ) → Found p next → Found p (boundary_in_line next line_end)
  in_line-Found none line_end h = tt
  in_line-Found (some i) line_end h = ground arith

module _ {D : Type 0} (mm : Memmem) (map_data : Bytes → D) (p : MultipartParser)
    (token : 0 < length p.dash_boundary) where
  handle_body-IsShorter : Ensures (IsShorter p) (handle_body mm map_data p)
  unfolding handle_body
  handle_body-IsShorter =
      let started = take_headers p in
      let gone = record started { state = discard } in
      ground (
        arith,
        λ (t : starts_with p.buffer p.dash_boundary ≡ true).
            IsDrained-IsShorter {D = D} p gone (handle_raw_boundary gone 0) (omega arith) refl (
              handle_raw_boundary-IsDrained D gone token 0
                (omega (arith, starts_with-length p.buffer p.dash_boundary t))),
        IsDrained-IsShorter p started (body_scan mm map_data (begin p.current_headers ∷ []) started)
            (omega arith) refl
            (body_scan-IsDrained mm map_data started token (begin p.current_headers ∷ [])),
        IsDrained-IsShorter p p (body_scan mm map_data [] p) (omega arith) refl
            (body_scan-IsDrained mm map_data p token []),
      )

  handle_in-IsShorter :
      (m : MultipartState) → p.state ≡ m → Ensures (IsShorter p) (handle_in mm map_data m p)
  unfolding handle_in handle_preamble handle_header handle_raw_segment
  handle_in-IsShorter preamble e = IsDrained-IsShorter p p _ (omega arith) refl (
      preamble_found-IsDrained D p token (mm.find p.buffer p.dash_boundary)
        (found mm map_data p token))
  handle_in-IsShorter header e =
      header_found-IsShorter D p token mm e _ (mm.find p.buffer crlf)
        (in_line-Found mm map_data p token _ _ (found mm map_data p token))
        (λ i. find-length mm p.buffer crlf)
  handle_in-IsShorter body e = handle_body-IsShorter
  handle_in-IsShorter discard e =
      raw_segment_found-IsShorter D p token (rw e) _ _ (found mm map_data p token)
  handle_in-IsShorter MultipartState.end e =
      raw_segment_found-IsShorter D p token (rw e) _ _ (found mm map_data p token)

-- The checks on the end of the input and on the size pass.
abbrev pub IsOpenFor : MultipartParser → Bytes → Type 0
IsOpenFor p bytes =
    (p.eof_received ≡ false)
    × (is_some_and p.max_size (λ max_size. ltb max_size (saturating_add p.size (length bytes)))
        ≡ false)

module _ {D : Type 0} (mm : Memmem) (map_data : Bytes → D) where
  -- The loop of `feed_map_data` as a relation, with no bound on its rounds.
  pub data Runs : MultipartParser → Fed D → Type 0 where
    failed :
        {p : MultipartParser} {r : Fed D} {e : Exc}
        → handle mm map_data p ≡ err e
        → r ≡ err e
        → Runs p r
    stopped :
        {p : MultipartParser} {r : Fed D} {s : Step D}
        → handle mm map_data p ≡ ok s
        → s.progressed ≡ false
        → r ≡ ok (s.events, s.parser)
        → Runs p r
    went_on :
        {p : MultipartParser} {r q : Fed D} {s : Step D}
        → handle mm map_data p ≡ ok s
        → s.progressed ≡ true
        → Runs s.parser q
        → r ≡ prepend s.events q
        → Runs p r

  after_round-Runs :
      (p : MultipartParser) (rest : MultipartParser → Fed D) (r : Result (Step D))
      → handle mm map_data p ≡ r
      → Ensures (IsShorter p) r
      → ((s : Step D) → s.progressed ≡ true → IsShorter p s → Runs s.parser (rest s.parser))
      → Runs p (after_round rest r)
  unfolding after_round
  after_round-Runs p rest (err x) e h k = failed e refl
  after_round-Runs p rest (ok s) e h k = elim (Bool-cases s.progressed) [
    | inl more ↦ rw more (went_on e more (k s more h) refl)
    | inr done ↦ rw done (stopped e done refl)
  ]

  feed_loop-Runs :
      (fuel : ℕ) (p : MultipartParser)
      → 0 < length p.dash_boundary
      → measure p < fuel
      → Runs p (feed_loop mm map_data fuel p)
  unfolding feed_loop
  feed_loop-Runs zero p t m = absurd (omega arith)
  feed_loop-Runs (suc fuel) p t m =
      after_round-Runs p (feed_loop mm map_data fuel) _ refl
        (handle_in-IsShorter mm map_data p t p.state refl)
        λ s more h.
          feed_loop-Runs fuel s.parser (rw h.same_boundary t) (omega (arith, h.shorter more))

  pub feed-eq-loop :
      (p : MultipartParser) (bytes : Bytes)
      → IsOpenFor p bytes
      → feed_map_data mm map_data p bytes
        ≡ feed_loop mm map_data (fuel_for (accept p bytes)) (accept p bytes)
  unfolding feed_map_data
  feed-eq-loop p bytes (e, m) = ground arith

  -- With a boundary token, as `new` builds it, a call that passes the checks on the end of the
  -- input and on the size runs its loop to the end: until a round fails or does not progress.
  pub feed-Runs :
      (p : MultipartParser) (bytes : Bytes)
      → 0 < length p.dash_boundary
      → IsOpenFor p bytes
      → Runs (accept p bytes) (feed_map_data mm map_data p bytes)
  feed-Runs p bytes t e =
      rw (feed-eq-loop p bytes e)
        (feed_loop-Runs (fuel_for (accept p bytes)) (accept p bytes) t (ground arith))
