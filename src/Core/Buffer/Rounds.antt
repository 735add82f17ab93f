-- ===== src/Core/Buffer/Rounds.antt =====
-- The rounds of the loop of `feed` (rust/src/multipart.rs), and what they leave in the buffer.
use django_fast_multipart.Base.{
  ℕ, zero, suc, ◌+◌, ◌≤◌, ◌<◌, true, false, ◌≡◌, refl, Option, none, some, List, [], ◌∷◌, Bytes,
  length, arith,
}
use django_fast_multipart.Core.Boundary.{Step, handle_raw_boundary}
use django_fast_multipart.Core.Buffer.{
  is_scanning, IsFor, IsKept, raw_boundary_at-IsKept, preamble_boundary_at-IsKept,
  preamble_tail-IsKept, body_boundary_at-IsKept, body_tail-IsKept, data_end-le,
}
use django_fast_multipart.Core.Grammar.Order.{Ensures}
use django_fast_multipart.Core.Lines.{
  header_boundary, header_line, header_tail, header_found, handle_header,
}
use django_fast_multipart.Core.Memmem.{Memmem}
use django_fast_multipart.Core.Parser.{
  preamble_found, handle_preamble, raw_segment_next, raw_segment_found, handle_raw_segment,
  body_found, body_scan, handle_body, handle_in, handle, feed_map_data, take_headers, Fed, prepend,
  accept,
}
use django_fast_multipart.Core.Progress.{IsOpenFor, Runs, failed, stopped, went_on, feed-Runs}
use django_fast_multipart.Core.Types.{
  MultipartState, preamble, header, body, discard, MultipartEvent, begin, MultipartParser,
  usize_max,
}
use django_fast_multipart.Exc.{ok, err}

module _ (D : Type 0) (token : Bytes) (limit : ℕ) (small : limit < usize_max) where
  module _ (p : MultipartParser) (for : IsFor token limit p) where
    preamble_found-IsKept :
        (o : Option ℕ) → Ensures (IsKept {D = D} token limit) (preamble_found p o)
    unfolding preamble_found
    preamble_found-IsKept none = preamble_tail-IsKept D token limit small p for
    preamble_found-IsKept (some i) =
        preamble_boundary_at-IsKept D token limit small p for i (i + length p.dash_boundary) _ refl
          (ground (arith, for))

    body_found-IsKept :
        (map_data : Bytes → D) (es : List (MultipartEvent D)) (o : Option ℕ)
        → Ensures (IsKept token limit) (body_found map_data es p o)
    unfolding body_found
    body_found-IsKept f es none = body_tail-IsKept D token limit small p for f es
    body_found-IsKept f es (some i) =
        body_boundary_at-IsKept D token limit small p for f es i _ (i + length p.dash_boundary) _
          refl (ground (arith, for)) (data_end-le p.buffer i)

    handle_raw_boundary-IsKept :
        (i : ℕ)
        → is_scanning p.state ≡ false
        → Ensures (IsKept {D = D} token limit) (handle_raw_boundary p i)
    unfolding handle_raw_boundary
    handle_raw_boundary-IsKept i k = raw_boundary_at-IsKept D token limit small p for i _ _ k

    raw_segment_next-IsKept :
        (o : Option ℕ)
        → is_scanning p.state ≡ false
        → Ensures (IsKept {D = D} token limit) (raw_segment_next p o)
    unfolding raw_segment_next
    raw_segment_next-IsKept none k = ground (arith, for)
    raw_segment_next-IsKept (some i) k = handle_raw_boundary-IsKept i k

    raw_segment_found-IsKept :
        (next end : Option ℕ)
        → is_scanning p.state ≡ false
        → Ensures (IsKept {D = D} token limit) (raw_segment_found p next end)
    unfolding raw_segment_found
    raw_segment_found-IsKept next end k = ground (arith, for, raw_segment_next-IsKept next k)

  module _ (p : MultipartParser) (for : IsFor token limit p) where
    header_boundary-IsKept :
        (i : ℕ) → p.state ≡ header → Ensures (IsKept {D = D} token limit) (header_boundary p i)
    unfolding header_boundary
    header_boundary-IsKept i k =
        let q = record p { current_headers = []; current_total_header_size = 0 } in
        ground (
          arith,
          handle_raw_boundary-IsKept q
              (record {
                same_token = for.same_token;
                same_delimiter = for.same_delimiter;
                same_limit = for.same_limit;
              })
              i (rw k refl),
        )

    header_found-IsKept :
        (mm : Memmem) (next line_end : Option ℕ)
        → p.state ≡ header
        → Ensures (IsKept {D = D} token limit) (header_found mm p next line_end)
    unfolding header_found header_line header_tail
    header_found-IsKept mm (some i) line_end k = header_boundary-IsKept i k
    header_found-IsKept mm none (some zero) k = ground (arith, for)
    header_found-IsKept mm none (some (suc i)) k = ground (arith, for)
    header_found-IsKept mm none none k = ground (arith, for)

    handle_body-IsKept :
        (mm : Memmem) (map_data : Bytes → D)
        → Ensures (IsKept token limit) (handle_body mm map_data p)
    unfolding handle_body body_scan
    handle_body-IsKept mm f =
        let started = take_headers p in
        let gone = record started { state = discard } in
        let same : IsFor token limit started = record {
          same_token = for.same_token;
          same_delimiter = for.same_delimiter;
          same_limit = for.same_limit;
        } in
        let same_gone : IsFor token limit gone = record {
          same_token = for.same_token;
          same_delimiter = for.same_delimiter;
          same_limit = for.same_limit;
        } in
        ground (
          arith,
          for,
          handle_raw_boundary-IsKept gone same_gone 0 refl,
          body_found-IsKept started same f (begin p.current_headers ∷ [])
              (mm.find p.buffer p.dash_boundary),
          body_found-IsKept p for f [] (mm.find p.buffer p.dash_boundary),
        )

    handle_in-IsKept :
        (mm : Memmem) (map_data : Bytes → D) (m : MultipartState)
        → p.state ≡ m
        → Ensures (IsKept token limit) (handle_in mm map_data m p)
    unfolding handle_in handle_preamble handle_header handle_raw_segment
    handle_in-IsKept mm f preamble e = preamble_found-IsKept p for _
    handle_in-IsKept mm f header e = header_found-IsKept mm _ _ e
    handle_in-IsKept mm f body e = handle_body-IsKept mm f
    handle_in-IsKept mm f discard e = raw_segment_found-IsKept p for _ _ (rw e refl)
    handle_in-IsKept mm f MultipartState.end e = raw_segment_found-IsKept p for _ _ (rw e refl)

  -- The parser behind a call.
  record IsLeft (r : List (MultipartEvent D) × MultipartParser) : Type 0 where
    pub same : IsFor token limit r.1
    pub bounded : is_scanning r.1.state ≡ true → length r.1.buffer ≤ length token + limit + 3

  prepend-IsLeft :
      (es : List (MultipartEvent D)) (r : Fed D) → Ensures IsLeft r → Ensures IsLeft (prepend es r)
  prepend-IsLeft es (ok (rest, q)) h = record { same = h.same; bounded = h.bounded }
  prepend-IsLeft es (err e) h = tt

  module _ (mm : Memmem) (map_data : Bytes → D) where
    handled :
        (p : MultipartParser) {s : Step D}
        → IsFor token limit p
        → handle mm map_data p ≡ ok s
        → IsKept token limit s
    handled p for h = rw h at (handle_in-IsKept p for mm map_data p.state refl)

    Runs-IsLeft :
        {p : MultipartParser} {r : Fed D}
        → Runs mm map_data p r
        → IsFor token limit p
        → Ensures IsLeft r
    Runs-IsLeft (failed h e) for = rw e tt
    Runs-IsLeft {p} (stopped h done e) for =
        let k = handled p for h in rw e (record { same = k.same; bounded = k.bounded done })
    Runs-IsLeft {p} (went_on {q = q} {s = s} h more rest e) for =
        rw e (prepend-IsLeft s.events q (Runs-IsLeft rest (handled p for h).same))

    IsLeft-bound :
        (r : Fed D) {es : List (MultipartEvent D)} {q : MultipartParser}
        → Ensures IsLeft r
        → r ≡ ok (es, q)
        → IsFor token limit q
          × (is_scanning q.state ≡ true → length q.buffer ≤ length token + limit + 3)
    IsLeft-bound r h e = let left : IsLeft _ = rw e at h in (left.same, left.bounded)

    feed-IsOpenFor :
        (p : MultipartParser) (bytes : Bytes) {r : List (MultipartEvent D) × MultipartParser}
        → feed_map_data mm map_data p bytes ≡ ok r
        → IsOpenFor p bytes
    unfolding feed_map_data
    feed-IsOpenFor p bytes h = ground arith

    -- For a boundary token and a limit on the headers of a part, below the largest `usize`: if a
    -- call of `feed` succeeds and leaves the parser in the preamble or in the data of a part, it
    -- keeps at most the token, as many bytes as the limit, and three bytes more, whatever the size
    -- of the input; and the token and the limit are still those.
    pub feed_bounded :
        (p : MultipartParser) (bytes : Bytes) (es : List (MultipartEvent D)) (q : MultipartParser)
        → 0 < length token
        → IsFor token limit p
        → feed_map_data mm map_data p bytes ≡ ok (es, q)
        → is_scanning q.state ≡ true
        → IsFor token limit q × (length q.buffer ≤ length token + limit + 3)
    feed_bounded p bytes es q filled for h k =
        let run =
          feed-Runs mm map_data p bytes (rw for.same_token filled) (feed-IsOpenFor p bytes h) in
        let fed : IsFor token limit (accept p bytes) = record {
          same_token = for.same_token;
          same_delimiter = for.same_delimiter;
          same_limit = for.same_limit;
        } in
        let (same, bounded) = IsLeft-bound _ (Runs-IsLeft run fed) h in (same, bounded k)
