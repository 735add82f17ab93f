-- ===== src/Core/Lines.antt =====
-- rust/src/multipart.rs: `handle_header`.
use django_fast_multipart.Base.{
  ℕ, zero, suc, ◌+◌, ◌-◌, true, false, Option, none, some, [], ◌∷◌, ◌++◌, Bytes, ends_with, take,
  length, ltb, ◌==◌, if◌then◌else◌, is_none_or,
}
use django_fast_multipart.Core.Boundary.{Step, advance, handle_raw_boundary}
use django_fast_multipart.Core.Checks.{line_too_long, too_many_headers, check_total_header_size}
use django_fast_multipart.Core.Delimiter.{crlf, partial_suffix_length}
use django_fast_multipart.Core.Header.{split_line}
use django_fast_multipart.Core.Memmem.{Memmem}
use django_fast_multipart.Core.Types.{body, Headers, MultipartParser, saturating_add}
use django_fast_multipart.Exc.{Result, ok, ◌>>=◌, ◌>>◌, raise_if}

-- `next_boundary.filter(…)`: a boundary token that comes before the end of the line.
abbrev pub boundary_in_line : Option ℕ → Option ℕ → Option ℕ
boundary_in_line none line_end = none
boundary_in_line (some b) line_end =
    if is_none_or line_end (λ line_terminator. ltb b line_terminator) then some b else none

-- The headers behind a line; one without a colon is ignored.
unfoldable pub push_header : MultipartParser → Bytes → Option ℕ → Result Headers
push_header p line none = ok p.current_headers
push_header p line (some separator) = do
  raise_if (length p.current_headers == p.max_header_count) too_many_headers
  ok (p.current_headers ++ split_line line separator ∷ [])

module _ {D : Type 0} where
  unfoldable pub header_boundary : MultipartParser → ℕ → Result (Step D)
  header_boundary p index = do
    raise_if (ltb p.max_header_size index) line_too_long
    check_total_header_size p index
    handle_raw_boundary (record p { current_headers = []; current_total_header_size = 0 }) index

  -- No complete line yet.
  unfoldable pub header_tail : MultipartParser → Result (Step D)
  header_tail p =
      let retained =
        if ends_with p.buffer (b'\r' ∷ [])
        then 1
        else partial_suffix_length p.buffer p.dash_boundary in
      let pending = length p.buffer - retained in
      do
        raise_if (ltb p.max_header_size pending) line_too_long
        check_total_header_size p pending
        ok (record { progressed = false; parser = p; events = [] })

module _ {D : Type 0} (mm : Memmem) where
  open mm use {find, memchr}

  -- A complete line of `index` bytes before its line break.
  unfoldable pub header_line : MultipartParser → ℕ → Result (Step D)
  header_line p zero = do
    check_total_header_size p (length crlf)
    ok (record {
      progressed = true;
      parser = record (advance p (length crlf) body) { pending_headers = true };
      events = [];
    })
  header_line p (suc i) = do
    raise_if (ltb p.max_header_size (suc i)) line_too_long
    check_total_header_size p (suc i + length crlf)
    headers ← push_header p (take (suc i) p.buffer) (memchr b':' (take (suc i) p.buffer))
    ok (record {
      progressed = true;
      parser = record (advance p (suc i + length crlf) p.state) {
        current_headers = headers;
        current_total_header_size =
            saturating_add p.current_total_header_size (suc i + length crlf);
      };
      events = [];
    })

  -- By the boundary token in the line, and the end of the line.
  unfoldable pub header_found : MultipartParser → Option ℕ → Option ℕ → Result (Step D)
  header_found p (some index) line_end = header_boundary p index
  header_found p none (some index) = header_line p index
  header_found p none none = header_tail p

  unfoldable pub handle_header : MultipartParser → Result (Step D)
  handle_header p =
      header_found p (boundary_in_line (find p.buffer p.dash_boundary) (find p.buffer crlf))
        (find p.buffer crlf)
