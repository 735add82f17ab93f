-- ===== src/Core/Checks.antt =====
-- rust/src/multipart.rs: the size checks on headers.
use django_fast_multipart.Base.{
  ℕ, Bool, true, false, not, ◌&&◌, Option, none, some, [], ◌∷◌, starts_with, drop, length, ltb, leb,
  if◌then◌else◌, is_some_and,
}
use django_fast_multipart.Core.Delimiter.{crlf, delimiter_suffix}
use django_fast_multipart.Core.Types.{
  MultipartState, preamble, header, body, DelimiterSuffix, incomplete, MultipartParser,
  saturating_add,
}
use django_fast_multipart.Exc.{Exc, runtime_error, Result, ok, raise_if}

abbrev pub line_too_long : Exc
line_too_long = runtime_error "Header line exceeds maximum size."

abbrev pub too_many_headers : Exc
too_many_headers = runtime_error "Part exceeds maximum header count."

abbrev pub total_too_large : Exc
total_too_large = runtime_error "Part exceeds maximum total header size."

unfoldable pub check_total_header_size : MultipartParser → ℕ → Result (Unit {0})
check_total_header_size p additional_size =
    raise_if
      (is_some_and p.max_total_header_size
        (λ max_size. ltb max_size (saturating_add p.current_total_header_size additional_size)))
      total_too_large

unfoldable pub check_incomplete_header_prefix : MultipartParser → ℕ → Result (Unit {0})
check_incomplete_header_prefix p after_boundary =
    let suffix = drop after_boundary p.buffer in
    if not (starts_with suffix (b'-' ∷ []))
    then check_total_header_size p (length suffix)
    else ok tt

abbrev pub is_incomplete : DelimiterSuffix → Bool
is_incomplete incomplete = true
is_incomplete _ = false

unfoldable pub incomplete_header_prefix_size : MultipartParser → ℕ → Option ℕ
incomplete_header_prefix_size p after_boundary =
    let suffix = drop after_boundary p.buffer in
    if is_incomplete (delimiter_suffix p.buffer after_boundary)
      && not (starts_with suffix (b'-' ∷ []))
    then some (length suffix)
    else none

-- The `match self.state` of `check_eof_header_size`.
unfoldable pub eof_header_size : MultipartParser → MultipartState → Option ℕ
eof_header_size p header = some (saturating_add p.current_total_header_size (length p.buffer))
eof_header_size p preamble =
    if starts_with p.buffer p.dash_boundary
    then incomplete_header_prefix_size p (length p.dash_boundary)
    else none
eof_header_size p body =
    if starts_with p.buffer crlf && starts_with (drop (length crlf) p.buffer) p.dash_boundary
    then incomplete_header_prefix_size p p.delimiter_length
    else none
eof_header_size p _ = none

unfoldable pub check_eof_header_size : MultipartParser → Result (Unit {0})
check_eof_header_size p =
    raise_if
      (is_some_and p.max_total_header_size
        (λ max_size. is_some_and (eof_header_size p p.state) (λ size. leb max_size size)))
      total_too_large
