-- ===== src/Core/Delimiter.antt =====
-- rust/src/multipart.rs: the free functions that read a buffer near a boundary token
-- (`body_data_end`, `partial_suffix_length`, `delimiter_suffix`).
use django_fast_multipart.Base.{
  ℕ, zero, suc, ◌+◌, ◌-◌, min, ◌&&◌, ◌||◌, [], ◌∷◌, Bytes, starts_with, drop, length, get_or, ltb,
  ◌==◌, if◌then◌else◌,
}
use django_fast_multipart.Core.Types.{
  DelimiterSuffix, open_at, close, incomplete, invalid, bare_line_feed,
}

abbrev pub crlf : Bytes
crlf = b'\r' ∷ b'\n' ∷ []

abbrev strip_byte : Bytes → ℕ → ℕ → ℕ
strip_byte buffer byte end = if ltb 0 end && get_or buffer (end - 1) 0 == byte then end - 1 else end

-- The end of the part's data before the boundary at `boundary_start`: without the line break that
-- belongs to the delimiter.
unfoldable pub body_data_end : Bytes → ℕ → ℕ
body_data_end buffer boundary_start =
    strip_byte buffer b'\r' (strip_byte buffer b'\n' boundary_start)

-- The rounds of `(1..=maximum).rev().find(…).unwrap_or(0)`.
unfoldable pub longest_suffix : Bytes → Bytes → ℕ → ℕ
longest_suffix buffer token zero = 0
longest_suffix buffer token (suc n) =
    if starts_with token (drop (length buffer - suc n) buffer)
    then suc n
    else longest_suffix buffer token n

-- The length of the longest end of `buffer` that is a proper beginning of `token`.
unfoldable pub partial_suffix_length : Bytes → Bytes → ℕ
partial_suffix_length buffer token =
    longest_suffix buffer token (min (length buffer) (length token - 1))

-- `take_while(|byte| matches!(byte, b' ' | b'\t')).count()`
unfoldable pub padding : Bytes → ℕ
padding [] = 0
padding (c ∷ cs) = if c == b' ' || c == b'\t' then suc (padding cs) else 0

-- What follows the padding; `consumed` is the index behind the padding.
unfoldable pub line_ending : Bytes → ℕ → DelimiterSuffix
line_ending [] consumed = incomplete
line_ending (c ∷ []) consumed =
    if c == b'\r' then incomplete else if c == b'\n' then bare_line_feed else invalid
line_ending (c ∷ d ∷ rest) consumed =
    if c == b'\r' && d == b'\n'
    then open_at (consumed + 2)
    else if c == b'\n'
    then bare_line_feed
    else invalid

unfoldable pub suffix_of_tail : Bytes → ℕ → DelimiterSuffix
suffix_of_tail [] after_boundary = incomplete
suffix_of_tail (c ∷ []) after_boundary =
    if c == b'-'
    then incomplete
    else line_ending (drop (padding (c ∷ [])) (c ∷ [])) (after_boundary + padding (c ∷ []))
suffix_of_tail (c ∷ d ∷ rest) after_boundary =
    if c == b'-' && d == b'-'
    then close
    else if c == b'-'
    then invalid
    else line_ending (drop (padding (c ∷ d ∷ rest)) (c ∷ d ∷ rest))
        (after_boundary + padding (c ∷ d ∷ rest))

-- How the bytes behind a boundary token continue it.
unfoldable pub delimiter_suffix : Bytes → ℕ → DelimiterSuffix
delimiter_suffix buffer after_boundary = suffix_of_tail (drop after_boundary buffer) after_boundary
