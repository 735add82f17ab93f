-- ===== src/Core/Buffer.antt =====
-- How much of the input the parser of rust/src/multipart.rs keeps between two calls of `feed`.
pub mod Rounds
pub mod Padding
use django_fast_multipart.Base.{
  ℕ, zero, suc, ◌+◌, ◌-◌, ◌≤◌, ◌<◌, Bool, true, false, not, ◌≡◌, ◌∙◌, refl, Option, none, some,
  List, [], ◌∷◌, ◌++◌, Bytes, length, length-drop, drop, starts_with, ltb, if◌then◌else◌, arith,
  Bool-cases, inl, inr,
}
use django_fast_multipart.Core.Boundary.{
  Step, advance, handle_raw_boundary, raw_boundary_at, preamble_boundary_at, preamble_tail,
  body_boundary_at, body_tail,
}
use django_fast_multipart.Core.Checks.{check_total_header_size, check_incomplete_header_prefix}
use django_fast_multipart.Core.Delimiter.{
  body_data_end, delimiter_suffix, suffix_of_tail, line_ending, padding,
}
use django_fast_multipart.Core.Grammar.Order.{Ensures}
use django_fast_multipart.Core.Types.{
  MultipartState, preamble, header, body, discard, MultipartEvent, DelimiterSuffix, open_at, close,
  incomplete, invalid, bare_line_feed, MultipartParser, saturating_add, usize_max,
}
use django_fast_multipart.Exc.{Exc, Result, ok, err, ◌>>=◌, ◌>>◌}

-- The states that look for a delimiter in data that is not a header.
abbrev pub is_scanning : MultipartState → Bool
is_scanning preamble = true
is_scanning body = true
is_scanning _ = false

-- A suffix that begins with a dash and may go on is that dash.
dash_incomplete :
    (bs : Bytes) (a : ℕ)
    → delimiter_suffix bs a ≡ incomplete
    → starts_with (drop a bs) (b'-' ∷ []) ≡ true
    → length (drop a bs) ≤ 1
unfolding delimiter_suffix suffix_of_tail starts_with
dash_incomplete bs a h d = by_tail (drop a bs) h d
  where
    by_tail :
        (t : Bytes)
        → suffix_of_tail t a ≡ incomplete
        → starts_with t (b'-' ∷ []) ≡ true
        → length t ≤ 1
    by_tail [] h d = omega arith
    by_tail (c ∷ []) h d = omega arith
    by_tail (c ∷ e ∷ r) h d = ground arith

pub data_end-le : (bs : Bytes) (i : ℕ) → i ≤ body_data_end bs i + 2
unfolding body_data_end
data_end-le bs i = ground arith

-- A prefix that is let through is short.
check_prefix-le :
    (p : MultipartParser) (a limit : ℕ)
    → p.max_total_header_size ≡ some limit
    → limit < usize_max
    → delimiter_suffix p.buffer a ≡ incomplete
    → check_incomplete_header_prefix p a ≡ ok tt
    → length (drop a p.buffer) ≤ limit + 1
unfolding check_incomplete_header_prefix check_total_header_size saturating_add
check_prefix-le p a limit m u i e = ground (arith, dash_incomplete p.buffer a i)

-- A parser for a boundary token with a limit on the headers of a part, as `new` makes it.
pub record IsFor (token : Bytes) (limit : ℕ) (p : MultipartParser) : Type 0 where
  pub same_token : p.dash_boundary ≡ token
  pub same_delimiter : p.delimiter_length ≡ length token + 2
  pub same_limit : p.max_total_header_size ≡ some limit

-- Where no data has to wait for more than a delimiter, little is kept.
pub record IsKept {D : Type 0} (token : Bytes) (limit : ℕ) (s : Step D) : Type 0 where
  pub same : IsFor token limit s.parser
  pub bounded :
      s.progressed ≡ false
      → is_scanning s.parser.state ≡ true
      → length s.parser.buffer ≤ length token + limit + 3

module _ (D : Type 0) (token : Bytes) (limit : ℕ) (small : limit < usize_max) (p : MultipartParser)
    (for : IsFor token limit p) where
  pub raw_boundary_at-IsKept :
      (i a : ℕ) (x : DelimiterSuffix)
      → is_scanning p.state ≡ false
      → Ensures (IsKept {D = D} token limit) (raw_boundary_at p i a x)
  unfolding raw_boundary_at
  raw_boundary_at-IsKept i a (open_at n) k = ground (arith, for)
  raw_boundary_at-IsKept i a _ k = ground (arith, for)

  pub preamble_boundary_at-IsKept :
      (i a : ℕ) (x : DelimiterSuffix)
      → delimiter_suffix p.buffer a ≡ x
      → a ≡ i + length token
      → Ensures (IsKept {D = D} token limit) (preamble_boundary_at p i a x)
  unfolding preamble_boundary_at
  preamble_boundary_at-IsKept i a (open_at n) e l = ground (arith, for)
  preamble_boundary_at-IsKept i a incomplete e l = ground (
    arith,
    for,
    check_prefix-le p a limit for.same_limit small e,
    length-drop i p.buffer,
    length-drop a p.buffer,
  )
  preamble_boundary_at-IsKept i a _ e l = ground (arith, for)

  pub preamble_tail-IsKept : Ensures (IsKept {D = D} token limit) (preamble_tail p)
  unfolding preamble_tail
  preamble_tail-IsKept =
      ground (arith, for, length-drop (length p.buffer - (length p.dash_boundary + 1)) p.buffer)

  pub body_boundary_at-IsKept :
      (map_data : Bytes → D) (es : List (MultipartEvent D)) (i n a : ℕ) (x : DelimiterSuffix)
      → delimiter_suffix p.buffer a ≡ x
      → a ≡ i + length token
      → i ≤ n + 2
      → Ensures (IsKept token limit) (body_boundary_at map_data es p n a x)
  unfolding body_boundary_at
  body_boundary_at-IsKept f es i n a (open_at k) e l d = ground (arith, for)
  body_boundary_at-IsKept f es i n a incomplete e l d = ground (
    arith,
    for,
    check_prefix-le p a limit for.same_limit small e,
    length-drop n p.buffer,
    length-drop a p.buffer,
  )
  body_boundary_at-IsKept f es i n a _ e l d = ground (arith, for)

  pub body_tail-IsKept :
      (map_data : Bytes → D) (es : List (MultipartEvent D))
      → Ensures (IsKept token limit) (body_tail map_data es p)
  unfolding body_tail
  body_tail-IsKept f es =
      ground (arith, for, length-drop (length p.buffer - (p.delimiter_length - 1)) p.buffer)
