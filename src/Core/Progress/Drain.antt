-- ===== src/Core/Progress/Drain.antt =====
-- What the rounds of rust/src/multipart.rs take from the buffer at a boundary token.
use django_fast_multipart.Base.{
  ℕ, ◌+◌, ◌*◌, ◌≤◌, ◌<◌, Bool, true, false, ◌≡◌, refl, Option, none, some, List, [], ◌∷◌, Bytes,
  starts_with, drop, length, length-drop, if◌then◌else◌, arith,
}
use django_fast_multipart.Core.Boundary.{
  Step, handle_raw_boundary, raw_boundary_at, preamble_boundary_at, preamble_tail, body_boundary_at,
  body_tail,
}
use django_fast_multipart.Core.Delimiter.{padding, line_ending, suffix_of_tail, delimiter_suffix}
use django_fast_multipart.Core.Grammar.Order.{Ensures}
use django_fast_multipart.Core.Memmem.{Memmem}
use django_fast_multipart.Core.Parser.{preamble_found, raw_segment_next, body_found}
use django_fast_multipart.Core.Types.{
  MultipartState, discard, MultipartEvent, DelimiterSuffix, open_at, MultipartParser,
}
use django_fast_multipart.Exc.{Result}

-- A segment that is not inside a part's headers or body.
abbrev pub is_discarding : MultipartState → Bool
is_discarding discard = true
is_discarding MultipartState.end = true
is_discarding _ = false

abbrev pub measure : MultipartParser → ℕ
measure p = 2 * length p.buffer + (if is_discarding p.state then 1 else 0)

-- A round that progresses drains the buffer.
pub record IsDrained {D : Type 0} (p : MultipartParser) (s : Step D) : Type 0 where
  pub drained : s.progressed ≡ true → length s.parser.buffer < length p.buffer
  pub same_boundary : s.parser.dash_boundary ≡ p.dash_boundary

pub record IsShorter {D : Type 0} (p : MultipartParser) (s : Step D) : Type 0 where
  pub shorter : s.progressed ≡ true → measure s.parser < measure p
  pub same_boundary : s.parser.dash_boundary ≡ p.dash_boundary

pub line_ending-open_at : (bs : Bytes) (c n : ℕ) → line_ending bs c ≡ open_at n → c + 2 ≡ n
unfolding line_ending
line_ending-open_at [] c n h = cc
line_ending-open_at (x ∷ []) c n h = ground arith
line_ending-open_at (x ∷ y ∷ bs) c n h = ground arith

-- A line break behind a boundary token is consumed, so two bytes at least are.
pub delimiter_suffix-open_at :
    (bs : Bytes) (a n : ℕ) → delimiter_suffix bs a ≡ open_at n → a + 2 ≤ n
unfolding delimiter_suffix suffix_of_tail
delimiter_suffix-open_at bs a n h = go (drop a bs) h
  where
    go : (t : Bytes) → suffix_of_tail t a ≡ open_at n → a + 2 ≤ n
    go [] h = cc
    go (c ∷ []) h =
        ground
          (arith, line_ending-open_at (drop (padding (c ∷ [])) (c ∷ [])) (a + padding (c ∷ [])) n)
    go (c ∷ d ∷ r) h = ground (
      arith,
      line_ending-open_at (drop (padding (c ∷ d ∷ r)) (c ∷ d ∷ r)) (a + padding (c ∷ d ∷ r)) n,
    )

pub starts_with-length : (xs ys : Bytes) → starts_with xs ys ≡ true → length ys ≤ length xs
unfolding starts_with
starts_with-length xs [] h = omega arith
starts_with-length [] (y ∷ ys) h = cc
starts_with-length (x ∷ xs) (y ∷ ys) h = ground (arith, starts_with-length xs ys)

-- A token that is found ends within the buffer.
pub find-length :
    (mm : Memmem) (hay needle : Bytes) {i : ℕ}
    → mm.find hay needle ≡ some i
    → i + length needle ≤ length hay
find-length mm hay needle {i} h =
    let (b, s) = mm.find-OccursAt hay needle h in
    omega (arith, b, starts_with-length (drop i hay) needle s, length-drop i hay)

module _ {D : Type 0} (p : MultipartParser) (i : ℕ) (a : ℕ) (filled : 0 < length p.buffer)
    (moved : 0 < a) where
  pub raw_boundary_at-IsDrained :
      (x : DelimiterSuffix)
      → ((n : ℕ) → x ≡ open_at n → a + 2 ≤ n)
      → (r : Result (Step D)) → raw_boundary_at p i a x ≡ r
      → Ensures (IsDrained p) r
  unfolding raw_boundary_at
  raw_boundary_at-IsDrained (open_at n) h r e = ground (arith, h n refl, length-drop n p.buffer)
  raw_boundary_at-IsDrained _ h r e = ground (arith, length-drop a p.buffer)

  pub preamble_boundary_at-IsDrained :
      (x : DelimiterSuffix)
      → ((n : ℕ) → x ≡ open_at n → a + 2 ≤ n)
      → (r : Result (Step D)) → preamble_boundary_at p i a x ≡ r
      → Ensures (IsDrained p) r
  unfolding preamble_boundary_at
  preamble_boundary_at-IsDrained (open_at n) h r e =
      ground (arith, h n refl, length-drop n p.buffer)
  preamble_boundary_at-IsDrained _ h r e = ground (arith, length-drop a p.buffer)

  pub body_boundary_at-IsDrained :
      (map_data : Bytes → D) (es : List (MultipartEvent D)) (x : DelimiterSuffix)
      → ((n : ℕ) → x ≡ open_at n → a + 2 ≤ n)
      → (r : Result (Step D)) → body_boundary_at map_data es p i a x ≡ r
      → Ensures (IsDrained p) r
  unfolding body_boundary_at
  body_boundary_at-IsDrained f es (open_at n) h r e =
      ground (arith, h n refl, length-drop n p.buffer)
  body_boundary_at-IsDrained f es _ h r e = ground (arith, length-drop a p.buffer)

-- A boundary token that was found.
abbrev pub Found : MultipartParser → Option ℕ → Type 0
Found p none = Unit
Found p (some i) = i + length p.dash_boundary ≤ length p.buffer

pub find-Found : (mm : Memmem) (p : MultipartParser) → Found p (mm.find p.buffer p.dash_boundary)
find-Found mm p = go (mm.find p.buffer p.dash_boundary) refl
  where
    go : (o : Option ℕ) → mm.find p.buffer p.dash_boundary ≡ o → Found p o
    go none e = tt
    go (some i) e = find-length mm p.buffer p.dash_boundary e

module _ (D : Type 0) (p : MultipartParser) (token : 0 < length p.dash_boundary) where
  pub handle_raw_boundary-IsDrained :
      (i : ℕ)
      → i + length p.dash_boundary ≤ length p.buffer
      → Ensures (IsDrained {D = D} p) (handle_raw_boundary p i)
  unfolding handle_raw_boundary
  handle_raw_boundary-IsDrained i h =
      raw_boundary_at-IsDrained p i (i + length p.dash_boundary) (omega arith) (omega arith) _
        (delimiter_suffix-open_at p.buffer (i + length p.dash_boundary)) _ refl

  pub preamble_found-IsDrained :
      (o : Option ℕ) → Found p o → Ensures (IsDrained {D = D} p) (preamble_found p o)
  unfolding preamble_found preamble_tail
  preamble_found-IsDrained none h = ground arith
  preamble_found-IsDrained (some i) h =
      preamble_boundary_at-IsDrained p i (i + length p.dash_boundary) (omega arith) (omega arith) _
        (delimiter_suffix-open_at p.buffer (i + length p.dash_boundary)) _ refl

  pub body_found-IsDrained :
      (map_data : Bytes → D) (es : List (MultipartEvent D)) (o : Option ℕ)
      → Found p o
      → Ensures (IsDrained p) (body_found map_data es p o)
  unfolding body_found body_tail
  body_found-IsDrained map_data es none h = ground arith
  body_found-IsDrained map_data es (some i) h =
      body_boundary_at-IsDrained p _ (i + length p.dash_boundary) (omega arith) (omega arith)
        map_data es _ (delimiter_suffix-open_at p.buffer (i + length p.dash_boundary)) _ refl

  pub raw_segment_next-IsDrained :
      (o : Option ℕ) → Found p o → Ensures (IsDrained {D = D} p) (raw_segment_next p o)
  unfolding raw_segment_next
  raw_segment_next-IsDrained none h = ground arith
  raw_segment_next-IsDrained (some i) h = handle_raw_boundary-IsDrained i h
