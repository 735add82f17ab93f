-- ===== src/Core/Buffer/Padding.antt =====
-- What the parser of rust/src/multipart.rs keeps of the padding behind a boundary token in a raw
-- segment, where `handle_raw_boundary` makes no check on its size.
use django_fast_multipart.Base.{
  ℕ, zero, suc, ◌+◌, ◌<◌, true, false, ◌≡◌, ◌∙◌, refl, sym, ap, Option, none, some, [], ◌∷◌, ◌++◌,
  Bytes, length, length-append, drop, replicate, starts_with, arith, append_assoc,
}
use django_fast_multipart.Core.Boundary.{Step, handle_raw_boundary, raw_boundary_at}
use django_fast_multipart.Core.Delimiter.{
  crlf, delimiter_suffix, suffix_of_tail, line_ending, padding,
}
use django_fast_multipart.Core.Memmem.{Memmem}
use django_fast_multipart.Core.Parser.{
  handle_raw_segment, raw_segment_found, raw_segment_next, handle_in, handle, feed_map_data, Fed,
  accept,
}
use django_fast_multipart.Core.Progress.{IsOpenFor, Runs, failed, stopped, went_on, feed-Runs}
use django_fast_multipart.Core.Types.{discard, incomplete, MultipartParser}
use django_fast_multipart.Exc.{Result, ok, err-not_ok, ok-injective}

abbrev pub spaces : ℕ → Bytes
spaces n = replicate n b' '

spaces-append : (m n : ℕ) → spaces m ++ spaces n ≡ spaces (m + n)
spaces-append zero n = let e : n ≡ 0 + n = omega arith in ap spaces e
spaces-append (suc m) n =
    let e : suc (m + n) ≡ suc m + n = omega arith in
    ap (λ bs. b' ' ∷ bs) (spaces-append m n) ∙ ap spaces e

padding-spaces : (n : ℕ) → padding (spaces n) ≡ n
unfolding padding
padding-spaces zero = refl
padding-spaces (suc n) = ap suc (padding-spaces n)

drop-spaces : (n : ℕ) → drop n (spaces n) ≡ []
drop-spaces zero = refl
drop-spaces (suc n) = drop-spaces n

spaces_incomplete : (n a : ℕ) → suffix_of_tail (spaces n) a ≡ incomplete
unfolding suffix_of_tail line_ending padding
spaces_incomplete zero a = refl
spaces_incomplete (suc zero) a = refl
spaces_incomplete (suc (suc n)) a = rw (padding-spaces n, drop-spaces n) refl

length-spaces : (n : ℕ) → length (spaces n) ≡ n
length-spaces zero = refl
length-spaces (suc n) = ap suc (length-spaces n)

drop-append_lem : (xs ys : Bytes) → drop (length xs) (xs ++ ys) ≡ ys
drop-append_lem [] ys = refl
drop-append_lem (x ∷ xs) ys = drop-append_lem xs ys

starts_with-append : (xs ys : Bytes) → starts_with (xs ++ ys) xs ≡ true
unfolding starts_with
starts_with-append [] ys = refl
starts_with-append (x ∷ xs) ys = ground (arith, starts_with-append xs ys)

find-start :
    (mm : Memmem) (hay needle : Bytes) → starts_with hay needle ≡ true → mm.find hay needle ≡ some 0
find-start mm hay needle h = go (mm.find hay needle) refl
  where
    go : (o : Option ℕ) → mm.find hay needle ≡ o → o ≡ some 0
    go none e = let never = mm.find_none hay needle 0 e (omega arith) in cc
    go (some zero) e = refl
    go (some (suc i)) e = let never = mm.find_first hay needle 0 e (omega arith) in cc

-- A parser in a raw segment that begins with the boundary token, with padding behind it.
pub record IsPadded (n : ℕ) (p : MultipartParser) : Type 0 where
  pub in_raw : p.state ≡ discard
  pub padded : p.buffer ≡ p.dash_boundary ++ spaces n

-- The round that waits for more.
abbrev waits : (D : Type 0) → MultipartParser → Result (Step D)
waits D p = ok (record { progressed = false; parser = p; events = [] })

module _ (D : Type 0) (p : MultipartParser) (n : ℕ) (at_padding : IsPadded n p) where
  suffix_incomplete : delimiter_suffix p.buffer (0 + length p.dash_boundary) ≡ incomplete
  unfolding delimiter_suffix
  suffix_incomplete =
      let e : 0 + length p.dash_boundary ≡ length p.dash_boundary = omega arith in
      ap (λ t. suffix_of_tail t (0 + length p.dash_boundary))
        (ap (λ k. drop k p.buffer) e
          ∙ ap (drop (length p.dash_boundary)) at_padding.padded
          ∙ drop-append_lem p.dash_boundary (spaces n))
      ∙ spaces_incomplete n (0 + length p.dash_boundary)

  handle_raw_boundary-padded : handle_raw_boundary {D = D} p 0 ≡ waits D p
  unfolding handle_raw_boundary raw_boundary_at
  handle_raw_boundary-padded =
      ap (raw_boundary_at p 0 (0 + length p.dash_boundary)) suffix_incomplete

  raw_segment_found-padded : (end : Option ℕ) → raw_segment_found {D = D} p (some 0) end ≡ waits D p
  unfolding raw_segment_found raw_segment_next
  raw_segment_found-padded none = handle_raw_boundary-padded
  raw_segment_found-padded (some i) = ground (arith, handle_raw_boundary-padded)

  handle-padded : (mm : Memmem) (map_data : Bytes → D) → handle mm map_data p ≡ waits D p
  unfolding handle_in handle_raw_segment
  handle-padded mm f =
      let begins : starts_with p.buffer p.dash_boundary ≡ true =
        rw at_padding.padded (starts_with-append p.dash_boundary (spaces n)) in
      ap (λ m. handle_in mm f m p) at_padding.in_raw
      ∙ ap (λ o. raw_segment_found p o (mm.find p.buffer (crlf ++ crlf)))
          (find-start mm p.buffer p.dash_boundary begins)
      ∙ raw_segment_found-padded _

module _ {D : Type 0} (mm : Memmem) (map_data : Bytes → D) where
  -- A round that waits is the last of its run.
  Runs-waits :
      {p : MultipartParser} {r : Fed D}
      → Runs mm map_data p r
      → handle mm map_data p ≡ waits D p
      → r ≡ ok ([], p)
  Runs-waits (failed h e) w = absurd (err-not_ok (sym h ∙ w))
  Runs-waits (stopped h done e) w = rw (e, ok-injective (sym w ∙ h)) refl
  Runs-waits (went_on {s = s} h more rest e) w =
      let stuck : s.progressed ≡ false = ap (λ x. x.progressed) (ok-injective (sym w ∙ h)) in cc

  accept-IsPadded :
      (p : MultipartParser) (k n : ℕ) → IsPadded k p → IsPadded (k + n) (accept p (spaces n))
  accept-IsPadded p k n a = record {
    in_raw = a.in_raw;
    padded =
        ap (λ bs. bs ++ spaces n) a.padded
        ∙ append_assoc p.dash_boundary (spaces k) (spaces n)
        ∙ ap (λ bs. p.dash_boundary ++ bs) (spaces-append k n);
  }

  -- In a raw segment, a boundary token and the spaces behind it are kept, whatever their number
  -- and the limits on headers: a call of `feed` on `n` more spaces that passes the checks on the
  -- end of the input and on the size succeeds without an event, and all of them are added to the
  -- buffer.
  pub feed-spaces :
      (p : MultipartParser) (k n : ℕ)
      → 0 < length p.dash_boundary
      → IsPadded k p
      → IsOpenFor p (spaces n)
      → (feed_map_data mm map_data p (spaces n) ≡ ok ([], accept p (spaces n)))
        × IsPadded (k + n) (accept p (spaces n))
        × (length (accept p (spaces n)).buffer ≡ length p.dash_boundary + (k + n))
  feed-spaces p k n filled a o =
      let next = accept-IsPadded p k n a in
      (
        Runs-waits (feed-Runs mm map_data p (spaces n) filled o)
            (handle-padded D (accept p (spaces n)) (k + n) next mm map_data),
        next,
        ap length next.padded
            ∙ length-append p.dash_boundary (spaces (k + n))
            ∙ ap (λ m. length p.dash_boundary + m) (length-spaces (k + n)),
      )
