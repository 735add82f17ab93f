-- ===== src/Adapter/Decoder/Strict.antt =====
-- Strict base64 decoding, cut where a group ends.
use django_fast_multipart.Base.{
  ℕ, ◌+◌, ◌%◌, ◌<◌, false, ◌≡◌, ◌≢◌, ◌∙◌, refl, sym, ap, none, some, [], ◌∷◌, ◌++◌, Bytes, length,
  append_assoc, ◌==◌, arith, Option-cases, inl, inr,
}
use django_fast_multipart.Exc.{Result, ok, err}
use django_fast_multipart.Python.Base64.{
  Quad, first, second, third, fourth, Decoding, start, take_value, base64_value, value_action, act,
  after_action, at_end, decode_from, b64decode, put_before,
}
use django_fast_multipart.Python.Strings.{index_of}

-- Before any padding, a decoding stands at a place in its group.
abbrev pub at_quad : Quad → Decoding
at_quad q = record { quad = q; pads = 0; padding_started = false }

abbrev pub place : Quad → ℕ
place first = 0
place (second _) = 1
place (third _) = 2
place (fourth _) = 3

pub place-take_value : (q : Quad) (v : ℕ) → place (take_value q v).1 ≡ (place q + 1) % 4
unfolding take_value
place-take_value first v = refl
place-take_value (second l) v = refl
place-take_value (third l) v = refl
place-take_value (fourth l) v = refl

pub put_before-nil : (r : Result Bytes) → put_before [] r ≡ r
put_before-nil (ok a) = refl
put_before-nil (err e) = refl

pub put_before-put_before :
    (a b : Bytes) (r : Result Bytes) → put_before a (put_before b r) ≡ put_before (a ++ b) r
put_before-put_before a b (ok c) = ap ok (sym (append_assoc a b c))
put_before-put_before a b (err e) = refl

put_before-eq-ok :
    (a : Bytes) (r : Result Bytes) {o : Bytes}
    → put_before a r ≡ ok o
    → (b : Bytes) × (r ≡ ok b) × (o ≡ a ++ b)
put_before-eq-ok a (ok b) h = (b, refl, ground arith)
put_before-eq-ok a (err e) h = cc

-- A character of the alphabet, and any other but `=`.
pub decode_from-cons :
    (q : Quad) (x v : ℕ) (xs : Bytes)
    → (x == b'=') ≡ false
    → base64_value x ≡ some v
    → decode_from (at_quad q) (x ∷ xs)
      ≡ put_before (take_value q v).0 (decode_from (at_quad (take_value q v).1) xs)
unfolding decode_from act value_action after_action
decode_from-cons q x v xs n e = rw (n, e) refl

pub decode_from-cons_bad :
    (q : Quad) (x : ℕ) (xs : Bytes) {o : Bytes}
    → (x == b'=') ≡ false
    → base64_value x ≡ none
    → decode_from (at_quad q) (x ∷ xs) ≢ ok o
unfolding decode_from act value_action after_action
decode_from-cons_bad q x xs n e = rw (n, e) (λ h. cc)

pub index_of-cons :
    (b x : ℕ) (xs : Bytes)
    → index_of b (x ∷ xs) ≡ none
    → ((x == b) ≡ false) × (index_of b xs ≡ none)
unfolding index_of
index_of-cons b x xs h = ground arith

-- Data without padding, cut where a group ends: decoding goes on behind it as from the start.
pub decode_from-append :
    (q : Quad) (xs ys : Bytes) {o : Bytes}
    → index_of b'=' xs ≡ none
    → (place q + length xs) % 4 ≡ 0
    → decode_from (at_quad q) xs ≡ ok o
    → decode_from (at_quad q) (xs ++ ys) ≡ put_before o (decode_from start ys)
decode_from-append first [] ys {o} n l e =
    let o' : o ≡ [] = (unfold decode_from at_end in ground arith) in rw o' (sym (put_before-nil _))
decode_from-append (second _) [] ys n l e = absurd (omega arith)
decode_from-append (third _) [] ys n l e = absurd (omega arith)
decode_from-append (fourth _) [] ys n l e = absurd (omega arith)
decode_from-append q (x ∷ xs) ys {o} n l e =
    let (nx, nxs) = index_of-cons b'=' x xs n in
    elim (Option-cases (base64_value x)) [
      | inl bad ↦ absurd (decode_from-cons_bad q x xs nx bad e)
      | inr (v, good) ↦
          let (o', e', same) = put_before-eq-ok _ _ (sym (decode_from-cons q x v xs nx good) ∙ e) in
          let next = (take_value q v).1 in
          decode_from-cons q x v (xs ++ ys) nx good
          ∙ ap (put_before _)
              (decode_from-append next xs ys nxs (omega (arith, place-take_value q v)) e')
          ∙ put_before-put_before _ _ _
          ∙ ap (λ (t : Bytes). put_before t (decode_from start ys)) (sym same)
    ]

pub b64decode-decode_from :
    (z : Bytes) {o : Bytes} → b64decode z ≡ ok o → decode_from start z ≡ ok o
unfolding b64decode
b64decode-decode_from [] h = unfold decode_from at_end in h
b64decode-decode_from (c ∷ cs) h = ground arith

-- Complete groups without padding, and what follows them.
pub b64decode-cons :
    (x : ℕ) (xs : Bytes) → (x == b'=') ≡ false → b64decode (x ∷ xs) ≡ decode_from start (x ∷ xs)
unfolding b64decode
b64decode-cons x xs n = rw n

pub b64decode-append :
    (xs ys : Bytes) {o out : Bytes}
    → 0 < length xs
    → index_of b'=' xs ≡ none
    → length xs % 4 ≡ 0
    → b64decode xs ≡ ok o
    → b64decode ys ≡ ok out
    → b64decode (xs ++ ys) ≡ ok (o ++ out)
b64decode-append [] ys f n l e k = absurd (omega arith)
b64decode-append (x ∷ xs) ys {o} {out} f n l e k =
    let (nx, nxs) = index_of-cons b'=' x xs n in
    let e' : decode_from start (x ∷ xs) ≡ ok o = b64decode-decode_from (x ∷ xs) e in
    let k' : decode_from start ys ≡ ok out = b64decode-decode_from ys k in
    b64decode-cons x (xs ++ ys) nx
    ∙ decode_from-append first (x ∷ xs) ys n (omega arith) e'
    ∙ ap (put_before o) k'

-- Fewer than four characters do not decode, unless there are none.
pub b64decode-short : (z : Bytes) {o : Bytes} → length z < 4 → b64decode z ≡ ok o → z ≡ []
unfolding b64decode
b64decode-short [] l h = refl
b64decode-short (a ∷ []) l h = ground arith
b64decode-short (a ∷ b ∷ []) l h = ground arith
b64decode-short (a ∷ b ∷ c ∷ []) l h = ground arith
b64decode-short (a ∷ b ∷ c ∷ d ∷ z) l h = absurd (omega arith)
