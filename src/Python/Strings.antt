-- ===== src/Python/Strings.antt =====
-- Methods of Python's `bytes` and `str` that parser.py calls. A `str` is its code points.
use mathlib.Core.List.{reverse}
use django_fast_multipart.Base.{
  ℕ, suc, ◌+◌, ◌-◌, ◌*◌, Bool, true, false, not, ◌&&◌, ◌||◌, Option, none, some, List, [], ◌∷◌,
  ◌++◌, Bytes, Text, ltb, leb, ◌==◌, if◌then◌else◌, ◌≡◌, ◌∙◌, ap, refl, append_assoc, Bool-cases,
  inl, inr,
}

-- The bytes that `bytes.split()` cuts at.
unfoldable pub is_space : ℕ → Bool
is_space c = c == b' ' || (leb 0x09 c && leb c 0x0d)

-- `word` is the word that is being read.
abbrev close_word : Bytes → List Bytes → List Bytes
close_word [] words = words
close_word (c ∷ cs) words = (c ∷ cs) ∷ words

unfoldable pub split_from : Bytes → Bytes → List Bytes
split_from word [] = close_word word []
split_from word (c ∷ cs) =
    let here = close_word word (split_from [] cs) in
    let longer = split_from (word ++ c ∷ []) cs in
    elim (is_space c) [ true ↦ here | false ↦ longer ]

-- `data.split()`
unfoldable pub split : Bytes → List Bytes
unfolding split_from
split = split_from []

-- `b"".join(parts)`
unfoldable pub join : List Bytes → Bytes
join [] = []
join (w ∷ ws) = w ++ join ws

-- What is no white space.
unfoldable pub squeeze : Bytes → Bytes
squeeze [] = []
squeeze (c ∷ cs) = if is_space c then squeeze cs else c ∷ squeeze cs

-- `data.find(bytes([byte]))`, which is -1 for `none`.
unfoldable pub index_of : ℕ → Bytes → Option ℕ
index_of byte [] = none
index_of byte (c ∷ cs) =
    if c == byte then some 0 else elim (index_of byte cs) [ none ↦ none | some i ↦ some (suc i) ]

-- The code points that `str.strip()` removes (`str.isspace`).
abbrev pub is_unicode_space : ℕ → Bool
is_unicode_space c =
    (leb 0x09 c && leb c 0x0d)
    || (leb 0x1c c && leb c 0x20)
    || c == 0x85
    || c == 0xa0
    || c == 0x1680
    || (leb 0x2000 c && leb c 0x200a)
    || c == 0x2028
    || c == 0x2029
    || c == 0x202f
    || c == 0x205f
    || c == 0x3000

unfoldable pub strip_start : (ℕ → Bool) → Text → Text
strip_start p [] = []
strip_start p (c ∷ cs) = if p c then strip_start p cs else c ∷ cs

-- `text.strip()`
unfoldable pub strip : Text → Text
unfolding strip_start
strip t = reverse (strip_start is_unicode_space (reverse (strip_start is_unicode_space t)))

-- `text.rstrip(" ")`
unfoldable pub rstrip_spaces : Text → Text
unfolding strip_start
rstrip_spaces t = reverse (strip_start (λ c. c == b' ') (reverse t))

-- A strict UTF-8 decoder between two bytes: how many bytes the code point still wants, its bits so
-- far, and the range of the next byte.
pub record Utf8 : Type 0 where
  pub wanted : ℕ
  pub bits : ℕ
  pub low : ℕ
  pub high : ℕ

abbrev between : ℕ → ℕ → ℕ → Bool
between lo hi c = leb lo c && leb c hi

abbrev utf8_start : Utf8
utf8_start = record { wanted = 0; bits = 0; low = 0; high = 0 }

-- The first byte of a code point, with the code point itself if that is all.
unfoldable pub utf8_first : ℕ → Option (Utf8 × List ℕ)
utf8_first c =
    if ltb c 0x80
    then some (utf8_start, c ∷ [])
    else if between 0xc2 0xdf c
    then some (record { wanted = 1; bits = c - 0xc0; low = 0x80; high = 0xbf }, [])
    else if between 0xe0 0xef c
    then some (
      record {
        wanted = 2;
        bits = c - 0xe0;
        low = if c == 0xe0 then 0xa0 else 0x80;
        high = if c == 0xed then 0x9f else 0xbf;
      },
      [],
    )
    else if between 0xf0 0xf4 c
    then some (
      record {
        wanted = 3;
        bits = c - 0xf0;
        low = if c == 0xf0 then 0x90 else 0x80;
        high = if c == 0xf4 then 0x8f else 0xbf;
      },
      [],
    )
    else none

unfoldable pub utf8_next : Utf8 → ℕ → Option (Utf8 × List ℕ)
utf8_next u c =
    let bits = u.bits * 64 + (c - 0x80) in
    if not (between u.low u.high c)
    then none
    else if u.wanted == 1
    then some (utf8_start, bits ∷ [])
    else some (record { wanted = u.wanted - 1; bits = bits; low = 0x80; high = 0xbf }, [])

abbrev push_points : List ℕ → Option Text → Option Text
push_points cs none = none
push_points cs (some t) = some (cs ++ t)

unfoldable pub decode_from : Utf8 → Bytes → Option Text
unfolding utf8_first utf8_next
decode_from u [] = if u.wanted == 0 then some [] else none
decode_from u (c ∷ cs) = elim (if u.wanted == 0 then utf8_first c else utf8_next u c) [
  | none ↦ none
  | some (v, out) ↦ push_points out (decode_from v cs)
]

-- `data.decode()`: strict UTF-8, with `none` for `UnicodeDecodeError`.
unfoldable pub decode : Bytes → Option Text
unfolding decode_from
decode = decode_from utf8_start

decode_ascii : decode (b'h' ∷ b'i' ∷ []) ≡ some (b'h' ∷ b'i' ∷ [])
unfolding decode
decode_ascii = refl

decode_wide :
    decode (0xc3 ∷ 0xa9 ∷ 0xe2 ∷ 0x82 ∷ 0xac ∷ 0xf0 ∷ 0x9f ∷ 0x98 ∷ 0x80 ∷ [])
    ≡ some (0xe9 ∷ 0x20ac ∷ 0x1f600 ∷ [])
unfolding decode
decode_wide = refl

decode_bad : decode (0xed ∷ 0xa0 ∷ 0x80 ∷ []) ≡ none
unfolding decode
decode_bad = refl

join-close_word : (word : Bytes) (ws : List Bytes) → join (close_word word ws) ≡ word ++ join ws
unfolding join
join-close_word [] ws = refl
join-close_word (c ∷ cs) ws = refl

-- Splitting and joining removes the white space, whatever word is being read.
join-split_from : (word bs : Bytes) → join (split_from word bs) ≡ word ++ squeeze bs
unfolding split_from squeeze
join-split_from word [] = join-close_word word [] ∙ unfold join in refl
join-split_from word (c ∷ cs) = elim (Bool-cases (is_space c)) [
  | inl e ↦
      rw (e, split_from)
        (join-close_word word (split_from [] cs)
          ∙ ap (λ (t : Bytes). word ++ t) (join-split_from [] cs))
  | inr e ↦
      rw (e, split_from)
        (join-split_from (word ++ c ∷ []) cs ∙ append_assoc word (c ∷ []) (squeeze cs))
]

-- `b"".join(data.split())` is the data without its white space.
pub join-split : (bs : Bytes) → join (split bs) ≡ squeeze bs
unfolding split
join-split bs = join-split_from [] bs
