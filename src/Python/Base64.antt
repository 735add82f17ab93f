-- ===== src/Python/Base64.antt =====
-- `base64.b64decode(data, validate=True)`: the strict mode of CPython 3.12's
-- `binascii.a2b_base64`, byte by byte. Every failure is a `binascii.Error`.
use django_fast_multipart.Base.{
  ℕ, suc, ◌+◌, ◌-◌, ◌*◌, ◌/◌, ◌%◌, Bool, true, false, ◌&&◌, Option, none, some, [], ◌∷◌, ◌++◌,
  Bytes, leb, ◌==◌, if◌then◌else◌, ◌≡◌, refl, codes,
}
use django_fast_multipart.Exc.{binascii_error, Result, ok, err, ◌>>=◌}

-- The value of a character of the alphabet.
unfoldable pub base64_value : ℕ → Option ℕ
base64_value c =
    if leb b'A' c && leb c b'Z'
    then some (c - b'A')
    else if leb b'a' c && leb c b'z'
    then some (c - b'a' + 26)
    else if leb b'0' c && leb c b'9'
    then some (c - b'0' + 52)
    else if c == b'+'
    then some 62
    else if c == b'/'
    then some 63
    else none

-- Where a group of four characters stands, with the bits that are left over.
pub data Quad : Type 0 where
  first : Quad
  second third fourth : ℕ → Quad

pub record Decoding : Type 0 where
  pub quad : Quad
  pub pads : ℕ
  pub padding_started : Bool

abbrev pub start : Decoding
start = record { quad = first; pads = 0; padding_started = false }

-- The bytes that a character gives, and the group behind it.
unfoldable pub take_value : Quad → ℕ → Bytes × Quad
take_value first v = ([], second v)
take_value (second left) v = ((left * 4 + v / 16) ∷ [], third (v % 16))
take_value (third left) v = ((left * 16 + v / 4) ∷ [], fourth (v % 4))
take_value (fourth left) v = ((left * 64 + v) ∷ [], first)

-- What a character does: it ends the decoding, or gives bytes and goes on.
pub data Action : Type 0 where
  stop : Result Bytes → Action
  continue : Bytes → Decoding → Action

-- A `=` in a group with `place` characters before it; `rest` is what follows it.
unfoldable pub pad_at : Decoding → ℕ → Bytes → Action
pad_at d place [] =
    if leb 4 (place + suc d.pads)
    then stop (ok [])
    else continue [] (record d { pads = suc d.pads; padding_started = true })
pad_at d place (c ∷ cs) =
    if leb 4 (place + suc d.pads)
    then stop (err (binascii_error "Excess data after padding"))
    else continue [] (record d { pads = suc d.pads; padding_started = true })

unfoldable pub pad : Decoding → Quad → Bytes → Action
unfolding pad_at
pad d (third left) rest = pad_at d 2 rest
pad d (fourth left) rest = pad_at d 3 rest
pad d q rest = continue [] (record d { padding_started = true })

-- A character that is no `=`, by its value.
unfoldable pub value_action : Decoding → Option ℕ → Action
value_action d none = stop (err (binascii_error "Only base64 data is allowed"))
value_action d (some v) =
    if d.padding_started
    then stop (err (binascii_error "Discontinuous padding not allowed"))
    else (let (out, quad) = take_value d.quad v in
        continue out (record { quad = quad; pads = 0; padding_started = false }))

unfoldable pub act : Decoding → ℕ → Bytes → Action
unfolding pad value_action take_value
act d c rest = if c == b'=' then pad d d.quad rest else value_action d (base64_value c)

abbrev pub put_before : Bytes → Result Bytes → Result Bytes
put_before out r = do more ← r; ok (out ++ more)

-- At the end of the data a group must be complete.
unfoldable pub at_end : Quad → Result Bytes
at_end first = ok []
at_end (second left) =
    err (binascii_error "Invalid base64-encoded string: the number of data characters is invalid")
at_end q = err (binascii_error "Incorrect padding")

unfoldable pub after_action : (Decoding → Result Bytes) → Action → Result Bytes
after_action rest (stop r) = r
after_action rest (continue out d) = put_before out (rest d)

unfoldable pub decode_from : Decoding → Bytes → Result Bytes
unfolding act at_end after_action
decode_from d [] = at_end d.quad
decode_from d (c ∷ cs) = after_action (λ d'. decode_from d' cs) (act d c cs)

-- Strict decoding refuses a `=` at the very start.
unfoldable pub b64decode : Bytes → Result Bytes
unfolding decode_from
b64decode [] = ok []
b64decode (c ∷ cs) =
    if c == b'='
    then err (binascii_error "Leading padding not allowed")
    else decode_from start (c ∷ cs)

decode_hello : b64decode (codes "aGVsbG8=") ≡ ok (codes "hello")
unfolding b64decode base64_value
decode_hello = refl

decode_two : b64decode (codes "aGVsbG8gd28=") ≡ ok (codes "hello wo")
unfolding b64decode base64_value
decode_two = refl

decode_excess : b64decode (codes "aGVsbG8=aGVs") ≡ err (binascii_error "Excess data after padding")
unfolding b64decode base64_value
decode_excess = refl

decode_short : b64decode (codes "aGVsbA=") ≡ err (binascii_error "Incorrect padding")
unfolding b64decode base64_value
decode_short = refl
