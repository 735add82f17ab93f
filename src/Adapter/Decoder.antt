-- ===== src/Adapter/Decoder.antt =====
-- `_Base64Decoder` of src/django_fast_multipart/parser.py: base64 data decoded as it arrives.
mod Strict
pub mod Streaming
use django_fast_multipart.Base.{
  ℕ, ◌+◌, ◌*◌, ◌/◌, Bool, true, false, not, Option, none, some, List, [], ◌∷◌, ◌++◌, Bytes, take,
  drop, length, ◌==◌, if◌then◌else◌,
}
use django_fast_multipart.Exc.{binascii_error, Result, ok, err, ◌>>=◌, ◌>>◌, raise_if}
use django_fast_multipart.Python.Base64.{b64decode}
use django_fast_multipart.Python.Strings.{split, join, index_of}

pub record Base64Decoder : Type 0 where
  pub buffer : Bytes
  pub padding_complete : Bool

abbrev pub fresh : Base64Decoder
fresh = record { buffer = []; padding_complete = false }

-- The complete groups of `buffer`, with the place of the first `=` in them.
unfoldable pub decode_groups :
    Base64Decoder → Bytes → ℕ → Option ℕ → Result (Option Bytes × Base64Decoder)
decode_groups d buffer complete_length (some padding_index) = do
  raise_if (not ((padding_index / 4 + 1) * 4 == length buffer))
      (binascii_error "Excess data after padding")
  decoded ← b64decode buffer
  ok (some decoded, record { buffer = []; padding_complete = true })
decode_groups d buffer complete_length none = do
  decoded ← b64decode (take complete_length buffer)
  ok (some decoded, record d { buffer = drop complete_length buffer })

-- `feed`, on the data without its white space.
unfoldable pub feed_stripped : Base64Decoder → Bytes → Result (Option Bytes × Base64Decoder)
feed_stripped d [] = ok (if length d.buffer == 0 then some [] else none, d)
feed_stripped d (c ∷ cs) =
    let buffer = d.buffer ++ (c ∷ cs) in
    let complete_length = length buffer / 4 * 4 in
    do
      raise_if d.padding_complete (binascii_error "Excess data after padding")
      if complete_length == 0
          then ok (none, record d { buffer = buffer })
          else decode_groups d buffer complete_length (index_of b'=' (take complete_length buffer))

-- The decoded bytes, if there are any, and the decoder behind them.
unfoldable pub feed : Base64Decoder → Bytes → Result (Option Bytes × Base64Decoder)
feed d bytes = feed_stripped d (join (split bytes))

unfoldable pub finish : Base64Decoder → Result (Unit {0})
finish d = if length d.buffer == 0 then ok tt else (do _ ← b64decode d.buffer; ok tt)
