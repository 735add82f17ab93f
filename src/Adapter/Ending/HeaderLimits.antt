-- ===== src/Adapter/Ending/HeaderLimits.antt =====
-- `_multipart_error` of src/django_fast_multipart/parser.py on what the parser of
-- rust/src/multipart.rs raises.
use django_fast_multipart.Adapter.Ending.{
  multipart_error, is_header_limit_error, header_too_large_message,
}
use django_fast_multipart.Base.{◌≡◌, refl, true, Bytes}
use django_fast_multipart.Core.Checks.{line_too_long, too_many_headers, total_too_large}
use django_fast_multipart.Core.Failures.Feed.{feed-RaisesOnly, feed_eof-RaisesOnly}
use django_fast_multipart.Core.Failures.{RaisesOnly}
use django_fast_multipart.Core.Memmem.{Memmem}
use django_fast_multipart.Core.Parser.{feed_map_data, feed_eof_map_data}
use django_fast_multipart.Core.Progress.{IsOpenFor}
use django_fast_multipart.Core.{MultipartParser}
use django_fast_multipart.Exc.{Exc, multipart_parser_error, is_runtime_error, message}

-- `except (RuntimeError, ValueError)` takes it, and it becomes Django's error on large headers.
abbrev pub BecomesTooLarge : Exc → Type 0
BecomesTooLarge e =
    (is_runtime_error e ≡ true)
    × (multipart_error e ≡ multipart_parser_error header_too_large_message)

line_BecomesTooLarge : BecomesTooLarge line_too_long
unfolding is_runtime_error multipart_error is_header_limit_error message
line_BecomesTooLarge = (refl, refl)

count_BecomesTooLarge : BecomesTooLarge too_many_headers
unfolding is_runtime_error multipart_error is_header_limit_error message
count_BecomesTooLarge = (refl, refl)

total_BecomesTooLarge : BecomesTooLarge total_too_large
unfolding is_runtime_error multipart_error is_header_limit_error message
total_BecomesTooLarge = (refl, refl)

module _ {D : Type 0} (mm : Memmem) (map_data : Bytes → D) where
  -- Where `feed` is called before the end of the input and within the size limit, all that it and
  -- `feed_eof` raise are runtime errors that `_multipart_error` turns into Django's error on large
  -- headers.
  pub feed_errors :
      (p : MultipartParser) (bytes : Bytes)
      → IsOpenFor p bytes
      → RaisesOnly BecomesTooLarge (feed_map_data mm map_data p bytes)
        × RaisesOnly BecomesTooLarge (feed_eof_map_data mm map_data p)
  feed_errors p bytes o = (
    feed-RaisesOnly BecomesTooLarge line_BecomesTooLarge count_BecomesTooLarge total_BecomesTooLarge
        D mm map_data p bytes o,
    feed_eof-RaisesOnly BecomesTooLarge line_BecomesTooLarge count_BecomesTooLarge
        total_BecomesTooLarge D mm map_data p,
  )
