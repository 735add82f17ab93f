-- ===== src/Python.antt =====
-- What src/django_fast_multipart/parser.py uses of Python: methods of `bytes` and `str`
-- (Python/Strings), and `base64.b64decode` with `validate=True` (Python/Base64).
pub mod Strings
pub mod Base64
