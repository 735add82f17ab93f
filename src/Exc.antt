-- ===== src/Exc.antt =====
-- The exceptions that cross the code, and results that may raise one. The classes and their
-- subclass relations are those of Python and of Django that
-- src/django_fast_multipart/parser.py names in its `except` clauses; rust/src/multipart.rs raises
-- `PyRuntimeError` and `PyValueError`.
use django_fast_multipart.Base.{String, Bool, true, false, ◌≡◌, refl, if◌then◌else◌}

pub data Exc : Type 0 where
  runtime_error : String → Exc
  value_error : String → Exc
  -- subclasses of `ValueError`
  binascii_error : String → Exc
  unicode_decode_error : String → Exc
  type_error : String → Exc
  lookup_error : String → Exc
  multipart_parser_error : String → Exc
  request_data_too_big : String → Exc
  too_many_fields_sent : String → Exc
  too_many_files_sent : String → Exc
  skip_file : Exc
  stop_future_handlers : Exc
  -- the flag is `connection_reset`
  stop_upload : Bool → Exc
  -- any other subclass of `Exception`
  other_exception : String → Exc
  -- a `BaseException` that is no `Exception`, such as `KeyboardInterrupt`
  base_exception : String → Exc

-- `isinstance(exc, ValueError)`
unfoldable pub is_value_error : Exc → Bool
is_value_error (value_error m) = true
is_value_error (binascii_error m) = true
is_value_error (unicode_decode_error m) = true
is_value_error _ = false

-- `isinstance(exc, RuntimeError)`
unfoldable pub is_runtime_error : Exc → Bool
is_runtime_error (runtime_error m) = true
is_runtime_error _ = false

-- `isinstance(exc, Exception)`
unfoldable pub is_exception : Exc → Bool
is_exception (base_exception m) = false
is_exception _ = true

-- `str(exc)`
unfoldable pub message : Exc → String
message (runtime_error m) = m
message (value_error m) = m
message (binascii_error m) = m
message (unicode_decode_error m) = m
message (type_error m) = m
message (lookup_error m) = m
message (multipart_parser_error m) = m
message (request_data_too_big m) = m
message (too_many_fields_sent m) = m
message (too_many_files_sent m) = m
message skip_file = ""
message stop_future_handlers = ""
message (stop_upload b) = ""
message (other_exception m) = m
message (base_exception m) = m

pub data Result {ℓ} (A : Type ℓ) : Type ℓ where
  ok : A → Result A
  err : Exc → Result A

-- `if test: raise exc`
abbrev pub raise_if : Bool → Exc → Result (Unit {0})
raise_if b exc = if b then err exc else ok tt

-- What comes behind is not run where an exception is raised.
infixl 5 ◌>>=◌
abbrev pub ◌>>=◌ {i j} : {V : Type i} {W : Type j} → Result V → (V → Result W) → Result W
err exc >>= next = err exc
ok value >>= next = next value

infixl 5 ◌>>◌
abbrev pub ◌>>◌ {j} : {W : Type j} → Result (Unit {0}) → Result W → Result W
first >> second = first >>= (λ u. second)

pub bind-eq-ok {i j} :
    {V : Type i} {W : Type j} (r : Result V) (next : V → Result W) {w : W}
    → (r >>= next) ≡ ok w
    → (v : V) × (r ≡ ok v) × (next v ≡ ok w)
bind-eq-ok (err exc) next e = cc
bind-eq-ok (ok value) next e = (value, refl, e)

pub ok-injective {ℓ} : {A : Type ℓ} {a b : A} → Result.ok a ≡ ok b → b ≡ a
ok-injective h = cc

pub err-not_ok {ℓ} : {A : Type ℓ} {e : Exc} {a : A} → Result.err e ≡ ok a → ⊥
err-not_ok h = cc
