-- ===== src/Middleware.antt =====
-- src/django_fast_multipart/middleware.py: the middleware that selects the parser of a request.
-- The request is one object that is changed in place, so every step takes it and gives it back.
pub mod Serving
pub mod Stacking
mod Tests
use django_fast_multipart.Base.{
  Bool, true, false, Option, none, some, Text, codes, equal, if◌then◌else◌,
}
use django_fast_multipart.Exc.{value_error, type_error, Result, ok, err}

pub data ParserClass : Type 0 where
  django_parser rust_parser : ParserClass

pub record HttpRequest : Type 0 where
  pub content_type : Text
  pub multipart_parser_class : ParserClass

-- The body of an `async def`: it runs on the request as it is when it is awaited.
abbrev pub Body : Type 0 → Type 0
Body R = HttpRequest → Result R × HttpRequest

-- `Response`: a response, or an awaitable for one.
pub data Response (R : Type 0) : Type 0 where
  response : R → Response R
  coroutine : Body R → Response R

-- A call may change the request, and returns or raises.
abbrev pub GetResponse : Type 0 → Type 0
GetResponse R = HttpRequest → Result (Response R) × HttpRequest

-- `await`, on what a call came to: only an awaitable can be awaited.
unfoldable pub await : {R : Type 0} → Result (Response R) × HttpRequest → Result R × HttpRequest
await (ok (coroutine run), request) = run request
await (ok (response r), request) =
    (err (type_error "object can't be used in 'await' expression"), request)
await (err e, request) = (err e, request)

pub record FastMultipartMiddleware (R : Type 0) : Type 0 where
  pub get_response : GetResponse R
  pub async_mode : Bool
  -- whether `markcoroutinefunction(self)` was called
  pub marked : Bool

-- `_select_parser`
unfoldable pub select_parser : HttpRequest → HttpRequest
select_parser request =
    if equal request.content_type (codes "multipart/form-data")
    then record request { multipart_parser_class = rust_parser }
    else request

module _ {R : Type 0} where
  -- `__init__`, with what `iscoroutinefunction` says of the argument.
  unfoldable pub init : Bool → Option (GetResponse R) → Result (FastMultipartMiddleware R)
  init is_coroutine none = err (value_error "get_response must be provided.")
  init is_coroutine (some get_response) =
      ok (record { get_response = get_response; async_mode = is_coroutine; marked = is_coroutine })

  -- The body of `__acall__`.
  unfoldable pub acall : FastMultipartMiddleware R → Body R
  acall self request = await (self.get_response (select_parser request))

  -- `__call__`; a call of the `async def` only makes the coroutine.
  unfoldable pub call : FastMultipartMiddleware R → GetResponse R
  call self request =
      if self.async_mode
      then (ok (coroutine (acall self)), request)
      else self.get_response (select_parser request)
