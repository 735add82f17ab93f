-- ===== src/Middleware/Serving.antt =====
-- What a caller of the middleware of src/django_fast_multipart/middleware.py gets, in both modes.
use django_fast_multipart.Base.{
  ◌≡◌, refl, Bool, true, false, some, codes, equal, equal_sound, equal_refl, Bool-cases, inl, inr,
}
use django_fast_multipart.Exc.{Result, ok, err, ok-injective}
use django_fast_multipart.Middleware.{
  HttpRequest, Body, Response, response, coroutine, GetResponse, await, FastMultipartMiddleware,
  rust_parser, select_parser, init, acall, call,
}

-- The request as the view is to get it: a multipart form has the Rust parser, any other request is
-- as it came.
pub data IsSelected (request : HttpRequest) : HttpRequest → Type 0 where
  multipart :
      request.content_type ≡ codes "multipart/form-data"
      → IsSelected request (record request { multipart_parser_class = rust_parser })
  other : ¬ (request.content_type ≡ codes "multipart/form-data") → IsSelected request request

pub select_parser-IsSelected : (request : HttpRequest) → IsSelected request (select_parser request)
unfolding select_parser
select_parser-IsSelected request =
    elim (Bool-cases (equal request.content_type (codes "multipart/form-data"))) [
      | inl e ↦ rw e (multipart (equal_sound _ _ e))
      | inr e ↦ rw e (other λ same. differs (rw same at e))
    ]
  where
    differs : equal (codes "multipart/form-data") (codes "multipart/form-data") ≡ false → ⊥
    differs e = let e' = equal_refl (codes "multipart/form-data") in cc

module _ {R : Type 0} where
  -- What a synchronous call comes to: a response or an exception, and nothing to await.
  abbrev IsAnswer : Result (Response R) → Type 0
  IsAnswer (ok (response r)) = Unit
  IsAnswer (ok (coroutine run)) = ⊥
  IsAnswer (err e) = Unit

  -- What `iscoroutinefunction` says of a callable: a call of a coroutine function gives a
  -- coroutine and runs nothing, and a call of another function gives its answer at once.
  abbrev pub IsOfMode : Bool → GetResponse R → Type 0
  IsOfMode true get_response =
      (request : HttpRequest)
      → (run : Body R) × (get_response request ≡ (ok (coroutine run), request))
  IsOfMode false get_response = (request : HttpRequest) → IsAnswer (get_response request).0

  -- The answer in the end: that of the call, or that of the coroutine when it is awaited.
  unfoldable pub outcome : Result (Response R) × HttpRequest → Result R × HttpRequest
  outcome (ok (response r), request) = (ok r, request)
  outcome (ok (coroutine run), request) = run request
  outcome (err e, request) = (err e, request)

  -- What `__init__` leaves.
  abbrev pub made : Bool → GetResponse R → FastMultipartMiddleware R
  made is_coroutine get_response = record {
    get_response = get_response;
    async_mode = is_coroutine;
    marked = is_coroutine;
  }

  call-IsOfMode :
      (is_coroutine : Bool) (get_response : GetResponse R)
      → IsOfMode is_coroutine get_response
      → IsOfMode is_coroutine (call (made is_coroutine get_response))
  unfolding call
  call-IsOfMode true get_response h = λ request. (acall (made true get_response), refl)
  call-IsOfMode false get_response h = λ request. h (select_parser request)

  outcome-call :
      (is_coroutine : Bool) (get_response : GetResponse R) (request : HttpRequest)
      → IsOfMode is_coroutine get_response
      → outcome (call (made is_coroutine get_response) request)
        ≡ outcome (get_response (select_parser request))
  unfolding call acall await outcome
  outcome-call true get_response request h = let (run, e) = h (select_parser request) in rw e refl
  outcome-call false get_response request h = refl

  -- A middleware made around a view, which is of the mode that `iscoroutinefunction` says, is
  -- marked as a coroutine function exactly when the view is one, and is itself of the mode that
  -- its mark says: a synchronous call gives the answer at once and nothing to await; an
  -- asynchronous call gives a coroutine, and leaves the request alone until that is awaited. What
  -- a request comes to in the end, its own state included, is what it comes to with the view, on
  -- the request with the Rust parser if its content type is multipart/form-data, and on the
  -- request as it is otherwise.
  pub serves :
      (is_coroutine : Bool) (get_response : GetResponse R) (self : FastMultipartMiddleware R)
      (request : HttpRequest)
      → init is_coroutine (some get_response) ≡ ok self
      → IsOfMode is_coroutine get_response
      → (self.marked ≡ is_coroutine)
        × IsOfMode self.marked (call self)
        × ((served : HttpRequest) × IsSelected request served
            × (outcome (call self request) ≡ outcome (get_response served)))
  unfolding init
  serves is_coroutine get_response self request h mode = rw (ok-injective h) (
    refl,
    call-IsOfMode is_coroutine get_response mode,
    (
      select_parser request,
      select_parser-IsSelected request,
      outcome-call is_coroutine get_response request mode,
    ),
  )
