-- ===== src/Middleware/Stacking.antt =====
-- Two middlewares of src/django_fast_multipart/middleware.py around one view.
use mathlib.Core.Path.{fun_ext}
use django_fast_multipart.Base.{
  ◌≡◌, refl, ap, Bool, true, false, some, codes, equal, Bool-cases, inl, inr,
}
use django_fast_multipart.Exc.{ok, ok-injective}
use django_fast_multipart.Middleware.Serving.{made}
use django_fast_multipart.Middleware.{
  HttpRequest, Body, coroutine, GetResponse, await, FastMultipartMiddleware, select_parser, init,
  acall, call,
}

-- The parser is selected by the content type alone.
select_parser-select_parser :
    (request : HttpRequest) → select_parser (select_parser request) ≡ select_parser request
unfolding select_parser
select_parser-select_parser request =
    elim (Bool-cases (equal request.content_type (codes "multipart/form-data"))) [
      | inl e ↦ rw (e, e) refl
      | inr e ↦ rw (e, e) refl
    ]

module _ {R : Type 0} where
  call-call :
      (is_coroutine : Bool) (get_response : GetResponse R) (request : HttpRequest)
      → call (made is_coroutine (call (made is_coroutine get_response))) request
        ≡ call (made is_coroutine get_response) request
  unfolding call acall await
  call-call false get_response request = rw (select_parser-select_parser request) refl
  call-call true get_response request =
      ap (λ (run : Body R). (ok (coroutine run), request))
        (fun_ext λ later. rw (select_parser-select_parser later) refl)

  -- Where `iscoroutinefunction` says of a middleware whether it is marked, a middleware around
  -- another one does on every call what the one inside does: it returns the same response or
  -- coroutine, raises the same exception, and leaves the request in the same state.
  pub stacks :
      (is_coroutine : Bool) (get_response : GetResponse R) (inner outer : FastMultipartMiddleware R)
      (request : HttpRequest)
      → init is_coroutine (some get_response) ≡ ok inner
      → init inner.marked (some (call inner)) ≡ ok outer
      → call outer request ≡ call inner request
  unfolding init
  stacks is_coroutine get_response inner outer request h k =
      let from = ok-injective h in
      rw (ok-injective k) (rw from (call-call is_coroutine get_response request))
