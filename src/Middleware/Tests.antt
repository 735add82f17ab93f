-- ===== src/Middleware/Tests.antt =====
-- The middleware on a concrete request, around a synchronous and an asynchronous view.
use django_fast_multipart.Base.{◌≡◌, refl, true, false, some, codes, equal}
use django_fast_multipart.Exc.{ok}
use django_fast_multipart.Middleware.Serving.{IsSelected, IsOfMode, outcome, serves}
use django_fast_multipart.Middleware.Stacking.{stacks}
use django_fast_multipart.Middleware.{
  ParserClass, HttpRequest, Body, response, coroutine, GetResponse, FastMultipartMiddleware,
  django_parser, rust_parser, init, call, acall, await, select_parser,
}

abbrev upload : HttpRequest
upload = record {
  content_type = codes "multipart/form-data";
  multipart_parser_class = django_parser;
}

abbrev selected : HttpRequest
selected = record upload { multipart_parser_class = rust_parser }

-- Answers with the parser class that it finds.
abbrev answer : Body ParserClass
answer request = (ok request.multipart_parser_class, request)

abbrev view : GetResponse ParserClass
view request = (ok (response request.multipart_parser_class), request)

abbrev async_view : GetResponse ParserClass
async_view request = (ok (coroutine answer), request)

abbrev around : FastMultipartMiddleware ParserClass
around = record { get_response = view; async_mode = false; marked = false }

abbrev async_around : FastMultipartMiddleware ParserClass
async_around = record { get_response = async_view; async_mode = true; marked = true }

abbrev async_outer : FastMultipartMiddleware ParserClass
async_outer = record { get_response = call async_around; async_mode = true; marked = true }

sync_made : init false (some view) ≡ ok around
unfolding init
sync_made = refl

async_made : init true (some async_view) ≡ ok async_around
unfolding init
async_made = refl

async_outer_made : init true (some (call async_around)) ≡ ok async_outer
unfolding init
async_outer_made = refl

sync_answered : call around upload ≡ (ok (response rust_parser), selected)
unfolding call select_parser equal
sync_answered = refl

async_answered : await (call async_around upload) ≡ (ok rust_parser, selected)
unfolding call acall await select_parser equal
async_answered = refl

serves_example :
    (true ≡ true)
    × IsOfMode true (call async_around)
    × ((served : HttpRequest) × IsSelected upload served
        × (outcome (call async_around upload) ≡ outcome (async_view served)))
serves_example = serves true async_view async_around upload async_made (λ request. (answer, refl))

sync_mode : IsOfMode false (call around)
sync_mode = (serves false view around upload sync_made (λ request. tt)).1

stacks_example : call async_outer upload ≡ call async_around upload
stacks_example = stacks true async_view async_around async_outer upload async_made async_outer_made
