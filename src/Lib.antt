-- ===== src/Lib.antt =====
-- django-fast-multipart: a streaming parser of multipart/form-data in Rust (rust/src/multipart.rs)
-- under a Django parser (src/django_fast_multipart/parser.py) and a middleware that selects it
-- (src/django_fast_multipart/middleware.py).
--
-- Core models rust/src/multipart.rs. Core/Types has its types, Core/Delimiter and Core/Header the
-- functions on bytes, Core/Checks the limits on headers, Core/Boundary what the handlers do at a
-- boundary token, Core/Lines `handle_header`, and Core/Parser the other handlers, `new`, `feed`,
-- `feed_eof` and `finish`. A handler takes the parser and returns a `Step`: whether it progressed,
-- the parser behind it and the events that it pushed. Where a handler looks for a token first, a
-- helper named `…_found` takes what the search found. The search of the memchr crate is the
-- interface of Core/Memmem, with the documented behaviour of the crate as its laws;
-- Core/Memmem/Naive is a search that meets them. Core/Grammar is about the order of the events,
-- Core/Progress about the loop of `feed`, Core/Failures about what `feed` and `feed_eof` raise,
-- Core/Buffer about what `feed` keeps of its input.
--
-- Python models what the adapter uses of Python: splitting and stripping (Python/Strings), UTF-8
-- and the strict base64 decoding of CPython 3.12 (Python/Base64).
--
-- Adapter models src/django_fast_multipart/parser.py. Adapter/Env has what the class is given: the
-- settings, the upload handlers and the functions of Django. A handler may keep any state: its
-- answer is a function of all the calls made so far. Adapter/State has the fields of the class and
-- the actions on them; what was written before a raise stays written. Adapter/Decoder is
-- `_Base64Decoder`; Adapter/Headers, Adapter/Part, Adapter/Upload, Adapter/Ending and
-- Adapter/Parse are the methods, each by its name without the underscore in front. The input
-- stream is the list of what its reads return or raise. The adapter calls the parser of Core.
-- Adapter/Guards is about the checks of `_parse` on the order of events, Adapter/Limits about the
-- upload limits of the settings, method by method.
--
-- Middleware models src/django_fast_multipart/middleware.py, with Python's `await` and with what
-- `iscoroutinefunction` says of a callable as an argument. Middleware/Serving is about its two
-- modes, Middleware/Stacking about two middlewares around one view.
--
-- Numbers: a `usize` is that of a 64-bit target, and the additions that saturate in the source
-- saturate here. `feed` loops until a round does not progress; here it runs on fuel, two rounds
-- for each byte of the buffer and two more. A round that progresses shortens the buffer, or goes
-- from a raw segment to its headers, which cannot come twice without a shorter buffer between, so
-- the fuel is enough; Core/Progress has the proof.
--
-- Not modelled: the bindings (rust/src/bindings.rs, rust/src/lib.rs), the option header parser
-- (rust/src/headers.rs), which the Python code does not call, the benchmarks and the fuzz target.
-- The parser object behind an error is not modelled, since the adapter drops it. The lower case
-- and the integers of Unicode, Django's header parser, `force_str`, `sanitize_file_name` and the
-- codecs are parameters.
pub mod Base
pub mod Exc
pub mod Core
pub mod Python
pub mod Adapter
pub mod Middleware
