-- ===== src/Adapter/Ending.antt =====
-- The methods of `RustMultiPartParser` (src/django_fast_multipart/parser.py) that end an upload:
-- `_interrupt_upload`, `_abort_upload`, `_drain_input`, `_multipart_error`, and the calls of
-- `upload_complete`.
pub mod Abort
pub mod HeaderLimits
use text.Mathlib.Text.{◌==◌ as str_eq}
use django_fast_multipart.Adapter.Env.{
  Env, Call, upload_complete, upload_interrupted, close_files, read,
}
use django_fast_multipart.Adapter.State.{State, Exec, ◌>>=◌, ◌>>◌, pure, modify, ask, suppress}
use django_fast_multipart.Base.{
  ℕ, zero, suc, ◌*◌, String, Bool, true, false, ◌||◌, List, [], ◌∷◌, ◌++◌, Bytes, length, ◌==◌,
  if◌then◌else◌,
}
use django_fast_multipart.Exc.{Exc, multipart_parser_error, message, Result, ok, err}

abbrev pub header_too_large_message : String
header_too_large_message = "Request max total header size exceeded."

-- `message in RUST_HEADER_LIMIT_ERRORS`
unfoldable pub is_header_limit_error : String → Bool
is_header_limit_error m =
    str_eq m "Header line exceeds maximum size."
    || str_eq m "Part exceeds maximum header count."
    || str_eq m "Part exceeds maximum total header size."

-- `_multipart_error`
unfoldable pub multipart_error : Exc → Exc
multipart_error e =
    multipart_parser_error
      (if is_header_limit_error (message e) then header_too_large_message else message e)

module _ (env : Env) where
  unfoldable pub interrupt_from : ℕ → ℕ → Exec (Unit {0})
  interrupt_from zero index = pure tt
  interrupt_from (suc left) index = do
    ask (upload_interrupted index) (λ h. env.on_upload_interrupted h index)
    interrupt_from left (suc index)

  -- `_interrupt_upload`
  unfoldable pub interrupt_upload : Exec (Unit {0})
  interrupt_upload = interrupt_from env.handlers 0

  -- `_abort_upload`
  unfoldable pub abort_upload : Exec (Unit {0})
  abort_upload = do
    λ s. (if s.unfinished_upload then suppress interrupt_upload s else pure tt s)
    modify (λ s. record s { unfinished_upload = false })
    suppress (ask close_files env.on_close_files)

  -- `any(handler.upload_complete() for handler in self._upload_handlers)`
  unfoldable pub complete_upload_from : ℕ → ℕ → Exec Bool
  complete_upload_from zero index = pure false
  complete_upload_from (suc left) index = do
    done ← ask (upload_complete index) (λ h. env.on_upload_complete h index)
    if done then pure true else complete_upload_from left (suc index)

-- `_drain_input`: reads until a read returns nothing, on the reads that are left.
unfoldable pub drain_from : List (Result Bytes) → Exec (Unit {0})
drain_from [] s = (ok tt, record s { input = []; calls = s.calls ++ read (64 * 1024) ∷ [] })
drain_from (err e ∷ rest) s =
    (err e, record s { input = rest; calls = s.calls ++ read (64 * 1024) ∷ [] })
drain_from (ok bytes ∷ rest) s =
    let t = record s { input = rest; calls = s.calls ++ read (64 * 1024) ∷ [] } in
    let more = drain_from rest t in if length bytes == 0 then (ok tt, t) else more

unfoldable pub drain_input : Exec (Unit {0})
unfolding drain_from
drain_input s = drain_from s.input s
