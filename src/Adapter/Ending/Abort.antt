-- ===== src/Adapter/Ending/Abort.antt =====
-- `_abort_upload` of src/django_fast_multipart/parser.py: what the upload handlers see of it.
use django_fast_multipart.Adapter.Ending.{interrupt_from, interrupt_upload, abort_upload}
use django_fast_multipart.Adapter.Env.{Env, Call, History, upload_interrupted, close_files}
use django_fast_multipart.Adapter.State.{State, Exec, ◌>>=◌, rescue, continue, suppress, ask}
use django_fast_multipart.Base.{
  ℕ, zero, suc, ◌≡◌, refl, ◌∙◌, ap, Bool, true, false, List, [], ◌∷◌, ◌++◌, append_assoc,
  append-nil, if◌then◌else◌,
}
use django_fast_multipart.Exc.{Result, ok, err, is_exception}

-- What is raised is an `Exception`, so that `suppress(Exception)` takes it.
abbrev pub RaisesException : {A : Type 0} → Result A → Type 0
RaisesException (ok a) = Unit
RaisesException (err e) = is_exception e ≡ true

abbrev called : State → List Call → State
called s calls = record s { calls = s.calls ++ calls }

called-append : (s : State) (xs ys : List Call) → called (called s xs) ys ≡ called s (xs ++ ys)
called-append s xs ys = rw (append_assoc s.calls xs ys) refl

-- The handlers that hear of the interruption, in order: those up to the first that raises.
module _ (env : Env) where
  abbrev pub informed : History → ℕ → ℕ → List Call
  informed h zero index = []
  informed h (suc left) index =
      upload_interrupted index ∷ (elim (env.on_upload_interrupted h index) [
        | ok u ↦ informed (h ++ upload_interrupted index ∷ []) left (suc index)
        | err e ↦ []
      ])

  record Interrupted (s : State) (calls : List Call) (r : Result (Unit {0}) × State) : Type 0 where
    pub raises : RaisesException r.0
    pub state : r.1 ≡ called s calls

  -- One call and those behind it.
  after_one :
      (left index : ℕ) (s : State) (answer : Result (Unit {0}))
      → RaisesException answer
      → ((t : State)
          → Interrupted t
              (informed t.calls left (suc index))
              (interrupt_from env left (suc index) t))
      → Interrupted s
          (upload_interrupted index ∷ (elim answer [
            | ok u ↦ informed (s.calls ++ upload_interrupted index ∷ []) left (suc index)
            | err e ↦ []
          ]))
          (continue
            (answer, called s (upload_interrupted index ∷ []))
            (λ u. interrupt_from env left (suc index)))
  after_one left index s (ok u) h k =
      let rest = k (called s (upload_interrupted index ∷ [])) in
      record { raises = rest.raises; state = rest.state ∙ called-append s _ _ }
  after_one left index s (err e) h k = record { raises = h; state = refl }

  interrupt_from_lem :
      ((h : History) (i : ℕ) → RaisesException (env.on_upload_interrupted h i))
      → (left index : ℕ) (s : State)
      → Interrupted s (informed s.calls left index) (interrupt_from env left index s)
  unfolding interrupt_from ◌>>=◌
  interrupt_from_lem takes zero index s = record {
    raises = tt;
    state = rw (append-nil s.calls) refl;
  }
  interrupt_from_lem takes (suc left) index s =
      after_one left index s (env.on_upload_interrupted s.calls index) (takes s.calls index)
        (λ t. interrupt_from_lem takes left (suc index) t)

  suppress-ok :
      (m : Exec (Unit {0})) (s t : State)
      → RaisesException (m s).0
      → (m s).1 ≡ t
      → suppress m s ≡ (ok tt, t)
  suppress-ok m s t h e = by_result (m s) h e
    where
      by_result :
          (r : Result (Unit {0}) × State)
          → RaisesException r.0
          → r.1 ≡ t
          → rescue r (λ e s. (if is_exception e then ok tt else err e, s)) ≡ (ok tt, t)
      by_result (ok u, t') h e = rw e refl
      by_result (err x, t') h e = rw (h, e) refl

  module _ (takes : (h : History) (i : ℕ) → RaisesException (env.on_upload_interrupted h i))
      (closes : (h : History) → RaisesException (env.on_close_files h)) where
    interrupt_when :
        (b : Bool) (s : State)
        → (if b then suppress (interrupt_upload env) s else (ok tt, s))
          ≡ (ok tt, called s (if b then informed s.calls env.handlers 0 else []))
    unfolding interrupt_upload
    interrupt_when true s =
        let heard = interrupt_from_lem takes env.handlers 0 s in
        suppress-ok (interrupt_from env env.handlers 0) s _ heard.raises heard.state
    interrupt_when false s = rw (append-nil s.calls) refl

    abbrev close : Exec (Unit {0})
    close = ask close_files env.on_close_files

    close_suppressed : (s : State) → suppress close s ≡ (ok tt, called s (close_files ∷ []))
    close_suppressed s = suppress-ok close s _ (closes s.calls) refl

    -- Where what the handlers and the closing of files raise is an `Exception`, `_abort_upload`
    -- raises nothing; if an upload was open, the handlers hear of the interruption in order, up to
    -- the first that raises; then, in any case, the files are closed, no upload is open any more
    -- and nothing else has changed.
    pub abort_upload_lem :
        (s : State)
        → abort_upload env s ≡ (
          ok tt,
          record s {
            unfinished_upload = false;
            calls =
                s.calls
                ++ ((if s.unfinished_upload then informed s.calls env.handlers 0 else [])
                    ++ close_files ∷ []);
          },
        )
    unfolding abort_upload interrupt_upload ◌>>=◌
    abort_upload_lem s =
        let heard = if s.unfinished_upload then informed s.calls env.handlers 0 else [] in
        let closed = λ (r : Result (Unit {0}) × State).
          continue r
            (λ u. λ (t : State). suppress close (record t { unfinished_upload = false })) in
        ap closed (interrupt_when s.unfinished_upload s)
        ∙ close_suppressed (record (called s heard) { unfinished_upload = false })
        ∙ rw (append_assoc s.calls heard (close_files ∷ [])) refl
