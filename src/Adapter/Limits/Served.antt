-- ===== src/Adapter/Limits/Served.antt =====
-- What the upload limits mean for what `_parse` of src/django_fast_multipart/parser.py returns.
use django_fast_multipart.Adapter.Limits.Whole.{parse_input-Within}
use django_fast_multipart.Adapter.Ending.{
  multipart_error, interrupt_from, interrupt_upload, abort_upload, complete_upload_from, drain_from,
  drain_input,
}
use django_fast_multipart.Adapter.Env.{
  Env, Object, upload_complete, upload_interrupted, close_files,
}
use django_fast_multipart.Adapter.Limits.Parts.{Keeps, ask-Keeps}
use django_fast_multipart.Adapter.Limits.{
  AtMost, AtMostNext, names_size, Within, Stop, HoldsAt, Ends, Ends-bind, Ends-from, Ends-pure,
  Ends-if,
}
use django_fast_multipart.Adapter.Parse.{
  Cursor, Reply, parsed, replied, raw_input_from, parse_input, parse_ended, parse_failed, after_try,
  parse_with, parse_new, parse_unless_replied, parse, reset, new_parser,
}
use django_fast_multipart.Adapter.Part.{enforce_field_count}
use django_fast_multipart.Adapter.State.{State, Exec, ◌>>=◌, ◌>>◌, pure, raise}
use django_fast_multipart.Base.{
  ℕ, zero, suc, ◌≤◌, Bool, true, false, ◌≡◌, refl, Option, none, some, List, [], ◌∷◌, Bytes, Text,
  length, if◌then◌else◌, arith, ◌==◌, Bool-cases, inl, inr,
}
use django_fast_multipart.Core.Memmem.{Memmem}
use django_fast_multipart.Core.{MultipartParser}
use django_fast_multipart.Exc.{Exc, stop_upload, Result, ok, err, is_exception}

-- Nothing is said of a raise.
abbrev Any : Exc → State → Type 0
Any e s = Unit

Ends-Any : {A : Type 0} {P : State → Type 0} (m : Exec A) → Ends P (λ a s. Unit) Any m
Ends-Any m = record { at = λ s p. by_result (m s) }
  where
    by_result : {A : Type 0} (r : Result A × State) → HoldsAt (λ (a : A) s. Unit) Any r
    by_result (ok a, s) = tt
    by_result (err e, s) = tt

Ends-raise :
    {A B : Type 0} {P : State → Type 0} (Q : B → State → Type 0) (m : Exec A) (e : Exc)
    → Ends P Q Any (m >>= λ a. raise e)
Ends-raise Q m e = Ends-bind (λ a s. Unit) (Ends-Any m) λ a. record { at = λ s p. tt }

module _ (env : Env) (mm : Memmem) where
  abbrev Kept : {A : Type 0} → Exec A → Type 0
  Kept m = Ends (Within env 0 0) (λ a. Within env 0 0) Any m

  Keeps-Kept : {A : Type 0} (m : Exec A) → Keeps env 0 0 m → Kept m
  Keeps-Kept m k = record { at = λ s w. by_result (m s) (k.at s w) }
    where
      by_result :
          {A : Type 0} (r : Result A × State)
          → HoldsAt (λ a. Within env 0 0) (λ e. Within env 0 0) r
          → HoldsAt (λ a. Within env 0 0) Any r
      by_result (ok a, s) h = h
      by_result (err e, s) h = tt

  enforce_field_count-Kept : (allow : Bool) → Kept (enforce_field_count env allow)
  unfolding enforce_field_count
  enforce_field_count-Kept allow = record { at = λ s w. raised _ _ s w }
    where
      raised :
          (b : Bool) (e : Exc) (s : State)
          → Within env 0 0 s
          → HoldsAt (λ u. Within env 0 0) Any ((if b then err e else ok tt), s)
      raised true e s w = tt
      raised false e s w = w

  interrupt_from-Kept : (left index : ℕ) → Kept (interrupt_from env left index)
  unfolding interrupt_from
  interrupt_from-Kept zero index = Ends-pure tt (λ s w. w)
  interrupt_from-Kept (suc left) index =
      Ends-bind (λ u. Within env 0 0)
        (Keeps-Kept _
          (ask-Keeps env 0 0 (upload_interrupted index) (λ h. env.on_upload_interrupted h index)))
        λ u. interrupt_from-Kept left (suc index)

  complete_upload_from-Kept : (left index : ℕ) → Kept (complete_upload_from env left index)
  unfolding complete_upload_from
  complete_upload_from-Kept zero index = Ends-pure false (λ s w. w)
  complete_upload_from-Kept (suc left) index =
      Ends-bind (λ u. Within env 0 0)
        (Keeps-Kept _
          (ask-Keeps env 0 0 (upload_complete index) (λ h. env.on_upload_complete h index)))
        λ done.
          Ends-if done (pure true) (complete_upload_from env left (suc index))
            (λ e. Ends-pure true (λ s w. w)) (λ e. complete_upload_from-Kept left (suc index))

  drain_from-Kept : (reads : List (Result Bytes)) → Kept (drain_from reads)
  unfolding drain_from
  drain_from-Kept [] = record { at = λ s w. w }
  drain_from-Kept (err e ∷ rest) = record { at = λ s w. tt }
  drain_from-Kept (ok bytes ∷ rest) = record {
    at = λ s w. elim (Bool-cases (length bytes == 0)) [
      | inl e ↦ rw e w
      | inr e ↦ rw e ((drain_from-Kept rest).at _ w)
    ];
  }

  parse_ended-Kept : (cursor : Cursor) → Kept (parse_ended env mm cursor)
  unfolding parse_ended interrupt_upload
  parse_ended-Kept cursor =
      Ends-bind (λ u. Within env 0 0)
        (Ends-if cursor.terminal_raw (enforce_field_count env false) (pure tt)
          (λ e. enforce_field_count-Kept false) (λ e. Ends-pure tt (λ s w. w)))
        λ u. record { at = λ s w. interrupted_when s.unfinished_upload s w }
    where
      interrupted_when :
          (b : Bool) (s : State)
          → Within env 0 0 s
          → HoldsAt
              (λ u. Within env 0 0)
              Any
              (if b then interrupt_from env env.handlers 0 s else pure tt s)
      interrupted_when true s w = (interrupt_from-Kept env.handlers 0).at s w
      interrupted_when false s w = w

  -- Where an exception is not raised again, the upload was stopped.
  parse_failed-Within :
      (e : Exc) → Ends (Stop env e) (λ u. Within env 0 0) Any (parse_failed env mm e)
  unfolding parse_failed drain_input
  parse_failed-Within (stop_upload connection_reset) =
      Ends-from (λ s h. h refl)
        (Ends-bind (λ u. Within env 0 0)
          (Keeps-Kept _ (ask-Keeps env 0 0 close_files env.on_close_files))
          λ u.
            Ends-if connection_reset (pure tt) drain_input (λ e. Ends-pure tt (λ s w. w))
              (λ e. record { at = λ s w. (drain_from-Kept s.input).at s w }))
  parse_failed-Within e =
      Ends-if _ (abort_upload env >> raise (multipart_error e)) _
        (λ h. Ends-raise _ (abort_upload env) (multipart_error e))
        (λ h.
          Ends-if (is_exception e) (abort_upload env >> raise e) (raise e)
            (λ h. Ends-raise _ (abort_upload env) e) (λ h. record { at = λ s w. tt }))

  after_try-Within :
      (r : Result Cursor) (s : State)
      → HoldsAt (λ c. Within env 0 0) (Stop env) (r, s)
      → HoldsAt (λ u. Within env 0 0) Any (after_try env mm (r, s))
  unfolding after_try
  after_try-Within (ok cursor) s w = (parse_ended-Kept cursor).at s w
  after_try-Within (err e) s h = (parse_failed-Within e).at s h

  -- The limits that the settings put on what `_parse` returns.
  abbrev Served : Reply → State → Type 0
  Served (parsed post files) s =
      AtMost (length files) env.settings.data_upload_max_number_files
      × AtMostNext (length post) env.settings.data_upload_max_number_fields
      × AtMost s.field_bytes env.settings.data_upload_max_memory_size
      × (names_size post ≤ s.field_bytes)
  Served (replied reply) s = Unit

  AtMost-le : {m n : ℕ} (o : Option ℕ) → m ≤ n → AtMost n o → AtMost m o
  AtMost-le none l h = tt
  AtMost-le (some k) l h = omega arith

  AtMostNext-le : {m n : ℕ} (o : Option ℕ) → m ≤ n → AtMostNext n o → AtMostNext m o
  AtMostNext-le none l h = tt
  AtMostNext-le (some k) l h = omega arith

  Within-Served : (s : State) → Within env 0 0 s → Served (parsed s.post s.files) s
  Within-Served s w = (
    AtMost-le _ (omega (arith, w.files_counted)) w.file_limit,
    AtMostNext-le _ (omega (arith, w.posts_counted)) w.field_limit,
    w.memory_limit,
    w.names_counted,
  )

  parse_with-Served :
      (parser : MultipartParser) → Ends (Within env 0 0) Served Any (parse_with env mm parser)
  unfolding parse_with ◌>>=◌
  parse_with-Served parser =
      Ends-bind (λ u. Within env 0 0)
        (record {
          at = λ s w.
              after_try-Within (parse_input env mm parser s).0 (parse_input env mm parser s).1 (
                split_result (parse_input env mm parser s)
                  ((parse_input-Within env mm parser).at s w));
        })
        λ u.
          Ends-bind (λ u. Within env 0 0) (complete_upload_from-Kept env.handlers 0)
            λ done. record { at = λ s w. Within-Served (record s { post_mutable = false }) w }
    where
      split_result :
          (r : Result Cursor × State)
          → HoldsAt (λ c. Within env 0 0) (Stop env) r
          → HoldsAt (λ c. Within env 0 0) (Stop env) (r.0, r.1)
      split_result (ok c, s) h = h
      split_result (err e, s) h = h

  AtMost-zero : (o : Option ℕ) → AtMost 0 o
  AtMost-zero none = tt
  AtMost-zero (some k) = omega arith

  AtMostNext-zero : (o : Option ℕ) → AtMostNext 0 o
  AtMostNext-zero none = tt
  AtMostNext-zero (some k) = omega arith

  reset-Within : (s : State) → Within env 0 0 (reset env mm s)
  reset-Within s = record {
    file_limit = AtMost-zero _;
    field_limit = AtMostNext-zero _;
    memory_limit = AtMost-zero _;
    names_counted = omega arith;
    posts_counted = omega arith;
    files_counted = omega arith;
  }

  parse_new-Served :
      (r : Result MultipartParser) → Ends (Within env 0 0) Served Any (parse_new env mm r)
  unfolding parse_new
  parse_new-Served (ok parser) = parse_with-Served parser
  parse_new-Served (err e) = record { at = λ s w. tt }

  parse_unless_replied-Served :
      (reply : Option Object) → Ends (λ s. Unit) Served Any (parse_unless_replied env mm reply)
  unfolding parse_unless_replied
  parse_unless_replied-Served (some reply) = record { at = λ s u. tt }
  parse_unless_replied-Served none =
      Ends-bind (λ u. Within env 0 0) (record { at = λ s u. reset-Within s })
        λ u. parse_new-Served (new_parser env mm)

  parse-Served : (env.content_length == 0) ≡ false → Ends (λ s. Unit) Served Any (parse env mm)
  unfolding parse
  parse-Served h = rw h (
      Ends-bind (λ o s. Unit) (Ends-Any (raw_input_from env env.handlers 0))
        parse_unless_replied-Served)

  -- For a body that is not empty, if `_parse` returns fields and files, the files are at most
  -- DATA_UPLOAD_MAX_NUMBER_FILES, the fields at most one more than DATA_UPLOAD_MAX_NUMBER_FIELDS,
  -- and what it counted of the fields' bytes at most DATA_UPLOAD_MAX_MEMORY_SIZE, each where the
  -- setting is there; and that count is at least the lengths of the returned fields' names and two
  -- for each field; whatever the input, the handlers and their exceptions are.
  pub parse_limits :
      (s t : State) (post : List (Option Text × Text)) (files : List (Option Text × Object))
      → (env.content_length == 0) ≡ false
      → parse env mm s ≡ (ok (parsed post files), t)
      → AtMost (length files) env.settings.data_upload_max_number_files
        × AtMostNext (length post) env.settings.data_upload_max_number_fields
        × AtMost t.field_bytes env.settings.data_upload_max_memory_size
        × (names_size post ≤ t.field_bytes)
  parse_limits s t post files h e = rw e at ((parse-Served h).at s tt)
