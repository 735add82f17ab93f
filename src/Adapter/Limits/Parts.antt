-- ===== src/Adapter/Limits/Parts.antt =====
-- The upload limits through the methods of src/django_fast_multipart/parser.py that handle a part:
-- `_open_part`, `_receive_part_data` and `_finish_part`.
use django_fast_multipart.Adapter.Env.{Env, FileInfo, Call, History, close_files}
use django_fast_multipart.Adapter.Limits.{
  Within, Within-le, Stop, HoldsAt, Ends, Ends-bind, Ends-pure, Ends-if, Begun, fields_of, files_of,
  begin_part-Begun,
}
use django_fast_multipart.Adapter.Part.{Part}
use django_fast_multipart.Adapter.State.{State, Exec, ◌>>◌, pure, raise, ask, rescue}
use django_fast_multipart.Adapter.Upload.{
  file_info, except_skip_file, after_new_file, new_file_from, start_file, start_part, open_part,
}
use django_fast_multipart.Base.{ℕ, zero, suc, ◌+◌, true, arith}
use django_fast_multipart.Core.{Headers}
use django_fast_multipart.Exc.{skip_file, stop_future_handlers, Result, ok, err}

module _ (env : Env) where
  -- An action that keeps what was counted, whatever it gives or raises.
  abbrev pub Keeps : {A : Type 0} → ℕ → ℕ → Exec A → Type 0
  Keeps f g m = Ends (Within env f g) (λ _. Within env f g) (λ _. Within env f g) m

  pub same :
      {A : Type 0} (f g : ℕ) (r : Result A) (s : State)
      → Within env f g s
      → HoldsAt (λ _. Within env f g) (λ _. Within env f g) (r, s)
  same f g (ok a) s w = w
  same f g (err e) s w = w

  pub ask-Keeps :
      {A : Type 0} (f g : ℕ) (c : Call) (answer : History → Result A) → Keeps f g (ask c answer)
  ask-Keeps f g c answer = record { at = λ s w. same f g (answer s.calls) _ w }

  after_new_file-Keeps :
      (f g : ℕ) (rest : Exec (Unit {0})) (r : Result (Unit {0})) (s : State)
      → Keeps f g rest
      → Within env f g s
      → HoldsAt (λ _. Within env f g) (λ _. Within env f g) (after_new_file env rest (r, s))
  unfolding after_new_file
  after_new_file-Keeps f g rest (ok u) s k w = k.at s w
  after_new_file-Keeps f g rest (err stop_future_handlers) s k w = w
  after_new_file-Keeps f g rest (err e) s k w = w

  new_file_from-Keeps :
      (f g left index : ℕ) (info : FileInfo) → Keeps f g (new_file_from env left index info)
  unfolding new_file_from
  new_file_from-Keeps f g zero index info = record { at = λ s w. w }
  new_file_from-Keeps f g (suc left) index info = record {
    at = λ s w.
        after_new_file-Keeps f g (new_file_from env left (suc index) info)
          (env.on_new_file s.calls index info) _ (new_file_from-Keeps f g left (suc index) info) w;
  }

  pub skipped-Begun :
      (part : Part)
      → Ends
          (Within env 0 0)
          (Begun env 0 0)
          (λ _. Within env 0 0)
          (ask close_files env.on_close_files >> pure (record part { ignored = true }))
  skipped-Begun part =
      Ends-bind (λ _. Within env 0 0) (ask-Keeps 0 0 close_files env.on_close_files)
        λ u. Ends-pure (record part { ignored = true }) (λ s w. w)

  -- `except SkipFile` around the calls for a part.
  except_skip_file-Begun :
      (part : Part) (m : Exec Part)
      → Ends (Begun env 0 0 part) (Begun env 0 0) (λ _. Within env 0 0) m
      → Ends
          (Begun env 0 0 part)
          (Begun env 0 0)
          (λ _. Within env 0 0)
          (except_skip_file m
            (ask close_files env.on_close_files >> pure (record part { ignored = true })))
  except_skip_file-Begun part m h = record { at = λ s w. by_result (m s) (h.at s w) }
    where
      handler : Exec Part
      handler = ask close_files env.on_close_files >> pure (record part { ignored = true })

      by_result :
          (r : Result Part × State)
          → HoldsAt (Begun env 0 0) (λ _. Within env 0 0) r
          → HoldsAt
              (Begun env 0 0)
              (λ _. Within env 0 0)
              (rescue r (λ e. elim e [ skip_file ↦ handler | other ↦ raise other ]))
      by_result (ok p, s) h = h
      by_result (err skip_file, s) h = (skipped-Begun part).at s h
      by_result (err e, s) h = h

  pub Begun-Within : (part : Part) (s : State) → Begun env 0 0 part s → Within env 0 0 s
  Begun-Within part s w = Within-le s _ _ 0 0 w (omega arith) (omega arith)

  -- After a raise, at least nothing more is stored.
  Keeps-Within :
      {A : Type 0} (part : Part) (m : Exec A)
      → Keeps (0 + fields_of part) (0 + files_of part) m
      → Ends (Begun env 0 0 part) (λ _. Begun env 0 0 part) (λ _. Within env 0 0) m
  Keeps-Within part m h = record { at = λ s w. by_result (m s) (h.at s w) }
    where
      by_result :
          {A : Type 0} (r : Result A × State)
          → HoldsAt (λ _. Begun env 0 0 part) (λ _. Begun env 0 0 part) r
          → HoldsAt (λ _. Begun env 0 0 part) (λ _. Within env 0 0) r
      by_result (ok a, s) h = h
      by_result (err e, s) h = Begun-Within part s h

  pub Ends-Stop :
      {A : Type 0} {P : State → Type 0} {Q : A → State → Type 0} {m : Exec A}
      → Ends P Q (λ _. Within env 0 0) m
      → Ends P Q (Stop env) m
  Ends-Stop {Q = Q} {m = m} h = record { at = λ s w. by_result Q (m s) (h.at s w) }
    where
      by_result :
          {A : Type 0} (Q : A → State → Type 0) (r : Result A × State)
          → HoldsAt Q (λ _. Within env 0 0) r
          → HoldsAt Q (Stop env) r
      by_result Q (ok a, s) h = h
      by_result Q (err e, s) h = λ i. h

  start_part-Begun :
      (part : Part) → Ends (Begun env 0 0 part) (Begun env 0 0) (Stop env) (start_part env part)
  unfolding start_part start_file
  start_part-Begun part = Ends-Stop (
      Ends-bind (λ _. Begun env 0 0 part) (record { at = λ s w. w })
        λ u. except_skip_file-Begun part _ (
          Ends-bind (λ _. Begun env 0 0 part)
            (Keeps-Within part _ (new_file_from-Keeps _ _ env.handlers 0 (file_info part)))
            λ v. Ends-pure part (λ s w. w)))

  pub open_part-Begun :
      (headers : Headers) → Ends (Within env 0 0) (Begun env 0 0) (Stop env) (open_part env headers)
  unfolding open_part
  open_part-Begun headers = Ends-bind (Begun env 0 0) (begin_part-Begun env 0 0 headers) λ part.
      Ends-if part.started (start_part env part) (pure part) (λ _. start_part-Begun part)
        (λ _. Ends-pure part (λ s w. w))
