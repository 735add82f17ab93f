-- ===== src/Adapter/Limits/Finish.antt =====
-- The upload limits through `_finish_part` of src/django_fast_multipart/parser.py.
use django_fast_multipart.Adapter.Env.{Env, Object}
use django_fast_multipart.Adapter.Limits.Data.{HasMemory, check_field_memory_size-HasMemory}
use django_fast_multipart.Adapter.Limits.Parts.{Begun-Within, Ends-Stop}
use django_fast_multipart.Adapter.Limits.{
  AtMost, name_size, names_size, Within, Within-le, Within-Stop, Stop, HoldsAt, Ends, Ends-bind,
  Ends-from, Ends-lift, Ends-pure, Ends-if, Begun,
}
use django_fast_multipart.Adapter.Part.{Part}
use django_fast_multipart.Adapter.State.{State, Exec, pure}
use django_fast_multipart.Adapter.Upload.{
  name_length, field_data, finish_field, after_complete, complete_from, finish_decoder, finish_file,
  finish_part,
}
use django_fast_multipart.Base.{
  ℕ, zero, suc, ◌+◌, ◌≤◌, List, not, ◌≡◌, Option, none, some, [], ◌∷◌, ◌++◌, Text, length,
  length-append, get_or, arith, ◌==◌, Bool-cases, inl, inr,
}
use django_fast_multipart.Exc.{Exc, Result, ok, err}

names_size-append :
    (post : List (Option Text × Text)) (name : Option Text) (text : Text)
    → names_size (post ++ (name, text) ∷ []) ≡ names_size post + (name_size name + 2)
names_size-append [] name text = omega arith
names_size-append ((n, t) ∷ post) name text = omega (arith, names_size-append post name text)

module _ (env : Env) where
  -- The size of a field is added once it was checked.
  grown-Within :
      (f g : ℕ) (part : Part) (s : State)
      → Within env f g s
      → HasMemory env part s
      → Within env f g
          (record s { field_bytes = s.field_bytes + (length part.content + name_length part + 2) })
  grown-Within f g part s w m = record {
    file_limit = w.file_limit;
    field_limit = w.field_limit;
    memory_limit = AtMost-eq _ (omega arith) m;
    names_counted = omega (arith, w.names_counted);
    posts_counted = w.posts_counted;
    files_counted = w.files_counted;
  }
    where
      AtMost-eq : {m n : ℕ} (o : Option ℕ) → m ≡ n → AtMost m o → AtMost n o
      AtMost-eq none e h = tt
      AtMost-eq (some k) e h = omega arith

  -- There is room for the name of a field that was counted.
  abbrev HasRoom : Part → State → Type 0
  HasRoom part s = names_size s.post + (name_length part + 2) ≤ s.field_bytes

  posted-Within :
      (f g : ℕ) (part : Part) (s : State) (text : Text)
      → Within env (f + 1) g s
      → HasRoom part s
      → Within env f g (record s { post = s.post ++ (part.field_name, text) ∷ [] })
  posted-Within f g part s text w room = record {
    file_limit = w.file_limit;
    field_limit = w.field_limit;
    memory_limit = w.memory_limit;
    names_counted = rw (names_size-append s.post part.field_name text) room;
    posts_counted =
        ground (arith, length-append s.post ((part.field_name, text) ∷ []), w.posts_counted);
    files_counted = w.files_counted;
  }

  stored-Within :
      (f g : ℕ) (s : State) (x : Option Text × Object)
      → Within env f (g + 1) s
      → Within env f g (record s { files = s.files ++ x ∷ [] })
  stored-Within f g s x w = record {
    file_limit = w.file_limit;
    field_limit = w.field_limit;
    memory_limit = w.memory_limit;
    names_counted = w.names_counted;
    posts_counted = w.posts_counted;
    files_counted = ground (arith, length-append s.files (x ∷ []), w.files_counted);
  }

  -- A field whose size was added, before it is stored.
  abbrev Counted : Part → State → Type 0
  Counted part s = Within env 1 0 s × HasRoom part s

  grown-Counted :
      (part : Part) (s : State)
      → Within env 1 0 s
      → HasMemory env part s
      → Counted part
          (record s { field_bytes = s.field_bytes + (length part.content + name_length part + 2) })
  grown-Counted part s w m = (grown-Within 1 0 part s w m, omega (arith, w.names_counted))

  Counted-Stop : (part : Part) (e : Exc) (s : State) → Counted part s → Stop env e s
  Counted-Stop part e s w = Within-Stop env 1 0 e s w.0

  finish_field-Within :
      (part : Part) → Ends (Within env 1 0) (λ _. Within env 0 0) (Stop env) (finish_field env part)
  unfolding finish_field
  finish_field-Within part =
      Ends-bind (λ _ s. Within env 1 0 s × HasMemory env part s)
        (check_field_memory_size-HasMemory env 1 0 part)
        λ u.
          Ends-bind (λ _. Counted part) (record { at = λ s w. grown-Counted part s w.0 w.1 })
            λ v.
              Ends-bind (λ _. Counted part) (Ends-lift (field_data env part) (Counted-Stop part))
                λ bytes.
                  Ends-bind (λ _. Counted part)
                    (Ends-lift (env.force_str_bytes bytes) (Counted-Stop part))
                    λ text. record { at = λ s w. posted-Within 0 0 part s text w.0 w.1 }

  after_complete-Within :
      (rest : Exec (Unit {0})) (part : Part) (r : Result (Option Object)) (s : State)
      → Ends (Within env 0 1) (λ _. Within env 0 0) (λ _. Within env 0 0) rest
      → Within env 0 1 s
      → HoldsAt (λ _. Within env 0 0) (λ _. Within env 0 0) (after_complete env rest part (r, s))
  unfolding after_complete
  after_complete-Within rest part (err e) s k w = Within-le s 0 1 0 0 w (omega arith) (omega arith)
  after_complete-Within rest part (ok none) s k w = k.at s w
  after_complete-Within rest part (ok (some file)) s k w = elim (Bool-cases (env.is_truthy file)) [
    | inl e ↦ rw e (stored-Within 0 0 s (part.field_name, file) w)
    | inr e ↦ rw e (k.at s w)
  ]

  complete_from-Within :
      (left index : ℕ) (part : Part)
      → Ends
          (Within env 0 1)
          (λ _. Within env 0 0)
          (λ _. Within env 0 0)
          (complete_from env left index part)
  unfolding complete_from
  complete_from-Within zero index part = record {
    at = λ s w. Within-le s 0 1 0 0 w (omega arith) (omega arith);
  }
  complete_from-Within (suc left) index part = record {
    at = λ s w.
        after_complete-Within (complete_from env left (suc index) part) part
          (env.on_file_complete s.calls index (get_or part.counters index 0)) _
          (complete_from-Within left (suc index) part) w;
  }

  finish_file-Within :
      (part : Part) → Ends (Within env 0 1) (λ _. Within env 0 0) (Stop env) (finish_file env part)
  unfolding finish_file
  finish_file-Within part =
      Ends-if (name_length part == 0) (pure tt) _
        (λ _. Ends-pure tt (λ s w. Within-le s 0 1 0 0 w (omega arith) (omega arith)))
        (λ _.
          Ends-bind (λ _. Within env 0 1)
            (Ends-lift (finish_decoder env part.base64_decoder) (Within-Stop env 0 1))
            λ u.
              Ends-bind (λ _. Within env 0 0)
                (Ends-Stop env (complete_from-Within env.handlers 0 part))
                λ v. record { at = λ s w. w })

  pub finish_part-Within :
      (part : Part)
      → Ends (Begun env 0 0 part) (λ _. Within env 0 0) (Stop env) (finish_part env part)
  unfolding finish_part
  finish_part-Within part =
      Ends-if part.ignored (pure tt) _ (λ _. Ends-pure tt (λ s w. Begun-Within env part s w))
        λ e.
          Ends-if (not part.is_file) (finish_field env part) (finish_file env part)
            (λ e'.
              Ends-from (λ s w. Within-le s _ _ 1 0 w (ground arith) (omega arith))
                (finish_field-Within part))
            (λ e'.
              Ends-from (λ s w. Within-le s _ _ 0 1 w (omega arith) (ground arith))
                (finish_file-Within part))
