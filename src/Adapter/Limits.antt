-- ===== src/Adapter/Limits.antt =====
-- The upload limits of the settings in src/django_fast_multipart/parser.py: what it is to be within
-- them, rules for the actions that stay there, and the beginning of a part. The modules below take
-- it through the other methods, up to `_parse`.
pub mod Parts
pub mod Data
pub mod Finish
pub mod Whole
pub mod Served
use django_fast_multipart.Adapter.Env.{Env}
use django_fast_multipart.Adapter.Headers.{HeaderDict, parse_headers}
use django_fast_multipart.Adapter.Part.{
  Part, count_field, count_file, enforce_field_count, describe_part, begin_file, begin_field,
  begin_named, begin_part,
}
use django_fast_multipart.Adapter.State.{State, Exec, continue, ◌>>=◌, pure, lift}
use django_fast_multipart.Base.{
  ℕ, ◌+◌, ◌≤◌, Bool, true, false, not, ◌≡◌, refl, Option, none, some, List, [], ◌∷◌, Text, length,
  if◌then◌else◌, is_some, ◌&&◌, arith,
}
use django_fast_multipart.Core.{Headers}
use django_fast_multipart.Exc.{Exc, stop_upload, Result, ok, err}

-- `n` is at most the limit, if there is one.
abbrev pub AtMost : ℕ → Option ℕ → Type 0
AtMost n none = Unit
AtMost n (some m) = n ≤ m

-- At most one more than the limit.
abbrev pub AtMostNext : ℕ → Option ℕ → Type 0
AtMostNext n none = Unit
AtMostNext n (some m) = n ≤ m + 1

abbrev pub name_size : Option Text → ℕ
name_size name = elim name [ none ↦ 0 | some text ↦ length text ]

-- What the names of the fields count for: each its length, and two bytes more.
abbrev pub names_size : List (Option Text × Text) → ℕ
names_size [] = 0
names_size ((name, text) ∷ post) = name_size name + 2 + names_size post

-- The counts are within the limits, and stay above what was stored (the count of bytes above the
-- names of the fields), with room for `fields` more fields and `files` more files.
pub record Limits (env : Env) (names posts stored field_bytes field_count file_count : ℕ)
    : Type 0 where
  pub file_limit : AtMost file_count env.settings.data_upload_max_number_files
  pub field_limit : AtMostNext field_count env.settings.data_upload_max_number_fields
  pub memory_limit : AtMost field_bytes env.settings.data_upload_max_memory_size
  pub names_counted : names ≤ field_bytes
  pub posts_counted : posts ≤ field_count
  pub files_counted : stored ≤ file_count

abbrev pub Within : Env → ℕ → ℕ → State → Type 0
Within env fields files s =
    Limits env (names_size s.post) (length s.post + fields) (length s.files + files) s.field_bytes
      s.field_count s.file_count

abbrev pub is_stop : Exc → Bool
is_stop (stop_upload b) = true
is_stop _ = false

-- Where an upload is stopped, the counts are within the limits.
abbrev pub Stop : Env → Exc → State → Type 0
Stop env e s = is_stop e ≡ true → Within env 0 0 s

-- What holds of a result, or of an exception, and of the state beside it.
abbrev pub HoldsAt :
    {A : Type 0} → (A → State → Type 0) → (Exc → State → Type 0) → Result A × State → Type 0
HoldsAt Q E (ok a, s) = Q a s
HoldsAt Q E (err e, s) = E e s

-- From a state with `P`, the action ends as `Q` and `E` say.
pub record Ends {A : Type 0} (P : State → Type 0) (Q : A → State → Type 0)
    (E : Exc → State → Type 0) (m : Exec A) : Type 0 where
  pub at : (s : State) → P s → HoldsAt Q E (m s)

HoldsAt-continue :
    {A B : Type 0} (Q : A → State → Type 0) (R : B → State → Type 0) (E : Exc → State → Type 0)
    (r : Result A × State) (f : A → Exec B)
    → HoldsAt Q E r
    → ((a : A) → Ends (Q a) R E (f a))
    → HoldsAt R E (continue r f)
HoldsAt-continue Q R E (ok a, s) f h k = (k a).at s h
HoldsAt-continue Q R E (err e, s) f h k = h

pub Ends-bind :
    {A B : Type 0} {P : State → Type 0} {R : B → State → Type 0} {E : Exc → State → Type 0}
    {m : Exec A} {f : A → Exec B} (Q : A → State → Type 0)
    → Ends P Q E m
    → ((a : A) → Ends (Q a) R E (f a))
    → Ends P R E (m >>= f)
unfolding ◌>>=◌
Ends-bind {R = R} {E = E} {m = m} {f = f} Q h k = record {
  at = λ s p. HoldsAt-continue Q R E (m s) f (h.at s p) k;
}

pub Ends-from :
    {A : Type 0} {P P' : State → Type 0} {Q : A → State → Type 0} {E : Exc → State → Type 0}
    {m : Exec A}
    → ((s : State) → P s → P' s)
    → Ends P' Q E m
    → Ends P Q E m
Ends-from h k = record { at = λ s p. k.at s (h s p) }

-- A pure step that may raise.
pub Ends-lift :
    {A : Type 0} {P : State → Type 0} {E : Exc → State → Type 0} (r : Result A)
    → ((e : Exc) (s : State) → P s → E e s)
    → Ends P (λ _. P) E (lift r)
Ends-lift (ok a) h = record { at = λ s p. p }
Ends-lift (err e) h = record { at = λ s p. h e s p }

pub Ends-pure :
    {A : Type 0} {P : State → Type 0} {Q : A → State → Type 0} {E : Exc → State → Type 0} (a : A)
    → ((s : State) → P s → Q a s)
    → Ends P Q E (pure a)
Ends-pure a h = record { at = λ s p. h s p }

pub Ends-if :
    {A : Type 0} {P : State → Type 0} {Q : A → State → Type 0} {E : Exc → State → Type 0} (b : Bool)
    (m n : Exec A)
    → (b ≡ true → Ends P Q E m)
    → (b ≡ false → Ends P Q E n)
    → Ends P Q E (if b then m else n)
Ends-if true m n h k = h refl
Ends-if false m n h k = k refl

-- How much a part may still store.
abbrev pub fields_of : Part → ℕ
fields_of p = if p.ignored then 0 else if p.is_file then 0 else 1

abbrev pub files_of : Part → ℕ
files_of p = if p.ignored then 0 else if p.is_file then 1 else 0

module _ (env : Env) (f g : ℕ) where
  count_field-Within :
      Ends (Within env f g) (λ _. Within env (f + 1) g) (Stop env) (count_field env)
  unfolding count_field enforce_field_count ◌>>=◌
  count_field-Within = record { at = λ s w. ground arith }

  count_file-Within : Ends (Within env f g) (λ _. Within env f (g + 1)) (Stop env) (count_file env)
  unfolding count_file ◌>>=◌
  count_file-Within = record { at = λ s w. ground arith }

pub Within-le :
    {env : Env} (s : State) (f g f' g' : ℕ)
    → Within env f g s
    → f' ≤ f
    → g' ≤ g
    → Within env f' g' s
Within-le s f g f' g' w h k = record {
  file_limit = w.file_limit;
  field_limit = w.field_limit;
  memory_limit = w.memory_limit;
  names_counted = w.names_counted;
  posts_counted = omega arith;
  files_counted = omega arith;
}

-- A new part stores no more than what was counted for it.
abbrev pub Begun : Env → ℕ → ℕ → Part → State → Type 0
Begun env f g part t = Within env (f + fields_of part) (g + files_of part) t

module _ (env : Env) (f g : ℕ) (headers : HeaderDict) (raw : Option Text) where
  -- The room that was made for a part: for one file, or for one field.
  abbrev Room : Bool → State → Type 0
  Room true s = Within env f (g + 1) s
  Room false s = Within env (f + 1) g s

  Room-stops : (is_file : Bool) (e : Exc) (s : State) → Room is_file s → Stop env e s
  Room-stops true e s w i = Within-le s f (g + 1) 0 0 w (omega arith) (omega arith)
  Room-stops false e s w i = Within-le s (f + 1) g 0 0 w (omega arith) (omega arith)

  Room-Begun :
      (is_file ignored : Bool) (s : State)
      → Room is_file s
      → Within env
          (f + (if ignored then 0 else if is_file then 0 else 1))
          (g + (if ignored then 0 else if is_file then 1 else 0))
          s
  Room-Begun true true s w = Within-le s f (g + 1) _ _ w (omega arith) (omega arith)
  Room-Begun true false s w = Within-le s f (g + 1) _ _ w (omega arith) (omega arith)
  Room-Begun false true s w = Within-le s (f + 1) g _ _ w (omega arith) (omega arith)
  Room-Begun false false s w = Within-le s (f + 1) g _ _ w (omega arith) (omega arith)

  describe_part-Begun :
      (name : Text) (is_file : Bool)
      → Ends (Room is_file) (Begun env f g) (Stop env) (describe_part env headers is_file raw name)
  unfolding describe_part
  describe_part-Begun name is_file =
      let stops = Room-stops is_file in
      Ends-bind (λ _. Room is_file) (Ends-lift _ stops)
        λ field_name.
          Ends-bind (λ _. Room is_file) (Ends-lift _ stops)
            λ file_name.
              Ends-bind (λ _. Room is_file) (Ends-lift _ stops)
                λ extra.
                  Ends-bind (λ _. Room is_file) (Ends-lift _ stops)
                    λ content_length.
                      Ends-pure _ (Room-Begun is_file (is_file && not (is_some file_name)))

  begin_file-Begun :
      (name : Option Text)
      → Ends (Within env f g) (Begun env f g) (Stop env) (begin_file env headers raw name)
  unfolding begin_file
  begin_file-Begun none = record { at = λ s w. Within-le s f g _ _ w (omega arith) (omega arith) }
  begin_file-Begun (some name) =
      Ends-bind (λ _. Room true) (count_file-Within env f g) λ u. describe_part-Begun name true

  begin_field-Begun :
      (name : Option Text)
      → Ends (Within env f g) (Begun env f g) (Stop env) (begin_field env headers raw name)
  unfolding begin_field
  begin_field-Begun none =
      Ends-bind (λ _. Room false) (count_field-Within env f g)
        λ u. record { at = λ s w. Within-le s (f + 1) g _ _ w (omega arith) (omega arith) }
  begin_field-Begun (some name) =
      Ends-bind (λ _. Room false) (count_field-Within env f g) λ u. describe_part-Begun name false

module _ (env : Env) (f g : ℕ) where
  pub Within-Stop : (e : Exc) (s : State) → Within env f g s → Stop env e s
  Within-Stop e s w i = Within-le s f g 0 0 w (omega arith) (omega arith)

  begin_named-Begun :
      (hs : HeaderDict) (raw name : Option Text)
      → Ends (Within env f g) (Begun env f g) (Stop env) (begin_named env hs raw name)
  unfolding begin_named
  begin_named-Begun hs raw name =
      Ends-if _ (begin_file env hs raw name) (begin_field env hs raw name)
        (λ _. begin_file-Begun env f g hs raw name) (λ _. begin_field-Begun env f g hs raw name)

  pub begin_part-Begun :
      (headers : Headers)
      → Ends (Within env f g) (Begun env f g) (Stop env) (begin_part env headers)
  unfolding begin_part
  begin_part-Begun headers =
      Ends-bind (λ _. Within env f g) (Ends-lift (parse_headers env headers) Within-Stop)
        λ hs. begin_named-Begun hs _ _
