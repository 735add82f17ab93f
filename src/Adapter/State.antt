-- ===== src/Adapter/State.antt =====
-- The fields of a `RustMultiPartParser` (src/django_fast_multipart/parser.py) that its methods
-- change, and the actions over them. What was written before a raise stays written, so the state
-- comes back beside an exception too.
use django_fast_multipart.Adapter.Env.{Object, Call, History}
use django_fast_multipart.Base.{ℕ, Bool, Option, List, [], ◌∷◌, ◌++◌, Bytes, Text, if◌then◌else◌}
use django_fast_multipart.Exc.{Exc, Result, ok, err, is_exception}

pub record State : Type 0 where
  -- what `appendlist` put into `self._post` and `self._files`, in order
  pub post : List (Option Text × Text)
  pub files : List (Option Text × Object)
  pub post_mutable : Bool
  pub field_bytes : ℕ
  pub field_count : ℕ
  pub file_count : ℕ
  pub unfinished_upload : Bool
  -- what the next reads of the input stream return or raise; at the end, `b""`
  pub input : List (Result Bytes)
  pub calls : History

abbrev pub Exec : Type 0 → Type 0
Exec A = State → Result A × State

abbrev pub continue : {A B : Type 0} → Result A × State → (A → Exec B) → Result B × State
continue (ok a, s) f = f a s
continue (err e, s) f = (err e, s)

infixl 5 ◌>>=◌ ◌>>◌
unfoldable pub ◌>>=◌ : {A B : Type 0} → Exec A → (A → Exec B) → Exec B
◌>>=◌ m f s = continue (m s) f

abbrev pub ◌>>◌ : {B : Type 0} → Exec (Unit {0}) → Exec B → Exec B
m >> k = m >>= λ _. k

abbrev pub pure : {A : Type 0} → A → Exec A
pure a s = (ok a, s)

abbrev pub raise : {A : Type 0} → Exc → Exec A
raise e s = (err e, s)

abbrev pub lift : {A : Type 0} → Result A → Exec A
lift r s = (r, s)

abbrev pub modify : (State → State) → Exec (Unit {0})
modify f s = (ok tt, f s)

-- `if test: raise exc`
abbrev pub raise_when : Bool → Exc → Exec (Unit {0})
raise_when b e s = (if b then err e else ok tt, s)

-- A call of the code outside.
abbrev pub ask : {A : Type 0} → Call → (History → Result A) → Exec A
ask c answer s = (answer s.calls, record s { calls = s.calls ++ c ∷ [] })

-- `try: m except: handler`
abbrev pub rescue : {A : Type 0} → Result A × State → (Exc → Exec A) → Result A × State
rescue (ok a, s) handler = (ok a, s)
rescue (err e, s) handler = handler e s

abbrev pub try_except : {A : Type 0} → Exec A → (Exc → Exec A) → Exec A
try_except m handler s = rescue (m s) handler

-- `with suppress(Exception): m`
abbrev pub suppress : Exec (Unit {0}) → Exec (Unit {0})
suppress m = try_except m (λ e s. (if is_exception e then ok tt else err e, s))
