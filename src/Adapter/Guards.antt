-- ===== src/Adapter/Guards.antt =====
-- The checks that `_parse` of src/django_fast_multipart/parser.py makes on the order of events:
-- with the parser of rust/src/multipart.rs they never fail.
use django_fast_multipart.Adapter.Env.{Env}
use django_fast_multipart.Adapter.Parse.{
  Event, Cursor, at_start, on_event, on_events, record_raw_part, finish_at_eof, finish_parser,
  read_loop, after_read, new_parser, parse_eof, parse_input, is_end, feed, feed_eof,
}
use django_fast_multipart.Adapter.Part.{Part, plain_part, count_field}
use django_fast_multipart.Adapter.State.{State, Exec, continue, ◌>>=◌, ◌>>◌, pure, lift}
use django_fast_multipart.Adapter.Upload.{open_part, receive_part_data, finish_part}
use django_fast_multipart.Base.{
  Bool, true, false, ◌&&◌, ◌≡◌, ◌∙◌, refl, ap, sym, Option, none, some, List, [], ◌∷◌, Bytes,
  is_some, if◌then◌else◌, arith,
}
use django_fast_multipart.Core.Grammar.Order.{
  track, is_inside, PendingInBody, IsTracked, Ensures, new-IsNew,
}
use django_fast_multipart.Core.Grammar.{feed-IsTracked, feed_eof-IsTracked}
use django_fast_multipart.Core.Memmem.{Memmem}
use django_fast_multipart.Core.Parser as Native
use django_fast_multipart.Core.Parser.{is_body}
use django_fast_multipart.Core.{MultipartParser, MultipartEvent, begin, part_data, raw}
use django_fast_multipart.Exc.{Result, ok, err}

module _ (env : Env) where
  -- The body of the loop over the events without the checks: an event goes to the current part
  -- if there is one, and to a part with all defaults if there is none.
  abbrev part_of : Option Part → Part
  part_of none = plain_part
  part_of (some part) = part

  pub unchecked_event : (Part → Exec (Unit {0})) → Option Part → Bool → Event → Exec Cursor
  unchecked_event on_end current terminal_raw (begin headers) = do
    part ← open_part env headers
    pure (record { current_part = some part; terminal_raw = false })
  unchecked_event on_end current terminal_raw (part_data bytes) = do
    after ← receive_part_data env (part_of current) bytes
    pure (record { current_part = some after; terminal_raw = terminal_raw })
  unchecked_event on_end current terminal_raw MultipartEvent.end = do
    on_end (part_of current)
    pure (record { current_part = none; terminal_raw = true })
  unchecked_event on_end current terminal_raw raw = do
    count_field env
    pure (record { current_part = current; terminal_raw = true })

  -- `event` is in its place, inside of a part or outside.
  abbrev Fits : Bool → Event → Type 0
  Fits inside event = is_some (track inside (event ∷ [])) ≡ true

  event_unchecked :
      (on_end : Part → Exec (Unit {0})) (current : Option Part) (t : Bool) (event : Event)
      → Fits (is_some current) event
      → on_event env on_end current t event ≡ unchecked_event on_end current t event
  unfolding on_event unchecked_event record_raw_part
  event_unchecked on_end none t (begin hs) h = refl
  event_unchecked on_end none t raw h = refl
  event_unchecked on_end (some p) t (part_data b) h = refl
  event_unchecked on_end (some p) t MultipartEvent.end h = refl
  event_unchecked on_end none t (part_data b) h = cc
  event_unchecked on_end none t MultipartEvent.end h = cc
  event_unchecked on_end (some p) t (begin hs) h = cc
  event_unchecked on_end (some p) t raw h = cc

  pub unchecked_events : (Part → Exec (Unit {0})) → Cursor → List Event → Exec Cursor
  unchecked_events on_end cursor [] = pure cursor
  unchecked_events on_end cursor (event ∷ events) = do
    next ← unchecked_event on_end cursor.current_part cursor.terminal_raw event
    unchecked_events on_end next events

  abbrev inside_after : Event → Bool
  inside_after (begin hs) = true
  inside_after (part_data b) = true
  inside_after MultipartEvent.end = false
  inside_after raw = false

  track-cons :
      (inside b : Bool) (event : Event) (events : List Event)
      → track inside (event ∷ events) ≡ some b
      → Fits inside event × (track (inside_after event) events ≡ some b)
  track-cons false b (begin hs) es h = (refl, h)
  track-cons true b (part_data x) es h = (refl, h)
  track-cons true b MultipartEvent.end es h = (refl, h)
  track-cons false b raw es h = (refl, h)
  track-cons true b (begin hs) es h = cc
  track-cons false b (part_data x) es h = cc
  track-cons false b MultipartEvent.end es h = cc
  track-cons true b raw es h = cc

-- A cursor stands inside of a part when it has one.
abbrev IsAligned : Bool → Cursor → Type 0
IsAligned inside cursor = is_some cursor.current_part ≡ inside

Ensures-continue :
    {A B : Type 0} (P : A → Type 0) (Q : B → Type 0) (r : Result A × State) (f : A → Exec B)
    → Ensures P r.0
    → ((a : A) (s : State) → P a → Ensures Q (f a s).0)
    → Ensures Q (continue r f).0
Ensures-continue P Q (ok a, s) f h k = k a s h
Ensures-continue P Q (err e, s) f h k = tt

Ensures-any : {A : Type 0} (r : Result A) → Ensures (λ (a : A). Unit) r
Ensures-any (ok a) = tt
Ensures-any (err e) = tt

-- Actions that agree where the first part of a sequence leads agree as its second parts.
continue_congr :
    {A B : Type 0} (P : A → Type 0) (r : Result A × State) (f g : A → Exec B)
    → Ensures P r.0
    → ((a : A) (s : State) → P a → f a s ≡ g a s)
    → continue r f ≡ continue r g
continue_congr P (ok a, s) f g h k = k a s h
continue_congr P (err e, s) f g h k = refl

continue_head :
    {A B : Type 0} {r q : Result A × State} (f : A → Exec B) → r ≡ q → continue r f ≡ continue q f
continue_head f e = ap (λ x. continue x f) e

module _ (env : Env) (on_end : Part → Exec (Unit {0})) where
  event-IsAligned :
      (current : Option Part) (t : Bool) (event : Event) (s : State)
      → Fits env (is_some current) event
      → Ensures
          (IsAligned (inside_after env event))
          (unchecked_event env on_end current t event s).0
  unfolding ◌>>=◌ unchecked_event
  event-IsAligned current t (begin hs) s h =
      Ensures-continue (λ _. Unit) (IsAligned true) (open_part env hs s) _ (Ensures-any _)
        (λ a s' u. refl)
  event-IsAligned current t (part_data b) s h =
      Ensures-continue (λ _. Unit) (IsAligned true)
        (receive_part_data env (part_of env current) b s) _ (Ensures-any _) (λ a s' u. refl)
  event-IsAligned current t MultipartEvent.end s h =
      Ensures-continue (λ _. Unit) (IsAligned false) (on_end (part_of env current) s) _
        (Ensures-any _) (λ a s' u. refl)
  event-IsAligned none t raw s h =
      Ensures-continue (λ _. Unit) (IsAligned false) (count_field env s) _ (Ensures-any _)
        (λ a s' u. refl)
  event-IsAligned (some p) t raw s h = cc

  -- Events in their order go through without the checks, and leave the cursor where they lead.
  events_unchecked :
      (events : List Event) (cursor : Cursor) (b : Bool) (s : State)
      → track (is_some cursor.current_part) events ≡ some b
      → (on_events env on_end cursor events s ≡ unchecked_events env on_end cursor events s)
        × Ensures (IsAligned b) (unchecked_events env on_end cursor events s).0
  unfolding ◌>>=◌ on_events unchecked_events
  events_unchecked [] cursor b s h = (refl, ground arith)
  events_unchecked (event ∷ events) cursor b s h =
      let (fits, later) = track-cons env (is_some cursor.current_part) b event events h in
      let aligned = event-IsAligned cursor.current_part cursor.terminal_raw event s fits in
      let in_order = λ (next : Cursor) (al : IsAligned (inside_after env event) next).
        ap (λ (inside : Bool). track inside events) al ∙ later in
      (
        ap (λ (m : Exec Cursor). continue (m s) (λ next. on_events env on_end next events))
              (event_unchecked env on_end cursor.current_part cursor.terminal_raw event fits)
            ∙ continue_congr (IsAligned (inside_after env event)) _ _ _ aligned
                (λ next s' al. (events_unchecked events next b s' (in_order next al)).0),
        Ensures-continue (IsAligned (inside_after env event)) (IsAligned b) _ _ aligned
            (λ next s' al. (events_unchecked events next b s' (in_order next al)).1),
      )

module _ (env : Env) (mm : Memmem) where
  -- `_parse`'s loop over the reads without the checks.
  pub unchecked_loop :
      List (Result Bytes) → MultipartParser → Cursor → Exec (MultipartParser × Cursor)
  unchecked_loop [] parser cursor s = (ok (parser, cursor), after_read env mm [] s)
  unchecked_loop (err e ∷ rest) parser cursor s = (err e, after_read env mm rest s)
  unchecked_loop (ok [] ∷ rest) parser cursor s = (ok (parser, cursor), after_read env mm rest s)
  unchecked_loop (ok (b ∷ bs) ∷ rest) parser cursor s =
      (do
        (events, next) ← lift (feed env mm parser (b ∷ bs))
        after ← unchecked_events env (finish_part env) cursor events
        unchecked_loop rest next after)
        (after_read env mm rest s)

  pub unchecked_eof : MultipartParser → Cursor → Exec Cursor
  unchecked_eof parser cursor = do
    (events, last) ← lift (feed_eof env mm parser)
    let exact_boundary_at_eof = is_body parser.state && is_end last.state
    after ← unchecked_events env (finish_at_eof env exact_boundary_at_eof) cursor events
    finish_parser env (Native.finish last) after.current_part
    pure (record {
      current_part = after.current_part;
      terminal_raw = if exact_boundary_at_eof then false else after.terminal_raw;
    })

  pub unchecked_input : MultipartParser → Exec Cursor
  unchecked_input parser = do
    (last, cursor) ← λ s. unchecked_loop s.input parser at_start s
    unchecked_eof last cursor

  -- The parser and the cursor agree on whether a part is open.
  pub record Agrees (r : MultipartParser × Cursor) : Type 0 where
    pub pending : PendingInBody r.0
    pub aligned : IsAligned (is_inside r.0) r.1

  eof_unchecked :
      (parser : MultipartParser) (cursor : Cursor) (s : State)
      → Agrees (parser, cursor)
      → parse_eof env mm parser cursor s ≡ unchecked_eof parser cursor s
  unfolding ◌>>=◌ parse_eof unchecked_eof
  eof_unchecked parser cursor s h =
      continue_congr (IsTracked (is_inside parser)) (feed_eof env mm parser, s) _ _
        (feed_eof-IsTracked mm (λ b. b) parser h.pending)
        λ r s' tr.
          continue_head _
            (events_unchecked env (finish_at_eof env (is_body parser.state && is_end r.1.state)) r.0
              cursor (is_inside r.1) s' (ap (λ i. track i r.0) h.aligned ∙ tr.tracked)).0

  loop_unchecked :
      (reads : List (Result Bytes)) (parser : MultipartParser) (cursor : Cursor) (s : State)
      → Agrees (parser, cursor)
      → (read_loop env mm reads parser cursor s ≡ unchecked_loop reads parser cursor s)
        × Ensures Agrees (unchecked_loop reads parser cursor s).0
  unfolding ◌>>=◌ read_loop unchecked_loop
  loop_unchecked [] parser cursor s h = (refl, h)
  loop_unchecked (err e ∷ rest) parser cursor s h = (refl, tt)
  loop_unchecked (ok [] ∷ rest) parser cursor s h = (refl, h)
  loop_unchecked (ok (b ∷ bs) ∷ rest) parser cursor s h =
      let fed = feed-IsTracked mm (λ x. x) parser (b ∷ bs) h.pending in
      let call : Result (List Event × MultipartParser) × State =
        (feed env mm parser (b ∷ bs), after_read env mm rest s) in
      let go =
        λ (r : List Event × MultipartParser) (s' : State) (tr : IsTracked (is_inside parser) r).
          events_unchecked env (finish_part env) r.0 cursor (is_inside r.1) s'
            (ap (λ i. track i r.0) h.aligned ∙ tr.tracked) in
      let again =
        λ (r : List Event × MultipartParser) (tr : IsTracked (is_inside parser) r) (after : Cursor)
            (t : State) (al : IsAligned (is_inside r.1) after).
          loop_unchecked rest r.1 after t (record { pending = tr.pending; aligned = al }) in
      (
        continue_congr (IsTracked (is_inside parser)) call _ _ fed (λ r s' tr.
            continue_head _ (go r s' tr).0
            ∙ continue_congr (IsAligned (is_inside r.1)) _ _ _ (go r s' tr).1
                (λ after t al. (again r tr after t al).0)),
        Ensures-continue (IsTracked (is_inside parser)) Agrees call _ fed (λ r s' tr.
            Ensures-continue (IsAligned (is_inside r.1)) Agrees _ _ (go r s' tr).1
              (λ after t al. (again r tr after t al).1)),
      )

  input_unchecked_from :
      (parser : MultipartParser) (s : State)
      → PendingInBody parser
      → is_inside parser ≡ false
      → parse_input env mm parser s ≡ unchecked_input parser s
  unfolding ◌>>=◌ parse_input unchecked_input
  input_unchecked_from parser s h o =
      let agrees : Agrees (parser, at_start) = record { pending = h; aligned = sym o } in
      let (same, agree) = loop_unchecked s.input parser at_start s agrees in
      continue_head _ same ∙ continue_congr Agrees _ _ _ agree (λ r t a. eof_unchecked r.0 r.1 t a)

  -- With the parser that `_parse` makes, the `try` block does the same with the checks on the
  -- order of events and without them: none of them fails, whatever the reads return and the
  -- upload handlers do.
  pub input_unchecked :
      (parser : MultipartParser) (s : State)
      → new_parser env mm ≡ ok parser
      → parse_input env mm parser s ≡ unchecked_input parser s
  input_unchecked parser s h =
      let made = new-IsNew _ _ _ _ _ parser h in
      input_unchecked_from parser s made.pending made.outside
