-- ===== src/Adapter/Limits/Whole.antt =====
-- The upload limits through all of `_parse` of src/django_fast_multipart/parser.py.
use django_fast_multipart.Adapter.Env.{Env}
use django_fast_multipart.Adapter.Limits.Data.{receive_part_data-Begun}
use django_fast_multipart.Adapter.Limits.Finish.{finish_part-Within}
use django_fast_multipart.Adapter.Limits.Parts.{Begun-Within, open_part-Begun}
use django_fast_multipart.Adapter.Limits.{
  Within, Within-le, Stop, Ends, Ends-bind, Ends-lift, Ends-pure, Ends-if, Begun, fields_of,
  files_of, count_field-Within,
}
use django_fast_multipart.Adapter.Parse.{
  Event, Cursor, at_start, on_event, on_events, record_raw_part, finish_at_eof, finish_truncated,
  finish_parser, read_loop, after_read, parse_eof, parse_input, feed, feed_eof, is_end,
}
use django_fast_multipart.Adapter.Part.{Part}
use django_fast_multipart.Adapter.State.{State, Exec, pure, raise}
use django_fast_multipart.Adapter.Upload.{finish_part}
use django_fast_multipart.Base.{
  ℕ, ◌+◌, Bool, not, ◌&&◌, Option, none, some, List, [], ◌∷◌, Bytes, arith,
}
use django_fast_multipart.Core.Memmem.{Memmem}
use django_fast_multipart.Core.Parser as Native
use django_fast_multipart.Core.Parser.{is_body}
use django_fast_multipart.Core.{MultipartParser, MultipartEvent, begin, part_data, raw}
use django_fast_multipart.Exc.{Exc, Result, ok, err, is_value_error}

abbrev held_fields : Option Part → ℕ
held_fields none = 0
held_fields (some part) = 0 + fields_of part

abbrev held_files : Option Part → ℕ
held_files none = 0
held_files (some part) = 0 + files_of part

module _ (env : Env) where
  -- What is still to be stored is what the current part may store.
  abbrev Held : Option Part → State → Type 0
  Held current s = Within env (held_fields current) (held_files current) s

  Held-Within : (current : Option Part) (s : State) → Held current s → Within env 0 0 s
  Held-Within none s w = w
  Held-Within (some part) s w = Begun-Within env part s w

  Held-Stop : (current : Option Part) (e : Exc) (s : State) → Held current s → Stop env e s
  Held-Stop current e s w i = Held-Within current s w

  module _ (on_end : Part → Exec (Unit {0}))
      (ends : (part : Part)
        → Ends (Begun env 0 0 part) (λ _. Within env 0 0) (Stop env) (on_end part)) where
    on_event-Held :
        (current : Option Part) (t : Bool) (event : Event)
        → Ends
            (Held current)
            (λ c. Held c.current_part)
            (Stop env)
            (on_event env on_end current t event)
    unfolding on_event record_raw_part
    on_event-Held (some part) t (begin headers) = record { at = λ s w i. Begun-Within env part s w }
    on_event-Held none t (begin headers) =
        Ends-bind (Begun env 0 0) (open_part-Begun env headers) λ part. record { at = λ s w. w }
    on_event-Held none t (part_data bytes) = record { at = λ s w i. w }
    on_event-Held (some part) t (part_data bytes) =
        Ends-bind (Begun env 0 0) (receive_part_data-Begun env part bytes)
          λ after. record { at = λ s w. w }
    on_event-Held none t MultipartEvent.end = record { at = λ s w i. w }
    on_event-Held (some part) t MultipartEvent.end =
        Ends-bind (λ _. Within env 0 0) (ends part) λ u. record { at = λ s w. w }
    on_event-Held (some part) t raw =
        Ends-bind (λ _. Begun env 0 0 part) (record { at = λ s w i. Begun-Within env part s w })
          λ u. record { at = λ s w. w }
    on_event-Held none t raw =
        Ends-bind (λ _. Within env 1 0) (count_field-Within env 0 0)
          λ u. record { at = λ s w. Within-le s 1 0 0 0 w (omega arith) (omega arith) }

    on_events-Held :
        (cursor : Cursor) (events : List Event)
        → Ends
            (Held cursor.current_part)
            (λ c. Held c.current_part)
            (Stop env)
            (on_events env on_end cursor events)
    unfolding on_events
    on_events-Held cursor [] = record { at = λ s w. w }
    on_events-Held cursor (event ∷ events) =
        Ends-bind (λ c. Held c.current_part)
          (on_event-Held cursor.current_part cursor.terminal_raw event)
          λ next. on_events-Held next events

  finish_at_eof-Within :
      (exact : Bool) (part : Part)
      → Ends (Begun env 0 0 part) (λ _. Within env 0 0) (Stop env) (finish_at_eof env exact part)
  unfolding finish_at_eof
  finish_at_eof-Within exact part =
      Ends-if (not (exact && part.is_file)) (finish_part env part) (pure tt)
        (λ _. finish_part-Within env part) (λ _. Ends-pure tt (λ s w. Begun-Within env part s w))

  finish_truncated-Within :
      (current : Option Part)
      → Ends (Held current) (λ _. Within env 0 0) (Stop env) (finish_truncated env current)
  unfolding finish_truncated
  finish_truncated-Within none = record { at = λ s w. w }
  finish_truncated-Within (some part) =
      Ends-if (not part.is_file) (finish_part env part) (pure tt) (λ _. finish_part-Within env part)
        (λ _. Ends-pure tt (λ s w. Begun-Within env part s w))

  finish_parser-Within :
      (r : Result (Unit {0})) (current : Option Part)
      → Ends (Held current) (λ _. Within env 0 0) (Stop env) (finish_parser env r current)
  unfolding finish_parser
  finish_parser-Within (ok u) current = Ends-pure tt (Held-Within current)
  finish_parser-Within (err e) current =
      Ends-if (is_value_error e) (finish_truncated env current) (raise e)
        (λ _. finish_truncated-Within current)
        (λ _. record { at = λ s w i. Held-Within current s w })

  module _ (mm : Memmem) where
    read_loop-Held :
        (reads : List (Result Bytes)) (parser : MultipartParser) (cursor : Cursor)
        → Ends
            (Held cursor.current_part)
            (λ r. Held r.1.current_part)
            (Stop env)
            (read_loop env mm reads parser cursor)
    unfolding read_loop
    read_loop-Held [] parser cursor = record { at = λ s w. w }
    read_loop-Held (err e ∷ rest) parser cursor = record {
      at = λ s w. Held-Stop cursor.current_part e s w;
    }
    read_loop-Held (ok [] ∷ rest) parser cursor = record { at = λ s w. w }
    read_loop-Held (ok (b ∷ bs) ∷ rest) parser cursor =
        let chunk =
          Ends-bind (λ _. Held cursor.current_part)
            (Ends-lift (feed env mm parser (b ∷ bs)) (Held-Stop cursor.current_part))
            λ fed.
              Ends-bind (λ c. Held c.current_part)
                (on_events-Held (finish_part env) (finish_part-Within env) cursor fed.0)
                λ after. read_loop-Held rest fed.1 after in
        record { at = λ s w. chunk.at (after_read env mm rest s) w }

    parse_eof-Within :
        (parser : MultipartParser) (cursor : Cursor)
        → Ends
            (Held cursor.current_part)
            (λ _. Within env 0 0)
            (Stop env)
            (parse_eof env mm parser cursor)
    unfolding parse_eof
    parse_eof-Within parser cursor =
        Ends-bind (λ _. Held cursor.current_part)
          (Ends-lift (feed_eof env mm parser) (Held-Stop cursor.current_part))
          λ fed.
            Ends-bind (λ c. Held c.current_part)
              (on_events-Held (finish_at_eof env (is_body parser.state && is_end fed.1.state))
                (finish_at_eof-Within (is_body parser.state && is_end fed.1.state)) cursor fed.0)
              λ after.
                Ends-bind (λ _. Within env 0 0)
                  (finish_parser-Within (Native.finish fed.1) after.current_part)
                  λ u. record { at = λ s w. w }

    pub parse_input-Within :
        (parser : MultipartParser)
        → Ends (Within env 0 0) (λ _. Within env 0 0) (Stop env) (parse_input env mm parser)
    unfolding parse_input
    parse_input-Within parser =
        Ends-bind (λ r. Held r.1.current_part)
          (record { at = λ s w. (read_loop-Held s.input parser at_start).at s w })
          λ r. parse_eof-Within r.0 r.1
