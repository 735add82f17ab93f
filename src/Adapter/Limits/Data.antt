-- ===== src/Adapter/Limits/Data.antt =====
-- The upload limits through `_receive_part_data` and `_finish_part` of
-- src/django_fast_multipart/parser.py.
use django_fast_multipart.Adapter.Decoder.{Base64Decoder}
use django_fast_multipart.Adapter.Decoder
use django_fast_multipart.Adapter.Env.{Env}
use django_fast_multipart.Adapter.Limits.Parts.{skipped-Begun, Begun-Within, Ends-Stop}
use django_fast_multipart.Adapter.Limits.{
  AtMost, Within, Stop, HoldsAt, Ends, Ends-bind, Ends-lift, Ends-pure, Ends-if, Begun,
}
use django_fast_multipart.Adapter.Part.{Part}
use django_fast_multipart.Adapter.State.{State, Exec, ◌>>◌, pure}
use django_fast_multipart.Adapter.Upload.{
  name_length, base64_checked, check_field_memory_size, after_chunk, deliver_from, deliver_decoded,
  receive_file_data, receive_part_data, add_at,
}
use django_fast_multipart.Base.{
  ℕ, zero, suc, ◌+◌, not, Option, none, some, ◌++◌, Bytes, length, get_or, arith,
}
use django_fast_multipart.Exc.{skip_file, Result, ok, err}

module _ (env : Env) where
  after_chunk-Begun :
      (rest : Part → Option Bytes → Exec Part) (index amount : ℕ) (part : Part)
      (r : Result (Option Bytes)) (s : State)
      → ((p : Part) (chunk : Option Bytes)
          → Ends (Begun env 0 0 p) (Begun env 0 0) (λ _. Within env 0 0) (rest p chunk))
      → Begun env 0 0 part s
      → HoldsAt
          (Begun env 0 0)
          (λ _. Within env 0 0)
          (after_chunk env rest index amount part (r, s))
  unfolding after_chunk
  after_chunk-Begun rest index amount part (ok chunk) s k w =
      (k (record part { counters = add_at index amount part.counters }) chunk).at s w
  after_chunk-Begun rest index amount part (err skip_file) s k w =
      (skipped-Begun env part).at s (Begun-Within env part s w)
  after_chunk-Begun rest index amount part (err e) s k w = Begun-Within env part s w

  deliver_from-Begun :
      (left index : ℕ) (part : Part) (chunk : Option Bytes)
      → Ends
          (Begun env 0 0 part)
          (Begun env 0 0)
          (λ _. Within env 0 0)
          (deliver_from env left index part chunk)
  unfolding deliver_from
  deliver_from-Begun zero index part chunk = record { at = λ s w. w }
  deliver_from-Begun (suc left) index part none = record { at = λ s w. w }
  deliver_from-Begun (suc left) index part (some chunk) = record {
    at = λ s w.
        after_chunk-Begun (deliver_from env left (suc index)) index (length chunk) part
          (env.on_data_chunk s.calls index chunk (get_or part.counters index 0)) _
          (λ p c. deliver_from-Begun left (suc index) p c) w;
  }

  deliver_decoded-Begun :
      (part : Part) (fed : Option Bytes × Base64Decoder)
      → Ends
          (Begun env 0 0 part)
          (Begun env 0 0)
          (λ _. Within env 0 0)
          (deliver_decoded env part fed)
  unfolding deliver_decoded
  deliver_decoded-Begun part (none, decoder) = record { at = λ s w. w }
  deliver_decoded-Begun part (some chunk, decoder) =
      deliver_from-Begun env.handlers 0 (record part { base64_decoder = some decoder }) (some chunk)

  receive_file_data-Begun :
      (part : Part) (decoder : Option Base64Decoder) (bytes : Bytes)
      → Ends
          (Begun env 0 0 part)
          (Begun env 0 0)
          (λ _. Within env 0 0)
          (receive_file_data env part decoder bytes)
  unfolding receive_file_data
  receive_file_data-Begun part none bytes = deliver_from-Begun env.handlers 0 part (some bytes)
  receive_file_data-Begun part (some decoder) bytes =
      Ends-bind (λ _. Begun env 0 0 part)
        (Ends-lift (base64_checked (Decoder.feed decoder bytes))
          (λ e s w. Begun-Within env part s w))
        λ fed. deliver_decoded-Begun part fed

  -- What `_check_field_memory_size` lets through.
  abbrev pub HasMemory : Part → State → Type 0
  HasMemory part s =
      AtMost (s.field_bytes + length part.content + name_length part + 2)
        env.settings.data_upload_max_memory_size

  pub check_field_memory_size-HasMemory :
      (f g : ℕ) (part : Part)
      → Ends
          (Within env f g)
          (λ _ s. Within env f g s × HasMemory part s)
          (Stop env)
          (check_field_memory_size env part)
  unfolding check_field_memory_size
  check_field_memory_size-HasMemory f g part = record { at = λ s w. ground arith }

  pub receive_part_data-Begun :
      (part : Part) (bytes : Bytes)
      → Ends (Begun env 0 0 part) (Begun env 0 0) (Stop env) (receive_part_data env part bytes)
  unfolding receive_part_data
  receive_part_data-Begun part bytes =
      let longer = record part { content = part.content ++ bytes } in
      Ends-if part.ignored (pure part) _ (λ _. Ends-pure part (λ s w. w))
        (λ _.
          Ends-if (not part.is_file) (check_field_memory_size env longer >> pure longer)
            (receive_file_data env part part.base64_decoder bytes)
            (λ _.
              Ends-bind (λ _ s. Begun env 0 0 longer s × HasMemory longer s)
                (check_field_memory_size-HasMemory _ _ longer) (λ u. Ends-pure longer (λ s w. w.0)))
            (λ _. Ends-Stop env (receive_file_data-Begun part part.base64_decoder bytes)))
