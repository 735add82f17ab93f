-- ===== src/Adapter/Decoder/Streaming.antt =====
-- Decoding base64 data as it arrives gives what decoding all of it at once gives.
use django_fast_multipart.Adapter.Decoder.{
  Base64Decoder, fresh, decode_groups, feed_stripped, feed, finish,
}
use django_fast_multipart.Base.{
  ℕ, ◌*◌, ◌/◌, ◌<◌, true, false, ◌≡◌, ◌∙◌, refl, sym, ap, Option, none, some, List, [], ◌∷◌, ◌++◌,
  Bytes, take, drop, length, length-drop, length-take, take-append-drop, append-nil, append_assoc,
  ◌==◌, arith, Bool-cases, inl, inr,
}
use django_fast_multipart.Exc.{Result, ok, ◌>>=◌, bind-eq-ok}
use django_fast_multipart.Python.Base64.{b64decode}
use django_fast_multipart.Python.Strings.{split, join, index_of, squeeze, join-split}
use django_fast_multipart.Adapter.Decoder.Strict.{b64decode-append, b64decode-short}

abbrev bytes_of : Option Bytes → Bytes
bytes_of none = []
bytes_of (some o) = o

-- What a decoder makes of data without white space.
data FeedOutcome (d : Base64Decoder) (s : Bytes) (o : Bytes) (d' : Base64Decoder) : Type 0 where
  completed :
      d'.padding_complete ≡ true
      → d'.buffer ≡ []
      → b64decode (d.buffer ++ s) ≡ ok o
      → FeedOutcome d s o d'
  waiting :
      d'.padding_complete ≡ false
      → length d'.buffer < 4
      → ((rest out : Bytes)
          → b64decode (d'.buffer ++ rest) ≡ ok out
          → b64decode ((d.buffer ++ s) ++ rest) ≡ ok (o ++ out))
      → FeedOutcome d s o d'

module _ (d : Base64Decoder) (s : Bytes) where
  abbrev whole : Bytes
  whole = d.buffer ++ s

  abbrev complete : ℕ
  complete = length whole / 4 * 4

  -- Groups without padding leave the rest of the buffer for later.
  groups_wait :
      (decoded rest out : Bytes)
      → 0 < complete
      → index_of b'=' (take complete whole) ≡ none
      → b64decode (take complete whole) ≡ ok decoded
      → b64decode (drop complete whole ++ rest) ≡ ok out
      → b64decode (whole ++ rest) ≡ ok (decoded ++ out)
  groups_wait decoded rest out f n e k =
      let l = length-take complete whole in
      let cut =
        b64decode-append (take complete whole) (drop complete whole ++ rest) (omega (arith, l)) n
          (omega (arith, l)) e k in
      let joined = append_assoc (take complete whole) (drop complete whole) rest in
      ap (λ (t : Bytes). b64decode (t ++ rest)) (sym (take-append-drop complete whole))
      ∙ ap b64decode joined
      ∙ cut

  decode_groups-FeedOutcome :
      (i : Option ℕ) {o : Option Bytes} {d' : Base64Decoder}
      → 0 < complete
      → d.padding_complete ≡ false
      → index_of b'=' (take complete whole) ≡ i
      → decode_groups d whole complete i ≡ ok (o, d')
      → FeedOutcome d s (bytes_of o) d'
  unfolding decode_groups
  decode_groups-FeedOutcome (some i) f c n h =
      completed (ground arith) (ground arith) (ground arith)
  decode_groups-FeedOutcome none {o} {d'} f c n h =
      let (decoded, e, h') = bind-eq-ok (b64decode (take complete whole)) _ h in
      let same : d'.buffer ≡ drop complete whole = ground arith in
      let out_is : bytes_of o ≡ decoded = ground arith in
      waiting (ground arith) (ground (arith, length-drop complete whole)) (λ rest out k. rw out_is (
        groups_wait decoded rest out f n e
          (ap (λ (t : Bytes). b64decode (t ++ rest)) (sym same) ∙ k)))

waiting_here :
    (d : Base64Decoder) (s : Bytes) (o : Option Bytes) {d' : Base64Decoder}
    → d.padding_complete ≡ false
    → length (d.buffer ++ s) < 4
    → bytes_of o ≡ []
    → d' ≡ record d { buffer = d.buffer ++ s }
    → FeedOutcome d s (bytes_of o) d'
waiting_here d s o {d'} c l n e =
    let same : d'.buffer ≡ d.buffer ++ s = ap (λ (x : Base64Decoder). x.buffer) e in
    waiting (ground arith) (rw same l)
      (λ rest out k. rw n (ap (λ (t : Bytes). b64decode (t ++ rest)) (sym same) ∙ k))

feed_stripped-FeedOutcome :
    (d : Base64Decoder) (s : Bytes) {o : Option Bytes} {d' : Base64Decoder}
    → length d.buffer < 4
    → d.padding_complete ≡ false
    → feed_stripped d s ≡ ok (o, d')
    → FeedOutcome d s (bytes_of o) d'
unfolding feed_stripped
feed_stripped-FeedOutcome d [] {o} {d'} l c h =
    waiting_here d [] o c (rw append-nil l) (ground arith) (ground (arith, append-nil d.buffer))
feed_stripped-FeedOutcome d (x ∷ xs) {o} {d'} l c h = elim (Bool-cases (complete d (x ∷ xs) == 0)) [
  | inl e ↦ waiting_here d (x ∷ xs) o c (ground arith) (ground arith) (ground arith)
  | inr e ↦ decode_groups-FeedOutcome d (x ∷ xs) _ {o = o} (ground arith) c refl (ground arith)
]

-- Once a padded group is complete, only white space is accepted.
feed_stripped_complete :
    (d : Base64Decoder) (s : Bytes) (o : Option Bytes) {d' : Base64Decoder}
    → d.padding_complete ≡ true
    → d.buffer ≡ []
    → feed_stripped d s ≡ ok (o, d')
    → (s ≡ []) × (bytes_of o ≡ []) × (d' ≡ d)
unfolding feed_stripped
feed_stripped_complete d [] o c b h = ground arith
feed_stripped_complete d (x ∷ xs) o c b h = ground arith

-- The outputs of a decoder on successive chunks, joined, and the decoder behind them.
unfoldable pub feed_all : Base64Decoder → List Bytes → Result (Bytes × Base64Decoder)
feed_all d [] = ok ([], d)
feed_all d (chunk ∷ chunks) = do
  (o, d') ← feed d chunk
  (out, last) ← feed_all d' chunks
  ok (bytes_of o ++ out, last)

squeeze-append : (xs ys : Bytes) → squeeze (xs ++ ys) ≡ squeeze xs ++ squeeze ys
unfolding squeeze
squeeze-append [] ys = refl
squeeze-append (x ∷ xs) ys = ground (arith, squeeze-append xs ys)

-- The chunks that a decoder is fed, as data without white space.
abbrev stripped : List Bytes → Bytes
stripped chunks = squeeze (join chunks)

stripped-cons : (c : Bytes) (cs : List Bytes) → stripped (c ∷ cs) ≡ join (split c) ++ stripped cs
unfolding join
stripped-cons c cs =
    squeeze-append c (join cs) ∙ ap (λ (t : Bytes). t ++ stripped cs) (sym (join-split c))

-- The parts of a successful run.
feed_all-cons :
    (d : Base64Decoder) (c : Bytes) (cs : List Bytes) {out : Bytes} {last : Base64Decoder}
    → feed_all d (c ∷ cs) ≡ ok (out, last)
    → (o : Option Bytes) × (d' : Base64Decoder) × (rest : Bytes) × (feed_stripped d (join (split c))
        ≡ ok (o, d'))
      × (feed_all d' cs ≡ ok (rest, last))
      × (out ≡ bytes_of o ++ rest)
unfolding feed_all feed
feed_all-cons d c cs h =
    let ((o, d'), e, h') = bind-eq-ok (feed_stripped d (join (split c))) _ h in
    let ((rest, last'), e', h'') = bind-eq-ok (feed_all d' cs) _ h' in
    (o, d', rest, e, ground arith, ground arith)

feed_all_complete :
    (chunks : List Bytes) (d : Base64Decoder) {out : Bytes} {last : Base64Decoder}
    → d.padding_complete ≡ true
    → d.buffer ≡ []
    → feed_all d chunks ≡ ok (out, last)
    → (stripped chunks ≡ []) × (out ≡ [])
feed_all_complete [] d c b h = unfold feed_all join squeeze in ground arith
feed_all_complete (x ∷ xs) d c b h =
    let (o, d', rest, e, later, out_is) = feed_all-cons d x xs h in
    let (none_here, no_bytes, same) = feed_stripped_complete d (join (split x)) o c b e in
    let (none_later, no_rest) = feed_all_complete xs d' (ground arith) (ground arith) later in
    (stripped-cons x xs ∙ rw (none_here, none_later), out_is ∙ rw (no_bytes, no_rest))

finish-nil : (d : Base64Decoder) → length d.buffer < 4 → finish d ≡ ok tt → d.buffer ≡ []
unfolding finish
finish-nil d l h = elim (Bool-cases (length d.buffer == 0)) [
  | inl e ↦ length-nil d.buffer e
  | inr e ↦
      let (o, e', _) = bind-eq-ok (b64decode d.buffer) (λ _. ok tt) (rw e at h) in
      b64decode-short d.buffer l e'
]
  where
    length-nil : (bs : Bytes) → (length bs == 0) ≡ true → bs ≡ []
    length-nil [] e = refl
    length-nil (b ∷ bs) e = ground arith

-- One fed chunk before the rest of the run.
FeedOutcome-cons :
    (d d' : Base64Decoder) (s rest_in : Bytes) (o rest : Bytes)
    → FeedOutcome d s o d'
    → (d'.padding_complete ≡ true → d'.buffer ≡ [] → (rest_in ≡ []) × (rest ≡ []))
    → (length d'.buffer < 4
        → d'.padding_complete ≡ false
        → b64decode (d'.buffer ++ rest_in) ≡ ok rest)
    → b64decode (d.buffer ++ (s ++ rest_in)) ≡ ok (o ++ rest)
FeedOutcome-cons d d' s rest_in o rest (completed c b e) ended more =
    let (no_rest, no_out) = ended c b in rw (no_rest, no_out, append-nil s, append-nil o) e
FeedOutcome-cons d d' s rest_in o rest (waiting c l k) ended more =
    ap b64decode (sym (append_assoc d.buffer s rest_in)) ∙ k rest_in rest (more l c)

feed_all_sound :
    (chunks : List Bytes) (d : Base64Decoder) {out : Bytes} {last : Base64Decoder}
    → length d.buffer < 4
    → d.padding_complete ≡ false
    → feed_all d chunks ≡ ok (out, last)
    → finish last ≡ ok tt
    → b64decode (d.buffer ++ stripped chunks) ≡ ok out
feed_all_sound [] d {out} {last} l c h f =
    let same : last ≡ d = (unfold feed_all in ground arith) in
    let nothing : out ≡ [] = (unfold feed_all in ground arith) in
    let empty : d.buffer ≡ [] = finish-nil d l (ap finish (sym same) ∙ f) in
    rw (empty, nothing) (unfold join squeeze b64decode in refl)
feed_all_sound (x ∷ xs) d l c h f =
    let (o, d', rest, e, later, out_is) = feed_all-cons d x xs h in
    let outcome = feed_stripped-FeedOutcome d (join (split x)) l c e in
    rw (stripped-cons x xs, out_is)
      (FeedOutcome-cons d d' _ _ _ rest outcome (λ c' b'. feed_all_complete xs d' c' b' later)
        (λ l' c'. feed_all_sound xs d' l' c' later f))

-- If a new decoder takes every chunk of a file's data and then finishes, the bytes that it gave,
-- joined, are the strict decoding of all the data at once without its white space.
pub feed-b64decode :
    (chunks : List Bytes) {out : Bytes} {last : Base64Decoder}
    → feed_all fresh chunks ≡ ok (out, last)
    → finish last ≡ ok tt
    → b64decode (squeeze (join chunks)) ≡ ok out
feed-b64decode chunks = feed_all_sound chunks fresh (omega arith) refl
