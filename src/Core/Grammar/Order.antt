-- ===== src/Core/Grammar/Order.antt =====
-- What it is for events to be in order: parts do not overlap or nest.
use django_fast_multipart.Base.{
  ℕ, Bool, true, false, not, ◌&&◌, ◌≡◌, refl, Option, none, some, List, [], ◌∷◌, ◌++◌, Bytes, ◌<◌,
  ◌||◌, ◌==◌, ltb, arith, inl, inr, Bool-cases, length,
}
use django_fast_multipart.Core.Boundary.{Step}
use django_fast_multipart.Core.Parser.{new, max_boundary_length, is_body}
use django_fast_multipart.Core.Types.{MultipartEvent, begin, part_data, raw, MultipartParser}
use django_fast_multipart.Exc.{Result, ok, err, ok-injective, err-not_ok}

-- Reads events from inside (`true`) or outside (`false`) of a part, and says where that ends;
-- `none` for an event that is out of place.
abbrev pub track : {D : Type 0} → Bool → List (MultipartEvent D) → Option Bool
track inside [] = some inside
track false (begin _ ∷ es) = track true es
track true (part_data _ ∷ es) = track true es
track true (MultipartEvent.end ∷ es) = track false es
track false (raw ∷ es) = track false es
track _ (_ ∷ _) = none

-- Whether a part has begun and not ended.
abbrev pub is_inside : MultipartParser → Bool
is_inside p = is_body p.state && not p.pending_headers

-- Headers wait for their part only at the start of a body.
abbrev pub PendingInBody : MultipartParser → Type 0
PendingInBody p = p.pending_headers ≡ true → is_body p.state ≡ true

pub record IsOrdered {D : Type 0} (inside : Bool) (s : Step D) : Type 0 where
  pub tracked : track inside s.events ≡ some (is_inside s.parser)
  pub pending : PendingInBody s.parser

-- A result that is no error has the property.
abbrev pub Ensures : {A : Type 0} → (A → Type 0) → Result A → Type 0
Ensures P (ok a) = P a
Ensures P (err e) = Unit

module _ {D : Type 0} where
  pub track-append :
      (b c : Bool) (xs ys : List (MultipartEvent D))
      → track b xs ≡ some c
      → track b (xs ++ ys) ≡ track c ys
  track-append b c [] ys h = ground arith
  track-append false c (begin _ ∷ xs) ys h = track-append true c xs ys h
  track-append true c (part_data _ ∷ xs) ys h = track-append true c xs ys h
  track-append true c (MultipartEvent.end ∷ xs) ys h = track-append false c xs ys h
  track-append false c (raw ∷ xs) ys h = track-append false c xs ys h
  track-append _ c (_ ∷ _) ys h = cc

  -- The events of a call, and the parser behind it.
  pub record IsTracked (inside : Bool) (r : List (MultipartEvent D) × MultipartParser)
      : Type 0 where
    pub tracked : track inside r.0 ≡ some (is_inside r.1)
    pub pending : PendingInBody r.1

-- What a new parser is like.
pub record IsNew (p : MultipartParser) : Type 0 where
  pub pending : PendingInBody p
  pub outside : is_inside p ≡ false
  pub token : 0 < length p.dash_boundary
  pub unfinished : p.eof_received ≡ false

pub new-IsNew :
    (boundary : Bytes) (max_size : Option ℕ) (max_count max_line : ℕ) (max_total : Option ℕ)
    (p : MultipartParser)
    → new boundary max_size max_count max_line max_total ≡ ok p
    → IsNew p
unfolding new
new-IsNew boundary max_size max_count max_line max_total p h =
    elim (Bool-cases (length boundary == 0 || ltb max_boundary_length (length boundary))) [
      | inl e ↦ absurd (err-not_ok (rw e at h))
      | inr e ↦
          rw (ok-injective (rw e at h))
            (record { pending = λ c. cc; outside = refl; token = omega arith; unfinished = refl })
    ]
