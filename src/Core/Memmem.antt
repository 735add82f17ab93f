-- ===== src/Core/Memmem.antt =====
-- The searches of the memchr crate, by their documented behaviour: each returns the index of the
-- first occurrence, or nothing if there is none. The crate is not part of the repository, so the
-- parser takes them as an argument.
pub mod Naive
use django_fast_multipart.Base.{
  ℕ, ◌≤◌, ◌<◌, true, false, ◌≡◌, Option, none, some, [], ◌∷◌, Bytes, starts_with, drop, length,
}

-- `needle` stands in `hay` at `i`.
abbrev pub OccursAt : Bytes → Bytes → ℕ → Type 0
OccursAt hay needle i = (i ≤ length hay) × (starts_with (drop i hay) needle ≡ true)

pub record Memmem : Type 0 where
  -- `memmem::find(haystack, needle)`, and `Finder::find`
  pub find : Bytes → Bytes → Option ℕ
  -- `memchr::memchr(needle, haystack)`
  pub memchr : ℕ → Bytes → Option ℕ
  pub find-OccursAt :
      (hay needle : Bytes) {i : ℕ} → find hay needle ≡ some i → OccursAt hay needle i
  pub find_first :
      (hay needle : Bytes) {i : ℕ} (j : ℕ)
      → find hay needle ≡ some i
      → j < i
      → starts_with (drop j hay) needle ≡ false
  pub find_none :
      (hay needle : Bytes) (j : ℕ)
      → find hay needle ≡ none
      → j ≤ length hay
      → starts_with (drop j hay) needle ≡ false
  pub memchr-OccursAt :
      (byte : ℕ) (hay : Bytes) {i : ℕ} → memchr byte hay ≡ some i → OccursAt hay (byte ∷ []) i
  pub memchr_first :
      (byte : ℕ) (hay : Bytes) {i : ℕ} (j : ℕ)
      → memchr byte hay ≡ some i
      → j < i
      → starts_with (drop j hay) (byte ∷ []) ≡ false
  pub memchr_none :
      (byte : ℕ) (hay : Bytes) (j : ℕ)
      → memchr byte hay ≡ none
      → j ≤ length hay
      → starts_with (drop j hay) (byte ∷ []) ≡ false
