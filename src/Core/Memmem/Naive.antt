-- ===== src/Core/Memmem/Naive.antt =====
-- A concrete search that behaves as the memchr crate documents: the first offset that fits. It
-- shows that the laws of Core/Memmem can be met, and runs the parser in the tests.
use django_fast_multipart.Base.{
  ℕ, zero, suc, ◌≤◌, ◌<◌, false, ◌≡◌, Option, none, some, [], ◌∷◌, Bytes, starts_with, drop, length,
  if◌then◌else◌, arith,
}
use django_fast_multipart.Core.Memmem.{OccursAt, Memmem}

abbrev shift : Option ℕ → Option ℕ
shift none = none
shift (some i) = some (suc i)

unfoldable pub find_naive : Bytes → Bytes → Option ℕ
unfolding starts_with
find_naive [] needle = if starts_with [] needle then some 0 else none
find_naive (x ∷ xs) needle =
    let rest = shift (find_naive xs needle) in if starts_with (x ∷ xs) needle then some 0 else rest

pub naive-OccursAt :
    (hay needle : Bytes) {i : ℕ} → find_naive hay needle ≡ some i → OccursAt hay needle i
unfolding find_naive
naive-OccursAt [] needle {i = zero} h = ground arith
naive-OccursAt [] needle {i = suc i} h = ground arith
naive-OccursAt (x ∷ xs) needle {i = zero} h = ground arith
naive-OccursAt (x ∷ xs) needle {i = suc i} h = ground (arith, naive-OccursAt xs needle {i = i})

pub naive_first :
    (hay needle : Bytes) {i : ℕ} (j : ℕ)
    → find_naive hay needle ≡ some i
    → j < i
    → starts_with (drop j hay) needle ≡ false
unfolding find_naive
naive_first [] needle {i = zero} j h l = absurd (omega arith)
naive_first [] needle {i = suc i} j h l = ground arith
naive_first (x ∷ xs) needle {i = zero} j h l = absurd (omega arith)
naive_first (x ∷ xs) needle {i = suc i} zero h l = ground arith
naive_first (x ∷ xs) needle {i = suc i} (suc j) h l =
    ground (arith, naive_first xs needle {i = i} j)

pub naive_none :
    (hay needle : Bytes) (j : ℕ)
    → find_naive hay needle ≡ none
    → j ≤ length hay
    → starts_with (drop j hay) needle ≡ false
unfolding find_naive
naive_none [] needle zero h l = ground arith
naive_none [] needle (suc j) h l = absurd (omega arith)
naive_none (x ∷ xs) needle zero h l = ground arith
naive_none (x ∷ xs) needle (suc j) h l = ground (arith, naive_none xs needle j)

abbrev pub naive : Memmem
naive = record {
  find = find_naive;
  memchr = λ byte hay. find_naive hay (byte ∷ []);
  find-OccursAt = naive-OccursAt;
  find_first = naive_first;
  find_none = naive_none;
  memchr-OccursAt = λ byte hay. naive-OccursAt hay (byte ∷ []);
  memchr_first = λ byte hay. naive_first hay (byte ∷ []);
  memchr_none = λ byte hay. naive_none hay (byte ∷ []);
}
