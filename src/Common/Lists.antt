-- ===== src/Common/Lists.antt =====
-- Lists measured and indexed by native numbers. A jQuery collection of the page is a list in the
-- order of the document, and a chained update of some of its elements is `update_where`.
use Prim.Native.Nat.{ℕ, zero, suc, ◌+◌, ◌<◌}
use mathlib.Core.Path.{◌≡◌, refl, ap}
use mathlib.Core.Bool.{Bool, true, false, ◌||◌}
use mathlib.Core.List.{List, [], ◌∷◌}
use mathlib.Core.Option.{Option, none, some}
use mathlib.Core.Option
use native.Mathlib.Nat.{add-zero, zero-add, add-suc, suc-add}
use native.Mathlib.Omega.{arith}
use net_frame.Common.Tests.{◌==◌, if◌then◌else◌}

module _ {ℓ} {A : Type ℓ} where
  abbrev pub length : List A → ℕ
  length [] = 0
  length (x ∷ xs) = suc (length xs)

  abbrev pub get_elem? : List A → ℕ → Option A
  get_elem? [] i = none
  get_elem? (x ∷ xs) zero = some x
  get_elem? (x ∷ xs) (suc i) = get_elem? xs i

  -- The elements of a list from position `n` on, those that pass the test changed.
  unfoldable pub update_from : ℕ → (ℕ → A → Bool) → (A → A) → List A → List A
  update_from n test f [] = []
  update_from n test f (x ∷ xs) = (if test n x then f x else x) ∷ update_from (suc n) test f xs

  unfoldable pub update_where : (ℕ → A → Bool) → (A → A) → List A → List A
  unfolding update_from
  update_where = update_from 0

  -- The position of the first element that passes the test: `index` of a collection.
  unfoldable pub index_from : ℕ → (A → Bool) → List A → Option ℕ
  index_from n test [] = none
  index_from n test (x ∷ xs) =
      let rest = index_from (suc n) test xs in if test x then some n else rest

  unfoldable pub find_index : (A → Bool) → List A → Option ℕ
  unfolding index_from
  find_index = index_from 0

  -- The positions of all elements that pass the test: a collection that a callback keeps.
  unfoldable pub indices_from : ℕ → (A → Bool) → List A → List ℕ
  indices_from n test [] = []
  indices_from n test (x ∷ xs) =
      let rest = indices_from (suc n) test xs in if test x then n ∷ rest else rest

abbrev pub contains : ℕ → List ℕ → Bool
contains n [] = false
contains n (x ∷ xs) = n == x || contains n xs

module _ {ℓ} {A : Type ℓ} (test : ℕ → A → Bool) (f : A → A) where
  abbrev pub updated : ℕ → A → A
  updated n x = if test n x then f x else x

  get_elem?-update_from :
      (n : ℕ) (xs : List A) (i : ℕ)
      → get_elem? (update_from n test f xs) i ≡ Option.map (updated (n + i)) (get_elem? xs i)
  unfolding update_from
  get_elem?-update_from n [] i = refl
  get_elem?-update_from n (x ∷ xs) zero = rw add-zero
  get_elem?-update_from n (x ∷ xs) (suc i) =
      rw (add-suc, ← suc-add) (get_elem?-update_from (suc n) xs i)

  -- An update changes each element that passes the test, at its position, and no other.
  pub get_elem?-update_where :
      (xs : List A) (i : ℕ)
      → get_elem? (update_where test f xs) i ≡ Option.map (updated i) (get_elem? xs i)
  unfolding update_where
  get_elem?-update_where xs i = rw zero-add at (get_elem?-update_from 0 xs i)

  length-update_from : (n : ℕ) (xs : List A) → length (update_from n test f xs) ≡ length xs
  unfolding update_from
  length-update_from n [] = refl
  length-update_from n (x ∷ xs) = ap suc (length-update_from (suc n) xs)

  pub length-update_where : (xs : List A) → length (update_where test f xs) ≡ length xs
  unfolding update_where
  length-update_where xs = length-update_from 0 xs

module _ {ℓ} {A : Type ℓ} where
  pub get_elem?_lt : (xs : List A) (i : ℕ) → i < length xs → (x : A) × (get_elem? xs i ≡ some x)
  get_elem?_lt [] i h = absurd (omega arith)
  get_elem?_lt (x ∷ xs) zero h = (x, refl)
  get_elem?_lt (x ∷ xs) (suc i) h = get_elem?_lt xs i (omega arith)

  pub lt_of_get_elem? : (xs : List A) (i : ℕ) {x : A} → get_elem? xs i ≡ some x → i < length xs
  lt_of_get_elem? [] i h = cc
  lt_of_get_elem? (x ∷ xs) zero h = omega arith
  lt_of_get_elem? (x ∷ xs) (suc i) h = omega (arith, lt_of_get_elem? xs i h)

-- Where a value comes from that `Option.map` gave.
pub map-eq-some {ℓ κ} :
    {A : Type ℓ} {B : Type κ} (f : A → B) (o : Option A) {r : Option B} {b : B}
    → r ≡ Option.map f o
    → r ≡ some b
    → (a : A) × (o ≡ some a) × (f a ≡ b)
map-eq-some f none p q = cc
map-eq-some f (some a) p q = (a, refl, cc)

index_from_lt {ℓ} :
    {A : Type ℓ} (n : ℕ) (test : A → Bool) (xs : List A) {k : ℕ}
    → index_from n test xs ≡ some k
    → k < n + length xs
unfolding index_from
index_from_lt n test [] h = ground arith
index_from_lt n test (x ∷ xs) {k} h = ground (arith, index_from_lt (suc n) test xs {k = k})

-- What is found is among the elements.
pub find_index_lt {ℓ} :
    {A : Type ℓ} (test : A → Bool) (xs : List A) {k : ℕ}
    → find_index test xs ≡ some k
    → k < length xs
unfolding find_index
find_index_lt test xs h = omega (arith, index_from_lt 0 test xs h)

-- Every element that passes the test is among the positions that `indices_from` collects.
pub contains-indices_from {ℓ} :
    {A : Type ℓ} (test : A → Bool) (n i : ℕ) (xs : List A) {x : A}
    → get_elem? xs i ≡ some x
    → test x ≡ true
    → contains (n + i) (indices_from n test xs) ≡ true
unfolding indices_from
contains-indices_from test n i [] h passes = cc
contains-indices_from test n zero (y ∷ ys) h passes =
    let here : test y ≡ true = cc in rw (add-zero, here) (ground arith)
contains-indices_from test n (suc i) (y ∷ ys) h passes =
    let rest = contains-indices_from test (suc n) i ys h passes in
    rw (add-suc, ← suc-add) (ground arith)
