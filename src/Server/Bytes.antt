-- ===== src/Server/Bytes.antt =====
-- Byte strings (`std::string`), and a `std::map` from them.
use Prim.Native.Char.{code}
use Prim.Native.String.{String}
use net_frame.Common.{
  ℕ, ◌+◌, ◌≡◌, refl, ◌↔◌, Bool, true, false, ◌&&◌, Option, none, some, List, [], ◌∷◌, ◌++◌, map,
  ◌==◌, ltb, leb, if◌then◌else◌, arith, length,
}

abbrev pub Bytes : Type 0
Bytes = List ℕ

-- The bytes of a literal.
abbrev pub codes : String → Bytes
codes String.[] = []
codes (String.◌∷◌ c s) = code c ∷ codes s

abbrev pub is_empty : Bytes → Bool
is_empty [] = true
is_empty (b ∷ bs) = false

unfoldable pub bytes_eq : Bytes → Bytes → Bool
bytes_eq [] [] = true
bytes_eq [] (c ∷ cs) = false
bytes_eq (b ∷ bs) [] = false
bytes_eq (b ∷ bs) (c ∷ cs) = b == c && bytes_eq bs cs

pub bytes_eq_sound : (bs cs : Bytes) → bytes_eq bs cs ≡ true → bs ≡ cs
unfolding bytes_eq
bytes_eq_sound [] [] h = refl
bytes_eq_sound [] (c ∷ cs) h = cc
bytes_eq_sound (b ∷ bs) [] h = cc
bytes_eq_sound (b ∷ bs) (c ∷ cs) h = ground (arith, bytes_eq_sound bs cs)

pub bytes_eq_refl : (bs : Bytes) → bytes_eq bs bs ≡ true
unfolding bytes_eq
bytes_eq_refl [] = refl
bytes_eq_refl (b ∷ bs) = ground (arith, bytes_eq_refl bs)

-- The order of `std::string`.
unfoldable pub bytes_lt : Bytes → Bytes → Bool
bytes_lt bs [] = false
bytes_lt [] (c ∷ cs) = true
bytes_lt (b ∷ bs) (c ∷ cs) = if ltb b c then true else b == c && bytes_lt bs cs

-- `tolower` in the "C" locale.
unfoldable pub lower_byte : ℕ → ℕ
lower_byte b = if leb b'A' b && leb b b'Z' then b + 32 else b

unfoldable pub to_lower : Bytes → Bytes
to_lower = map lower_byte

-- A `std::map`, by its keys in their order.
abbrev pub Headers : Type 0
Headers = List (Bytes × Bytes)

-- `map[key] = value`
unfoldable pub put : Bytes → Bytes → Headers → Headers
unfolding bytes_lt bytes_eq
put k v [] = (k, v) ∷ []
put k v ((j, w) ∷ m) =
    let rest = put k v m in
    if bytes_lt k j
    then (k, v) ∷ (j, w) ∷ m
    else (if bytes_eq j k then (k, v) ∷ m else (j, w) ∷ rest)

-- `find(key)`
unfoldable pub lookup : Bytes → Headers → Option Bytes
unfolding bytes_eq
lookup k [] = none
lookup k ((j, v) ∷ m) = if bytes_eq j k then some v else lookup k m

pub bytes_eq_iff : (bs cs : Bytes) → (bytes_eq bs cs ≡ true) ↔ (bs ≡ cs)
bytes_eq_iff bs cs = (bytes_eq_sound bs cs, λ e. rw e (bytes_eq_refl cs))

pub lookup-put :
    (k j v : Bytes) (m : Headers)
    → lookup j (put k v m) ≡ (if bytes_eq k j then some v else lookup j m)
unfolding lookup put
lookup-put k j v [] = refl
lookup-put k j v ((i, w) ∷ m) =
    ground (arith, bytes_eq_iff k j, bytes_eq_iff i k, bytes_eq_iff i j, lookup-put k j v m)

pub length-append : (bs cs : Bytes) → length (bs ++ cs) ≡ length bs + length cs
length-append [] cs = omega arith
length-append (b ∷ bs) cs = omega (arith, length-append bs cs)
