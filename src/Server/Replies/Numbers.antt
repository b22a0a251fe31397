-- ===== src/Server/Replies/Numbers.antt =====
-- The numbers of the replies that were given and of those that wait (src/handler/http_server_handler.cc).
use net_frame.Common.{
  ℕ, suc, ◌≡◌, ◌≤◌, ◌<◌, refl, Bool, true, false, ◌||◌, List, [], ◌∷◌, arith, ◌==◌, ltb,
}
use net_frame.Server.Replies.{put_reply}

-- The numbers are rising, from above `n`.
abbrev pub IsAbove : {P : Type 0} → ℕ → List (ℕ × P) → Type 0
IsAbove n [] = Unit {0}
IsAbove n ((k, p) ∷ ws) = (n < k) × IsAbove k ws

abbrev pub has_key : {P : Type 0} → ℕ → List (ℕ × P) → Bool
has_key k [] = false
has_key k ((n, p) ∷ ws) = n == k || has_key k ws

abbrev pub has : ℕ → List ℕ → Bool
has k [] = false
has k (n ∷ ns) = n == k || has k ns

-- No number is twice in the list.
abbrev pub AreFresh : List ℕ → Type 0
AreFresh [] = Unit {0}
AreFresh (n ∷ ns) = (has n ns ≡ false) × AreFresh ns

pub put_reply-IsAbove :
    {P : Type 0} (n sn : ℕ) (p : P) (ws : List (ℕ × P))
    → n < sn
    → IsAbove n ws
    → IsAbove n (put_reply sn p ws)
put_reply-IsAbove n sn p [] lower above = (lower, above)
put_reply-IsAbove n sn p ((k, q) ∷ ws) lower (first, above) =
    ground (arith, put_reply-IsAbove k sn p ws)

pub has_key-put_reply :
    {P : Type 0} (k sn : ℕ) (p : P) (ws : List (ℕ × P))
    → has_key k (put_reply sn p ws) ≡ (sn == k || has_key k ws)
has_key-put_reply k sn p [] = refl
has_key-put_reply k sn p ((n, q) ∷ ws) = ground (arith, has_key-put_reply k sn p ws)

pub has_key-above :
    {P : Type 0} (k n : ℕ) (ws : List (ℕ × P)) → IsAbove n ws → k ≤ n → has_key k ws ≡ false
has_key-above k n [] above low = refl
has_key-above k n ((j, p) ∷ ws) (first, above) low = ground (arith, has_key-above k j ws above)

pub kept_key :
    {P : Type 0} (p : P) (j k n : ℕ) (ws : List (ℕ × P))
    → (ltb j n || has_key j ws) ≡ true
    → (ltb j n || has_key j ((k, p) ∷ ws)) ≡ true
kept_key p j k n ws t = ground arith

pub shifted :
    {P : Type 0} (p : P) (j k n : ℕ) (ws : List (ℕ × P))
    → k ≡ n
    → (ltb j (suc n) || has_key j ws) ≡ true
    → (ltb j n || has_key j ((k, p) ∷ ws)) ≡ true
shifted p j k n ws e t = ground arith

pub shifted_back :
    {P : Type 0} (p : P) (j k n : ℕ) (ws : List (ℕ × P))
    → k ≡ n
    → (ltb j n || has_key j ((k, p) ∷ ws)) ≡ true
    → (ltb j (suc n) || has_key j ws) ≡ true
shifted_back p j k n ws e t = ground arith

pub has-cons : (j sn : ℕ) (rs : List ℕ) → has j rs ≡ true → has j (sn ∷ rs) ≡ true
has-cons j sn rs t = ground arith

pub both_absurd : {b : Bool} {A : Type 0} → b ≡ false → b ≡ true → A
both_absurd f t = cc

pub new_given :
    {P : Type 0} (j sn n : ℕ) (ws : List (ℕ × P)) (rs : List ℕ)
    → n ≡ sn
    → ((ltb j n || has_key j ws) ≡ true → has j rs ≡ true)
    → (ltb j (suc n) || has_key j ws) ≡ true
    → has j (sn ∷ rs) ≡ true
new_given j sn n ws rs e given t = ground arith

pub new_all :
    {P : Type 0} (j sn n : ℕ) (ws : List (ℕ × P)) (rs : List ℕ)
    → n ≡ sn
    → (has j rs ≡ true → (ltb j n || has_key j ws) ≡ true)
    → has j (sn ∷ rs) ≡ true
    → (ltb j (suc n) || has_key j ws) ≡ true
new_all j sn n ws rs e every t = ground arith

pub not_sent :
    {P : Type 0} (sn n : ℕ) (ws : List (ℕ × P)) (rs : List ℕ)
    → (n == sn) ≡ false
    → has sn rs ≡ false
    → ((ltb sn n || has_key sn ws) ≡ true → has sn rs ≡ true)
    → n < sn
not_sent sn n ws rs other fresh given = ground arith

pub waits_given :
    {P : Type 0} (j sn n : ℕ) (p : P) (ws : List (ℕ × P)) (rs : List ℕ)
    → ((ltb j n || has_key j ws) ≡ true → has j rs ≡ true)
    → (ltb j n || has_key j (put_reply sn p ws)) ≡ true
    → has j (sn ∷ rs) ≡ true
waits_given j sn n p ws rs given t = ground (arith, has_key-put_reply j sn p ws)

pub waits_all :
    {P : Type 0} (j sn n : ℕ) (p : P) (ws : List (ℕ × P)) (rs : List ℕ)
    → (has j rs ≡ true → (ltb j n || has_key j ws) ≡ true)
    → has j (sn ∷ rs) ≡ true
    → (ltb j n || has_key j (put_reply sn p ws)) ≡ true
waits_all j sn n p ws rs every t = ground (arith, has_key-put_reply j sn p ws)
