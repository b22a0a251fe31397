-- ===== src/Session/Lock/Kept.antt =====
-- The lock `window.inAction` (resource/js/slides.js): what keeps it and its callbacks in order.
use net_frame.Common.{
  ℕ, ◌+◌, ◌≡◌, refl, ◌⊎◌, inl, inr, Bool, true, false, Option, none, some, List, ◌∷◌, arith,
}
use net_frame.Page.{Timer, Task}
use net_frame.Page.Timers.{without, drop_timer}
use net_frame.Session.Lock.{
  is_unlock, unlocks, unlocks_at, is_safe, all_below, are_apart, is_past, IsOrdered, IsTimed,
  all_below-suc, not-has_handle, unlocks_at-has_handle, unlocks-drop_timer, all_below-drop_timer,
  are_apart-drop_timer, is_safe-drop_timer, is_safe-cons, is_past-suc,
}

module _ {n : ℕ} {ts : List Timer} {r k e : Option ℕ} where
  set_timeout-IsOrdered :
      (delay : ℕ) (task : Task)
      → IsOrdered n ts r k e
      → IsOrdered (n + 1) (record { handle = n; delay = delay; task = task } ∷ ts) r k e
  unfolding all_below are_apart
  set_timeout-IsOrdered delay task v =
      let t : Timer = record { handle = n; delay = delay; task = task } in
      record {
        fresh = ground (arith, all_below-suc n ts v.fresh);
        apart = ground (arith, not-has_handle n ts v.fresh, v.apart);
        safe_removal = is_safe-cons r n t ts refl v.past_removal v.safe_removal;
        safe_cleanup = is_safe-cons k n t ts refl v.past_cleanup v.safe_cleanup;
        safe_animation = is_safe-cons e n t ts refl v.past_animation v.safe_animation;
        past_removal = is_past-suc r n v.past_removal;
        past_cleanup = is_past-suc k n v.past_cleanup;
        past_animation = is_past-suc e n v.past_animation;
      }

  pub drop_timer-IsOrdered : (h : ℕ) → IsOrdered n ts r k e → IsOrdered n (drop_timer h ts) r k e
  drop_timer-IsOrdered h v = record {
    fresh = all_below-drop_timer n h ts v.fresh;
    apart = are_apart-drop_timer h ts v.apart;
    safe_removal = is_safe-drop_timer r h ts v.safe_removal;
    safe_cleanup = is_safe-drop_timer k h ts v.safe_cleanup;
    safe_animation = is_safe-drop_timer e h ts v.safe_animation;
    past_removal = v.past_removal;
    past_cleanup = v.past_cleanup;
    past_animation = v.past_animation;
  }

  -- The handle that was given last, to a callback that is not for the lock.
  last_is_safe :
      (delay : ℕ) (task : Task)
      → IsOrdered n ts r k e
      → is_unlock task ≡ false
      → is_safe (some n) (record { handle = n; delay = delay; task = task } ∷ ts) ≡ true
  unfolding unlocks_at
  last_is_safe delay task v other =
      ground (arith, unlocks_at-has_handle n ts (not-has_handle n ts v.fresh))

  pub unlock-IsTimed :
      (waived locked loaded : Bool) (delay : ℕ) (task : Task)
      → is_unlock task ≡ true
      → IsOrdered n ts r k e
      → IsTimed waived locked loaded
          (n + 1)
          (record { handle = n; delay = delay; task = task } ∷ ts)
          r
          k
          e
  unfolding unlocks
  unlock-IsTimed waived locked loaded delay task frees v = record {
    released = inr (inr (inr (ground arith)));
    ordered = set_timeout-IsOrdered delay task v;
  }

-- A stored handle stays, or becomes the one that was given last.
abbrev IsStored : ℕ → Option ℕ → Option ℕ → Type 0
IsStored n o o' = (o' ≡ o) ⊎ (o' ≡ some n)

stored_safe :
    (n : ℕ) (o o' : Option ℕ) (ts : List Timer)
    → IsStored n o o'
    → is_safe o ts ≡ true
    → is_safe (some n) ts ≡ true
    → is_safe o' ts ≡ true
stored_safe n o o' ts (inl e) old new = rw e old
stored_safe n o o' ts (inr e) old new = rw e new

stored_past :
    (n : ℕ) (o o' : Option ℕ)
    → IsStored n o o'
    → is_past o (n + 1) ≡ true
    → is_past o' (n + 1) ≡ true
stored_past n o o' (inl e) old = rw e old
stored_past n o o' (inr e) old = rw e (ground arith)

module _ {x a l : Bool} {n : ℕ} {ts : List Timer} {r k e : Option ℕ} where
  pub set_timeout-IsTimed :
      (delay : ℕ) (task : Task)
      → IsTimed x a l n ts r k e
      → IsTimed x a l (n + 1) (record { handle = n; delay = delay; task = task } ∷ ts) r k e
  unfolding unlocks
  set_timeout-IsTimed delay task v = record {
    released = ground (arith, v.released);
    ordered = set_timeout-IsOrdered delay task v.ordered;
  }

  store-IsTimed :
      (delay : ℕ) (task : Task) (r' k' e' : Option ℕ)
      → is_unlock task ≡ false
      → IsTimed x a l n ts r k e
      → IsStored n r r'
      → IsStored n k k'
      → IsStored n e e'
      → IsTimed x a l (n + 1) (record { handle = n; delay = delay; task = task } ∷ ts) r' k' e'
  store-IsTimed delay task r' k' e' other v in_r in_k in_e =
      let w = set_timeout-IsTimed delay task v in
      let safe = last_is_safe delay task v.ordered other in
      record {
        released = w.released;
        ordered = record {
          fresh = w.ordered.fresh;
          apart = w.ordered.apart;
          safe_removal = stored_safe n r r' _ in_r w.ordered.safe_removal safe;
          safe_cleanup = stored_safe n k k' _ in_k w.ordered.safe_cleanup safe;
          safe_animation = stored_safe n e e' _ in_e w.ordered.safe_animation safe;
          past_removal = stored_past n r r' in_r w.ordered.past_removal;
          past_cleanup = stored_past n k k' in_k w.ordered.past_cleanup;
          past_animation = stored_past n e e' in_e w.ordered.past_animation;
        };
      }

  pub store_removal-IsTimed :
      (delay : ℕ) (task : Task)
      → is_unlock task ≡ false
      → IsTimed x a l n ts r k e
      → IsTimed x a l (n + 1) (record { handle = n; delay = delay; task = task } ∷ ts) (some n) k e
  store_removal-IsTimed delay task other v =
      store-IsTimed delay task (some n) k e other v (inr refl) (inl refl) (inl refl)

  pub store_cleanup-IsTimed :
      (delay : ℕ) (task : Task)
      → is_unlock task ≡ false
      → IsTimed x a l n ts r k e
      → IsTimed x a l (n + 1) (record { handle = n; delay = delay; task = task } ∷ ts) r (some n) e
  store_cleanup-IsTimed delay task other v =
      store-IsTimed delay task r (some n) e other v (inl refl) (inr refl) (inl refl)

  pub store_animation-IsTimed :
      (delay : ℕ) (task : Task)
      → is_unlock task ≡ false
      → IsTimed x a l n ts r k e
      → IsTimed x a l (n + 1) (record { handle = n; delay = delay; task = task } ∷ ts) r k (some n)
  store_animation-IsTimed delay task other v =
      store-IsTimed delay task r k (some n) other v (inl refl) (inl refl) (inr refl)

  pub drop_timer-IsTimed :
      (h : ℕ)
      → unlocks_at h ts ≡ false
      → IsTimed x a l n ts r k e
      → IsTimed x a l n (drop_timer h ts) r k e
  drop_timer-IsTimed h other v = record {
    released = rw (unlocks-drop_timer h ts other) v.released;
    ordered = drop_timer-IsOrdered h v.ordered;
  }

  pub without-IsTimed :
      (o : Option ℕ)
      → is_safe o ts ≡ true
      → IsTimed x a l n ts r k e
      → IsTimed x a l n (without o ts) r k e
  unfolding without
  without-IsTimed none safe v = v
  without-IsTimed (some h) safe v = drop_timer-IsTimed h (ground arith) v
