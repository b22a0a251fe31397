-- ===== src/Server/Pool/Sections.antt =====
-- What one section of `Runner` does to its thread and to the queue (src/thread/thread_pool.cc).
use net_frame.Common.{
  ℕ, ◌+◌, ◌≡◌, ◌≤◌, ◌⊎◌, refl, ap, true, false, List, [], ◌∷◌, inl, inr, arith, length,
}
use net_frame.Server.Pool.{
  Worker, serving, waiting, executing, draining, finishing, ended, Pool, is_running, serve, drain,
  runner,
}
use net_frame.Server.Pool.Counts.{waits, serves, leaves}

-- A section of a pool that runs.
pub record IsServed (r s : Worker) (p q : Pool) : Type 0 where
  pub stays : leaves s ≡ 0
  pub kept :
      ((serves r + length q.queue ≤ serves s + length p.queue) × (waits s ≡ waits r))
      ⊎ (length q.queue ≡ 0)

pub serve-IsServed :
    (ts : List ℕ) (p : Pool)
    → p.queue ≡ ts
    → is_running p.stat ≡ true
    → IsServed serving (serve ts p).0 p (serve ts p).1
serve-IsServed [] p e on = rw on (record { stays = refl; kept = inr (ap length e) })
serve-IsServed (t ∷ ts) p e on =
    rw on (record { stays = refl; kept = inl (omega (arith, ap length e), refl) })

pub runner-IsServed :
    (r : Worker) (p : Pool)
    → is_running p.stat ≡ true
    → leaves r ≡ 0
    → IsServed r (runner r p).0 p (runner r p).1
unfolding runner
runner-IsServed serving p on in_loop = serve-IsServed p.queue p refl on
runner-IsServed waiting p on in_loop = record { stays = refl; kept = inl (omega arith, refl) }
runner-IsServed (executing t) p on in_loop = record { stays = refl; kept = inl (omega arith, refl) }
runner-IsServed draining p on in_loop = omega (arith, in_loop)
runner-IsServed (finishing t) p on in_loop = omega (arith, in_loop)
runner-IsServed ended p on in_loop = omega (arith, in_loop)

pub serve-waits : (ts : List ℕ) (p : Pool) → is_running p.stat ≡ false → waits (serve ts p).0 ≡ 0
serve-waits [] p off = rw off refl
serve-waits (t ∷ ts) p off = rw off refl

pub drain-waits : (ts : List ℕ) (p : Pool) → waits (drain ts p).0 ≡ 0
drain-waits [] p = refl
drain-waits (t ∷ ts) p = refl

pub runner-waits :
    (r : Worker) (p : Pool) → is_running p.stat ≡ false → waits (runner r p).0 ≡ waits r
unfolding runner
runner-waits serving p off = serve-waits p.queue p off
runner-waits waiting p off = refl
runner-waits (executing t) p off = refl
runner-waits draining p off = drain-waits p.queue p
runner-waits (finishing t) p off = refl
runner-waits ended p off = refl
