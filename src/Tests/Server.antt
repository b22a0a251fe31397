-- ===== src/Tests/Server.antt =====
-- The server: timers, connections, replies, packets and the pool of threads.
use net_frame.Common.{ℕ, ◌≡◌, ◌≤◌, ◌⊎◌, refl, List, [], ◌∷◌, ◌++◌, arith}
use net_frame.Server.Pool.{
  Stat, running, stopping, Worker, serving, executing, draining, ended, World, nobody, Reach, here,
  then_step, created, starts, adds, stops, runs, start, begin_stop, runner,
}
use net_frame.Server.Pool.Order.{IsInOrder, Reach-created-IsInOrder}
use net_frame.Server.Pool.Counts.{count, leaves, serves, waits}
use net_frame.Server.Pool.Awake.{Reach-awake}
use net_frame.Server.Pool.Stopped.{Reach-stopped}

abbrev world : Stat → List ℕ → List ℕ → List Worker → List ℕ → List ℕ → World
world stat queue taken threads on_time late = record {
  pool = record { stat = stat; size = 1; queue = queue; taken = taken; threads = threads };
  on_time = on_time;
  late = late;
}

-- A task is added, taken and run while the pool is stopped, and another comes too late.
with_task : Reach (created 1) (world running (7 ∷ []) [] (serving ∷ []) (7 ∷ []) [])
unfolding start
with_task =
    then_step (created 1) (world running [] [] (serving ∷ []) [] []) _
      (then_step (created 1) (created 1) _ (here (created 1)) (starts (created 1)))
      (adds 7 (serving ∷ []) (world running [] [] (serving ∷ []) [] [])
        (nobody (serving ∷ []) refl))

stopping_run : Reach (created 1) (world stopping [] (7 ∷ []) (draining ∷ []) (7 ∷ []) [])
unfolding begin_stop runner
stopping_run =
    then_step _ (world stopping [] (7 ∷ []) (serving ∷ []) (7 ∷ []) []) _
      (then_step _ (world stopping [] (7 ∷ []) (executing 7 ∷ []) (7 ∷ []) []) _
        (then_step _ (world running [] (7 ∷ []) (executing 7 ∷ []) (7 ∷ []) []) _
          (then_step _ _ _ with_task
            (runs [] [] serving (world running (7 ∷ []) [] (serving ∷ []) (7 ∷ []) []) refl))
          (stops (world running [] (7 ∷ []) (executing 7 ∷ []) (7 ∷ []) [])))
        (runs [] [] (executing 7) (world stopping [] (7 ∷ []) (executing 7 ∷ []) (7 ∷ []) []) refl))
      (runs [] [] serving (world stopping [] (7 ∷ []) (serving ∷ []) (7 ∷ []) []) refl)

stopped_run : Reach (created 1) (world stopping (9 ∷ []) (7 ∷ []) (ended ∷ []) (7 ∷ []) (9 ∷ []))
unfolding runner
stopped_run =
    then_step _ (world stopping [] (7 ∷ []) (ended ∷ []) (7 ∷ []) []) _
      (then_step _ _ _ stopping_run
        (runs [] [] draining (world stopping [] (7 ∷ []) (draining ∷ []) (7 ∷ []) []) refl))
      (adds 9 (ended ∷ []) (world stopping [] (7 ∷ []) (ended ∷ []) (7 ∷ []) [])
        (nobody (ended ∷ []) refl))

Reach-created-IsInOrder_example :
    IsInOrder (world stopping (9 ∷ []) (7 ∷ []) (ended ∷ []) (7 ∷ []) (9 ∷ []))
Reach-created-IsInOrder_example = Reach-created-IsInOrder stopped_run

Reach-awake_example :
    (count leaves (serving ∷ []) ≡ 0)
    × ((1 ≤ count serves (serving ∷ [])) ⊎ (count waits (serving ∷ []) ≡ 0))
Reach-awake_example = Reach-awake with_task refl

Reach-stopped_example : (x : List ℕ) × ((9 ∷ []) ≡ x ++ 9 ∷ []) × ((7 ∷ []) ≡ (7 ∷ []) ++ x)
Reach-stopped_example = Reach-stopped stopped_run refl (omega arith)
