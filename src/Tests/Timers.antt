-- ===== src/Tests/Timers.antt =====
-- The timer and the connection of the server.
use net_frame.Common.{◌+◌, ℕ, ◌≡◌, ◌≢◌, refl, true, false, none, some, [], ◌∷◌, inr, arith}
use net_frame.Common.Int.{pos}
use net_frame.Server.Timer.{
  TimeMap, push_item, Timer, holds, add_time_item, delete_time_item, get_net_expire_time,
}
use net_frame.Server.Timer.Wake.{
  Clocked, tick, add, Reach, here, next, new_timer, started, IsInTime, get_net_expire_time-IsInTime,
}
use net_frame.Server.Timer.Run.{IsProcessed, add_time_item-Spares, process-IsProcessed}
use net_frame.Server.Timer.Delete.{delete-add_time_item}
use net_frame.Server.Connection.{
  connected, wrote, again, failed, all_sent, write_blob, send_packet, do_write,
}
use net_frame.Server.Connection.Stream.{stream, Run, begin, accept, write, Run-stream}
use net_frame.Server.Connection.Torn.{opened, send_packet-torn}
use net_frame.Server.Connection.Closing.{write_each, write_each-send_packet}

abbrev two_added : Clocked
two_added = record {
  timer = add_time_item 1000 5 (pos 300) (add_time_item 1000 4 (pos 200) new_timer);
  clock = 1000 + 50;
  processing = none;
}

two_added-Reach : Reach (started 1000) two_added
two_added-Reach =
    next (next (next here (add 4 (pos 200) (omega arith))) (add 5 (pos 300) (omega arith)))
      (tick 50)

get_net_expire_time-IsInTime_example :
    IsInTime 1050 two_added.timer.time_map (get_net_expire_time 1050 two_added.timer)
unfolding add_time_item
get_net_expire_time-IsInTime_example =
    get_net_expire_time-IsInTime 1000 (omega arith) two_added-Reach (inr (omega arith))

abbrev two_times : Timer
two_times = record {
  time_map = (100, 1 ∷ 2 ∷ []) ∷ (300, 3 ∷ []) ∷ [];
  net_expire = 100;
  times = λ i. 0;
}

-- Each callback adds its item again, for 50 ms later.
abbrev again_later : ℕ → Timer → Timer
again_later i t = add_time_item 200 i (pos 50) t

push_item_some : (e i : ℕ) (m : TimeMap) → push_item e i m ≢ []
unfolding push_item
push_item_some e i [] h = cc
push_item_some e i ((k, is) ∷ m) h = ground arith

process-IsProcessed_example : IsProcessed 6 200 (λ m. m ≢ []) again_later two_times
process-IsProcessed_example =
    process-IsProcessed 200 (λ m. m ≢ []) again_later
      (λ i t.
        add_time_item-Spares 200 200 i (pos 50) (λ m. m ≢ []) t (omega arith)
          (λ m h. push_item_some 250 i m))
      6 two_times (300, (omega arith, omega arith, (omega arith, omega arith, tt))) (λ e. cc)
      (omega arith)

delete-add_time_item_example :
    let (t, found) = delete_time_item 9 (add_time_item 50 9 (pos 50) two_times) in
    (found ≡ true) × (t.time_map ≡ two_times.time_map) × (t.times 9 ≡ 0)
unfolding holds
delete-add_time_item_example =
    delete-add_time_item 300 50 9 (pos 50) two_times
      (record {
        rising = (omega arith, omega arith, (omega arith, omega arith, tt));
        due = (omega arith, omega arith);
      })
      tt refl

-- A packet of which a part waits, and one behind it.
sent_two :
    let first = (send_packet (some (1 ∷ 2 ∷ 3 ∷ [])) (wrote 2 ∷ again ∷ []) (opened [] false)).0 in
    let second = (send_packet (some (4 ∷ [])) [] first).0 in
    Run (opened [] false) (1 ∷ 2 ∷ 3 ∷ 4 ∷ []) (do_write true (wrote 1 ∷ again ∷ []) second).0
unfolding send_packet
sent_two =
    write true (wrote 1 ∷ again ∷ [])
      (accept (4 ∷ []) [] (accept (1 ∷ 2 ∷ 3 ∷ []) (wrote 2 ∷ again ∷ []) begin refl) refl)

Run-stream_example :
    let first = (send_packet (some (1 ∷ 2 ∷ 3 ∷ [])) (wrote 2 ∷ again ∷ []) (opened [] false)).0 in
    let second = (send_packet (some (4 ∷ [])) [] first).0 in
    stream (do_write true (wrote 1 ∷ again ∷ []) second).0 ≡ 1 ∷ 2 ∷ 3 ∷ 4 ∷ []
Run-stream_example = Run-stream sent_two

send_packet-torn_example :
    let (torn, ok) =
      send_packet (some (1 ∷ 2 ∷ 3 ∷ [])) (wrote 2 ∷ failed ∷ []) (opened [] false) in
    (ok ≡ false) × (torn.state ≡ connected) × (stream torn ≡ 1 ∷ 2 ∷ [])
send_packet-torn_example = send_packet-torn 2 (1 ∷ 2 ∷ 3 ∷ []) [] [] false (omega arith) begin

all_at_once : (write_blob (1 ∷ 2 ∷ []) (wrote 2 ∷ [])).status ≡ all_sent
unfolding write_blob
all_at_once = refl

write_each-send_packet_example :
    (write_each
      ([] ∷ [] ∷ [])
      (send_packet (some (1 ∷ 2 ∷ [])) (wrote 2 ∷ []) (opened [] true)).0).state
    ≡ connected
write_each-send_packet_example =
    write_each-send_packet (1 ∷ 2 ∷ []) [] (wrote 2 ∷ []) true ([] ∷ [] ∷ []) all_at_once
