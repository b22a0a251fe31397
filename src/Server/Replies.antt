-- ===== src/Server/Replies.antt =====
-- The replies of the server to the requests of a connection (src/handler/http_server_handler.cc): they may
-- be given in any order, and go out in that of the requests. The timers of the handler and what the
-- user's handler does with a request are left out.
pub mod Numbers
pub mod Exchange
pub mod Order
pub mod Wire
use net_frame.Common.{ℕ, zero, suc, ◌==◌, ltb, Bool, true, false, List, [], ◌∷◌, if◌then◌else◌}

-- `HttpServerHandler` with its connection. `waiting` is `_ResponsePacketPtrMap` in the order of its keys.
pub record HttpServerHandler (P C : Type 0) : Type 0 where
  pub recv_no : ℕ
  pub send_no : ℕ
  pub keep_alive : Bool
  pub waiting : List (ℕ × P)
  pub connection : C

-- `_ResponsePacketPtrMap[sn] = packet`
abbrev pub put_reply {ℓ} : {P : Type ℓ} → ℕ → P → List (ℕ × P) → List (ℕ × P)
put_reply sn p [] = (sn, p) ∷ []
put_reply sn p ((n, q) ∷ ws) =
    let rest = put_reply sn p ws in
    if ltb sn n then (sn, p) ∷ (n, q) ∷ ws else (if n == sn then (sn, p) ∷ ws else (n, q) ∷ rest)

-- `Process` of a packet, before the user's handler: the number that the request gets.
unfoldable pub receive : {P C : Type 0} → Bool → HttpServerHandler P C → ℕ × HttpServerHandler P C
receive is_keep_alive h =
    (h.recv_no, record h { recv_no = suc h.recv_no; keep_alive = is_keep_alive })

-- `send` is `SendPacketWithoutLock` of the connection, `ask_close` its `SetCloseAfterAllPacketSent(true)`.
module _ {P C : Type 0} (send : P → C → C × Bool) (ask_close : C → C) where
  abbrev pub sent_next : P → HttpServerHandler P C → HttpServerHandler P C
  sent_next p h = record h { connection = (send p h.connection).0; send_no = suc h.send_no }

  abbrev pub sent_in_vain : P → HttpServerHandler P C → HttpServerHandler P C
  sent_in_vain p h = record h { connection = (send p h.connection).0 }

  -- The loop over the map.
  unfoldable pub send_waiting : List (ℕ × P) → HttpServerHandler P C → HttpServerHandler P C × Bool
  send_waiting [] h = (record h { waiting = [] }, true)
  send_waiting ((n, p) ∷ ws) h =
      let rest = send_waiting ws (sent_next p h) in
      if n == h.send_no
      then (if (send p h.connection).1
          then rest
          else (record (sent_in_vain p h) { waiting = ws }, false))
      else (record h { waiting = (n, p) ∷ ws }, true)

  abbrev pub mark_close : HttpServerHandler P C → HttpServerHandler P C
  mark_close h = if h.keep_alive then h else record h { connection = ask_close h.connection }

  unfoldable pub reply_marked : ℕ → P → HttpServerHandler P C → HttpServerHandler P C × Bool
  unfolding send_waiting
  reply_marked sn p h =
      if h.send_no == sn
      then (if (send p h.connection).1
          then send_waiting h.waiting (sent_next p h)
          else (sent_in_vain p h, false))
      else (record h { waiting = put_reply sn p h.waiting }, true)

  unfoldable pub reply : ℕ → P → HttpServerHandler P C → HttpServerHandler P C × Bool
  unfolding reply_marked
  reply sn p h = reply_marked sn p (mark_close h)
