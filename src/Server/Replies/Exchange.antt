-- ===== src/Server/Replies/Exchange.antt =====
-- What happens to a handler of requests and its connection (src/handler/http_server_handler.cc).
use net_frame.Common.{ℕ, suc, ◌≡◌, Bool, true, false, List, [], ◌∷◌}
use net_frame.Server.Replies.{HttpServerHandler, receive, reply}

-- What happens to a handler and its connection: a request is read, a reply to a number is given, the
-- connection does something of its own.
pub data Happening (W : Type 0) : Type 0 where
  receives : Bool → Happening W
  replies : ℕ → Happening W
  writes : W → Happening W

-- The numbers that got a reply; what happened last comes first.
abbrev pub replied_of : {W : Type 0} → List (Happening W) → List ℕ
replied_of [] = []
replied_of (receives k ∷ es) = replied_of es
replied_of (replies sn ∷ es) = sn ∷ replied_of es
replied_of (writes w ∷ es) = replied_of es

-- What a connection must keep so that replies are in order: `Carries n` says that the first `n` packets went
-- to it, `Refuses` that it takes no more.
pub record IsCarrier {P C W : Type 0} (send : P → C → C × Bool) (ask_close : C → C)
    (write : W → C → C) (packet : ℕ → P) (Carries : ℕ → C → Type 0) (Refuses : C → Type 0)
    : Type 0 where
  pub sent :
      (n : ℕ) (c : C)
      → Carries n c
      → (send (packet n) c).1 ≡ true
      → Carries (suc n) (send (packet n) c).0
  pub refused :
      (n : ℕ) (c : C)
      → Carries n c
      → (send (packet n) c).1 ≡ false
      → Carries n (send (packet n) c).0 × Refuses (send (packet n) c).0
  pub still_refused : (n : ℕ) (c : C) → Refuses c → (send (packet n) c).1 ≡ false
  pub asked : (n : ℕ) (c : C) → Carries n c → Carries n (ask_close c)
  pub asked_refuses : (c : C) → Refuses c → Refuses (ask_close c)
  pub wrote : (n : ℕ) (w : W) (c : C) → Carries n c → Carries n (write w c)
  pub wrote_refuses : (w : W) (c : C) → Refuses c → Refuses (write w c)

module _ {P C W : Type 0} (send : P → C → C × Bool) (ask_close : C → C) (write : W → C → C)
    (packet : ℕ → P) where
  -- A handler to which nothing happened.
  abbrev pub opened : C → HttpServerHandler P C
  opened c = record { recv_no = 0; send_no = 0; keep_alive = true; waiting = []; connection = c }

  abbrev pub happen : Happening W → HttpServerHandler P C → HttpServerHandler P C
  happen (receives keep_alive) h = (receive keep_alive h).1
  happen (replies sn) h = (reply send ask_close sn (packet sn) h).0
  happen (writes w) h = record h { connection = write w h.connection }

  abbrev pub happened : List (Happening W) → C → HttpServerHandler P C
  happened [] c = opened c
  happened (e ∷ es) c = happen e (happened es c)
