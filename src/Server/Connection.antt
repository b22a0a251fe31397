-- ===== src/Server/Connection.antt =====
-- A connection that sends packets (src/handler/base_io_handler.cc, src/util/datablob): its state, the
-- blobs that wait, and what the socket took. Reading and the timer of the connection are left out.
pub mod Stream
pub mod Torn
pub mod Closing
use net_frame.Common.{
  ℕ, zero, suc, Bool, true, false, Option, none, some, List, [], ◌∷◌, ◌++◌, if◌then◌else◌,
}

-- `CONNECT_STATE`
pub data ConnectState : Type 0 where
  idle connecting connected closing closed : ConnectState

-- What `Socket::Write` answers: a number of bytes, EAGAIN, or another error. An environment that has no
-- more answers has no more room.
pub data Answer : Type 0 where
  wrote : ℕ → Answer
  again failed : Answer

abbrev pub take : ℕ → List ℕ → List ℕ
take zero bs = []
take (suc n) [] = []
take (suc n) (b ∷ bs) = b ∷ take n bs

abbrev pub drop : ℕ → List ℕ → List ℕ
drop zero bs = bs
drop (suc n) [] = []
drop (suc n) (b ∷ bs) = drop n bs

pub data Status : Type 0 where
  all_sent would_block broken : Status

-- One loop of `Write` and `AddOffset`: the bytes that went out, and those behind the blob's offset.
pub record Sent : Type 0 where
  pub out : List ℕ
  pub rest : List ℕ
  pub status : Status
  pub answers : List Answer

abbrev pub put_before : List ℕ → Sent → Sent
put_before bs s = record s { out = bs ++ s.out }

unfoldable pub write_blob : List ℕ → List Answer → Sent
write_blob [] answers = record { out = []; rest = []; status = all_sent; answers = answers }
write_blob (b ∷ bs) [] = record { out = []; rest = b ∷ bs; status = would_block; answers = [] }
write_blob (b ∷ bs) (wrote n ∷ answers) =
    put_before (take n (b ∷ bs)) (write_blob (drop n (b ∷ bs)) answers)
write_blob (b ∷ bs) (again ∷ answers) = record {
  out = [];
  rest = b ∷ bs;
  status = would_block;
  answers = answers;
}
write_blob (b ∷ bs) (failed ∷ answers) = record {
  out = [];
  rest = b ∷ bs;
  status = broken;
  answers = answers;
}

-- The blobs are what is behind their offsets; `written` is what the peer will read.
pub record Connection : Type 0 where
  pub state : ConnectState
  pub blobs : List (List ℕ)
  pub written : List ℕ
  pub close_after_send : Bool

-- `SendPacketWithoutLock`, of a packet with its encoding, where it has one; true if it was accepted.
abbrev pub write_now : List ℕ → Sent → Connection → Connection × Bool
write_now blob s c = elim (s.status) [
  | all_sent ↦ (record c { written = c.written ++ s.out }, true)
  | would_block ↦ (record c { written = c.written ++ s.out; blobs = s.rest ∷ [] }, true)
  | broken ↦ (record c { written = c.written ++ s.out }, false)
]

unfoldable pub queue_or_write : List ℕ → List Answer → Connection → Connection × Bool
unfolding write_blob
queue_or_write blob answers c = elim (c.blobs) [
  | [] ↦ write_now blob (write_blob blob answers) c
  | _ ∷ _ ↦ (record c { blobs = c.blobs ++ blob ∷ [] }, true)
]

unfoldable pub send_packet : Option (List ℕ) → List Answer → Connection → Connection × Bool
unfolding queue_or_write
send_packet encoded answers c = elim (c.state) [
  | connecting ↦ elim encoded [
    | none ↦ (c, false)
    | some blob ↦ (record c { blobs = c.blobs ++ blob ∷ [] }, true)
  ]
  | connected ↦ elim encoded [ none ↦ (c, false) | some blob ↦ queue_or_write blob answers c ]
  | _ ↦ (c, false)
]

-- The loops of `DoWrite` over the blobs that wait.
pub record Flushed : Type 0 where
  pub out : List ℕ
  pub blobs : List (List ℕ)
  pub status : Status

abbrev pub flush_next : List (List ℕ) → Sent → Flushed → Flushed
flush_next bs s rest = elim (s.status) [
  | all_sent ↦ record rest { out = s.out ++ rest.out }
  | would_block ↦ record { out = s.out; blobs = s.rest ∷ bs; status = would_block }
  | broken ↦ record { out = s.out; blobs = s.rest ∷ bs; status = broken }
]

unfoldable pub flush : List (List ℕ) → List Answer → Flushed
unfolding write_blob
flush [] answers = record { out = []; blobs = []; status = all_sent }
flush (b ∷ bs) answers =
    let s = write_blob b answers in let rest = flush bs s.answers in flush_next bs s rest

-- `ReportErrorAndClose` and `CloseWithoutLock`; what the packet handler does when it is told of the error
-- is left out.
unfoldable pub close : Connection → Connection
close c = record c { state = closed }

-- What follows the loops: an error closes, and so does the end of the blobs where this was asked for.
unfoldable pub after_flush : Status → Connection → Connection × Bool
unfolding close
after_flush all_sent c = (if c.close_after_send then close c else c, true)
after_flush would_block c = (c, true)
after_flush broken c = (close c, true)

-- `DoWrite` behind the test of the state.
unfoldable pub write_blobs : List Answer → Connection → Connection × Bool
unfolding flush after_flush
write_blobs answers c = elim (c.blobs) [
  | [] ↦ (c, false)
  | _ ∷ _ ↦
      let f = flush c.blobs answers in
      after_flush f.status (record c { written = c.written ++ f.out; blobs = f.blobs })
]

-- `DoWrite`; `ready` is whether `GetSoError` answers that the connection was made.
unfoldable pub do_write : Bool → List Answer → Connection → Connection × Bool
unfolding write_blobs close
do_write ready answers c = elim (c.state) [
  | connecting ↦
      if ready then write_blobs answers (record c { state = connected }) else (close c, false)
  | connected ↦ write_blobs answers c
  | _ ↦ (c, false)
]
