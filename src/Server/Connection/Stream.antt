-- ===== src/Server/Connection/Stream.antt =====
-- A connection is a stream (src/handler/base_io_handler.cc): the peer reads the accepted packets, each
-- whole, once and in order.
use mathlib.Core.List.{append_assoc, append-nil}
use net_frame.Common.{
  ℕ, zero, suc, ◌≡◌, refl, ap, ◌∙◌, sym, ◌⊎◌, inl, inr, Bool, Bool-cases, true, Option, some, List,
  [], ◌∷◌, ◌++◌, arith,
}
use net_frame.Server.Connection.{
  ConnectState, idle, connecting, connected, closing, closed, Answer, wrote, again, failed, take,
  drop, Status, all_sent, would_block, broken, Sent, write_blob, Connection, write_now,
  queue_or_write, send_packet, Flushed, flush_next, flush, close, after_flush, write_blobs,
  do_write,
}

abbrev pub flatten : List (List ℕ) → List ℕ
flatten [] = []
flatten (b ∷ bs) = b ++ flatten bs

flatten-append : (bs cs : List (List ℕ)) → flatten (bs ++ cs) ≡ flatten bs ++ flatten cs
flatten-append [] cs = refl
flatten-append (b ∷ bs) cs = simp (flatten-append bs cs, append_assoc)

pub take-append-drop : (n : ℕ) (bs : List ℕ) → take n bs ++ drop n bs ≡ bs
take-append-drop zero bs = refl
take-append-drop (suc n) [] = refl
take-append-drop (suc n) (b ∷ bs) = ap (λ cs. b ∷ cs) (take-append-drop n bs)

-- A blob is cut in two, and is not cut short where it is said to be sent.
write_blob-split :
    (blob : List ℕ) (answers : List Answer)
    → (write_blob blob answers).out ++ (write_blob blob answers).rest ≡ blob
unfolding write_blob
write_blob-split [] answers = refl
write_blob-split (b ∷ bs) [] = refl
write_blob-split (b ∷ bs) (wrote n ∷ answers) = simp append_assoc (
    ap (λ cs. take n (b ∷ bs) ++ cs) (write_blob-split (drop n (b ∷ bs)) answers)
    ∙ take-append-drop n (b ∷ bs))
write_blob-split (b ∷ bs) (again ∷ answers) = refl
write_blob-split (b ∷ bs) (failed ∷ answers) = refl

write_blob-rest :
    (blob : List ℕ) (answers : List Answer)
    → (write_blob blob answers).status ≡ all_sent
    → (write_blob blob answers).rest ≡ []
unfolding write_blob
write_blob-rest [] answers h = refl
write_blob-rest (b ∷ bs) [] h = cc
write_blob-rest (b ∷ bs) (wrote n ∷ answers) h = write_blob-rest (drop n (b ∷ bs)) answers h
write_blob-rest (b ∷ bs) (again ∷ answers) h = cc
write_blob-rest (b ∷ bs) (failed ∷ answers) h = cc

pub Status-cases : (s : Status) → (s ≡ all_sent) ⊎ ((s ≡ would_block) ⊎ (s ≡ broken))
Status-cases all_sent = inl refl
Status-cases would_block = inr (inl refl)
Status-cases broken = inr (inr refl)

sent_whole : (out rest blob : List ℕ) → out ++ rest ≡ blob → rest ≡ [] → out ≡ blob
sent_whole out rest blob cut none_left = rw (none_left, append-nil) at cut

flush_next-split :
    (b out rest : List ℕ) (bs : List (List ℕ)) (status : Status) (answers : List Answer)
    (f : Flushed)
    → out ++ rest ≡ b
    → (status ≡ all_sent → rest ≡ [])
    → f.out ++ flatten f.blobs ≡ flatten bs
    → let s : Sent = record { out = out; rest = rest; status = status; answers = answers } in
      (flush_next bs s f).out ++ flatten (flush_next bs s f).blobs ≡ b ++ flatten bs
flush_next-split b out rest bs all_sent answers f cut whole later = simp append_assoc (
    ap (λ cs. out ++ cs) later
    ∙ ap (λ cs. cs ++ flatten bs) (sent_whole out rest b cut (whole refl)))
flush_next-split b out rest bs would_block answers f cut whole later =
    sym (append_assoc out rest (flatten bs)) ∙ ap (λ cs. cs ++ flatten bs) cut
flush_next-split b out rest bs broken answers f cut whole later =
    sym (append_assoc out rest (flatten bs)) ∙ ap (λ cs. cs ++ flatten bs) cut

flush-split :
    (bs : List (List ℕ)) (answers : List Answer)
    → (flush bs answers).out ++ flatten (flush bs answers).blobs ≡ flatten bs
unfolding flush
flush-split [] answers = refl
flush-split (b ∷ bs) answers =
    let s = write_blob b answers in
    flush_next-split b s.out s.rest bs s.status s.answers (flush bs s.answers)
      (write_blob-split b answers) (write_blob-rest b answers) (flush-split bs s.answers)

-- All that the peer read, and all that it will read of what waits.
abbrev pub stream : Connection → List ℕ
stream c = c.written ++ flatten c.blobs

abbrev of_parts : ConnectState → List (List ℕ) → List ℕ → Bool → Connection
of_parts state blobs written closes = record {
  state = state;
  blobs = blobs;
  written = written;
  close_after_send = closes;
}

after_flush-stream : (status : Status) (c : Connection) → stream (after_flush status c).0 ≡ stream c
unfolding after_flush
after_flush-stream all_sent c = elim (Bool-cases c.close_after_send) [
  | inl e ↦ ground arith
  | inr e ↦ ground arith
]
after_flush-stream would_block c = refl
after_flush-stream broken c = refl

parts-stream :
    (answers : List Answer) (state : ConnectState) (bs : List (List ℕ)) (written : List ℕ)
    (closes : Bool)
    → stream (write_blobs answers (of_parts state bs written closes)).0 ≡ written ++ flatten bs
unfolding write_blobs
parts-stream answers state [] written closes = refl
parts-stream answers state (b ∷ bs) written closes =
    let f = flush (b ∷ bs) answers in
    after_flush-stream f.status (of_parts state f.blobs (written ++ f.out) closes)
    ∙ append_assoc written f.out (flatten f.blobs)
    ∙ ap (λ cs. written ++ cs) (flush-split (b ∷ bs) answers)

-- A write moves bytes from what waits to what was read.
write_blobs-stream :
    (answers : List Answer) (c : Connection) → stream (write_blobs answers c).0 ≡ stream c
write_blobs-stream answers c = parts-stream answers c.state c.blobs c.written c.close_after_send

pub do_write-stream :
    (ready : Bool) (answers : List Answer) (c : Connection)
    → stream (do_write ready answers c).0 ≡ stream c
unfolding do_write close
do_write-stream ready answers c = in_state c.state
  where
    in_state :
        (st : ConnectState)
        → stream (do_write ready answers (of_parts st c.blobs c.written c.close_after_send)).0
          ≡ stream c
    in_state idle = refl
    in_state connecting = elim (Bool-cases ready) [
      | inl e ↦ rw e (write_blobs-stream answers (record c { state = connected }))
      | inr e ↦ rw e refl
    ]
    in_state connected = write_blobs-stream answers (record c { state = connected })
    in_state closing = refl
    in_state closed = refl

queued-stream :
    (written : List ℕ) (bs : List (List ℕ)) (blob : List ℕ)
    → written ++ flatten (bs ++ blob ∷ []) ≡ (written ++ flatten bs) ++ blob
queued-stream written bs blob = simp (flatten-append, append_assoc, append-nil)

write_now-stream :
    (blob out rest : List ℕ) (status : Status) (answers : List Answer) (c : Connection)
    → c.blobs ≡ []
    → out ++ rest ≡ blob
    → (status ≡ all_sent → rest ≡ [])
    → let s : Sent = record { out = out; rest = rest; status = status; answers = answers } in
      (write_now blob s c).1 ≡ true → stream (write_now blob s c).0 ≡ stream c ++ blob
write_now-stream blob out rest all_sent answers c empty cut whole ok =
    simp (empty, append-nil)
      (ap (λ cs. c.written ++ cs) (sent_whole out rest blob cut (whole refl)))
write_now-stream blob out rest would_block answers c empty cut whole ok =
    simp (empty, append-nil, append_assoc) (ap (λ cs. c.written ++ cs) cut)
write_now-stream blob out rest broken answers c empty cut whole ok = cc

queue_or_write-stream :
    (blob : List ℕ) (answers : List Answer) (c : Connection)
    → (queue_or_write blob answers c).1 ≡ true
    → stream (queue_or_write blob answers c).0 ≡ stream c ++ blob
unfolding queue_or_write
queue_or_write-stream blob answers c = with_blobs c.blobs
  where
    with_blobs :
        (bs : List (List ℕ))
        → let p = of_parts c.state bs c.written c.close_after_send in
          (queue_or_write blob answers p).1 ≡ true
          → stream (queue_or_write blob answers p).0 ≡ stream p ++ blob
    with_blobs [] ok =
        let s = write_blob blob answers in
        write_now-stream blob s.out s.rest s.status s.answers
          (of_parts c.state [] c.written c.close_after_send) refl (write_blob-split blob answers)
          (write_blob-rest blob answers) ok
    with_blobs (b ∷ bs) ok = queued-stream c.written (b ∷ bs) blob

-- A packet that is accepted comes to the end of the stream.
pub send_packet-stream :
    (blob : List ℕ) (answers : List Answer) (c : Connection)
    → (send_packet (some blob) answers c).1 ≡ true
    → stream (send_packet (some blob) answers c).0 ≡ stream c ++ blob
unfolding send_packet
send_packet-stream blob answers c = in_state c.state
  where
    in_state :
        (st : ConnectState)
        → let p = of_parts st c.blobs c.written c.close_after_send in
          (send_packet (some blob) answers p).1 ≡ true
          → stream (send_packet (some blob) answers p).0 ≡ stream p ++ blob
    in_state idle ok = cc
    in_state connecting ok = queued-stream c.written c.blobs blob
    in_state connected ok =
        queue_or_write-stream blob answers (of_parts connected c.blobs c.written c.close_after_send)
          ok
    in_state closing ok = cc
    in_state closed ok = cc

-- What happens to a connection, and the packets that were accepted. The state and the wish to close may
-- change at any time; a send that is refused changes nothing.
pub data Run (start : Connection) : List ℕ → Connection → Type 0 where
  begin : Run start [] start
  accept :
      {sent : List ℕ} {c : Connection} (blob : List ℕ) (answers : List Answer)
      → Run start sent c
      → (send_packet (some blob) answers c).1 ≡ true
      → Run start (sent ++ blob) (send_packet (some blob) answers c).0
  refuse :
      {sent : List ℕ} {c : Connection} (encoded : Option (List ℕ)) (answers : List Answer)
      → Run start sent c
      → (send_packet encoded answers c).0 ≡ c
      → Run start sent (send_packet encoded answers c).0
  write :
      {sent : List ℕ} {c : Connection} (ready : Bool) (answers : List Answer)
      → Run start sent c
      → Run start sent (do_write ready answers c).0
  change :
      {sent : List ℕ} {c : Connection} (state : ConnectState) (closes : Bool)
      → Run start sent c
      → Run start sent (record c { state = state; close_after_send = closes })

-- The connection is a stream: over packets that are sent, writes of any sizes, and changes of the state,
-- in any order, what the peer read and what waits is together what it was at the start and then the
-- accepted packets, each whole, once and in order; where no send fails after it wrote a part.
pub Run-stream :
    {start c : Connection} {sent : List ℕ} → Run start sent c → stream c ≡ stream start ++ sent
Run-stream {start} begin = sym (append-nil (stream start))
Run-stream {start} (accept {sent} {c} blob answers r ok) =
    send_packet-stream blob answers c ok
    ∙ ap (λ cs. cs ++ blob) (Run-stream r)
    ∙ append_assoc (stream start) sent blob
Run-stream (refuse encoded answers r same) = ap stream same ∙ Run-stream r
Run-stream (write {c = c} ready answers r) = do_write-stream ready answers c ∙ Run-stream r
Run-stream (change state closes r) = Run-stream r
