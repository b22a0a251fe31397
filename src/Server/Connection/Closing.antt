-- ===== src/Server/Connection/Closing.antt =====
-- The wish to close a connection behind its packets (src/handler/base_io_handler.cc).
use net_frame.Common.{◌≡◌, refl, ap, ◌∙◌, ℕ, Bool, true, some, List, [], ◌∷◌, ◌++◌, arith}
use net_frame.Server.Connection.{
  connected, Answer, all_sent, Sent, write_blob, Connection, write_now, queue_or_write, send_packet,
  write_blobs, do_write,
}
use net_frame.Server.Connection.Torn.{opened}

abbrev pub write_each : List (List Answer) → Connection → Connection
write_each [] c = c
write_each (answers ∷ rounds) c = write_each rounds (do_write true answers c).0

write_each-opened :
    (rounds : List (List Answer)) (written : List ℕ) (closes : Bool)
    → write_each rounds (opened written closes) ≡ opened written closes
unfolding do_write write_blobs
write_each-opened [] written closes = refl
write_each-opened (answers ∷ rounds) written closes = write_each-opened rounds written closes

write_now-sent :
    (blob : List ℕ) (s : Sent) (c : Connection)
    → s.status ≡ all_sent
    → write_now blob s c ≡ (record c { written = c.written ++ s.out }, true)
write_now-sent blob s c e = ground arith

send_packet-sent :
    (blob written : List ℕ) (answers : List Answer) (closes : Bool)
    → (write_blob blob answers).status ≡ all_sent
    → send_packet (some blob) answers (opened written closes)
      ≡ (opened (written ++ (write_blob blob answers).out) closes, true)
unfolding send_packet queue_or_write
send_packet-sent blob written answers closes e =
    write_now-sent blob (write_blob blob answers) (opened written closes) e

-- Where nothing waits and the socket takes all of a packet at once, the connection stays connected,
-- whether or not it is to be closed behind its packets, however often it becomes writable.
pub write_each-send_packet :
    (blob written : List ℕ) (answers : List Answer) (closes : Bool) (rounds : List (List Answer))
    → (write_blob blob answers).status ≡ all_sent
    → (write_each rounds (send_packet (some blob) answers (opened written closes)).0).state
      ≡ connected
write_each-send_packet blob written answers closes rounds e =
    ap (λ (q : Connection × Bool). (write_each rounds q.0).state)
      (send_packet-sent blob written answers closes e)
    ∙ ap (λ (c : Connection). c.state)
        (write_each-opened rounds (written ++ (write_blob blob answers).out) closes)
