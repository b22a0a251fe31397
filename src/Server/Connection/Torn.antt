-- ===== src/Server/Connection/Torn.antt =====
-- A send that fails on the way (src/handler/base_io_handler.cc, `SendPacketWithoutLock`).
use mathlib.Core.List.{append-nil}
use net_frame.Common.{
  ℕ, zero, suc, ◌<◌, ◌≡◌, refl, ap, ◌∙◌, Bool, false, some, List, [], ◌∷◌, ◌++◌, arith, length,
}
use net_frame.Server.Connection.{
  connected, wrote, failed, take, drop, broken, Sent, write_blob, Connection, write_now,
  send_packet,
}
use net_frame.Server.Connection.Stream.{stream, Run, Run-stream}

-- The write that fails leaves the blob as it is.
write_blob-failed :
    (bs : List ℕ)
    → 0 < length bs
    → ((write_blob bs (failed ∷ [])).status ≡ broken) × ((write_blob bs (failed ∷ [])).out ≡ [])
unfolding write_blob
write_blob-failed [] h = absurd (omega arith)
write_blob-failed (b ∷ bs) h = (refl, refl)

length-drop : (n : ℕ) (bs : List ℕ) → n < length bs → 0 < length (drop n bs)
length-drop zero bs h = h
length-drop (suc n) [] h = absurd (omega arith)
length-drop (suc n) (b ∷ bs) h = length-drop n bs (omega arith)

write_blob-torn :
    (n : ℕ) (blob : List ℕ)
    → n < length blob
    → let s = write_blob blob (wrote n ∷ failed ∷ []) in (s.status ≡ broken) × (s.out ≡ take n blob)
unfolding write_blob
write_blob-torn n [] h = absurd (omega arith)
write_blob-torn n (b ∷ bs) h =
    let (status, nothing) = write_blob-failed (drop n (b ∷ bs)) (length-drop n (b ∷ bs) h) in
    (status, ap (λ cs. take n (b ∷ bs) ++ cs) nothing ∙ append-nil (take n (b ∷ bs)))

write_now_broken :
    (blob : List ℕ) (s : Sent) (c : Connection)
    → s.status ≡ broken
    → write_now blob s c ≡ (record c { written = c.written ++ s.out }, false)
write_now_broken blob s c e = ground arith

abbrev pub opened : List ℕ → Bool → Connection
opened written closes = record {
  state = connected;
  blobs = [];
  written = written;
  close_after_send = closes;
}

send_packet_torn :
    (n : ℕ) (blob written : List ℕ) (closes : Bool)
    → n < length blob
    → send_packet (some blob) (wrote n ∷ failed ∷ []) (opened written closes)
      ≡ (opened (written ++ take n blob) closes, false)
unfolding send_packet
send_packet_torn n blob written closes h =
    let s = write_blob blob (wrote n ∷ failed ∷ []) in
    let (status, out) = write_blob-torn n blob h in
    write_now_broken blob s (opened written closes) status
    ∙ ap (λ cs. (opened (written ++ cs) closes, false)) out

-- A send on a connection where nothing waits, whose socket takes a part of the packet and then fails,
-- answers false, leaves the connection connected, and has put this part into the stream: all that is
-- accepted later is read behind a packet that ends in its middle.
pub send_packet-torn :
    (n : ℕ) (blob written sent : List ℕ) (closes : Bool) {c : Connection}
    → n < length blob
    → let (torn, ok) = send_packet (some blob) (wrote n ∷ failed ∷ []) (opened written closes) in
      Run torn sent c
      → (ok ≡ false) × (torn.state ≡ connected) × (stream c ≡ (written ++ take n blob) ++ sent)
send_packet-torn n blob written sent closes {c} h r =
    let e = send_packet_torn n blob written closes h in
    (
      ap (λ (q : Connection × Bool). q.1) e,
      ap (λ (q : Connection × Bool). q.0.state) e,
      Run-stream r
          ∙ ap (λ (q : Connection × Bool). stream q.0 ++ sent) e
          ∙ ap (λ cs. cs ++ sent) (append-nil (written ++ take n blob)),
    )
