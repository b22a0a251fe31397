-- ===== src/Server/Replies/Wire.antt =====
-- The replies on the connection (src/handler/http_server_handler.cc, src/handler/base_io_handler.cc): the
-- handler gives packets, the connection writes when it can and closes when it was asked to.
use mathlib.Core.List.{append_assoc, append-nil}
use net_frame.Common.{
  ℕ, zero, suc, ◌≤◌, ◌<◌, ◌≡◌, ◌≢◌, ◌⊎◌, refl, ap, ◌∙◌, sym, Bool, true, false, some, List, [], ◌∷◌,
  ◌++◌, arith, inl, inr,
}
use net_frame.Server.Connection.{
  ConnectState, idle, connecting, connected, closing, closed, Answer, wrote, again, failed, drop,
  broken, write_blob, Connection, queue_or_write, send_packet, do_write,
}
use net_frame.Server.Connection.Stream.{stream, Status-cases, send_packet-stream, do_write-stream}
use net_frame.Server.Replies.Numbers.{has, AreFresh}
use net_frame.Server.Replies.Exchange.{Happening, replied_of, IsCarrier, happened}
use net_frame.Server.Replies.Order.{happened_in_order}

-- A packet is what it is encoded to, with what the socket answers while it is sent.
abbrev pub send_encoded : List ℕ × List Answer → Connection → Connection × Bool
send_encoded (blob, answers) c = send_packet (some blob) answers c

-- `SetCloseAfterAllPacketSent(true)`
abbrev pub ask_close : Connection → Connection
ask_close c = record c { close_after_send = true }

-- `DoWrite`, of which the handler does not look at the answer.
abbrev pub write_what_waits : Bool × List Answer → Connection → Connection
write_what_waits (ready, answers) c = (do_write ready answers c).0

abbrev pub is_live : ConnectState → Bool
is_live idle = false
is_live connecting = true
is_live connected = true
is_live closing = false
is_live closed = false

-- The socket does not fail while a packet is written.
abbrev pub never_fails : List Answer → Bool
never_fails [] = true
never_fails (wrote n ∷ answers) = never_fails answers
never_fails (again ∷ answers) = never_fails answers
never_fails (failed ∷ answers) = false

write_blob_not_broken :
    (blob : List ℕ) (answers : List Answer)
    → never_fails answers ≡ true
    → (write_blob blob answers).status ≢ broken
unfolding write_blob
write_blob_not_broken [] answers h = λ e. cc
write_blob_not_broken (b ∷ bs) [] h = λ e. cc
write_blob_not_broken (b ∷ bs) (wrote n ∷ answers) h =
    write_blob_not_broken (drop n (b ∷ bs)) answers h
write_blob_not_broken (b ∷ bs) (again ∷ answers) h = λ e. cc
write_blob_not_broken (b ∷ bs) (failed ∷ answers) h = cc

queue_or_write_accepts :
    (blob : List ℕ) (answers : List Answer) (c : Connection)
    → never_fails answers ≡ true
    → (queue_or_write blob answers c).1 ≡ true
unfolding queue_or_write
queue_or_write_accepts blob answers c h = with_blobs c.blobs
  where
    with_blobs :
        (bs : List (List ℕ)) → (queue_or_write blob answers (record c { blobs = bs })).1 ≡ true
    with_blobs [] = elim (Status-cases (write_blob blob answers).status) [
      | inl e ↦ ground arith
      | inr other ↦ elim other [
        | inl e ↦ ground arith
        | inr e ↦ absurd (write_blob_not_broken blob answers h e)
      ]
    ]
    with_blobs (b ∷ bs) = refl

-- Such a packet is refused only by a connection that is not open, which is left as it is.
send_packet_refused :
    (blob : List ℕ) (answers : List Answer) (c : Connection)
    → never_fails answers ≡ true
    → (send_packet (some blob) answers c).1 ≡ false
    → ((send_packet (some blob) answers c).0 ≡ c) × (is_live c.state ≡ false)
unfolding send_packet
send_packet_refused blob answers c h = in_state c.state
  where
    in_state :
        (st : ConnectState)
        → let p : Connection = record c { state = st } in
          (send_packet (some blob) answers p).1 ≡ false
          → ((send_packet (some blob) answers p).0 ≡ p) × (is_live st ≡ false)
    in_state idle e = (refl, refl)
    in_state connecting e = cc
    in_state connected e =
        let ok = queue_or_write_accepts blob answers (record c { state = connected }) h in cc
    in_state closing e = (refl, refl)
    in_state closed e = (refl, refl)

send_packet_dead :
    (blob : List ℕ) (answers : List Answer) (c : Connection)
    → is_live c.state ≡ false
    → (send_packet (some blob) answers c).1 ≡ false
unfolding send_packet
send_packet_dead blob answers c = in_state c.state
  where
    in_state :
        (st : ConnectState)
        → is_live st ≡ false
        → (send_packet (some blob) answers (record c { state = st })).1 ≡ false
    in_state idle e = refl
    in_state connecting e = cc
    in_state connected e = cc
    in_state closing e = refl
    in_state closed e = refl

do_write_dead :
    (ready : Bool) (answers : List Answer) (c : Connection)
    → is_live c.state ≡ false
    → is_live (do_write ready answers c).0.state ≡ false
unfolding do_write
do_write_dead ready answers c = in_state c.state
  where
    in_state :
        (st : ConnectState)
        → is_live st ≡ false
        → is_live (do_write ready answers (record c { state = st })).0.state ≡ false
    in_state idle e = refl
    in_state connecting e = cc
    in_state connected e = cc
    in_state closing e = refl
    in_state closed e = refl

module _ (packet : ℕ → List ℕ × List Answer) where
  abbrev pub encoded_first : ℕ → List ℕ
  encoded_first zero = []
  encoded_first (suc n) = encoded_first n ++ (packet n).0

  module _ (c : Connection) (whole : (n : ℕ) → never_fails (packet n).1 ≡ true) where
    abbrev Carries : ℕ → Connection → Type 0
    Carries n d = stream d ≡ stream c ++ encoded_first n

    abbrev Refuses : Connection → Type 0
    Refuses d = is_live d.state ≡ false

    connection-IsCarrier : IsCarrier send_encoded ask_close write_what_waits packet Carries Refuses
    connection-IsCarrier = record {
      sent = λ n d carries ok.
          send_packet-stream ((packet n).0) ((packet n).1) d ok
          ∙ ap (λ bs. bs ++ (packet n).0) carries
          ∙ append_assoc (stream c) (encoded_first n) ((packet n).0);
      refused = λ n d carries bad.
          let (same, dead) = send_packet_refused (packet n).0 (packet n).1 d (whole n) bad in
          (ap stream same ∙ carries, ap (λ e. is_live e.state) same ∙ dead);
      still_refused = λ n d dead. send_packet_dead (packet n).0 (packet n).1 d dead;
      asked = λ n d carries. carries;
      asked_refuses = λ d dead. dead;
      wrote = λ n w d carries. do_write-stream w.0 w.1 d ∙ carries;
      wrote_refuses = λ w d dead. do_write_dead w.0 w.1 d dead;
    }

    -- Over requests that are read, replies in any order, and writes of the connection in between, also such
    -- as close it: what the peer reads and what waits is what it was at the start and then the encoded
    -- replies in the order of the requests, each whole and once, as many as the handler counts; and unless
    -- the connection is no longer open, these are at least the first `n` once the first `n` requests have
    -- their replies. Each number gets one reply at most, and the socket does not fail while `Reply` sends.
    pub replies-stream :
        (es : List (Happening (Bool × List Answer))) (n : ℕ)
        → AreFresh (replied_of es)
        → ((k : ℕ) → k < n → has k (replied_of es) ≡ true)
        → let h = happened send_encoded ask_close write_what_waits packet es c in
          (stream h.connection ≡ stream c ++ encoded_first h.send_no)
          × ((is_live h.connection.state ≡ false) ⊎ (n ≤ h.send_no))
    replies-stream es n fresh replied =
        happened_in_order send_encoded ask_close write_what_waits packet Carries Refuses
          connection-IsCarrier es c n (sym (append-nil (stream c))) fresh replied
