-- ===== src/Server/Replies/Order.antt =====
-- The order of the replies (src/handler/http_server_handler.cc).
use mathlib.Core.Path.{subst}
use net_frame.Common.{
  ℕ, ◌≡◌, ◌≤◌, ◌<◌, refl, ap, ◌∙◌, ◌⊎◌, sym, Bool, Bool-cases, true, false, ◌||◌, List, [], ◌∷◌,
  inl, inr, if◌then◌else◌, arith, suc, ◌==◌, ltb,
}
use net_frame.Server.Replies.Numbers.{
  IsAbove, has_key, has, AreFresh, put_reply-IsAbove, has_key-above, kept_key, shifted,
  shifted_back, has-cons, both_absurd, new_given, new_all, not_sent, waits_given, waits_all,
}
use net_frame.Server.Replies.Exchange.{
  Happening, receives, replies, writes, replied_of, IsCarrier, happen, happened,
}
use net_frame.Server.Replies.{
  HttpServerHandler, put_reply, receive, sent_next, send_waiting, mark_close, reply_marked, reply,
}

module _ {P C W : Type 0} (send : P → C → C × Bool) (ask_close : C → C) (write : W → C → C)
    (packet : ℕ → P) where
  abbrev pub AreOwn : List (ℕ × P) → Type 0
  AreOwn [] = Unit {0}
  AreOwn ((k, p) ∷ ws) = (p ≡ packet k) × AreOwn ws

  put_reply-AreOwn : (sn : ℕ) (ws : List (ℕ × P)) → AreOwn ws → AreOwn (put_reply sn (packet sn) ws)
  put_reply-AreOwn sn [] own = (refl, own)
  put_reply-AreOwn sn ((k, q) ∷ ws) (e, own) = ground (arith, put_reply-AreOwn sn ws)

  module _ (Carries : ℕ → C → Type 0) (Refuses : C → Type 0)
      (carrier : IsCarrier send ask_close write packet Carries Refuses) where
    -- The handler behind the replies to `replied`: the first packets went out, the others wait, unless the
    -- connection takes no more.
    pub record IsOrdered (replied : List ℕ) (h : HttpServerHandler P C) : Type 0 where
      pub carries : Carries h.send_no h.connection
      pub above : IsAbove h.send_no h.waiting
      pub own : AreOwn h.waiting
      pub given : (k : ℕ) → (ltb k h.send_no || has_key k h.waiting) ≡ true → has k replied ≡ true
      pub all :
          Refuses h.connection
          ⊎ ((k : ℕ) → has k replied ≡ true → (ltb k h.send_no || has_key k h.waiting) ≡ true)

    send_waiting-IsOrdered :
        (replied : List ℕ) (ws : List (ℕ × P)) (h : HttpServerHandler P C) (n : ℕ)
        → h.send_no ≡ suc n
        → Carries h.send_no h.connection
        → IsAbove n ws
        → AreOwn ws
        → ((k : ℕ) → (ltb k h.send_no || has_key k ws) ≡ true → has k replied ≡ true)
        → (Refuses h.connection
            ⊎ ((k : ℕ) → has k replied ≡ true → (ltb k h.send_no || has_key k ws) ≡ true))
        → IsOrdered replied (send_waiting send ask_close ws h).0
    unfolding send_waiting
    send_waiting-IsOrdered replied [] h n next carries above own given all = record {
      carries = carries;
      above = above;
      own = own;
      given = given;
      all = all;
    }
    send_waiting-IsOrdered replied ((k, p) ∷ ws) h n next carries (first, above) (same, own) given
          all =
        elim (Bool-cases (k == h.send_no)) [
          | inl it ↦
              let e : k ≡ h.send_no = ground arith in
              let q : packet h.send_no ≡ p = ap packet (sym e) ∙ sym same in
              elim (Bool-cases (send (packet h.send_no) h.connection).1) [
                | inl ok ↦
                    let ok' = subst (λ r. (send r h.connection).1 ≡ true) q ok in
                    rw (it, ok')
                      (send_waiting-IsOrdered replied ws (sent_next send ask_close p h) h.send_no
                        refl
                        (subst (λ r. Carries (suc h.send_no) (send r h.connection).0) q
                          (carrier.sent h.send_no h.connection carries ok))
                        (subst (λ m. IsAbove m ws) e above) own
                        (λ j t. given j (shifted p j k h.send_no ws e t))
                        (elim all [
                          | inl dead ↦
                              both_absurd (carrier.still_refused h.send_no h.connection dead) ok
                          | inr every ↦ inr (λ j t. shifted_back p j k h.send_no ws e (every j t))
                        ]))
                | inr bad ↦
                    let bad' = subst (λ r. (send r h.connection).1 ≡ false) q bad in
                    let (still, dead) = carrier.refused h.send_no h.connection carries bad in
                    rw (it, bad')
                      (record {
                        carries = subst (λ r. Carries h.send_no (send r h.connection).0) q still;
                        above = subst (λ m. IsAbove m ws) e above;
                        own = own;
                        given = λ j t. given j (kept_key p j k h.send_no ws t);
                        all = inl (subst (λ r. Refuses (send r h.connection).0) q dead);
                      })
              ]
          | inr other ↦ rw other (record {
            carries = carries;
            above = (ground arith, above);
            own = (same, own);
            given = given;
            all = all;
          })
        ]

    mark_close-IsOrdered :
        (replied : List ℕ) (h : HttpServerHandler P C)
        → IsOrdered replied h
        → IsOrdered replied (mark_close send ask_close h)
    mark_close-IsOrdered replied h o = with_wish h.keep_alive
      where
        asked : IsOrdered replied (record h { connection = ask_close h.connection })
        asked = record {
          carries = carrier.asked h.send_no h.connection o.carries;
          above = o.above;
          own = o.own;
          given = o.given;
          all = elim (o.all) [
            | inl dead ↦ inl (carrier.asked_refuses h.connection dead)
            | inr every ↦ inr every
          ];
        }

        with_wish :
            (b : Bool)
            → IsOrdered replied (if b then h else record h { connection = ask_close h.connection })
        with_wish true = o
        with_wish false = asked

    reply_marked-IsOrdered :
        (replied : List ℕ) (sn : ℕ) (h : HttpServerHandler P C)
        → has sn replied ≡ false
        → IsOrdered replied h
        → IsOrdered (sn ∷ replied) (reply_marked send ask_close sn (packet sn) h).0
    unfolding reply_marked
    reply_marked-IsOrdered replied sn h fresh o = elim (Bool-cases (h.send_no == sn)) [
      | inl it ↦
          let e : h.send_no ≡ sn = ground arith in
          let c' = subst (λ m. Carries m h.connection) e o.carries in
          elim (Bool-cases (send (packet sn) h.connection).1) [
            | inl ok ↦
                rw (it, ok)
                  (send_waiting-IsOrdered (sn ∷ replied) h.waiting
                    (sent_next send ask_close (packet sn) h) h.send_no refl
                    (subst (λ m. Carries (suc m) (send (packet sn) h.connection).0) (sym e)
                      (carrier.sent sn h.connection c' ok))
                    o.above o.own
                    (λ j t. new_given j sn h.send_no h.waiting replied e (o.given j) t)
                    (elim (o.all) [
                      | inl dead ↦ both_absurd (carrier.still_refused sn h.connection dead) ok
                      | inr every ↦
                          inr (λ j t. new_all j sn h.send_no h.waiting replied e (every j) t)
                    ]))
            | inr bad ↦
                let (still, dead) = carrier.refused sn h.connection c' bad in
                rw (it, bad)
                  (record {
                    carries =
                        subst (λ m. Carries m (send (packet sn) h.connection).0) (sym e) still;
                    above = o.above;
                    own = o.own;
                    given = λ j t. has-cons j sn replied (o.given j t);
                    all = inl dead;
                  })
          ]
      | inr other ↦ rw other (record {
        carries = o.carries;
        above =
            put_reply-IsAbove h.send_no sn (packet sn) h.waiting
              (not_sent sn h.send_no h.waiting replied other fresh (o.given sn)) o.above;
        own = put_reply-AreOwn sn h.waiting o.own;
        given = λ j t. waits_given j sn h.send_no (packet sn) h.waiting replied (o.given j) t;
        all = elim (o.all) [
          | inl dead ↦ inl dead
          | inr every ↦
              inr (λ j t. waits_all j sn h.send_no (packet sn) h.waiting replied (every j) t)
        ];
      })
    ]

    happen-IsOrdered :
        (e : Happening W) (es : List (Happening W)) (h : HttpServerHandler P C)
        → AreFresh (replied_of (e ∷ es))
        → IsOrdered (replied_of es) h
        → IsOrdered (replied_of (e ∷ es)) (happen send ask_close write packet e h)
    unfolding receive reply
    happen-IsOrdered (receives keep_alive) es h fresh o = record {
      carries = o.carries;
      above = o.above;
      own = o.own;
      given = o.given;
      all = o.all;
    }
    happen-IsOrdered (replies sn) es h (first, fresh) o =
        reply_marked-IsOrdered (replied_of es) sn (mark_close send ask_close h) first
          (mark_close-IsOrdered (replied_of es) h o)
    happen-IsOrdered (writes w) es h fresh o = record {
      carries = carrier.wrote h.send_no w h.connection o.carries;
      above = o.above;
      own = o.own;
      given = o.given;
      all = elim (o.all) [
        | inl dead ↦ inl (carrier.wrote_refuses w h.connection dead)
        | inr every ↦ inr every
      ];
    }

    fresh-tail :
        (e : Happening W) (es : List (Happening W))
        → AreFresh (replied_of (e ∷ es))
        → AreFresh (replied_of es)
    fresh-tail (receives k) es f = f
    fresh-tail (replies sn) es (a, f) = f
    fresh-tail (writes w) es f = f

    happened-IsOrdered :
        (es : List (Happening W)) (c : C)
        → Carries 0 c
        → AreFresh (replied_of es)
        → IsOrdered (replied_of es) (happened send ask_close write packet es c)
    happened-IsOrdered [] c start fresh = record {
      carries = start;
      above = tt;
      own = tt;
      given = λ k t. ground arith;
      all = inr (λ k t. cc);
    }
    happened-IsOrdered (e ∷ es) c start fresh =
        happen-IsOrdered e es (happened send ask_close write packet es c) fresh
          (happened-IsOrdered es c start (fresh-tail e es fresh))

    -- Where each number gets one reply at most: the first packets went out, as many as the handler counts,
    -- whatever order the replies came in, and unless the connection takes no more, these are at least the
    -- first `n` once the first `n` requests have their replies.
    pub happened_in_order :
        (es : List (Happening W)) (c : C) (n : ℕ)
        → Carries 0 c
        → AreFresh (replied_of es)
        → ((k : ℕ) → k < n → has k (replied_of es) ≡ true)
        → let h = happened send ask_close write packet es c in
          Carries h.send_no h.connection × (Refuses h.connection ⊎ (n ≤ h.send_no))
    happened_in_order es c n start fresh replied =
        let h = happened send ask_close write packet es c in
        let o = happened-IsOrdered es c start fresh in
        (
          o.carries,
          elim (o.all) [
            | inl dead ↦ inl dead
            | inr every ↦ inr (elim (Bool-cases (ltb h.send_no n)) [
              | inl less ↦
                  let given = replied h.send_no (ground arith) in
                  let out = every h.send_no given in
                  let none_waits =
                    has_key-above h.send_no h.send_no h.waiting o.above (omega arith) in
                  ground arith
              | inr enough ↦ ground arith
            ])
          ],
        )
