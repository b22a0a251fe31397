-- ===== src/Session/Agreement/Slides.antt =====
-- The slide on stage and the slide that is selected (resource/js/slides.js): `changeSlide` and links.
use Prim.Native.String.{String}
use net_frame.Common.{
  ℕ, ◌+◌, ◌≤◌, ◌<◌, ◌≡◌, ◌≢◌, ◌∙◌, refl, ◌⊎◌, inl, inr, Bool-cases, true, false, not, ◌&&◌,
  Option-cases, ◌==◌, leb, arith, find_index, find_index_lt,
}
use net_frame.Page.{Config, Page, Address, Slide, stages}
use net_frame.Common.Text.{truthy}
use net_frame.Slides.Show.{scrolls}
use net_frame.Slides.Frame.{show_slide-Keeps}
use net_frame.Slides.Change.{
  Request, change_slide, left, jump, click_to_slide, number, done, scroll_to, type_error, Outcome,
  and_then, request_stage,
}
use net_frame.Slides.Stage.{IsLocked, request_stage-IsLocked}
use net_frame.Navigation.{click_dot, click_link, update_hash, show_at, link_target, has_attribute}
use net_frame.Session.Lock.{is_unlock}
use net_frame.Session.Agreement.{
  is_release, releases, unlock_count, IsIdle, Agrees, IsApart-Agrees, not-releases,
}
use net_frame.Session.Agreement.Overlays.{hide_sidebar-Agrees}
use net_frame.Session.Agreement.Show.{AreReady, show_slide-Agrees, Agrees-AreReady}

request_stage-loaded : (n : ℕ) (p : Page) → (request_stage n p).loaded ≡ p.loaded
unfolding request_stage
request_stage-loaded n p = ground arith

-- A request is refused, or its three tests hold.
accepts :
    (n : ℕ) (p : Page)
    → (request_stage n p ≡ p) ⊎ ((p.in_action ≡ false) × (n ≤ stages p) × (n ≢ p.stage))
unfolding request_stage
accepts n p = elim (Bool-cases (not (n == p.stage) && leb n (stages p) && not p.in_action)) [
  | inl e ↦ inr (ground arith, ground arith, λ h. ground arith)
  | inr e ↦ inl (rw e refl)
]

and_then-Agrees :
    (f : Page → Page) (o : Outcome)
    → ((q : Page) → Agrees q → Agrees (f q))
    → Agrees (left o)
    → Agrees (left (and_then f o))
and_then-Agrees f (done q) keeps v = keeps q v
and_then-Agrees f (scroll_to n q) keeps v = keeps q v
and_then-Agrees f (type_error q) keeps v = v

address-Agrees : (a : Address) {p : Page} → Agrees p → Agrees (record p { address = a })
address-Agrees a {p} = IsApart-Agrees (ground arith)

-- Another stage is set, that of a slide.
put : (k : ℕ) (p : Page) → k < stages p → IsIdle p → IsIdle (record p { stage = k + 1 })
put k p inside v = ground (arith, v.single, v.idle, v.early)

put_ready : (k : ℕ) (p : Page) → AreReady p → AreReady (record p { stage = k + 1 })
put_ready k p (inl (e, low)) = inl (e, omega arith)
put_ready k p (inr o) = inr o

show_at-loaded : (c : Config) (k : ℕ) (p : Page) → (show_at c k p).loaded ≡ p.loaded
unfolding show_at
show_at-loaded c k p = (show_slide-Keeps c (k + 1) (record p { stage = k + 1 })).loaded

module _ (c : Config) (flips : scrolls c ≡ false) (classes : c.set_stage_classes ≡ true) where
  accepted-Agrees :
      (n : ℕ) (p q : Page)
      → n ≤ stages p
      → p.in_action ≡ false
      → q.loaded ≡ p.loaded
      → IsLocked n p q
      → Agrees p
      → Agrees q
  unfolding unlock_count releases is_unlock is_release
  accepted-Agrees n p q inside free same a (k, v) =
      let idle : unlock_count p.pending ≡ 0 = ground (arith, v.base.idle) in
      let loaded : p.loaded ≡ true = ground (arith, v.base.early) in
      let none_releases = not-releases p.pending idle in
      (
        k,
        record {
          inside = rw a.slides_left v.inside;
          order = rw a.slides_left v.order;
          shown = inr (a.lock_taken, same ∙ loaded, rw a.callback none_releases);
          base = record {
            single = rw a.callback (omega (arith, idle));
            some_slide = rw a.slides_left v.base.some_slide;
            on_stage = rw (a.slides_left, a.stage_set) inside;
            idle = inl a.lock_taken;
            early = inl (same ∙ loaded);
          };
        },
      )

  request_stage-Agrees : (n : ℕ) (p : Page) → Agrees p → Agrees (request_stage n p)
  request_stage-Agrees n p v = elim (accepts n p) [
    | inl e ↦ rw e v
    | inr (free, inside, other) ↦
        accepted-Agrees n p _ inside free (request_stage-loaded n p)
          (request_stage-IsLocked n p free other inside) v
  ]

  pub change_slide-Agrees : (r : Request) {p : Page} → Agrees p → Agrees (left (change_slide c r p))
  unfolding change_slide
  change_slide-Agrees r {p} v = rw flips (request_stage-Agrees _ p v)

  pub jump-Agrees : (n : ℕ) {p : Page} → Agrees p → Agrees (left (jump c n p))
  unfolding jump
  jump-Agrees n {p} v =
      and_then-Agrees _ (change_slide c (number n) p)
        (λ q w. hide_sidebar-Agrees (address-Agrees _ w)) (change_slide-Agrees (number n) v)

  pub click_to_slide-Agrees : (n : ℕ) {p : Page} → Agrees p → Agrees (left (click_to_slide c n p))
  unfolding click_to_slide
  click_to_slide-Agrees n {p} v =
      and_then-Agrees _ (change_slide c (number n) p) (λ q w. hide_sidebar-Agrees w)
        (change_slide-Agrees (number n) v)

  pub click_dot-Agrees : (k : ℕ) {p : Page} → Agrees p → Agrees (left (click_dot c k p))
  unfolding click_dot
  click_dot-Agrees k v = change_slide-Agrees _ v

  pub show_at-Agrees :
      (k : ℕ) {p : Page} → k < stages p → IsIdle p → AreReady p → Agrees (show_at c k p)
  unfolding show_at
  show_at-Agrees k {p} inside v ready =
      show_slide-Agrees c flips classes {p = record p { stage = k + 1 }} (put k p inside v)
        (put_ready k p ready)

  pub click_link-Agrees : (name : String) {p : Page} → Agrees p → Agrees (click_link c name p)
  unfolding click_link link_target
  click_link-Agrees name {p} v = elim (Option-cases (link_target name p.slides)) [
    | inl e ↦ rw (e, click_link) v
    | inr (k, e) ↦
        rw (e, click_link, flips)
          (hide_sidebar-Agrees (
            show_at-Agrees k (find_index_lt _ p.slides e) v.1.base
              (Agrees-AreReady c flips classes v)))
  ]

  -- Where the address names a slide, `updateHash` shows it; otherwise nothing is changed.
  pub update_hash_cases :
      {p : Page}
      → IsIdle p
      → AreReady p
      → (update_hash c p ≡ p) ⊎ (Agrees (update_hash c p) × ((update_hash c p).loaded ≡ p.loaded))
  unfolding update_hash
  update_hash_cases {p} v ready = elim (Option-cases (truthy p.address.hash)) [
    | inl e ↦ inl (rw (e, update_hash) refl)
    | inr (name, e) ↦
        elim (Option-cases (find_index (λ (s : Slide). has_attribute s.data_name name) p.slides)) [
          | inl none_found ↦ inl (rw (e, none_found, update_hash) refl)
          | inr (k, found) ↦ inr (
              rw (e, found, flips, update_hash)
                (show_at-Agrees k (find_index_lt _ p.slides found) v ready, show_at-loaded c k p))
        ]
  ]
