-- ===== src/Supervisor/Flush/Sent.antt =====
-- What the loop of `try_flush_pending` (src/app/supervisor.cpp) that chooses the work keeps of the rows,
-- and what the wave leaves in the trace of posts.
use mathlib.Core.List.{append_assoc}
use xnminer.Base.{
  ℕ, ◌+◌, ◌≡◌, refl, sym, ap, ◌∙◌, ℤ, pos, eqb_ℤ, Bool, true, false, not, ◌&&◌, ◌||◌, some, List,
  [], ◌∷◌, ◌++◌, Text, text_eq, any, any-append, All, ltb, leb, arith, if◌then◌else◌, is_empty,
}
use xnminer.Common.{BlockHit, SubmitResult}
use xnminer.Mining.Encode.{is_argon2_encoded}
use xnminer.Mining.Prepare.{prepare_bare-eq}
use xnminer.Policy.{ready_to_flush}
use xnminer.Store.Defs.{PendingBlock, Store, mark_submitted}
use xnminer.Network.Submit.{is_transient_submit_failure}
use xnminer.Supervisor.State.{Settings, World, Sup, Post}
use xnminer.Supervisor.Hits.{hit_m_of}
use xnminer.Supervisor.Hits.Kept.{accepted, by_if}
use xnminer.Supervisor.Flush.{
  WorkItem, Tally, empty_tally, accept_flushed, reject_flushed, is_held, handle_one, send_one,
  rotate, remove_accepted, close_wave, flush_wave,
}
use xnminer.Supervisor.Flush.Reached.{reached, send_each, send_all-reached}
use xnminer.Supervisor.Flush.Work.{
  Choice, passed, given_up, chosen, fits_wave, flush_salt, choice, choose,
}

-- A choice that does not give the row up.
abbrev pub Holds : (WorkItem → Type 0) → Choice → Type 0
Holds P passed = Unit {0}
Holds P given_up = ⊥
Holds P (chosen item) = P item

module _ (c : Settings) (w : World) (draining : Bool) (bag net_m : ℤ) (P : WorkItem → Type 0) where
  -- Where no choice gives a row up, the loop changes no row, and each item has what the choices have.
  pub choose-All :
      (wave got : ℕ) (pbs : List PendingBlock) (s : Store)
      → All (λ pb. Holds P (choice c w draining bag net_m pb)) pbs
      → ((choose c w draining bag net_m wave got pbs s).0 ≡ s)
        × All P (choose c w draining bag net_m wave got pbs s).1
  unfolding choose
  choose-All wave got [] s a = (refl, tt)
  choose-All wave got (pb ∷ pbs) s a =
      by_choice (choice c w draining bag net_m pb) a.0 (choose-All wave got pbs s a.1)
        (choose-All wave (got + 1) pbs s a.1)
    where
      Kept : Store × List WorkItem → Type 0
      Kept r = (r.0 ≡ s) × All P r.1

      by_choice :
          (k : Choice)
          → Holds P k
          → Kept (choose c w draining bag net_m wave got pbs s)
          → Kept (choose c w draining bag net_m wave (got + 1) pbs s)
          → Kept (elim k [
            | passed ↦ choose c w draining bag net_m wave got pbs s
            | given_up ↦ choose c w draining bag net_m wave got pbs (mark_submitted pb.id s)
            | chosen item ↦
                let rest = choose c w draining bag net_m wave (got + 1) pbs s in
                if ltb 0 wave && leb wave (got + 1) then (s, item ∷ []) else (rest.0, item ∷ rest.1)
          ])
      by_choice passed h same more = same
      by_choice given_up h same more = elim h [ ]
      by_choice (chosen item) h same more =
          by_if Kept (ltb 0 wave && leb wave (got + 1)) (λ _. (refl, (h, tt)))
            (λ _. (more.0, (h, more.1)))

-- What is sent for a row: its id, an encoded digest that is the row's own where that is encoded, and
-- an m= that the wave is for.
pub record Sendable (c : Settings) (w : World) (draining : Bool) (bag net_m : ℤ) (pb : PendingBlock)
    (item : WorkItem) : Type 0 where
  pub same_id : item.id ≡ pb.id
  pub encoded : is_argon2_encoded item.hit.hash_str ≡ true
  pub own : is_argon2_encoded pb.hash_str ≡ true → item.hit.hash_str ≡ pb.hash_str
  pub fits : fits_wave draining bag net_m (hit_m_of c w item.hit) ≡ true
  pub ready : (ready_to_flush w.minute pb.block_type).0 ≡ true

module _ (c : Settings) (w : World) (draining : Bool) (bag net_m : ℤ) where
  prepared-Sendable :
      (pb : PendingBlock) (out : BlockHit)
      → is_argon2_encoded out.hash_str ≡ true
      → out.memory_cost ≡ some (hit_m_of c w pb.hit)
      → is_argon2_encoded pb.hash_str ≡ false
      → fits_wave draining bag net_m (hit_m_of c w pb.hit) ≡ true
      → (ready_to_flush w.minute pb.block_type).0 ≡ true
      → Sendable c w draining bag net_m pb (record { id = pb.id; hit = out })
  prepared-Sendable pb out enc cost bare fit ready = record {
    same_id = refl;
    encoded = enc;
    own = λ e. ground (arith, e, bare);
    fits = rw cost fit;
    ready = ready;
  }

  -- A row that is not passed over is sent: the preparation of a bare digest cannot fail.
  pub choice-Sendable :
      (pb : PendingBlock)
      → Holds (Sendable c w draining bag net_m pb) (choice c w draining bag net_m pb)
  unfolding choice
  choice-Sendable pb =
      by_if (Holds P) (not (ready_to_flush w.minute pb.block_type).0) (λ _. tt)
        (λ ready.
          by_if (Holds P) (not (fits_wave draining bag net_m (hit_m_of c w pb.hit))) (λ _. tt)
            (λ fit.
              by_if (Holds P) (is_argon2_encoded pb.hash_str)
                (λ enc. record {
                  same_id = refl;
                  encoded = enc;
                  own = λ _. refl;
                  fits = not_false _ fit;
                  ready = not_false _ ready;
                })
                (λ bare.
                  let (out, made, enc, cost) =
                    prepare_bare-eq w.base64_encode pb.hit (flush_salt c pb.hit)
                      (hit_m_of c w pb.hit) c.time_cost c.parallelism bare in
                  rw made (
                    prepared-Sendable pb out enc cost bare (not_false _ fit) (not_false _ ready)))))
    where
      P : WorkItem → Type 0
      P = Sendable c w draining bag net_m pb

      not_false : (b : Bool) → not b ≡ false → b ≡ true
      not_false b e = ground (arith, e)

-- The pool accepts an item of the digest.
abbrev pub accepted_work : World → Text → List WorkItem → Bool
accepted_work w h = any (λ item. (w.answer item.hit).ok && text_eq item.hit.hash_str h)

-- The answers leave the trace of posts, the live queue and the m= alone.
record Quiet (s t : Sup) : Type 0 where
  posts : t.posts ≡ s.posts
  queue : t.live_submit_q ≡ s.live_submit_q
  net : t.network_difficulty ≡ s.network_difficulty

handle_one-Quiet :
    (draining : Bool) (item : WorkItem) (r : SubmitResult) (s : Sup) (n : Tally)
    → Quiet s (handle_one draining item r (s, n)).0
unfolding handle_one accept_flushed reject_flushed
handle_one-Quiet draining item r s n =
    by_if (λ (p : Sup × Tally). Quiet s p.0) r.ok
      (λ _. record { posts = refl; queue = refl; net = refl })
      (λ _.
        by_if (λ (p : Sup × Tally). Quiet s p.0)
          (eqb_ℤ r.status (pos 0) || is_transient_submit_failure r.status r.body)
          (λ _. record { posts = refl; queue = refl; net = refl })
          (λ _.
            by_if (λ (p : Sup × Tally). Quiet s p.0) (is_held r)
              (λ _. record { posts = refl; queue = refl; net = refl })
              (λ _. record { posts = refl; queue = refl; net = refl })))

-- The posts of a work list, newest first.
abbrev pub posts_of : World → List WorkItem → List Post
posts_of w [] = []
posts_of w (item ∷ work) =
    posts_of w work ++ (record { hit = item.hit; answer = w.answer item.hit } ∷ [])

-- A wave posts each item once, in order, and leaves the live queue and the m= alone.
pub record Sent (w : World) (work : List WorkItem) (s t : Sup) : Type 0 where
  pub posts : t.posts ≡ posts_of w work ++ s.posts
  pub queue : t.live_submit_q ≡ s.live_submit_q
  pub net : t.network_difficulty ≡ s.network_difficulty

posted : World → WorkItem → Sup → Sup
posted w item s = record s {
  posts = record { hit = item.hit; answer = w.answer item.hit } ∷ s.posts;
}

Sent-cons :
    (w : World) (item : WorkItem) (work : List WorkItem) (s t u : Sup)
    → Quiet (posted w item s) t
    → Sent w work t u
    → Sent w (item ∷ work) s u
unfolding posted
Sent-cons w item work s t u now later = record {
  posts =
      later.posts
      ∙ ap (λ ps. posts_of w work ++ ps) now.posts
      ∙ sym (append_assoc (posts_of w work) (post ∷ []) s.posts);
  queue = later.queue ∙ now.queue;
  net = later.net ∙ now.net;
}
  where
    post : Post
    post = record { hit = item.hit; answer = w.answer item.hit }

send_each-Sent :
    (w : World) (draining : Bool) (work : List WorkItem) (s : Sup) (n : Tally)
    → Sent w work s (send_each w draining work (s, n)).0
unfolding send_each send_one posted
send_each-Sent w draining [] s n = record { posts = refl; queue = refl; net = refl }
send_each-Sent w draining (item ∷ work) s n =
    Sent-cons w item work s (send_one w draining item (s, n)).0 _
      (handle_one-Quiet draining item (w.answer item.hit) (posted w item s) n)
      (send_each-Sent w draining work (send_one w draining item (s, n)).0
        (send_one w draining item (s, n)).1)

rotate-Quiet :
    (w : World) (on_shutdown draining : Bool) (work : List WorkItem) (n : Tally) (s : Sup)
    → Quiet s (rotate w on_shutdown draining work n s)
unfolding rotate
rotate-Quiet w on_shutdown draining [] n s = record { posts = refl; queue = refl; net = refl }
rotate-Quiet w on_shutdown draining (item ∷ work) n s =
    by_if (Quiet s)
      (is_empty n.accepted_ids && not on_shutdown && (ltb 0 n.holds || ltb 0 n.transients))
      (λ _. record { posts = refl; queue = refl; net = refl })
      (λ _. record { posts = refl; queue = refl; net = refl })

pub flush_wave-Sent :
    (w : World) (on_shutdown draining : Bool) (work : List WorkItem) (s : Sup)
    → Sent w (reached on_shutdown s work) s (flush_wave w on_shutdown draining work s).0
unfolding flush_wave close_wave remove_accepted
flush_wave-Sent w on_shutdown draining work s =
    rw (send_all-reached w on_shutdown draining work s empty_tally) (record {
      posts = closed.posts ∙ sends.posts;
      queue = closed.queue ∙ sends.queue;
      net = closed.net ∙ sends.net;
    })
  where
    sent : Sup × Tally
    sent = send_each w draining (reached on_shutdown s work) (s, empty_tally)

    sends : Sent w (reached on_shutdown s work) s sent.0
    sends = send_each-Sent w draining (reached on_shutdown s work) s empty_tally

    closed :
        Quiet
          (remove_accepted sent.1 sent.0)
          (rotate w on_shutdown draining work sent.1 (remove_accepted sent.1 sent.0))
    closed = rotate-Quiet w on_shutdown draining work sent.1 (remove_accepted sent.1 sent.0)

-- The digests of the accepted items are accepted after the wave.
pub accepted-posts_of :
    (w : World) (h : Text) (work : List WorkItem)
    → accepted h (posts_of w work) ≡ accepted_work w h work
accepted-posts_of w h [] = refl
accepted-posts_of w h (item ∷ work) =
    any-append (λ (p : Post). p.answer.ok && text_eq p.hit.hash_str h) (posts_of w work)
      (record { hit = item.hit; answer = w.answer item.hit } ∷ [])
    ∙ ground (arith, accepted-posts_of w h work)
