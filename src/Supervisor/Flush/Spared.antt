-- ===== src/Supervisor/Flush/Spared.antt =====
-- No queued digest is lost by `try_flush_pending` in src/app/supervisor.cpp: the rows that a wave takes
-- out of the bag are those whose digests the pool has accepted.
use xnminer.Base.{
  ℕ, ◌≡◌, refl, sym, ap, ◌∙◌, inl, inr, ◌⊎◌, ℤ, Bool, true, false, not, ◌&&◌, List, [], ◌∷◌, Text,
  text_eq, eq_of_text_eq, any, any-append, All, filter, filter-map, ◌==◌, Bool-cases, arith,
}
use xnminer.Common.{BlockHit}
use xnminer.Mining.Encode.{is_argon2_encoded}
use xnminer.Store.Defs.{PendingBlock, Store}
use xnminer.Store.Distinct.{has_hash, has_id, DistinctIds}
use xnminer.Store.Invariant.{IsValid}
use xnminer.Store.Contents.{Bag, contents, entry, take_out, listed, holds, has_hash-holds}
use xnminer.Supervisor.State.{Settings, World, Sup, Post}
use xnminer.Supervisor.Hits.Kept.{saved, Grows, by_if}
use xnminer.Supervisor.Flush.{WorkItem, flush_wave, is_stopped}
use xnminer.Supervisor.Flush.Reached.{reached}
use xnminer.Supervisor.Flush.Bag.{accepted_of, flush_wave-contents}
use xnminer.Supervisor.Flush.Sent.{
  Sendable, accepted_work, posts_of, flush_wave-Sent, Sent, accepted-posts_of,
}

-- A row has the id and the digest.
abbrev pub pairs : ℕ → Text → List PendingBlock → Bool
pairs id h = any (λ pb. pb.id == id && text_eq pb.hash_str h)

-- An id whose row has the digest stands for the digest alone.
abbrev pub OnlyOf : Text → List PendingBlock → ℕ → Text → Type 0
OnlyOf h ps id hash = pairs id h ps ≡ true → text_eq hash h ≡ true

pairs-false :
    (id : ℕ) (h : Text) (ps : List PendingBlock) → has_id id ps ≡ false → pairs id h ps ≡ false
pairs-false id h [] e = refl
pairs-false id h (pb ∷ ps) e = ground (arith, pairs-false id h ps)

OnlyOf-tail :
    (h : Text) (x : PendingBlock) (ps ys : List PendingBlock)
    → has_id x.id ys ≡ false
    → All (λ y. OnlyOf h ps y.id y.hash_str) ys
    → All (λ y. OnlyOf h (x ∷ ps) y.id y.hash_str) ys
OnlyOf-tail h x ps [] e a = tt
OnlyOf-tail h x ps (y ∷ ys) e a =
    (λ k. a.0 (ground (arith, k, e)), OnlyOf-tail h x ps ys (ground (arith, e)) a.1)

-- Ids are distinct, so that each row's id stands for its digest.
pub rows-OnlyOf :
    (h : Text) (ps : List PendingBlock)
    → DistinctIds ps
    → All (λ pb. OnlyOf h ps pb.id pb.hash_str) ps
rows-OnlyOf h [] d = tt
rows-OnlyOf h (x ∷ ps) d = (
  λ k. ground (arith, k, pairs-false x.id h ps d.0),
  OnlyOf-tail h x ps ps d.0 (rows-OnlyOf h ps d.1),
)

pub Sendable-OnlyOf :
    (c : Settings) (w : World) (draining : Bool) (bag net_m : ℤ) (pb : PendingBlock)
    (item : WorkItem) (h : Text) (ps : List PendingBlock)
    → is_argon2_encoded h ≡ true
    → OnlyOf h ps pb.id pb.hash_str
    → Sendable c w draining bag net_m pb item
    → OnlyOf h ps item.id item.hit.hash_str
Sendable-OnlyOf c w draining bag net_m pb item h ps enc only sends k =
    rw (sends.own (rw (eq_of_text_eq pb.hash_str h same) enc)) same
  where
    same : text_eq pb.hash_str h ≡ true
    same = only (rw (← sends.same_id) k)

-- A digest in the rows stays in those that are not taken out, or a row that is taken out has it.
left_or_taken :
    (h : Text) (ids : List ℕ) (ps : List PendingBlock)
    → has_hash h ps ≡ true
    → (has_hash h (filter (λ pb. not (listed pb.id ids)) ps) ≡ true)
      ⊎ ((id : ℕ) × (listed id ids ≡ true) × (pairs id h ps ≡ true))
left_or_taken h ids [] e = cc
left_or_taken h ids (pb ∷ ps) e = elim (Bool-cases (text_eq pb.hash_str h)) [
  | inl k ↦ elim (Bool-cases (listed pb.id ids)) [
    | inl l ↦ inr (pb.id, l, ground (arith, k))
    | inr l ↦ inl (ground (arith, k, l))
  ]
  | inr k ↦ elim (left_or_taken h ids ps (ground (arith, e, k))) [
    | inl m ↦ inl (ground (arith, m))
    | inr (id, l, m) ↦ inr (id, l, ground (arith, m))
  ]
]

taken-accepted :
    (w : World) (h : Text) (ps : List PendingBlock) (id : ℕ) (work : List WorkItem)
    → All (λ item. OnlyOf h ps item.id item.hit.hash_str) work
    → listed id (accepted_of w work) ≡ true
    → pairs id h ps ≡ true
    → accepted_work w h work ≡ true
taken-accepted w h ps id [] a l k = cc
taken-accepted w h ps id (item ∷ work) a l k = elim (Bool-cases (w.answer item.hit).ok) [
  | inl ok ↦ elim (Bool-cases (id == item.id)) [
    | inl e ↦ let same : item.id ≡ id = ground (arith, e) in ground (arith, ok, a.0 (rw same k))
    | inr e ↦ ground (arith, taken-accepted w h ps id work a.1 (ground (arith, l, ok, e)) k)
  ]
  | inr ok ↦ ground (arith, taken-accepted w h ps id work a.1 (ground (arith, l, ok)) k)
]

-- The rows that the wave leaves, by their digests.
has_hash-take_out :
    (h : Text) (ids : List ℕ) (s t : Store)
    → contents t ≡ take_out ids (contents s)
    → has_hash h t.pending ≡ has_hash h (filter (λ pb. not (listed pb.id ids)) s.pending)
unfolding take_out
has_hash-take_out h ids s t e =
    has_hash-holds h t.pending
    ∙ ap (λ (b : Bag). holds h b.blocks) e
    ∙ ap (holds h) (filter-map (λ (x : ℕ × BlockHit). not (listed x.0 ids)) entry s.pending)
    ∙ sym (has_hash-holds h (filter (λ pb. not (listed pb.id ids)) s.pending))

-- A flush keeps the live queue and the consistency of the bag, and saves every encoded digest that was
-- saved.
pub record Spares (s t : Sup) : Type 0 where
  pub queue : t.live_submit_q ≡ s.live_submit_q
  pub valid : IsValid s.store → IsValid t.store
  pub kept :
      (h : Text)
      → is_argon2_encoded h ≡ true
      → IsValid s.store
      → saved h s ≡ true
      → saved h t ≡ true

pub Spares-Grows : (s t : Sup) → Grows s t → Spares s t
Spares-Grows s t g = record {
  queue = g.queue;
  valid = g.valid;
  kept = λ h _ _ e. ground (arith, e, g.rows h, g.posts h);
}

pub Spares-trans : {s t u : Sup} → Spares s t → Spares t u → Spares s u
Spares-trans a b = record {
  queue = b.queue ∙ a.queue;
  valid = λ v. b.valid (a.valid v);
  kept = λ h enc v e. b.kept h enc (a.valid v) (a.kept h enc v e);
}

-- A wave whose items stand for the digests of their rows.
pub flush_wave-Spares :
    (w : World) (on_shutdown draining : Bool) (work : List WorkItem) (s : Sup)
    → ((h : Text)
        → is_argon2_encoded h ≡ true
        → IsValid s.store
        → All (λ item. OnlyOf h s.store.pending item.id item.hit.hash_str) work)
    → Spares s (flush_wave w on_shutdown draining work s).0
flush_wave-Spares w on_shutdown draining work s only = record {
  queue = sent.queue;
  valid = λ v. (flush_wave-contents w on_shutdown draining work s v).1;
  kept = λ h enc v e.
      rw
        (
          sent.posts,
          any-append (λ (p : Post). p.answer.ok && text_eq p.hit.hash_str h) (posts_of w sent_work)
              s.posts,
          accepted-posts_of w h sent_work,
          has_hash-take_out h (accepted_of w sent_work) s.store
              (flush_wave w on_shutdown draining work s).0.store
              (flush_wave-contents w on_shutdown draining work s v).0,
        )
        (elim (Bool-cases (has_hash h s.store.pending)) [
          | inl k ↦ elim (left_or_taken h (accepted_of w sent_work) s.store.pending k) [
            | inl m ↦ ground (arith, m)
            | inr (id, l, m) ↦ ground (
              arith,
              taken-accepted w h s.store.pending id sent_work (some_of _ (only h enc v)) l m,
            )
          ]
          | inr k ↦ ground (arith, e, k)
        ]);
}
  where
    sent_work : List WorkItem
    sent_work = reached on_shutdown s work

    some_of : (P : WorkItem → Type 0) → All P work → All P sent_work
    some_of P a =
        by_if (λ (xs : List WorkItem). All P xs) (is_stopped on_shutdown s) (λ _. tt) (λ _. a)

    sent : Sent w sent_work s (flush_wave w on_shutdown draining work s).0
    sent = flush_wave-Sent w on_shutdown draining work s
