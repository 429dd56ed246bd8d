-- ===== src/Supervisor/Hits/Kept.antt =====
-- What the operations of src/app/supervisor.cpp that dispose of a hit do to the rows, to the live
-- queue and to the trace of posts.
use xnminer.Base.{
  ◌≡◌, refl, sym, ◌∙◌, inl, inr, Bool, true, false, not, ◌&&◌, ◌||◌, List, [], ◌∷◌, Text, text_eq,
  text_eq_refl, is_empty, member, any, any-append, arith, ltb, leb, ◌==◌, if◌then◌else◌, Bool-cases,
}
use xnminer.Common.{BlockHit}
use xnminer.Store.Defs.{
  Store, enqueue, mark_dirty, maybe_save, save_db, flush, add_block, new_block, save_every_ops,
}
use xnminer.Store.Distinct.{has_hash}
use xnminer.Store.Invariant.{IsValid, enqueue-IsValid}
use xnminer.Supervisor.State.{Settings, Sup, Post, should_store}
use xnminer.Supervisor.Hits.{queue_hit}

-- The pool accepted a block of the digest.
abbrev pub accepted : Text → List Post → Bool
accepted h = any (λ p. p.answer.ok && text_eq p.hit.hash_str h)

-- The digest is in the bag, or the pool has accepted it.
abbrev pub saved : Text → Sup → Bool
saved h s = has_hash h s.store.pending || accepted h s.posts

-- Nothing that was saved is lost, and the live queue is as before.
pub record Grows (s t : Sup) : Type 0 where
  pub queue : t.live_submit_q ≡ s.live_submit_q
  pub valid : IsValid s.store → IsValid t.store
  pub rows : (h : Text) → has_hash h s.store.pending ≡ true → has_hash h t.store.pending ≡ true
  pub posts : (h : Text) → accepted h s.posts ≡ true → accepted h t.posts ≡ true

-- A step on a hit that keeps what is there, and saves the hit where storing is on.
pub record Handles (c : Settings) (hit : BlockHit) (s t : Sup) : Type 0 where
  pub grows : Grows s t
  pub kept :
      should_store c ≡ true
      → is_empty hit.hash_str ≡ false
      → IsValid s.store
      → saved hit.hash_str t ≡ true

pub by_if :
    {A : Type 0} (P : A → Type 0) (b : Bool) {t u : A}
    → (b ≡ true → P t)
    → (b ≡ false → P u)
    → P (if b then t else u)
by_if P b f g = elim (Bool-cases b) [ inl e ↦ rw e (f e) | inr e ↦ rw e (g e) ]

pub Grows-refl : (s : Sup) → Grows s s
Grows-refl s = record { queue = refl; valid = λ v. v; rows = λ h e. e; posts = λ h e. e }

pub Grows-trans : {s t u : Sup} → Grows s t → Grows t u → Grows s u
Grows-trans g k = record {
  queue = k.queue ∙ g.queue;
  valid = λ v. k.valid (g.valid v);
  rows = λ h e. k.rows h (g.rows h e);
  posts = λ h e. k.posts h (g.posts h e);
}

maybe_save-pending : (s : Store) → (maybe_save s).pending ≡ s.pending
unfolding maybe_save save_db
maybe_save-pending s = elim (Bool-cases (leb save_every_ops s.dirty_ops)) [
  | inl e ↦ rw e refl
  | inr e ↦ rw e refl
]

pub flush-pending : (s : Store) → (flush s).pending ≡ s.pending
unfolding flush save_db
flush-pending s = elim (Bool-cases (ltb 0 s.dirty_ops)) [ inl e ↦ rw e refl | inr e ↦ rw e refl ]

enqueue-has_hash :
    (hit : BlockHit) (reason h : Text) (s : Store)
    → has_hash h s.pending ≡ true
    → has_hash h (enqueue hit reason s).0.pending ≡ true
unfolding enqueue mark_dirty add_block
enqueue-has_hash hit reason h s e =
    elim (Bool-cases (not (is_empty hit.hash_str) && member hit.hash_str s.hash_index)) [
      | inl k ↦ rw k e
      | inr k ↦
          rw
            (
              k,
              maybe_save-pending (mark_dirty (add_block hit reason s)),
              any-append (λ (pb : _). text_eq pb.hash_str h) s.pending
                  (new_block s.next_id hit reason ∷ []),
              e,
            )
            refl
    ]

pub enqueue-has_own_hash :
    (hit : BlockHit) (reason : Text) (s : Store)
    → is_empty hit.hash_str ≡ false
    → IsValid s
    → has_hash hit.hash_str (enqueue hit reason s).0.pending ≡ true
unfolding enqueue mark_dirty add_block
enqueue-has_own_hash hit reason s n v =
    elim (Bool-cases (not (is_empty hit.hash_str) && member hit.hash_str s.hash_index)) [
      | inl k ↦ rw k (sym (v.indexed hit.hash_str n) ∙ ground (arith, k, n))
      | inr k ↦
          rw (k, maybe_save-pending (mark_dirty (add_block hit reason s)))
            (any-append (λ (pb : _). text_eq pb.hash_str hit.hash_str) s.pending
                (new_block s.next_id hit reason ∷ [])
              ∙ ground (arith, text_eq_refl hit.hash_str))
    ]

-- An operation that leaves the rows' content to `enqueue`.
pub enqueue-Grows :
    (hit : BlockHit) (reason : Text) (s t : Sup)
    → t.store ≡ (enqueue hit reason s.store).0
    → t.live_submit_q ≡ s.live_submit_q
    → t.posts ≡ s.posts
    → Grows s t
enqueue-Grows hit reason s t e q p = record {
  queue = q;
  valid = λ v. rw e (enqueue-IsValid hit reason s.store v);
  rows = λ h k. rw e (enqueue-has_hash hit reason h s.store k);
  posts = λ h k. rw p k;
}

pub enqueue-Handles :
    (c : Settings) (hit : BlockHit) (reason : Text) (s t : Sup)
    → t.store ≡ (enqueue hit reason s.store).0
    → t.live_submit_q ≡ s.live_submit_q
    → t.posts ≡ s.posts
    → Handles c hit s t
enqueue-Handles c hit reason s t e q p = record {
  grows = enqueue-Grows hit reason s t e q p;
  kept = λ _ n v. rw (e, enqueue-has_own_hash hit reason s.store n v) refl;
}

pub queue_hit-Handles :
    (c : Settings) (hit : BlockHit) (kind reason : Text) (s : Sup)
    → Handles c hit s (queue_hit hit kind reason s)
unfolding queue_hit
queue_hit-Handles c hit kind reason s =
    by_if (Handles c hit s) ((enqueue hit reason s.store).1 == 0)
      (λ _. enqueue-Handles c hit reason s _ refl refl refl)
      (λ _. enqueue-Handles c hit reason s _ refl refl refl)

-- The hit is given up, which only happens where storing is off.
pub drop-Handles :
    (c : Settings) (hit : BlockHit) (s : Sup) → should_store c ≡ false → Handles c hit s s
drop-Handles c hit s e = record { grows = Grows-refl s; kept = λ k _ _. absurd_eq k e }
  where
    absurd_eq : should_store c ≡ true → should_store c ≡ false → saved hit.hash_str s ≡ true
    absurd_eq k e = ground (arith, k, e)

pub then-Handles :
    (c : Settings) (hit : BlockHit) (s t u : Sup)
    → Grows s t
    → Handles c hit t u
    → Handles c hit s u
then-Handles c hit s t u g k = record {
  grows = Grows-trans g k.grows;
  kept = λ e n v. k.kept e n (g.valid v);
}

-- A hit whose saving depends on the setting.
pub store_or_drop-Handles :
    (c : Settings) (hit : BlockHit) (s t : Sup)
    → Handles c hit s t
    → Handles c hit s (if should_store c then t else s)
store_or_drop-Handles c hit s t k =
    by_if (Handles c hit s) (should_store c) (λ _. k) (λ e. drop-Handles c hit s e)
