-- ===== src/Supervisor/Flush/Tried.antt =====
-- What a whole `try_flush_pending` of src/app/supervisor.cpp does to the bag, the live queue and the
-- trace of posts.
use mathlib.Core.List.{Mem, mem-cons_self, mem-cons_of_mem}
use xnminer.Base.{
  ◌⊎◌, inl, inr, ℕ, ◌*◌, ◌≡◌, refl, ap, ◌∙◌, ℤ, pos, leb_ℤ, ltb_ℤ, eqb_ℤ, Bool, true, false, ◌&&◌,
  ◌||◌, List, [], ◌∷◌, ◌++◌, Text, All, All-map, arith, if◌then◌else◌,
}
use xnminer.Mining.Encode.{is_argon2_encoded}
use xnminer.Store.Defs.{PendingBlock}
use xnminer.Store.Invariant.{IsValid}
use xnminer.Store.Batch.Result.{list_flush_batch-All}
use xnminer.Supervisor.State.{Settings, World, Sup, bag_target_m, submit_target_m}
use xnminer.Supervisor.Hits.{hit_m_of}
use xnminer.Supervisor.Hits.Kept.{Grows-refl, by_if}
use xnminer.Policy.{ready_to_flush}
use xnminer.Supervisor.Flush.{WorkItem, is_stopped}
use xnminer.Supervisor.Flush.Reached.{reached}
use xnminer.Supervisor.Flush.Cleared.{Cleared, flush_gate-Cleared}
use xnminer.Supervisor.Flush.Work.{Choice, passed, given_up, chosen, fits_wave, choice, choose}
use xnminer.Supervisor.Flush.Sent.{
  Sendable, Holds, choose-All, choice-Sendable, posts_of, flush_wave-Sent,
}
use xnminer.Supervisor.Flush.Spared.{
  Spares, Spares-Grows, Spares-trans, flush_wave-Spares, OnlyOf, rows-OnlyOf, Sendable-OnlyOf,
}
use xnminer.Supervisor.Flush.Try.{
  is_draining, flush_gate, flush_net_m, wave_size, flush_list, send_work, flush_rows,
  flush_matching, try_flush_pending,
}
use xnminer.Supervisor.Flush.Gates.{Gates, flush_gate-Gates}

-- What an item of a flush is like: it stands for a row of the bag that may be flushed in this minute, is
-- encoded, and is for the m= to submit for, or in a drain for that of the bag.
abbrev pub MaySend : Settings → World → Sup → WorkItem → Type 0
MaySend c w s item =
    ((pb : PendingBlock) × Mem pb s.store.pending
      × (item.id ≡ pb.id)
      × ((ready_to_flush w.minute pb.block_type).0 ≡ true))
    × (is_argon2_encoded item.hit.hash_str ≡ true)
    × (((is_draining c s && eqb_ℤ (hit_m_of c w item.hit) (bag_target_m c s))
          || eqb_ℤ (hit_m_of c w item.hit) (submit_target_m c s))
        ≡ true)

All-Mem : (ps : List PendingBlock) → All (λ pb. Mem pb ps) ps
All-Mem [] = tt
All-Mem (pb ∷ ps) = (
  mem-cons_self,
  All-map (λ x. Mem x ps) (λ x. Mem x (pb ∷ ps)) (λ x m. mem-cons_of_mem pb m) ps (All-Mem ps),
)

-- A step that spares the bag, and posts nothing but items that may be sent.
pub record Flushes (c : Settings) (w : World) (on_shutdown : Bool) (s t : Sup) : Type 0 where
  pub spares : Spares s t
  pub work : List WorkItem
  pub posts : t.posts ≡ posts_of w work ++ s.posts
  pub net : t.network_difficulty ≡ s.network_difficulty
  pub may_send : All (MaySend c w s) work
  pub going : (work ≡ []) ⊎ (is_stopped on_shutdown s ≡ false)

Holds-map :
    (P Q : WorkItem → Type 0) (k : Choice)
    → ((item : WorkItem) → P item → Q item)
    → Holds P k
    → Holds Q k
Holds-map P Q passed f h = tt
Holds-map P Q given_up f h = h
Holds-map P Q (chosen item) f h = f item h

Flushes-nil :
    (c : Settings) (w : World) (on_shutdown : Bool) (s : Sup) → Flushes c w on_shutdown s s
Flushes-nil c w on_shutdown s = record {
  spares = Spares-Grows s s (Grows-refl s);
  work = [];
  posts = refl;
  net = refl;
  may_send = tt;
  going = inl refl;
}

send_work-Flushes :
    (c : Settings) (w : World) (on_shutdown : Bool) (id : ℕ) (pbs : List PendingBlock)
    (work : List WorkItem) (s : Sup)
    → All (MaySend c w s) work
    → ((h : Text)
        → is_argon2_encoded h ≡ true
        → IsValid s.store
        → All (λ item. OnlyOf h s.store.pending item.id item.hit.hash_str) work)
    → Flushes c w on_shutdown s (send_work c w on_shutdown id pbs work s).0
unfolding send_work
send_work-Flushes c w on_shutdown id pbs [] s may only = record {
  spares = record { queue = refl; valid = λ v. v; kept = λ h enc v e. e };
  work = [];
  posts = refl;
  net = refl;
  may_send = tt;
  going = inl refl;
}
send_work-Flushes c w on_shutdown id pbs (item ∷ work) s may only = record {
  spares = flush_wave-Spares w on_shutdown (is_draining c s) (item ∷ work) s only;
  work = reached on_shutdown s (item ∷ work);
  posts = (flush_wave-Sent w on_shutdown (is_draining c s) (item ∷ work) s).posts;
  net = (flush_wave-Sent w on_shutdown (is_draining c s) (item ∷ work) s).net;
  may_send =
      by_if (λ (xs : List WorkItem). All (MaySend c w s) xs) (is_stopped on_shutdown s) (λ _. tt)
        (λ _. may);
  going =
      by_if (λ (xs : List WorkItem). (xs ≡ []) ⊎ (is_stopped on_shutdown s ≡ false))
        (is_stopped on_shutdown s) (λ _. inl refl) (λ e. inr e);
}

fits_wave-cases :
    (draining wide : Bool) (bag target m : ℤ)
    → fits_wave draining bag (if draining && wide then bag else target) m ≡ true
    → ((draining && eqb_ℤ m bag) || eqb_ℤ m target) ≡ true
unfolding fits_wave
fits_wave-cases true true bag target m e = ground (arith, e)
fits_wave-cases true false bag target m e = e
fits_wave-cases false wide bag target m e = e

Sendable-MaySend :
    (c : Settings) (w : World) (s : Sup) (pb : PendingBlock) (item : WorkItem)
    → Mem pb s.store.pending
    → Sendable c w (is_draining c s) (bag_target_m c s) (flush_net_m c s) pb item
    → MaySend c w s item
unfolding flush_net_m
Sendable-MaySend c w s pb item among k = (
  (pb, among, k.same_id, k.ready),
  k.encoded,
  fits_wave-cases (is_draining c s) (ltb_ℤ (pos 0) (bag_target_m c s)) (bag_target_m c s)
      (submit_target_m c s) (hit_m_of c w item.hit) k.fits,
)

-- The choice from rows, with a claim on each item that follows from one on its row.
choose-of :
    (c : Settings) (w : World) (s : Sup) (wave : ℕ) (pbs : List PendingBlock)
    (R : PendingBlock → Type 0) (P : WorkItem → Type 0)
    → ((pb : PendingBlock) (item : WorkItem)
        → R pb
        → Sendable c w (is_draining c s) (bag_target_m c s) (flush_net_m c s) pb item
        → P item)
    → All R pbs
    → let r =
        choose c w (is_draining c s) (bag_target_m c s) (flush_net_m c s) wave 0 pbs s.store in
      (r.0 ≡ s.store) × All P r.1
choose-of c w s wave pbs R P f a =
    choose-All c w (is_draining c s) (bag_target_m c s) (flush_net_m c s) P wave 0 pbs s.store (
      All-map R _
        (λ pb r.
          Holds-map (Sendable c w (is_draining c s) (bag_target_m c s) (flush_net_m c s) pb) P
            (choice c w (is_draining c s) (bag_target_m c s) (flush_net_m c s) pb)
            (λ item k. f pb item r k)
            (choice-Sendable c w (is_draining c s) (bag_target_m c s) (flush_net_m c s) pb))
        pbs a)

flush_rows-Flushes :
    (c : Settings) (w : World) (on_shutdown : Bool) (pbs : List PendingBlock) (s : Sup)
    → ((P : PendingBlock → Type 0) → All P s.store.pending → All P pbs)
    → Flushes c w on_shutdown s (flush_rows c w on_shutdown pbs s).0
unfolding flush_rows
flush_rows-Flushes c w on_shutdown [] s among = Flushes-nil c w on_shutdown s
flush_rows-Flushes c w on_shutdown (pb ∷ pbs) s among =
    rw
      (choose-of c w s (wave_size c on_shutdown s) (pb ∷ pbs) (λ _. Unit {0}) (λ _. Unit {0})
        (λ _ _ _ _. tt) (among (λ _. Unit {0}) (All-unit s.store.pending))).0
      (send_work-Flushes c w on_shutdown pb.id pbs _ s
        (choose-of c w s (wave_size c on_shutdown s) (pb ∷ pbs) (λ x. Mem x s.store.pending)
          (MaySend c w s) (λ x item m k. Sendable-MaySend c w s x item m k)
          (among (λ x. Mem x s.store.pending) (All-Mem s.store.pending))).1
        (λ h enc v.
          (choose-of c w s (wave_size c on_shutdown s) (pb ∷ pbs)
            (λ x. OnlyOf h s.store.pending x.id x.hash_str)
            (λ item. OnlyOf h s.store.pending item.id item.hit.hash_str)
            (λ x item only k.
              Sendable-OnlyOf c w (is_draining c s) (bag_target_m c s) (flush_net_m c s) x item h
                s.store.pending enc only k)
            (among _ (rows-OnlyOf h s.store.pending v.ids))).1))
  where
    All-unit : (ps : List PendingBlock) → All (λ _. Unit {0}) ps
    All-unit [] = tt
    All-unit (x ∷ ps) = (tt, All-unit ps)

flush_matching-Flushes :
    (c : Settings) (w : World) (on_shutdown : Bool) (s : Sup)
    → Flushes c w on_shutdown s (flush_matching c w on_shutdown s).0
unfolding flush_matching flush_list
flush_matching-Flushes c w on_shutdown s =
    by_if (λ (r : Sup × ℕ). Flushes c w on_shutdown s r.0) (leb_ℤ (flush_net_m c s) (pos 0))
      (λ _. Flushes-nil c w on_shutdown s)
      (λ _. flush_rows-Flushes c w on_shutdown (flush_list c w on_shutdown s) s (λ P a.
        list_flush_batch-All P w.minute (flush_net_m c s) (bag_target_m c s)
          (wave_size c on_shutdown s * 2) s.flush_skip_before_id s.store a))

pub try_flush_pending-Flushes :
    (c : Settings) (w : World) (on_shutdown : Bool) (s : Sup)
    → let t = (flush_gate c w on_shutdown s).0 in
      Spares s (try_flush_pending c w on_shutdown s).0
      × ((work : List WorkItem) × ((try_flush_pending c w on_shutdown s).0.posts
            ≡ posts_of w work ++ s.posts)
          × ((work ≡ []) ⊎ (Cleared c w on_shutdown s t × (is_stopped on_shutdown t ≡ false)))
          × All (MaySend c w t) work)
unfolding try_flush_pending
try_flush_pending-Flushes c w on_shutdown s =
    by_if F (flush_gate c w on_shutdown s).1 (λ go. flushed go)
      (λ _. (Spares-Grows s gate gates.grows, ([], gates.posts, inl refl, tt)))
  where
    gate : Sup
    gate = (flush_gate c w on_shutdown s).0

    gates : Gates s gate
    gates = flush_gate-Gates c w on_shutdown s

    Allowed : List WorkItem → Type 0
    Allowed work =
        (work ≡ []) ⊎ (Cleared c w on_shutdown s gate × (is_stopped on_shutdown gate ≡ false))

    F : Sup × ℕ → Type 0
    F r =
        Spares s r.0
        × ((work : List WorkItem) × (r.0.posts ≡ posts_of w work ++ s.posts)
            × Allowed work
            × All (MaySend c w gate) work)

    allowed :
        {work : List WorkItem}
        → (flush_gate c w on_shutdown s).1 ≡ true
        → (work ≡ []) ⊎ (is_stopped on_shutdown gate ≡ false)
        → Allowed work
    allowed go (inl e) = inl e
    allowed go (inr e) = inr (flush_gate-Cleared c w on_shutdown s go, e)

    flushed : (flush_gate c w on_shutdown s).1 ≡ true → F (flush_matching c w on_shutdown gate)
    flushed go =
        let f = flush_matching-Flushes c w on_shutdown gate in
        (
          Spares-trans (Spares-Grows s gate gates.grows) f.spares,
          (
            f.work,
            f.posts ∙ ap (λ ps. posts_of w f.work ++ ps) gates.posts,
            allowed go f.going,
            f.may_send,
          ),
        )
