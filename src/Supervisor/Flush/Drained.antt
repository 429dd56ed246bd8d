-- ===== src/Supervisor/Flush/Drained.antt =====
-- A flush of the whole bag in src/app/supervisor.cpp whose blocks the pool accepts leaves no row that it
-- could have sent.
use xnminer.Base.{
  ℕ, ◌+◌, ◌≡◌, refl, sym, ap, ◌∙◌, ℤ, pos, leb_ℤ, ltb_ℤ, eqb_ℤ, Bool, true, false, not, ◌&&◌, List,
  [], ◌∷◌, map, All, All-map, any, any-filter, filter, filter_all, arith, if◌then◌else◌, length,
  value_or,
}
use xnminer.Common.{BlockHit}
use xnminer.Policy.{ready_to_flush}
use xnminer.Mining.Encode.{is_argon2_encoded}
use xnminer.Mining.Prepare.{prepare_bare-eq}
use xnminer.Store.Defs.{PendingBlock, Store, mark_submitted}
use xnminer.Store.Invariant.{IsValid}
use xnminer.Store.Contents.{Bag, contents, blocks_of, take_out, listed}
use xnminer.Store.Batch.{hit_m, matches_m, eligible, list_flush_batch}
use xnminer.Store.Batch.Result.{whole-eq, wave_order, length-wave_order, list_flush_batch-InOrder}
use xnminer.Store.Batch.Sort.{length-sort_batch}
use xnminer.Store.Batch.Listed.{ids_of, listed-eligible, any-rest}
use xnminer.Supervisor.State.{
  Settings, World, Sup, force_mine_mode, mining_difficulty, bag_target_m,
}
use xnminer.Supervisor.Hits.{hit_m_of}
use xnminer.Supervisor.Hits.Kept.{by_if}
use xnminer.Supervisor.Flush.{WorkItem, is_stopped, flush_wave}
use xnminer.Supervisor.Flush.Bag.{accepted_of, flush_wave-contents}
use xnminer.Supervisor.Flush.Work.{
  Choice, passed, given_up, chosen, fits_wave, flush_salt, choice, choose,
}
use xnminer.Supervisor.Flush.Try.{
  is_draining, flush_net_m, wave_size, flush_list, send_work, flush_rows, flush_matching,
}

-- The row is sent under its id.
abbrev Sends : ℕ → Choice → Type 0
Sends id passed = ⊥
Sends id given_up = ⊥
Sends id (chosen item) = item.id ≡ id

module _ (c : Settings) (w : World) (draining : Bool) (bag net_m : ℤ) where
  -- A row that is ready and has the m= is sent.
  choice-Sends :
      (pb : PendingBlock)
      → (ready_to_flush w.minute pb.block_type).0 ≡ true
      → fits_wave draining bag net_m (hit_m_of c w pb.hit) ≡ true
      → Sends pb.id (choice c w draining bag net_m pb)
  unfolding choice
  choice-Sends pb ready fit =
      rw (ready, fit)
        (by_if (Sends pb.id) (is_argon2_encoded pb.hash_str) (λ _. refl)
          (λ bare.
            let (out, made, enc, cost) =
              prepare_bare-eq w.base64_encode pb.hit (flush_salt c pb.hit) (hit_m_of c w pb.hit)
                c.time_cost c.parallelism bare in
            rw made refl))

  -- With no bound on the wave, all rows are sent, and the bag is as it was.
  choose-ids :
      (got : ℕ) (pbs : List PendingBlock) (s : Store)
      → All (λ pb. Sends pb.id (choice c w draining bag net_m pb)) pbs
      → let r = choose c w draining bag net_m 0 got pbs s in
        (r.0 ≡ s) × (map (λ (item : WorkItem). item.id) r.1 ≡ ids_of pbs)
  unfolding choose
  choose-ids got [] s a = (refl, refl)
  choose-ids got (pb ∷ pbs) s a =
      by_choice (choice c w draining bag net_m pb) a.0 (choose-ids (got + 1) pbs s a.1)
    where
      later : Store × List WorkItem
      later = choose c w draining bag net_m 0 (got + 1) pbs s

      Whole : List ℕ → Store × List WorkItem → Type 0
      Whole ids r = (r.0 ≡ s) × (map (λ (item : WorkItem). item.id) r.1 ≡ ids)

      by_choice :
          (k : Choice)
          → Sends pb.id k
          → Whole (ids_of pbs) later
          → Whole (ids_of (pb ∷ pbs)) (elim k [
            | passed ↦ choose c w draining bag net_m 0 got pbs s
            | given_up ↦ choose c w draining bag net_m 0 got pbs (mark_submitted pb.id s)
            | chosen item ↦ (later.0, item ∷ later.1)
          ])
      by_choice passed h rest = elim h [ ]
      by_choice given_up h rest = elim h [ ]
      by_choice (chosen item) h rest = (rest.0, rw (h, rest.1) refl)

accepted_of-ids :
    (w : World) (work : List WorkItem)
    → ((hit : BlockHit) → (w.answer hit).ok ≡ true)
    → accepted_of w work ≡ map (λ (item : WorkItem). item.id) work
accepted_of-ids w [] ok = refl
accepted_of-ids w (item ∷ work) ok = rw (ok item.hit, accepted_of-ids w work ok) refl

-- In the mode with a forced m=, the wave's guard agrees with the listing.
same_m :
    (c : Settings) (w : World) (s : Sup) (net_m : ℤ) (pb : PendingBlock)
    → force_mine_mode c ≡ true
    → hit_m net_m (bag_target_m c s) pb ≡ hit_m_of c w pb.hit
unfolding hit_m bag_target_m mining_difficulty force_mine_mode
same_m c w s net_m pb forced = rw forced (rw forced refl)

fits_wave-net :
    (draining : Bool) (bag net_m m : ℤ)
    → eqb_ℤ m net_m ≡ true
    → fits_wave draining bag net_m m ≡ true
unfolding fits_wave
fits_wave-net true bag net_m m e = ground (arith, e)
fits_wave-net false bag net_m m e = e

eligible-Sends :
    (c : Settings) (w : World) (s : Sup) (pb : PendingBlock)
    → force_mine_mode c ≡ true
    → eligible w.minute (flush_net_m c s) (bag_target_m c s) pb ≡ true
    → Sends pb.id (choice c w (is_draining c s) (bag_target_m c s) (flush_net_m c s) pb)
unfolding eligible matches_m
eligible-Sends c w s pb forced e =
    choice-Sends c w (is_draining c s) (bag_target_m c s) (flush_net_m c s) pb (ground (arith, e)) (
      fits_wave-net (is_draining c s) (bag_target_m c s) (flush_net_m c s) (hit_m_of c w pb.hit)
        (rw (← same_m c w s (flush_net_m c s) pb forced) (first _ _ e)))
  where
    first : (a b : Bool) → (a && b) ≡ true → a ≡ true
    first a b h = ground (arith, h)

-- The rows whose ids are not taken out.
any-take_out :
    (ok : BlockHit → Bool) (ids : List ℕ) (s t : Store)
    → contents t ≡ take_out ids (contents s)
    → any (λ (pb : PendingBlock). ok pb.hit) t.pending
      ≡ any (λ (pb : PendingBlock). not (listed pb.id ids) && ok pb.hit) s.pending
unfolding take_out
any-take_out ok ids s t e =
    any-entry t.pending
    ∙ ap (λ (b : Bag). any (λ (x : ℕ × BlockHit). ok x.1) b.blocks) e
    ∙ any-filter (λ (x : ℕ × BlockHit). ok x.1) (λ (x : ℕ × BlockHit). not (listed x.0 ids))
        (blocks_of s.pending)
    ∙ sym (any-left s.pending)
  where
    any-entry :
        (ps : List PendingBlock)
        → any (λ (pb : PendingBlock). ok pb.hit) ps
          ≡ any (λ (x : ℕ × BlockHit). ok x.1) (blocks_of ps)
    any-entry [] = refl
    any-entry (pb ∷ ps) = ground (arith, any-entry ps)

    any-left :
        (ps : List PendingBlock)
        → any (λ (pb : PendingBlock). not (listed pb.id ids) && ok pb.hit) ps
          ≡ any (λ (x : ℕ × BlockHit). not (listed x.0 ids) && ok x.1) (blocks_of ps)
    any-left [] = refl
    any-left (pb ∷ ps) = ground (arith, any-left ps)

take_out-nil : (b : Bag) → take_out [] b ≡ b
unfolding take_out
take_out-nil b =
    ap (λ (xs : List (ℕ × BlockHit)). record { blocks = xs; next = b.next }) (filter_all b.blocks)

length-ids_of : (pbs : List PendingBlock) → length (ids_of pbs) ≡ length pbs
length-ids_of [] = refl
length-ids_of (pb ∷ pbs) = omega (arith, length-ids_of pbs)

send_work-ids :
    (c : Settings) (w : World) (on_shutdown : Bool) (id x : ℕ) (ids : List ℕ)
    (pbs : List PendingBlock) (work : List WorkItem) (s : Sup)
    → ((hit : BlockHit) → (w.answer hit).ok ≡ true)
    → is_stopped on_shutdown s ≡ false
    → IsValid s.store
    → map (λ (item : WorkItem). item.id) work ≡ x ∷ ids
    → let (t, flushed) = send_work c w on_shutdown id pbs work s in
      (contents t.store ≡ take_out (x ∷ ids) (contents s.store)) × (flushed ≡ length (x ∷ ids))
unfolding send_work
send_work-ids c w on_shutdown id x ids pbs [] s ok live v e = absurd (nil_ne e)
  where
    nil_ne : ◌≡◌ {A = List ℕ} [] (x ∷ ids) → ⊥
    nil_ne h = cc
send_work-ids c w on_shutdown id x ids pbs (item ∷ work) s ok live v e = (
  wave.0
      ∙ ap (λ (xs : List ℕ). take_out xs (contents s.store))
          (accepted_of-ids w (item ∷ work) ok ∙ e),
  wave.2 ∙ ap length (accepted_of-ids w (item ∷ work) ok ∙ e),
)
  where
    wave :
        let (t, flushed) = flush_wave w on_shutdown (is_draining c s) (item ∷ work) s in
        (contents t.store ≡ take_out (accepted_of w (item ∷ work)) (contents s.store))
        × IsValid t.store
        × (flushed ≡ length (accepted_of w (item ∷ work)))
    wave = rw live at (flush_wave-contents w on_shutdown (is_draining c s) (item ∷ work) s v)

-- A wave of all rows of a list, all of them accepted.
flush_rows-ids :
    (c : Settings) (w : World) (on_shutdown : Bool) (pbs : List PendingBlock) (s : Sup)
    → ((hit : BlockHit) → (w.answer hit).ok ≡ true)
    → wave_size c on_shutdown s ≡ 0
    → is_stopped on_shutdown s ≡ false
    → IsValid s.store
    → All
        (λ pb. Sends pb.id (choice c w (is_draining c s) (bag_target_m c s) (flush_net_m c s) pb))
        pbs
    → let (t, flushed) = flush_rows c w on_shutdown pbs s in
      (contents t.store ≡ take_out (ids_of pbs) (contents s.store)) × (flushed ≡ length pbs)
unfolding flush_rows
flush_rows-ids c w on_shutdown [] s ok whole live v a =
    (sym (take_out-nil (contents s.store)), refl)
flush_rows-ids c w on_shutdown (pb ∷ pbs) s ok whole live v a =
    rw (whole, picked.0, sym (length-ids_of (pb ∷ pbs)))
      (send_work-ids c w on_shutdown pb.id pb.id (ids_of pbs) pbs _ s ok live v picked.1)
  where
    picked :
        let r =
          choose c w
            (is_draining c s)
            (bag_target_m c s)
            (flush_net_m c s)
            0
            0
            (pb ∷ pbs)
            s.store in
        (r.0 ≡ s.store) × (map (λ (item : WorkItem). item.id) r.1 ≡ ids_of (pb ∷ pbs))
    picked =
        choose-ids c w (is_draining c s) (bag_target_m c s) (flush_net_m c s) 0 (pb ∷ pbs) s.store a

-- In the mode with a forced m=, from a consistent bag, with a positive m= to flush for, and where no
-- shutdown has begun or the flush is a part of it, a flush of the whole bag that meets a pool which accepts each block takes out every row that is eligible at that m=
-- and minute: none is left, and the call reports their number.
pub flush_matching-drained :
    (c : Settings) (w : World) (on_shutdown : Bool) (s : Sup)
    → force_mine_mode c ≡ true
    → ((hit : BlockHit) → (w.answer hit).ok ≡ true)
    → wave_size c on_shutdown s ≡ 0
    → leb_ℤ (flush_net_m c s) (pos 0) ≡ false
    → is_stopped on_shutdown s ≡ false
    → IsValid s.store
    → let (t, flushed) = flush_matching c w on_shutdown s in
      let may_go = eligible w.minute (flush_net_m c s) (bag_target_m c s) in
      (any may_go t.store.pending ≡ false) × (flushed ≡ length (filter may_go s.store.pending))
unfolding flush_matching flush_list eligible matches_m hit_m
flush_matching-drained c w on_shutdown s forced ok whole positive live v =
    rw (positive, whole)
      (
        any-take_out ok_hit (ids_of listed_rows) s.store
              (flush_rows c w on_shutdown listed_rows s).0.store sent.0
            ∙ any-rest may_go (ids_of listed_rows) s.store.pending
                (λ id.
                  listed-eligible w.minute (flush_net_m c s) (bag_target_m c s)
                    s.flush_skip_before_id id s.store)
                s.store.pending (λ p e. e),
        sent.1 ∙ count,
      )
  where
    ok_hit : BlockHit → Bool
    ok_hit hit =
        eqb_ℤ
          (value_or hit.memory_cost
            (if ltb_ℤ (pos 0) (bag_target_m c s) then bag_target_m c s else flush_net_m c s))
          (flush_net_m c s)
        && (ready_to_flush w.minute hit.block_type).0

    may_go : PendingBlock → Bool
    may_go = eligible w.minute (flush_net_m c s) (bag_target_m c s)

    listed_rows : List PendingBlock
    listed_rows =
        list_flush_batch w.minute (flush_net_m c s) (bag_target_m c s) 0 s.flush_skip_before_id
          s.store

    sent :
        let (t, flushed) = flush_rows c w on_shutdown listed_rows s in
        (contents t.store ≡ take_out (ids_of listed_rows) (contents s.store))
        × (flushed ≡ length listed_rows)
    sent = flush_rows-ids c w on_shutdown listed_rows s ok whole live v (
        All-map (λ pb. may_go pb ≡ true) _ (λ pb e. eligible-Sends c w s pb forced e) listed_rows
          (list_flush_batch-InOrder w.minute (flush_net_m c s) (bag_target_m c s) 0
            s.flush_skip_before_id s.store).1)

    count : length listed_rows ≡ length (filter may_go s.store.pending)
    count =
        ap length (
          whole-eq w.minute (flush_net_m c s) (bag_target_m c s) s.flush_skip_before_id s.store
            s.store.pending refl)
        ∙ length-sort_batch (wave_order s.flush_skip_before_id may_go s.store.pending)
        ∙ length-wave_order s.flush_skip_before_id may_go s.store.pending
