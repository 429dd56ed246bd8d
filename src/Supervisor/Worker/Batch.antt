-- ===== src/Supervisor/Worker/Batch.antt =====
-- What the submit worker of src/app/supervisor.cpp does with the batch that it takes from the live
-- queue, for the digests that are saved.
use xnminer.Base.{
  ℕ, suc, ◌≡◌, refl, sym, Bool, true, false, not, ◌||◌, List, [], ◌∷◌, Text, codes, text_eq,
  eq_of_text_eq, is_empty, any, arith, Bool-cases, inl, inr,
}
use xnminer.Store.Invariant.{IsValid}
use xnminer.Supervisor.State.{
  Settings, World, Sup, LiveSubmitJob, bag_only, should_store, verify_ready_to_push,
}
use xnminer.Supervisor.Hits.{bag_jobs, sync_stats}
use xnminer.Supervisor.Hits.Kept.{
  saved, Grows, Grows-refl, Grows-trans, Handles, queue_hit-Handles, enqueue-Handles, by_if,
}
use xnminer.Supervisor.Hits.Live.{process_live_submit-Handles, verify_ready-Grows}
use xnminer.Supervisor.Worker.{queue_jobs, process_jobs, sync_batch, dispose_batch}

-- A job of the list is for a hit of the digest.
abbrev pub waiting : Text → List LiveSubmitJob → Bool
waiting h = any (λ job. text_eq job.hit.hash_str h)

-- The digest is in the live queue, in the bag, or accepted by the pool.
abbrev pub tracked : Text → Sup → Bool
tracked h s = waiting h s.live_submit_q || saved h s

-- What the disposal of a batch does: nothing saved is lost, and the batch is saved where storing is on.
pub record Disposes (c : Settings) (batch : List LiveSubmitJob) (s t : Sup) : Type 0 where
  pub grows : Grows s t
  pub kept :
      should_store c ≡ true
      → (h : Text) → is_empty h ≡ false
      → IsValid s.store
      → waiting h batch ≡ true
      → saved h t ≡ true

pub saved-Grows : (s t : Sup) → Grows s t → (h : Text) → saved h s ≡ true → saved h t ≡ true
saved-Grows s t g h e = ground (arith, e, g.rows h, g.posts h)

Disposes-nil : (c : Settings) (s : Sup) → Disposes c [] s s
Disposes-nil c s = record { grows = Grows-refl s; kept = λ _ h _ _ e. ground (arith, e) }

Disposes-cons :
    (c : Settings) (job : LiveSubmitJob) (jobs : List LiveSubmitJob) (s t u : Sup)
    → Handles c job.hit s t
    → Disposes c jobs t u
    → Disposes c (job ∷ jobs) s u
Disposes-cons c job jobs s t u k d = record {
  grows = Grows-trans k.grows d.grows;
  kept = λ on h n v e. elim (Bool-cases (text_eq job.hit.hash_str h)) [
    | inl q ↦ saved-Grows t u d.grows h (
        rw (sym (eq_of_text_eq job.hit.hash_str h q))
          (k.kept on (rw (eq_of_text_eq job.hit.hash_str h q) n) v))
    | inr q ↦ d.kept on h n (k.grows.valid v) (ground (arith, e, q))
  ];
}

Disposes-then :
    (c : Settings) (jobs : List LiveSubmitJob) (s t u : Sup)
    → Grows s t
    → Disposes c jobs t u
    → Disposes c jobs s u
Disposes-then c jobs s t u g d = record {
  grows = Grows-trans g d.grows;
  kept = λ on h n v e. d.kept on h n (g.valid v) e;
}

pub bag_jobs-Disposes :
    (c : Settings) (reason : Text) (jobs : List LiveSubmitJob) (s : Sup)
    → Disposes c jobs s (bag_jobs reason jobs s)
unfolding bag_jobs
bag_jobs-Disposes c reason [] s = Disposes-nil c s
bag_jobs-Disposes c reason (job ∷ jobs) s =
    Disposes-cons c job jobs s _ _ (enqueue-Handles c job.hit reason s _ refl refl refl)
      (bag_jobs-Disposes c reason jobs _)

queue_jobs-Disposes :
    (c : Settings) (reason : Text) (jobs : List LiveSubmitJob) (s : Sup)
    → Disposes c jobs s (queue_jobs reason jobs s)
unfolding queue_jobs
queue_jobs-Disposes c reason [] s = Disposes-nil c s
queue_jobs-Disposes c reason (job ∷ jobs) s =
    Disposes-cons c job jobs s _ _ (queue_hit-Handles c job.hit job.kind reason s)
      (queue_jobs-Disposes c reason jobs _)

process_jobs-Disposes :
    (c : Settings) (ws : ℕ → World) (jobs : List LiveSubmitJob) (s : Sup)
    → Disposes c jobs s (process_jobs c ws jobs s)
unfolding process_jobs
process_jobs-Disposes c ws [] s = Disposes-nil c s
process_jobs-Disposes c ws (job ∷ jobs) s =
    Disposes-cons c job jobs s _ _ (process_live_submit-Handles c (ws 0) job.hit job.kind s)
      (process_jobs-Disposes c (λ i. ws (suc i)) jobs _)

sync_batch-Disposes :
    (c : Settings) (jobs batch : List LiveSubmitJob) (s t : Sup)
    → Disposes c jobs s t
    → Disposes c jobs s (sync_batch batch t)
unfolding sync_batch sync_stats
sync_batch-Disposes c jobs batch s t d =
    by_if (Disposes c jobs s) (is_empty batch) (λ _. d)
      (λ _. record {
        grows = record {
          queue = d.grows.queue;
          valid = d.grows.valid;
          rows = d.grows.rows;
          posts = d.grows.posts;
        };
        kept = d.kept;
      })

drop-Disposes :
    (c : Settings) (jobs : List LiveSubmitJob) (s t : Sup)
    → Grows s t
    → should_store c ≡ false
    → Disposes c jobs s t
drop-Disposes c jobs s t g e = record { grows = g; kept = λ on h n v k. ground (arith, on, e) }

pub dispose_batch-Disposes :
    (c : Settings) (ws : ℕ → World) (batch : List LiveSubmitJob) (s : Sup)
    → Disposes c batch s (dispose_batch c ws batch s)
unfolding dispose_batch
dispose_batch-Disposes c ws batch s =
    by_if (Disposes c batch s) s.shutting_down
      (λ _. sync_batch-Disposes c batch batch s _ (bag_jobs-Disposes c _ batch s))
      (λ _.
        by_if (Disposes c batch s) (bag_only c || s.match_drain_active)
          (λ _. sync_batch-Disposes c batch batch s _ (bag_jobs-Disposes c _ batch s))
          (λ _.
            by_if (Disposes c batch s) (is_empty batch) (λ e. nothing batch e)
              (λ _.
                by_if (Disposes c batch s) (not ready.1)
                  (λ _.
                    by_if (Disposes c batch s) (should_store c)
                      (λ _.
                        Disposes-then c batch s _ _ (verify_ready-Grows (ws 0) s)
                          (queue_jobs-Disposes c (codes "network_down") batch ready.0))
                      (λ e. drop-Disposes c batch s _ (verify_ready-Grows (ws 0) s) e))
                  (λ _.
                    Disposes-then c batch s _ _ (verify_ready-Grows (ws 0) s)
                      (process_jobs-Disposes c (λ i. ws (suc i)) batch ready.0)))))
  where
    ready : Sup × Bool
    ready = verify_ready_to_push (ws 0) s

    nothing : (jobs : List LiveSubmitJob) → is_empty jobs ≡ true → Disposes c jobs s s
    nothing [] e = Disposes-nil c s
    nothing (job ∷ jobs) e = ground (arith, e)
