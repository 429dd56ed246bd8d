-- ===== src/Supervisor/Flush/Bag.antt =====
-- What a wave of `try_flush_pending` in src/app/supervisor.cpp takes out of the bag.
use mathlib.Core.List.{append_assoc, append-nil}
use xnminer.Base.{
  ℕ, ◌≡◌, refl, sym, ap, ◌∙◌, inl, inr, Bool, List, [], ◌∷◌, ◌++◌, length, if◌then◌else◌,
  Bool-cases, eqb_ℤ, is_empty, not, ltb, ◌&&◌, pos, ◌||◌, codes, Text,
}
use xnminer.Common.{SubmitResult}
use xnminer.Store.Defs.{Store, log_rejection, mark_pending_reason}
use xnminer.Store.Invariant.{IsValid, mark_pending_reason-IsValid, mark_submitted_many-IsValid}
use xnminer.Store.History.{reasons, submitted_many, step}
use xnminer.Store.Contents.{contents, contents-step, take_out, promise}
use xnminer.Network.Submit.{is_transient_submit_failure}
use xnminer.Supervisor.State.{World, Sup}
use xnminer.Supervisor.Hits.Kept.{by_if}
use xnminer.Supervisor.Flush.{
  WorkItem, Tally, empty_tally, accept_flushed, reject_flushed, is_held, handle_one, send_one,
  rotate, remove_accepted, close_wave, flush_wave,
}
use xnminer.Supervisor.Flush.Reached.{reached, send_each, send_all-reached}

-- The ids of the blocks that the pool accepts.
abbrev pub accepted_of : World → List WorkItem → List ℕ
accepted_of w [] = []
accepted_of w (item ∷ work) =
    (if (w.answer item.hit).ok then item.id ∷ [] else []) ++ accepted_of w work

-- The bag of blocks is the same, and the accepted ids are longer by some.
record Sends (ids : List ℕ) (r t : Sup × Tally) : Type 0 where
  valid : IsValid r.0.store → IsValid t.0.store
  bag : IsValid r.0.store → contents t.0.store ≡ contents r.0.store
  accepted : t.1.accepted_ids ≡ r.1.accepted_ids ++ ids

marked :
    (item : WorkItem) (reason : Text) (s : Store)
    → IsValid s
    → contents (mark_pending_reason item.id reason s) ≡ contents s
unfolding step promise
marked item reason s v = contents-step (reasons item.id reason) s v

reject_flushed-Sends :
    (item : WorkItem) (r : SubmitResult) (s : Sup) (n : Tally)
    → Sends [] (s, n) (reject_flushed item r s, n)
unfolding reject_flushed log_rejection
reject_flushed-Sends item r s n = record {
  valid = λ v. mark_pending_reason-IsValid item.id (codes "resubmission") _ v;
  bag = λ v.
      marked item (codes "resubmission")
        (log_rejection item.hit r.status r.body (codes "flush") s.store) v;
  accepted = sym (append-nil n.accepted_ids);
}

same-Sends :
    (s t : Sup) (n m : Tally)
    → t.store ≡ s.store
    → m.accepted_ids ≡ n.accepted_ids
    → Sends [] (s, n) (t, m)
same-Sends s t n m e a = record {
  valid = λ v. rw e v;
  bag = λ v. ap contents e;
  accepted = a ∙ sym (append-nil n.accepted_ids);
}

handle_one-Sends :
    (draining : Bool) (item : WorkItem) (r : SubmitResult) (s : Sup) (n : Tally)
    → Sends (if r.ok then item.id ∷ [] else []) (s, n) (handle_one draining item r (s, n))
unfolding handle_one accept_flushed
handle_one-Sends draining item r s n = elim (Bool-cases r.ok) [
  | inl e ↦ rw e (record { valid = λ v. v; bag = λ v. refl; accepted = refl })
  | inr e ↦ rw e (
      by_if (Sends [] (s, n))
        (eqb_ℤ r.status (pos 0) || is_transient_submit_failure r.status r.body)
        (λ _. same-Sends s s n _ refl refl)
        (λ _.
          by_if (Sends [] (s, n)) (is_held r) (λ _. same-Sends s s n _ refl refl)
            (λ _. reject_flushed-Sends item r s n)))
]

Sends-trans :
    (ids more : List ℕ) (r t u : Sup × Tally)
    → Sends ids r t
    → Sends more t u
    → Sends (ids ++ more) r u
Sends-trans ids more r t u first rest = record {
  valid = λ v. rest.valid (first.valid v);
  bag = λ v. rest.bag (first.valid v) ∙ first.bag v;
  accepted =
      rest.accepted ∙ ap (λ xs. xs ++ more) first.accepted ∙ append_assoc r.1.accepted_ids ids more;
}

send_each-Sends :
    (w : World) (draining : Bool) (work : List WorkItem) (s : Sup) (n : Tally)
    → Sends (accepted_of w work) (s, n) (send_each w draining work (s, n))
unfolding send_each send_one
send_each-Sends w draining [] s n = same-Sends s s n n refl refl
send_each-Sends w draining (item ∷ work) s n =
    Sends-trans _ (accepted_of w work) (s, n) (send_one w draining item (s, n)) _
      (posted (handle_one-Sends draining item (w.answer item.hit) _ n))
      (send_each-Sends w draining work (send_one w draining item (s, n)).0
        (send_one w draining item (s, n)).1)
  where
    posted :
        Sends
          (if (w.answer item.hit).ok then item.id ∷ [] else [])
          (record s { posts = record { hit = item.hit; answer = w.answer item.hit } ∷ s.posts }, n)
          (send_one w draining item (s, n))
        → Sends
            (if (w.answer item.hit).ok then item.id ∷ [] else [])
            (s, n)
            (send_one w draining item (s, n))
    posted k = record { valid = k.valid; bag = k.bag; accepted = k.accepted }

rotate-store :
    (w : World) (on_shutdown draining : Bool) (work : List WorkItem) (n : Tally) (s : Sup)
    → (rotate w on_shutdown draining work n s).store ≡ s.store
unfolding rotate
rotate-store w on_shutdown draining [] n s = refl
rotate-store w on_shutdown draining (item ∷ work) n s =
    by_if (λ (t : Sup). t.store ≡ s.store)
      (is_empty n.accepted_ids && not on_shutdown && (ltb 0 n.holds || ltb 0 n.transients))
      (λ _. refl) (λ _. refl)

-- From a consistent bag, a wave takes exactly the blocks with the ids of the accepted items out of it, and
-- reports the number of these items: every other block stays, held back, rejected or not reached, and the
-- bag stays consistent. No item is reached where a shutdown has begun that the flush is no part of.
pub flush_wave-contents :
    (w : World) (on_shutdown draining : Bool) (work : List WorkItem) (s : Sup)
    → IsValid s.store
    → let (t, flushed) = flush_wave w on_shutdown draining work s in
      let ids = accepted_of w (reached on_shutdown s work) in
      (contents t.store ≡ take_out ids (contents s.store))
      × IsValid t.store
      × (flushed ≡ length ids)
unfolding flush_wave close_wave remove_accepted step promise
flush_wave-contents w on_shutdown draining work s v =
    rw
      (
        send_all-reached w on_shutdown draining work s empty_tally,
        rotate-store w on_shutdown draining work sent.1 (remove_accepted sent.1 sent.0),
        sends.accepted,
      )
      (
        contents-step (submitted_many ids) sent.0.store (sends.valid v)
            ∙ ap (take_out ids) (sends.bag v),
        mark_submitted_many-IsValid ids sent.0.store (sends.valid v),
        refl,
      )
  where
    ids : List ℕ
    ids = accepted_of w (reached on_shutdown s work)

    sent : Sup × Tally
    sent = send_each w draining (reached on_shutdown s work) (s, empty_tally)

    sends : Sends ids (s, empty_tally) sent
    sends = send_each-Sends w draining (reached on_shutdown s work) s empty_tally
