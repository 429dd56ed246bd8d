-- ===== src/Supervisor/Flush/Reached.antt =====
-- How far the loop over the work list of a wave gets (`try_flush_pending` of src/app/supervisor.cpp).
use xnminer.Base.{
  ◌≡◌, refl, ◌∙◌, Bool, true, false, ◌||◌, List, [], ◌∷◌, Bool-cases, inl, inr, eqb_ℤ, pos,
  if◌then◌else◌,
}
use xnminer.Common.{SubmitResult}
use xnminer.Network.Submit.{is_transient_submit_failure}
use xnminer.Supervisor.State.{World, Sup}
use xnminer.Supervisor.Hits.Kept.{by_if}
use xnminer.Supervisor.Flush.{
  WorkItem, Tally, accept_flushed, reject_flushed, is_held, handle_one, send_one, is_stopped,
  send_all,
}

-- The items that are sent: all, or none where a shutdown has begun that the flush is no part of.
abbrev pub reached : Bool → Sup → List WorkItem → List WorkItem
reached on_shutdown s work = if is_stopped on_shutdown s then [] else work

-- The loop with no break.
unfoldable pub send_each : World → Bool → List WorkItem → Sup × Tally → Sup × Tally
unfolding send_one
send_each w draining [] r = r
send_each w draining (item ∷ work) r = send_each w draining work (send_one w draining item r)

handle_one-stopped :
    (on_shutdown draining : Bool) (item : WorkItem) (r : SubmitResult) (s : Sup) (n : Tally)
    → is_stopped on_shutdown (handle_one draining item r (s, n)).0 ≡ is_stopped on_shutdown s
unfolding handle_one accept_flushed reject_flushed is_stopped
handle_one-stopped on_shutdown draining item r s n =
    by_if P r.ok (λ _. refl)
      (λ _.
        by_if P (eqb_ℤ r.status (pos 0) || is_transient_submit_failure r.status r.body) (λ _. refl)
          (λ _. by_if P (is_held r) (λ _. refl) (λ _. refl)))
  where
    P : Sup × Tally → Type 0
    P p = is_stopped on_shutdown p.0 ≡ is_stopped on_shutdown s

send_one-stopped :
    (w : World) (on_shutdown draining : Bool) (item : WorkItem) (s : Sup) (n : Tally)
    → is_stopped on_shutdown (send_one w draining item (s, n)).0 ≡ is_stopped on_shutdown s
unfolding send_one is_stopped
send_one-stopped w on_shutdown draining item s n =
    handle_one-stopped on_shutdown draining item (w.answer item.hit)
      (record s { posts = record { hit = item.hit; answer = w.answer item.hit } ∷ s.posts }) n

send_all-each :
    (w : World) (on_shutdown draining : Bool) (work : List WorkItem) (s : Sup) (n : Tally)
    → is_stopped on_shutdown s ≡ false
    → send_all w on_shutdown draining work (s, n) ≡ send_each w draining work (s, n)
unfolding send_all send_each
send_all-each w on_shutdown draining [] s n e = refl
send_all-each w on_shutdown draining (item ∷ work) s n e = rw e (
    send_all-each w on_shutdown draining work (send_one w draining item (s, n)).0
      (send_one w draining item (s, n)).1 (send_one-stopped w on_shutdown draining item s n ∙ e))

-- The loop sends the items that are reached, one after the other.
pub send_all-reached :
    (w : World) (on_shutdown draining : Bool) (work : List WorkItem) (s : Sup) (n : Tally)
    → send_all w on_shutdown draining work (s, n)
      ≡ send_each w draining (reached on_shutdown s work) (s, n)
send_all-reached w on_shutdown draining work s n = elim (Bool-cases (is_stopped on_shutdown s)) [
  | inl e ↦ rw e (at_once work e)
  | inr e ↦ rw e (send_all-each w on_shutdown draining work s n e)
]
  where
    at_once :
        (work : List WorkItem)
        → is_stopped on_shutdown s ≡ true
        → send_all w on_shutdown draining work (s, n) ≡ send_each w draining [] (s, n)
    at_once [] e = unfold send_all send_each in refl
    at_once (item ∷ work) e = unfold send_all send_each in rw e refl
