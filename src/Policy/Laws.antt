-- ===== src/Policy/Laws.antt =====
-- Laws of src/queue/policy.cpp: how the three XUNI windows lie in one another, and which blocks wait.
use xnminer.Base.{ℕ, ◌<◌, ◌≤◌, ◌≡◌, false, not, ◌&&◌, ◌==◌, Text, codes, text_eq_iff, arith, ◌↔◌}
use xnminer.Policy.{
  in_xuni_window, in_xuni_submit_window, in_xuni_taper_window, ready_to_flush, upper_case,
}

-- The mining window is the submit window without minute 55, and the taper minute lies in both.
pub xuni_windows :
    (m : ℕ)
    → (in_xuni_window m ≡ (in_xuni_submit_window m && not (m == 55)))
      × ((in_xuni_taper_window m && in_xuni_window m) ≡ in_xuni_taper_window m)
unfolding in_xuni_window in_xuni_submit_window in_xuni_taper_window
xuni_windows m = (ground arith, ground arith)

-- A block waits exactly when its type is XUNI in any case and the minute is in 5 to 54.
pub ready_to_flush-eq-false_iff :
    (m : ℕ) (t : Text)
    → ((ready_to_flush m t).0 ≡ false) ↔ ((upper_case t ≡ codes "XUNI") × (5 ≤ m) × (m < 55))
unfolding ready_to_flush in_xuni_submit_window
ready_to_flush-eq-false_iff m t =
    let (to, from) = text_eq_iff (upper_case t) (codes "XUNI") in
    (λ h. (to (ground arith), ground arith, ground arith), λ h. ground (arith, from h.0))
