-- ===== src/Network/Submit/Laws.antt =====
-- How the verdicts on an answer to POST /verify (src/network/submitter.cpp) exclude one another.
use xnminer.Base.{ℤ, pos, ◌≡◌, ◌≢◌, refl, true, false, not, [], ◌∷◌, Text, is_space, any, arith}
use xnminer.Network.Submit.{
  lower, mentions, is_2xx, submit_accepted, is_difficulty_mismatch, is_pool_shed,
  is_xuni_window_reject, is_transient_submit_failure, is_pool_hold, counts_as_reject,
}

-- An empty 401 or 429 (a shed) is a hold, and neither a wrong m= nor a reject.
pub shed-hold :
    (status : ℤ) (body : Text)
    → is_pool_shed status body ≡ true
    → (is_pool_hold status body ≡ true)
      × (is_difficulty_mismatch status body ≡ false)
      × (counts_as_reject status body ≡ false)
unfolding is_pool_shed is_pool_hold counts_as_reject
shed-hold status body h = (ground arith, ground arith, ground arith)

-- An answer that counts as a reject has a status other than 0, 401, 403 and 429, and not of the 2xx.
pub counts_as_reject_status :
    (status : ℤ) (body : Text)
    → counts_as_reject status body ≡ true
    → (status ≢ pos 0)
      × (status ≢ pos 401)
      × (status ≢ pos 403)
      × (status ≢ pos 429)
      × (is_2xx status ≡ false)
unfolding counts_as_reject submit_accepted is_transient_submit_failure is_pool_hold
counts_as_reject_status status body h =
    (λ e. ground arith, λ e. ground arith, λ e. ground arith, λ e. ground arith, ground arith)

lower-lower : (s : Text) → lower (lower s) ≡ lower s
lower-lower [] = refl
lower-lower (c ∷ s) = ground (arith, lower-lower s)

mentions-lower : (s t : Text) → mentions (lower s) t ≡ mentions s t
unfolding mentions
mentions-lower s t = rw (lower-lower s) refl

blank-lower : (s : Text) → any (λ c. not (is_space c)) (lower s) ≡ any (λ c. not (is_space c)) s
blank-lower [] = refl
blank-lower (c ∷ s) = ground (arith, blank-lower s)

-- Whether an answer is accepted, a wrong m=, a shed, a hold or a reject does not depend on the case of
-- the letters in the body.
pub verdicts-lower :
    (status : ℤ) (body : Text)
    → (submit_accepted status (lower body) ≡ submit_accepted status body)
      × (is_difficulty_mismatch status (lower body) ≡ is_difficulty_mismatch status body)
      × (is_pool_shed status (lower body) ≡ is_pool_shed status body)
      × (is_pool_hold status (lower body) ≡ is_pool_hold status body)
      × (counts_as_reject status (lower body) ≡ counts_as_reject status body)
unfolding submit_accepted is_difficulty_mismatch is_pool_shed is_pool_hold counts_as_reject
    is_xuni_window_reject is_transient_submit_failure
verdicts-lower status body = (
  simp mentions-lower,
  simp mentions-lower,
  simp (mentions-lower, blank-lower),
  simp mentions-lower,
  simp mentions-lower,
)
