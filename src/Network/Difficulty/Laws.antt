-- ===== src/Network/Difficulty/Laws.antt =====
-- Laws of src/network/difficulty.cpp.
use xnminer.Base.{
  ◌+◌, ℤ, pos, ◌≤ℤ◌, ◌<ℤ◌, ◌≡◌, refl, Bool, true, false, Option, none, ◌⊎◌, List, [], ◌∷◌, is_some,
  codes, Text, arith,
}
use xnminer.Common.{NetworkStatus}
use xnminer.Network.Submit.{HttpResponse}
use xnminer.Network.Difficulty.{accept_network_difficulty, Poller, poll_once, attempt, retries}

-- The m= that is taken is positive: it is the polled number if that lies in 1 to 10,000,000, and
-- otherwise the fallback if that is positive, and else 1100.
pub accept_network_difficulty_cases :
    (raw fallback : ℤ)
    → (pos 0 <ℤ accept_network_difficulty raw fallback)
      × (((pos 0 <ℤ raw) × (raw ≤ℤ pos 10000000) × (accept_network_difficulty raw fallback ≡ raw))
          ⊎ (((raw ≤ℤ pos 0) ⊎ (pos 10000000 <ℤ raw))
              × (((pos 0 <ℤ fallback) × (accept_network_difficulty raw fallback ≡ fallback))
                  ⊎ ((fallback ≤ℤ pos 0) × (accept_network_difficulty raw fallback ≡ pos 1100)))))
unfolding accept_network_difficulty
accept_network_difficulty_cases raw fallback = (ground arith, ground arith)

module _ (json_difficulty : Text → Option ℤ) where
  attempt-ok :
      (st : NetworkStatus) (r : HttpResponse)
      → st.ok ≡ is_some st.difficulty
      → (attempt json_difficulty st r).0.ok ≡ is_some (attempt json_difficulty st r).0.difficulty
  unfolding attempt
  attempt-ok st r h = ground arith

  retries-ok :
      (st : NetworkStatus) (done : Bool) (rs : List (Bool × HttpResponse))
      → st.ok ≡ is_some st.difficulty
      → (retries json_difficulty (st, done) rs).ok
        ≡ is_some (retries json_difficulty (st, done) rs).difficulty
  unfolding retries
  retries-ok st done [] h = h
  retries-ok st true (r ∷ rs) h = h
  retries-ok st false ((false, r) ∷ rs) h = h
  retries-ok st false ((true, r) ∷ rs) h =
      retries-ok (attempt json_difficulty st r).0 (attempt json_difficulty st r).1 rs
        (attempt-ok st r h)

  -- What a poll stores is what it returns, under the next sequence number; it is ok exactly when it
  -- has an m=, whichever of the three attempts gave it.
  pub poll_once_lem :
      (first : HttpResponse) (second third : Bool × HttpResponse) (p : Poller)
      → let (st, q) = poll_once json_difficulty first second third p in
        (q.status ≡ st)
        × (st.seq ≡ p.seq + 1)
        × (q.seq ≡ p.seq + 1)
        × (st.ok ≡ is_some st.difficulty)
  unfolding poll_once
  poll_once_lem first second third p = (
    refl,
    refl,
    refl,
    retries-ok (attempt json_difficulty no_status first).0
        (attempt json_difficulty no_status first).1 (second ∷ third ∷ [])
        (attempt-ok no_status first refl),
  )
    where
      no_status : NetworkStatus
      no_status = record { ok = false; difficulty = none; error = codes "no response"; seq = 0 }
