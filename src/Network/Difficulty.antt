-- ===== src/Network/Difficulty.antt =====
-- src/network/difficulty.cpp: the poll of GET /difficulty. The clock and the HTTP exchange are
-- arguments; so is the JSON library's reading of a body that is no plain number.
use xnminer.Base.{
  ℕ, ◌+◌, ℤ, pos, leb_ℤ, ltb_ℤ, Bool, true, false, Option, none, some, List, [], ◌∷◌, ◌++◌, Text,
  codes, is_empty, trim, stoi, to_string, if◌then◌else◌,
}
use xnminer.Common.{NetworkStatus}
use xnminer.Network.Submit.{HttpResponse, is_2xx}
pub mod Laws

abbrev pub or_else {ℓ} : {A : Type ℓ} → Option A → Option A → Option A
or_else none b = b
or_else (some a) b = some a

unfoldable pub accept_network_difficulty : ℤ → ℤ → ℤ
accept_network_difficulty raw fallback =
    let other = if ltb_ℤ (pos 0) fallback then fallback else pos 1100 in
    if leb_ℤ raw (pos 0) then other else if ltb_ℤ (pos 10000000) raw then other else raw

pub record Poller : Type 0 where
  pub status : NetworkStatus
  pub seq : ℕ

module _ (json_difficulty : Text → Option ℤ) where
  unfoldable pub parse_difficulty_body : Text → Option ℤ
  unfolding trim stoi
  parse_difficulty_body raw =
      let body = trim raw in
      if is_empty body then none else or_else (stoi body) (json_difficulty body)

  abbrev pub no_response : NetworkStatus
  no_response = record { ok = false; difficulty = none; error = codes "no response"; seq = 0 }

  abbrev pub answered : NetworkStatus → Option ℤ → NetworkStatus × Bool
  answered st none = (record st { error = codes "invalid difficulty body" }, false)
  answered st (some d) = (record st { ok = true; difficulty = some d; error = [] }, true)

  -- One attempt: the status so far, and whether the loop ends. An error with no text names the status.
  unfoldable pub attempt : NetworkStatus → HttpResponse → NetworkStatus × Bool
  unfolding parse_difficulty_body to_string
  attempt st r = if is_2xx r.status then answered st (parse_difficulty_body r.body) else (
    record st { error = if is_empty r.error then codes "HTTP " ++ to_string r.status else r.error },
    false,
  )

  -- The retries. Each carries whether the poller still runs when its turn comes.
  unfoldable pub retries : NetworkStatus × Bool → List (Bool × HttpResponse) → NetworkStatus
  unfolding attempt
  retries (st, done) [] = st
  retries (st, true) (r ∷ rs) = st
  retries (st, false) ((false, r) ∷ rs) = st
  retries (st, false) ((true, r) ∷ rs) = retries (attempt st r) rs

  -- `poll_once`: the first request and two retries.
  unfoldable pub poll_once :
      HttpResponse → Bool × HttpResponse → Bool × HttpResponse → Poller → NetworkStatus × Poller
  unfolding retries
  poll_once first second third p =
      let st = retries (attempt no_response first) (second ∷ third ∷ []) in
      let st' = record st { seq = p.seq + 1 } in (st', record { status = st'; seq = p.seq + 1 })
