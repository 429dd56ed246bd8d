-- ===== src/Mining/Engine/Fees.antt =====
-- The cycle of the developer's fee in src/mining/cuda_engine.cpp, over any sequence of batches.
use xnminer.Base.{
  ℕ, ◌+◌, ◌*◌, ◌≤◌, ◌≡◌, refl, ◌⊎◌, inl, inr, Bool, true, false, not, Bool-cases, List, [], ◌∷◌,
  ◌++◌, Text, length, filter, All, arith,
}
use xnminer.Common.{BlockHit}
use xnminer.Config.Load.{ServerSettings, MiningSettings}
use xnminer.Mining.Engine.{
  Engine, begin_batch, compute_allow_xuni_base, select_payout_salt, same_address,
}
use xnminer.Mining.Engine.Batch.{HashApiResult, MineBatchResult, mine_batch}
use xnminer.Mining.Engine.Stamps.{Stamped}

-- One call of `mine_batch`: whether the engine is ready, the minute, the time as a text, and what the lanes answer.
pub record Round : Type 0 where
  pub ready : Bool
  pub minute : ℕ
  pub now : Text
  pub results : List HashApiResult

-- The hits of a batch; a batch that throws has none.
abbrev pub hits_of : Text ⊎ MineBatchResult → List BlockHit
hits_of (inl error) = []
hits_of (inr out) = out.hits

unfoldable pub mine_all :
    (ℕ → ℕ → ℕ)
    → (ℕ → Bool)
    → ServerSettings
    → MiningSettings
    → List Round
    → Engine
    → List BlockHit × Engine
mine_all add_hs positive sv ms [] e = ([], e)
mine_all add_hs positive sv ms (r ∷ rs) e =
    let (o, after) = mine_batch add_hs positive sv ms r.ready r.minute r.now r.results e in
    let (hits, last) = mine_all add_hs positive sv ms rs after in (hits_of o ++ hits, last)

abbrev pub fee_count : List BlockHit → ℕ
fee_count hits = length (filter (λ h. h.fee_block) hits)

abbrev pub user_count : List BlockHit → ℕ
user_count hits = length (filter (λ h. not h.fee_block) hits)

pub counts-append :
    (hs gs : List BlockHit)
    → (fee_count (hs ++ gs) ≡ fee_count hs + fee_count gs)
      × (user_count (hs ++ gs) ≡ user_count hs + user_count gs)
counts-append [] gs = (omega arith, omega arith)
counts-append (h ∷ hs) gs = elim (Bool-cases h.fee_block) [
  | inl e ↦ let r = counts-append hs gs in rw e (omega (arith, r.0), r.1)
  | inr e ↦ let r = counts-append hs gs in rw e (r.0, omega (arith, r.1))
]

pub fee-counts :
    (e : Engine) (hs : List BlockHit)
    → e.mining_fee ≡ true
    → All (Stamped e) hs
    → (fee_count hs ≡ length hs) × (user_count hs ≡ 0)
fee-counts e [] m a = (refl, refl)
fee-counts e (h ∷ hs) m a = let r = fee-counts e hs m a.1 in rw (a.0.0, m) (omega (arith, r.0), r.1)

pub user-counts :
    (e : Engine) (hs : List BlockHit)
    → e.mining_fee ≡ false
    → All (Stamped e) hs
    → (fee_count hs ≡ 0) × (user_count hs ≡ length hs)
user-counts e [] m a = (refl, refl)
user-counts e (h ∷ hs) m a =
    let r = user-counts e hs m a.1 in rw (a.0.0, m) (r.0, omega (arith, r.1))

-- Where the cycle stands, after `users` blocks for the user and `fees` for the fee, with at most `k` a batch.
pub record InCycle (k users fees : ℕ) (e : Engine) : Type 0 where
  pub none_open : e.fee_finds_in_cycle ≡ 0
  pub closed : ℕ
  pub all_users : users ≡ closed + e.user_finds_in_cycle
  pub enough : 99 * fees ≤ k * closed
  pub few : closed ≤ (98 + k) * fees
  pub turn :
      ((e.mining_fee ≡ true) × (99 ≤ e.user_finds_in_cycle) × (e.user_finds_in_cycle ≤ 98 + k))
      ⊎ ((e.mining_fee ≡ false) × (e.user_finds_in_cycle ≤ 98))

-- The counters that `begin_batch` leaves as they are.
abbrev pub SameCounts : Engine → Engine → Type 0
SameCounts e f =
    (f.mining_fee ≡ e.mining_fee)
    × (f.user_finds_in_cycle ≡ e.user_finds_in_cycle)
    × (f.fee_finds_in_cycle ≡ e.fee_finds_in_cycle)

compute_allow_xuni_base-SameCounts :
    (ms : MiningSettings) (minute : ℕ) (e : Engine)
    → SameCounts e (compute_allow_xuni_base ms minute e).1
unfolding compute_allow_xuni_base
compute_allow_xuni_base-SameCounts ms minute e = (ground arith, ground arith, ground arith)

pub begin_batch-SameCounts :
    (sv : ServerSettings) (ms : MiningSettings) (minute : ℕ) (e : Engine)
    → sv.dev_fee ≡ true
    → same_address sv ≡ false
    → SameCounts e (begin_batch sv ms minute e)
unfolding begin_batch select_payout_salt
begin_batch-SameCounts sv ms minute e h k =
    let r = compute_allow_xuni_base-SameCounts ms minute e in
    rw (h, k) (ground (arith, r.0), ground (arith, r.1), ground (arith, r.2))
