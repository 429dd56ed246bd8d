-- ===== src/Mining/Engine/Payout.antt =====
-- Who is paid for the hits of a batch (`select_payout_salt` and `hit_from_match` of
-- src/mining/cuda_engine.cpp).
use xnminer.Base.{
  ℕ, ◌≡◌, refl, ◌⊎◌, inl, inr, Bool, true, false, not, ◌||◌, Bool-cases, List, Text, All, All-map,
  arith,
}
use xnminer.Common.{BlockHit}
use xnminer.Config.Load.{ServerSettings, MiningSettings}
use xnminer.Mining.Engine.{
  Engine, dev_fee_address, salt_hex_from_address, same_address, select_payout_salt, begin_batch,
  compute_allow_xuni_base,
}
use xnminer.Mining.Engine.Batch.{HashApiResult, MineBatchResult, run_batch, mine_batch}
use xnminer.Mining.Engine.Stamps.{Stamped, Mines, run_batch-Mines}
use xnminer.Mining.Engine.Fees.{hits_of}

-- A block of the fee goes to the developer's address under its salt, and there is one only where the
-- fee is on and the user has another address; any other goes to the user's address under its salt.
abbrev pub Paid : ServerSettings → Bool → Text → Text → Type 0
Paid sv fee account salt =
    ((fee ≡ true)
      × (sv.dev_fee ≡ true)
      × (same_address sv ≡ false)
      × (account ≡ dev_fee_address)
      × (salt ≡ salt_hex_from_address dev_fee_address))
    ⊎ ((fee ≡ false) × (account ≡ sv.address) × (salt ≡ salt_hex_from_address sv.address))

select_payout_salt-Paid :
    (sv : ServerSettings) (e : Engine)
    → let f = select_payout_salt sv e in Paid sv f.mining_fee f.active_payout f.active_salt
unfolding select_payout_salt
select_payout_salt-Paid sv e = elim (Bool-cases (not sv.dev_fee || same_address sv)) [
  | inl off ↦ rw off (inr (refl, refl, refl))
  | inr on ↦ elim (Bool-cases e.mining_fee) [
    | inl fee ↦ rw (on, fee) (inl (refl, ground (arith, on), ground (arith, on), refl, refl))
    | inr user ↦ rw (on, user) (inr (refl, refl, refl))
  ]
]

begin_batch-Paid :
    (sv : ServerSettings) (ms : MiningSettings) (minute : ℕ) (e : Engine)
    → let b = begin_batch sv ms minute e in Paid sv b.mining_fee b.active_payout b.active_salt
unfolding begin_batch
begin_batch-Paid sv ms minute e =
    let (allow, seen) = compute_allow_xuni_base ms minute e in
    select_payout_salt-Paid sv (record seen { last_allow_xuni = allow })

Stamped-Paid :
    (sv : ServerSettings) (b : Engine)
    → Paid sv b.mining_fee b.active_payout b.active_salt
    → (h : BlockHit) → Stamped b h
    → Paid sv h.fee_block h.payout_account h.salt_hex
Stamped-Paid sv b p h s = rw (s.0, s.1, s.2) p

Mines-Paid :
    (sv : ServerSettings) (b : Engine) (n : ℕ) (r : (Text ⊎ MineBatchResult) × Engine)
    → Paid sv b.mining_fee b.active_payout b.active_salt
    → Mines sv b n r
    → All (λ h. Paid sv h.fee_block h.payout_account h.salt_hex) (hits_of r.0)
Mines-Paid sv b n (inl error, e) p m = tt
Mines-Paid sv b n (inr out, e) p m =
    All-map (Stamped b) (λ h. Paid sv h.fee_block h.payout_account h.salt_hex) (Stamped-Paid sv b p)
      out.hits m.0

-- Each hit of a batch that is marked as the fee's is paid to the developer's address under its salt,
-- and there is one only where the fee is on and the user does not mine under that salt; each other hit
-- is paid to the user's address under the user's salt.
pub mine_batch-Paid :
    (add_hs : ℕ → ℕ → ℕ) (positive : ℕ → Bool) (sv : ServerSettings) (ms : MiningSettings)
    (ready : Bool) (minute : ℕ) (now : Text) (results : List HashApiResult) (e : Engine)
    → All
        (λ h. Paid sv h.fee_block h.payout_account h.salt_hex)
        (hits_of (mine_batch add_hs positive sv ms ready minute now results e).0)
unfolding mine_batch
mine_batch-Paid add_hs positive sv ms ready minute now results e = elim (Bool-cases ready) [
  | inl on ↦ rw on (
      Mines-Paid sv (begin_batch sv ms minute e) _
        (run_batch add_hs positive sv ms minute now results e) (begin_batch-Paid sv ms minute e)
        (run_batch-Mines add_hs positive sv ms minute now results e))
  | inr off ↦ rw off tt
]
