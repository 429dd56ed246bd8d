-- ===== src/Mining/Engine.antt =====
-- The logic of src/mining/cuda_engine.cpp around the GPU: whose blocks a batch mines, and whether it
-- looks for XUNI. What becomes of the answers of the lanes is in the module below.
use xnminer.Base.{
  ℕ, ◌+◌, ◌-◌, ◌*◌, ◌%◌, ℤ, pos, pos_part, Bool, true, false, not, ◌&&◌, ◌||◌, ◌⊎◌, inl, inr,
  Option, none, some, List, [], ◌∷◌, ◌++◌, map, Text, codes, text_eq, is_empty, length, ltb, leb,
  ◌==◌, ltb_ℤ, leb_ℤ, max_ℤ, max, if◌then◌else◌, starts_with, drop,
}
use xnminer.Common.{BlockHit}
use xnminer.Policy.{in_xuni_window, in_xuni_taper_window}
use xnminer.Config.Load.{ServerSettings, MiningSettings}
pub mod Batch
pub mod Stamps
pub mod Fees
pub mod Cycle
pub mod Share
pub mod Payout
pub mod Windows

abbrev pub dev_fee_address : Text
dev_fee_address = codes "0x739f7feC65196EE6351072fEFc5d319EF62FB831"

abbrev pub dev_fee_pct : ℕ
dev_fee_pct = 1

-- `Settings::salt_hex_from_address`
unfoldable pub salt_hex_from_address : Text → Text
unfolding starts_with
salt_hex_from_address addr =
    if leb 3 (length addr) && (starts_with addr (codes "0x") || starts_with addr (codes "0X"))
    then drop 2 addr
    else addr

-- What `CudaEngine` keeps from one batch to the next; `batch_seq_`, an `int`, is taken as unbounded.
pub record Engine : Type 0 where
  pub difficulty : ℤ
  pub pending_xuni : ℤ
  pub pending_xnm : ℤ
  pub pending_xblk : ℤ
  pub batch_seq : ℕ
  pub xuni_queue_paused : Bool
  pub last_allow_xuni : Bool
  pub mining_fee : Bool
  pub user_finds_in_cycle : ℕ
  pub fee_finds_in_cycle : ℕ
  pub active_payout : Text
  pub active_salt : Text
  pub last_hashrate : ℕ

unfoldable pub set_queue_counts : ℤ → ℤ → ℤ → Engine → Engine
unfolding max_ℤ
set_queue_counts xuni xnm xblk e = record e {
  pending_xuni = max_ℤ (pos 0) xuni;
  pending_xnm = max_ℤ (pos 0) xnm;
  pending_xblk = max_ℤ (pos 0) xblk;
}

-- The hysteresis between the soft cap and the count at which XUNI is taken up again.
unfoldable pub pause : ℤ → ℤ → ℤ → Bool → Bool
pause soft resume pending paused =
    if leb_ℤ soft pending then true else if paused && leb_ℤ pending resume then false else paused

-- Of how many batches one looks for XUNI.
unfoldable pub every : MiningSettings → ℕ → ℕ
unfolding in_xuni_taper_window max_ℤ
every ms minute =
    let n = pos_part (max_ℤ (pos 1) ms.xuni_every_n_batches) in
    if in_xuni_taper_window minute then max (n * 3) 6 else n

-- `m` divides `n`; an `m` of 0 does not occur.
abbrev pub divides : ℕ → ℕ → Bool
divides m n = (n % m) == 0

unfoldable pub compute_allow_xuni_base : MiningSettings → ℕ → Engine → Bool × Engine
unfolding in_xuni_window pause every max_ℤ
compute_allow_xuni_base ms minute e =
    let paused =
      pause (max_ℤ (pos 0) ms.xuni_queue_soft_cap) (max_ℤ (pos 0) ms.xuni_queue_resume)
        e.pending_xuni e.xuni_queue_paused in
    let seen = record e { xuni_queue_paused = paused } in
    if not ms.xuni_mining_enabled
    then (false, e)
    else if not (in_xuni_window minute)
    then (false, record e { xuni_queue_paused = false })
    else if paused || leb_ℤ ms.xuni_max_lanes (pos 0)
    then (false, seen)
    else (divides (every ms minute) (e.batch_seq + 1), record seen { batch_seq = e.batch_seq + 1 })

-- The user mines for the address that gets the fee.
unfoldable pub same_address : ServerSettings → Bool
unfolding text_eq salt_hex_from_address
same_address sv =
    not (is_empty sv.address)
    && text_eq (salt_hex_from_address dev_fee_address) (salt_hex_from_address sv.address)

abbrev pub pay_user : ServerSettings → Engine → Engine
pay_user sv e = record e {
  active_payout = sv.address;
  active_salt = salt_hex_from_address sv.address;
}

unfoldable pub select_payout_salt : ServerSettings → Engine → Engine
unfolding same_address salt_hex_from_address
select_payout_salt sv e =
    if not sv.dev_fee || same_address sv
    then pay_user sv (record e { mining_fee = false })
    else if e.mining_fee
    then record e {
      active_payout = dev_fee_address;
      active_salt = salt_hex_from_address dev_fee_address;
    }
    else pay_user sv e

unfoldable pub stamp_and_count_hits : ServerSettings → List BlockHit → Engine → Engine
stamp_and_count_hits sv hits e =
    let fees = e.fee_finds_in_cycle + length hits in
    let finds = e.user_finds_in_cycle + length hits in
    if is_empty hits || not sv.dev_fee
    then e
    else if e.mining_fee
    then (if leb dev_fee_pct fees
        then record e { mining_fee = false; user_finds_in_cycle = 0; fee_finds_in_cycle = 0 }
        else record e { fee_finds_in_cycle = fees })
    else record e {
      user_finds_in_cycle = finds;
      mining_fee = leb (100 - dev_fee_pct) finds || e.mining_fee;
    }

-- What happens before the GPU is asked: the test for XUNI, and whose batch it is.
unfoldable pub begin_batch : ServerSettings → MiningSettings → ℕ → Engine → Engine
unfolding compute_allow_xuni_base select_payout_salt
begin_batch sv ms minute e =
    let (allow, seen) = compute_allow_xuni_base ms minute e in
    select_payout_salt sv (record seen { last_allow_xuni = allow })
