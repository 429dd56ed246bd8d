-- ===== src/Common.antt =====
-- src/common.hpp: the records that the parts of the miner exchange. A `double` that the code only
-- copies is kept as its bit pattern, a number; an `int` or `int64_t` is a ℤ where it may be negative.
use xnminer.Base.{
  ℕ, suc, ◌+◌, ℤ, pos, ◌≡◌, Bool, true, false, Option, none, some, Text, codes, text_eq, arith,
  if◌then◌else◌,
}
pub mod Stats

pub record BlockHit : Type 0 where
  pub key : Text
  pub hash_str : Text
  pub block_type : Text
  pub attempts : ℤ
  pub strategy : Text
  pub hps : ℕ
  pub found_at : Text
  pub memory_cost : Option ℤ
  pub payout_account : Text
  pub salt_hex : Text
  pub fee_block : Bool

-- The body and the time of a response are texts; `latency_ms` is only shown.
pub record NetworkStatus : Type 0 where
  pub ok : Bool
  pub difficulty : Option ℤ
  pub error : Text
  pub seq : ℕ

pub record SubmitResult : Type 0 where
  pub ok : Bool
  pub status : ℤ
  pub body : Text
