-- ===== src/Store/Json.antt =====
-- `hit_to_json` and `hit_from_json` of src/queue/store.cpp: the fields of a hit in a JSON object, and what a
-- missing field or one of another type does. The text of an object is left to the JSON library.
use xnminer.Base.{
  ℕ, ℤ, pos, ◌≡◌, refl, ap, ◌∙◌, Bool, true, false, Option, none, some, List, [], ◌∷◌, ◌++◌, Text,
  codes, text_eq, to_int32, if◌then◌else◌,
}
use mathlib.Core.Option
use xnminer.Common.{BlockHit}

-- A value: a text, a whole number, a double as its bit pattern, a switch, null, or a list or an object.
pub data Json : Type 0 where
  text : Text → Json
  whole : ℤ → Json
  real : ℕ → Json
  switch : Bool → Json
  null compound : Json

abbrev pub Object : Type 0
Object = List (Text × Json)

-- The casts between a double and a whole number that the library makes.
pub record Casts : Type 0 where
  pub int_of_double : ℕ → ℤ
  pub double_of_int : ℤ → ℕ

unfoldable pub field : Text → Object → Option Json
unfolding text_eq
field name [] = none
field name ((n, v) ∷ o) = if text_eq n name then some v else field name o

-- What reading a value as a type gives, `none` where it throws.
abbrev pub as_text : Json → Option Text
as_text (text t) = some t
as_text v = none

abbrev pub as_int : Casts → Json → Option ℤ
as_int k (whole n) = some (to_int32 n)
as_int k (real r) = some (to_int32 (k.int_of_double r))
as_int k (switch b) = some (if b then pos 1 else pos 0)
as_int k v = none

abbrev pub as_double : Casts → Json → Option ℕ
as_double k (real r) = some r
as_double k (whole n) = some (k.double_of_int n)
as_double k v = none

abbrev pub as_bool : Json → Option Bool
as_bool (switch b) = some b
as_bool v = none

-- `j.value(name, d)`
abbrev pub value {ℓ} : {A : Type ℓ} → (Json → Option A) → A → Option Json → Option A
value read d none = some d
value read d (some v) = read v

-- The memory cost, which may also be null.
abbrev pub cost : Casts → Option Json → Option (Option ℤ)
cost k none = some none
cost k (some null) = some none
cost k (some v) = elim (as_int k v) [ none ↦ none | some n ↦ some (some n) ]

abbrev pub and_then {ℓ κ} : {A : Type ℓ} {B : Type κ} → Option A → (A → Option B) → Option B
and_then none f = none
and_then (some a) f = f a

abbrev pub cost_field : Option ℤ → Object
cost_field none = []
cost_field (some m) = (codes "memory_cost", whole m) ∷ []

abbrev pub text_field : Text → Text → Object
text_field name [] = []
text_field name (c ∷ t) = (name, text (c ∷ t)) ∷ []

abbrev pub fee_field : Bool → Object
fee_field false = []
fee_field true = (codes "fee_block", switch true) ∷ []

unfoldable pub hit_to_json : BlockHit → Object
hit_to_json hit =
    (codes "key", text hit.key)
    ∷ (codes "hash_str", text hit.hash_str)
    ∷ (codes "block_type", text hit.block_type)
    ∷ (codes "strategy", text hit.strategy)
    ∷ (codes "attempts", whole hit.attempts)
    ∷ (codes "hps", real hit.hps)
    ∷ (codes "found_at", text hit.found_at)
    ∷ (cost_field hit.memory_cost
        ++ (text_field (codes "payout_account") hit.payout_account
            ++ (text_field (codes "salt_hex") hit.salt_hex ++ fee_field hit.fee_block)))

-- 0 is the bit pattern of 0.0; the attempts have an `int` as their default and are read as one.
unfoldable pub hit_from_json : Casts → Object → Option BlockHit
unfolding field
hit_from_json k j = and_then (value as_text [] (field (codes "key") j)) (λ key.
    and_then (value as_text [] (field (codes "hash_str") j)) (λ hash_str.
      and_then (value as_text (codes "XNM") (field (codes "block_type") j)) (λ block_type.
        and_then (value as_text (codes "random") (field (codes "strategy") j)) (λ strategy.
          and_then (value (as_int k) (pos 0) (field (codes "attempts") j)) (λ attempts.
            and_then (value (as_double k) 0 (field (codes "hps") j)) (λ hps.
              and_then (value as_text [] (field (codes "found_at") j)) (λ found_at.
                and_then (cost k (field (codes "memory_cost") j)) (λ memory_cost.
                  and_then (value as_text [] (field (codes "payout_account") j)) (λ payout.
                    and_then (value as_text [] (field (codes "salt_hex") j)) (λ salt.
                      and_then (value as_bool false (field (codes "fee_block") j)) (λ fee.
                        some (record {
                          key = key;
                          hash_str = hash_str;
                          block_type = block_type;
                          attempts = attempts;
                          strategy = strategy;
                          hps = hps;
                          found_at = found_at;
                          memory_cost = memory_cost;
                          payout_account = payout;
                          salt_hex = salt;
                          fee_block = fee;
                        }))))))))))))

-- A hit as it is read again: its two whole numbers have gone through a 32-bit `int`.
unfoldable pub read_hit : BlockHit → BlockHit
read_hit hit = record hit {
  attempts = to_int32 hit.attempts;
  memory_cost = Option.map to_int32 hit.memory_cost;
}

skip_cost :
    (name : Text) (m : Option ℤ) (o : Object)
    → text_eq (codes "memory_cost") name ≡ false
    → field name (cost_field m ++ o) ≡ field name o
unfolding field
skip_cost name none o e = refl
skip_cost name (some m) o e = rw e refl

skip_text :
    (name other t : Text) (o : Object)
    → text_eq other name ≡ false
    → field name (text_field other t ++ o) ≡ field name o
unfolding field
skip_text name other [] o e = refl
skip_text name other (c ∷ t) o e = rw e refl

no_fee :
    (name : Text) (fee : Bool)
    → text_eq (codes "fee_block") name ≡ false
    → field name (fee_field fee) ≡ none
unfolding field
no_fee name false e = refl
no_fee name true e = rw e refl

own_text :
    (name t : Text) (o : Object)
    → text_eq name name ≡ true
    → field name o ≡ none
    → value as_text [] (field name (text_field name t ++ o)) ≡ some t
unfolding field
own_text name [] o e n = rw n refl
own_text name (c ∷ t) o e n = rw e refl

own_cost :
    (k : Casts) (m : Option ℤ) (o : Object)
    → field (codes "memory_cost") o ≡ none
    → cost k (field (codes "memory_cost") (cost_field m ++ o)) ≡ some (Option.map to_int32 m)
unfolding field text_eq
own_cost k none o n = rw n refl
own_cost k (some m) o n = refl

own_fee : (fee : Bool) → value as_bool false (field (codes "fee_block") (fee_field fee)) ≡ some fee
unfolding field text_eq
own_fee false = refl
own_fee true = refl

-- The end of the reading, where the first seven fields are those of the hit.
last_four :
    (hit : BlockHit) (m? : Option (Option ℤ)) (payout? salt? : Option Text) (fee? : Option Bool)
    → m? ≡ some (Option.map to_int32 hit.memory_cost)
    → payout? ≡ some hit.payout_account
    → salt? ≡ some hit.salt_hex
    → fee? ≡ some hit.fee_block
    → and_then m? (λ memory_cost. and_then payout? (λ payout. and_then salt? (λ salt.
      and_then fee? (λ fee. some (record hit {
        attempts = to_int32 hit.attempts;
        memory_cost = memory_cost;
        payout_account = payout;
        salt_hex = salt;
        fee_block = fee;
      })))))
      ≡ some (read_hit hit)
unfolding read_hit
last_four hit m? payout? salt? fee? a b c d = rw (a, b, c, d) refl

-- Every field that is written is read back under its name, and the fields left out have the default
-- that stands for them.
pub hit_from_json-hit_to_json :
    (k : Casts) (hit : BlockHit) → hit_from_json k (hit_to_json hit) ≡ some (read_hit hit)
unfolding hit_from_json hit_to_json read_hit text_eq field
hit_from_json-hit_to_json k hit = last_four hit _ _ _ _ cost_read payout_read salt_read fee_read
  where
    fees : Object
    fees = fee_field hit.fee_block

    salts : Object
    salts = text_field (codes "salt_hex") hit.salt_hex ++ fees

    payouts : Object
    payouts = text_field (codes "payout_account") hit.payout_account ++ salts

    costs : Object
    costs = cost_field hit.memory_cost ++ payouts

    cost_read :
        cost k (field (codes "memory_cost") costs) ≡ some (Option.map to_int32 hit.memory_cost)
    cost_read = own_cost k hit.memory_cost payouts (
        skip_text (codes "memory_cost") (codes "payout_account") hit.payout_account salts refl
        ∙ skip_text (codes "memory_cost") (codes "salt_hex") hit.salt_hex fees refl
        ∙ no_fee (codes "memory_cost") hit.fee_block refl)

    payout_read : value as_text [] (field (codes "payout_account") costs) ≡ some hit.payout_account
    payout_read =
        ap (value as_text []) (skip_cost (codes "payout_account") hit.memory_cost payouts refl)
        ∙ own_text (codes "payout_account") hit.payout_account salts refl (
            skip_text (codes "payout_account") (codes "salt_hex") hit.salt_hex fees refl
            ∙ no_fee (codes "payout_account") hit.fee_block refl)

    salt_read : value as_text [] (field (codes "salt_hex") costs) ≡ some hit.salt_hex
    salt_read =
        ap (value as_text []) (
          skip_cost (codes "salt_hex") hit.memory_cost payouts refl
          ∙ skip_text (codes "salt_hex") (codes "payout_account") hit.payout_account salts refl)
        ∙ own_text (codes "salt_hex") hit.salt_hex fees refl
            (no_fee (codes "salt_hex") hit.fee_block refl)

    fee_read : value as_bool false (field (codes "fee_block") costs) ≡ some hit.fee_block
    fee_read =
        ap (value as_bool false) (
          skip_cost (codes "fee_block") hit.memory_cost payouts refl
          ∙ skip_text (codes "fee_block") (codes "payout_account") hit.payout_account salts refl
          ∙ skip_text (codes "fee_block") (codes "salt_hex") hit.salt_hex fees refl)
        ∙ own_fee hit.fee_block
