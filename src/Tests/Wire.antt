-- ===== src/Tests/Wire.antt =====
-- The theorems on the pool's protocol, the blocks and the policy at concrete inputs.
use xnminer.Base.{
  ℕ, ◌++◌, ◌∷◌, ◌≡◌, refl, ◌⊎◌, ◌↔◌, ◌≤◌, ◌<◌, true, false, pos, ◌≤ℤ◌, ◌<ℤ◌, some, List, [], Text,
  codes, starts_with, digits_value, drop_digits, fit_int, text_eq, trim, contains, arith,
}
use xnminer.Common.{BlockHit}
use xnminer.Policy.{ready_to_flush, upper_case}
use xnminer.Policy.Laws.{ready_to_flush-eq-false_iff}
use xnminer.Mining.Classify.{classify_block, has_xuni, is_superblock, uppercase_count, normal_type}
use xnminer.Mining.Classify.Superblock.{classify_block-xblk_iff}
use xnminer.Mining.Encode.{match_cost, is_argon2_encoded, memory_cost_from_hash}
use xnminer.Mining.Prepare.{prepare_hit_for_submit, prepare_bare, prepare_twice}
use xnminer.Network.Submit.{HttpResponse}
use xnminer.Network.Difficulty.{accept_network_difficulty}
use xnminer.Network.Difficulty.Laws.{accept_network_difficulty_cases}
use xnminer.Tests.Data.{hit_a, hit_encoded}

ready_to_flush-eq-false_iff_example :
    ((ready_to_flush 30 (codes "xuni")).0 ≡ false)
    ↔ ((upper_case (codes "xuni") ≡ codes "XUNI") × (5 ≤ 30) × (30 < 55))
ready_to_flush-eq-false_iff_example = ready_to_flush-eq-false_iff 30 (codes "xuni")

-- A stand-in for the encoder of the hash library.
abbrev base64 : List ℕ → Text
base64 bytes = codes "JA"

prepare_bare_example :
    (out : BlockHit) × (prepare_hit_for_submit base64 hit_a (codes "24") (pos 100) (pos 1) (pos 1)
      ≡ some out)
    × (is_argon2_encoded out.hash_str ≡ true)
    × (memory_cost_from_hash out.hash_str ≡ some (pos 100))
    × (out.memory_cost ≡ some (pos 100))
    × (out.key ≡ hit_a.key)
unfolding is_argon2_encoded starts_with
prepare_bare_example = prepare_bare base64 hit_a (codes "24") 100 (pos 1) (pos 1) refl (omega arith)

prepare_twice_example :
    prepare_hit_for_submit base64 hit_encoded (codes "25") (pos 100) (pos 2) (pos 2)
    ≡ some hit_encoded
unfolding prepare_hit_for_submit is_argon2_encoded starts_with memory_cost_from_hash match_cost
    digits_value drop_digits fit_int classify_block text_eq trim has_xuni contains is_superblock
prepare_twice_example =
    prepare_twice base64 hit_encoded hit_encoded (codes "24") (codes "25") 100 (pos 1) (pos 1)
      (pos 2) (pos 2) (omega arith) refl

abbrev created : HttpResponse
created = record { status = pos 201; body = codes "100"; error = [] }

accept_network_difficulty_cases_example :
    (pos 0 <ℤ accept_network_difficulty (pos 0) (pos 100))
    × (((pos 0 <ℤ pos 0)
          × (pos 0 ≤ℤ pos 10000000)
          × (accept_network_difficulty (pos 0) (pos 100) ≡ pos 0))
        ⊎ (((pos 0 ≤ℤ pos 0) ⊎ (pos 10000000 <ℤ pos 0))
            × (((pos 0 <ℤ pos 100) × (accept_network_difficulty (pos 0) (pos 100) ≡ pos 100))
                ⊎ ((pos 100 ≤ℤ pos 0) × (accept_network_difficulty (pos 0) (pos 100) ≡ pos 1100)))))
accept_network_difficulty_cases_example = accept_network_difficulty_cases (pos 0) (pos 100)

abbrev digest : Text
digest = codes "abXEN11cd"

classify_block-xblk_iff_example :
    let hash = b'$' ∷ codes "argon2id$v=19$m=100,t=1,p=1$c2FsdA" ++ (b'$' ∷ digest) in
    (classify_block hash (codes "xnm") ≡ codes "XBLK")
    ↔ ((contains hash (codes "XEN11") ≡ true) × (50 ≤ uppercase_count digest))
unfolding has_xuni starts_with normal_type trim
classify_block-xblk_iff_example =
    classify_block-xblk_iff (codes "argon2id$v=19$m=100,t=1,p=1$c2FsdA") digest (codes "xnm")
      (refl, (refl, (refl, (refl, (refl, (refl, (refl, (refl, (refl, tt))))))))) refl (λ h. cc)
      (λ h. cc)
