-- ===== src/Mining/Prepare.antt =====
-- `prepare_hit_for_submit` of src/mining/argon2_encode.cpp: what a hit must be before it is submitted.
use xnminer.Base.{
  ℕ, ◌^◌, ◌%◌, ◌<◌, ◌≡◌, refl, sym, ap, ◌∙◌, ℤ, pos, eqb_ℤ, Bool, true, false, not, Option, none,
  some, List, [], ◌∷◌, ◌++◌, Text, codes, contains, starts_with, to_decimal, if◌then◌else◌,
  Bool-cases, inl, inr, arith,
}
use xnminer.Common.{BlockHit}
use xnminer.Mining.Classify.{classify_block, classify_block_twice}
use xnminer.Mining.Encode.{
  hex_to_bytes, is_argon2_encoded, memory_cost_from_hash, encode_argon2id_phc, to_uint32,
  memory_cost_from_hash-encode, encode-encoded,
}

-- `block_m && *block_m != memory_cost`
unfoldable pub other_cost : Option ℤ → ℤ → Bool
other_cost none m = false
other_cost (some b) m = not (eqb_ℤ b m)

module _ (base64_encode : List ℕ → Text) where
  unfoldable pub prepare_hit_for_submit : BlockHit → Text → ℤ → ℤ → ℤ → Option BlockHit
  unfolding other_cost to_uint32
  prepare_hit_for_submit hit salt_hex memory_cost time_cost parallelism =
      let encoded =
        encode_argon2id_phc base64_encode salt_hex (to_uint32 memory_cost) (to_uint32 time_cost)
          (to_uint32 parallelism) hit.hash_str in
      if is_argon2_encoded hit.hash_str
      then (if other_cost (memory_cost_from_hash hit.hash_str) memory_cost
          then none
          else some (record hit { block_type = classify_block hit.hash_str hit.block_type }))
      else if not (contains encoded hit.hash_str)
      then none
      else some (record hit {
        hash_str = encoded;
        block_type = classify_block encoded hit.block_type;
        memory_cost = some memory_cost;
      })

starts_with_refl : (s : Text) → starts_with s s ≡ true
unfolding starts_with
starts_with_refl [] = refl
starts_with_refl (c ∷ s) = ground (arith, starts_with_refl s)

contains_refl : (s : Text) → contains s s ≡ true
unfolding contains
contains_refl [] = refl
contains_refl (c ∷ s) = ground (arith, starts_with_refl (c ∷ s))

contains-append : (r s t : Text) → contains s t ≡ true → contains (r ++ s) t ≡ true
unfolding contains
contains-append [] s t h = h
contains-append (c ∷ r) s t h = ground (arith, contains-append r s t)

module _ (base64_encode : List ℕ → Text) where
  -- The digest stands at the end of its encoding.
  contains-encode :
      (salt_hex : Text) (m t p : ℕ) (h : Text)
      → contains (encode_argon2id_phc base64_encode salt_hex m t p h) h ≡ true
  unfolding encode_argon2id_phc
  contains-encode salt_hex m t p h = at (codes "$argon2id$v=19$m=") _ (
      at (to_decimal m) _ (
        at (codes ",t=") _ (
          at (to_decimal t) _ (
            at (codes ",p=") _ (
              at (to_decimal p) _ (
                at (codes "$") _ (
                  at (base64_encode (hex_to_bytes salt_hex)) _
                    (at (codes "$") h (contains_refl h)))))))))
    where
      at : (r s : Text) → contains s h ≡ true → contains (r ++ s) h ≡ true
      at r s e = contains-append r s h e

  -- What the preparation of a bare digest gives, at any cost.
  pub prepare_bare-eq :
      (hit : BlockHit) (salt_hex : Text) (m t p : ℤ)
      → is_argon2_encoded hit.hash_str ≡ false
      → (out : BlockHit) × (prepare_hit_for_submit base64_encode hit salt_hex m t p ≡ some out)
        × (is_argon2_encoded out.hash_str ≡ true)
        × (out.memory_cost ≡ some m)
  unfolding prepare_hit_for_submit
  prepare_bare-eq hit salt_hex m t p bare = (
    record hit {
      hash_str = encoded;
      block_type = classify_block encoded hit.block_type;
      memory_cost = some m;
    },
    rw (bare, contains-encode salt_hex (to_uint32 m) (to_uint32 t) (to_uint32 p) hit.hash_str) refl,
    encode-encoded base64_encode salt_hex (to_uint32 m) (to_uint32 t) (to_uint32 p) hit.hash_str,
    refl,
  )
    where
      encoded : Text
      encoded =
          encode_argon2id_phc base64_encode salt_hex (to_uint32 m) (to_uint32 t) (to_uint32 p)
            hit.hash_str

  -- A bare digest is never filtered out: preparing it always succeeds, and gives a block that is
  -- encoded, keeps the key, carries the memory cost in its field, and has the same cost written in
  -- its text, provided that the cost fits an `int`.
  pub prepare_bare :
      (hit : BlockHit) (salt_hex : Text) (m : ℕ) (t p : ℤ)
      → is_argon2_encoded hit.hash_str ≡ false
      → m < 2 ^ 31
      → (out : BlockHit) × (prepare_hit_for_submit base64_encode hit salt_hex (pos m) t p
          ≡ some out)
        × (is_argon2_encoded out.hash_str ≡ true)
        × (memory_cost_from_hash out.hash_str ≡ some (pos m))
        × (out.memory_cost ≡ some (pos m))
        × (out.key ≡ hit.key)
  unfolding prepare_hit_for_submit
  prepare_bare hit salt_hex m t p bare small = (
    record hit {
      hash_str = encoded;
      block_type = classify_block encoded hit.block_type;
      memory_cost = some (pos m);
    },
    rw (bare, contains-encode salt_hex (m % 2 ^ 32) (to_uint32 t) (to_uint32 p) hit.hash_str) refl,
    written.0,
    written.1 ∙ ap some (ap pos (omega arith)),
    refl,
    refl,
  )
    where
      encoded : Text
      encoded =
          encode_argon2id_phc base64_encode salt_hex (m % 2 ^ 32) (to_uint32 t) (to_uint32 p)
            hit.hash_str

      written :
          (is_argon2_encoded encoded ≡ true)
          × (memory_cost_from_hash encoded ≡ some (pos (m % 2 ^ 32)))
      written =
          memory_cost_from_hash-encode base64_encode salt_hex (m % 2 ^ 32) (to_uint32 t)
            (to_uint32 p) hit.hash_str (omega arith)

  -- A block that is prepared already comes back unchanged.
  prepare_prepared :
      (out : BlockHit) (salt_hex : Text) (m : ℕ) (t p : ℤ)
      → is_argon2_encoded out.hash_str ≡ true
      → other_cost (memory_cost_from_hash out.hash_str) (pos m) ≡ false
      → classify_block out.hash_str out.block_type ≡ out.block_type
      → prepare_hit_for_submit base64_encode out salt_hex (pos m) t p ≡ some out
  unfolding prepare_hit_for_submit
  prepare_prepared out salt_hex m t p enc same kind = rw (enc, same, kind) refl

  prepared_facts :
      (hit out : BlockHit) (salt_hex : Text) (m : ℕ) (t p : ℤ)
      → m < 2 ^ 31
      → prepare_hit_for_submit base64_encode hit salt_hex (pos m) t p ≡ some out
      → (is_argon2_encoded out.hash_str ≡ true)
        × (other_cost (memory_cost_from_hash out.hash_str) (pos m) ≡ false)
        × (classify_block out.hash_str out.block_type ≡ out.block_type)
  unfolding prepare_hit_for_submit
  prepared_facts hit out salt_hex m t p small h =
      elim (Bool-cases (is_argon2_encoded hit.hash_str)) [
        | inl enc ↦ (
          ground arith,
          ground arith,
          ground (arith, classify_block_twice hit.hash_str hit.block_type),
        )
        | inr bare ↦
            let (o, made, enc, cost, field, key) = prepare_bare hit salt_hex m t p bare small in
            let e : some o ≡ some out = sym made ∙ h in
            (
              ground arith,
              ground arith,
              ground (
                arith,
                classify_block_twice
                    (encode_argon2id_phc base64_encode salt_hex (to_uint32 (pos m)) (to_uint32 t)
                      (to_uint32 p) hit.hash_str)
                    hit.block_type,
              ),
            )
      ]

  -- A prepared block that is prepared once more at the same cost stays as it is, whatever the salt and
  -- the other costs are then.
  pub prepare_twice :
      (hit out : BlockHit) (salt_hex salt_hex' : Text) (m : ℕ) (t p t' p' : ℤ)
      → m < 2 ^ 31
      → prepare_hit_for_submit base64_encode hit salt_hex (pos m) t p ≡ some out
      → prepare_hit_for_submit base64_encode out salt_hex' (pos m) t' p' ≡ some out
  prepare_twice hit out salt_hex salt_hex' m t p t' p' small h =
      prepare_prepared out salt_hex' m t' p' facts.0 facts.1 facts.2
    where
      facts :
          (is_argon2_encoded out.hash_str ≡ true)
          × (other_cost (memory_cost_from_hash out.hash_str) (pos m) ≡ false)
          × (classify_block out.hash_str out.block_type ≡ out.block_type)
      facts = prepared_facts hit out salt_hex m t p small h

  -- Whatever is prepared is encoded.
  pub prepare-encoded :
      (hit out : BlockHit) (salt_hex : Text) (m t p : ℤ)
      → prepare_hit_for_submit base64_encode hit salt_hex m t p ≡ some out
      → is_argon2_encoded out.hash_str ≡ true
  unfolding prepare_hit_for_submit
  prepare-encoded hit out salt_hex m t p h = elim (Bool-cases (is_argon2_encoded hit.hash_str)) [
    | inl enc ↦ ground arith
    | inr bare ↦
        let (o, made, enc, cost) = prepare_bare-eq hit salt_hex m t p bare in
        let e : some o ≡ some out = sym made ∙ h in ground arith
  ]
