-- ===== src/Mining/Encode.antt =====
-- src/mining/argon2_encode.cpp: the PHC text of a hash. The base64 encoder of the hash library is an
-- argument.
use xnminer.Base.{
  is_empty, ℕ, ◌+◌, ◌-◌, ◌*◌, ◌%◌, ◌^◌, ◌<◌, ◌≡◌, refl, ap, ℤ, pos, negsuc, Bool, true, false, not,
  ◌&&◌, Option, none, some, List, [], ◌∷◌, ◌++◌, Text, codes, starts_with, is_xdigit, is_digit, any,
  length, drop, digits_value, fit_int, drop_digits, to_decimal, digits_value-to_decimal,
  drop_digits-to_decimal, leb, ◌==◌, if◌then◌else◌, arith,
}

unfoldable pub is_hex64_key : Text → Bool
is_hex64_key key = length key == 64 && not (any (λ c. not (is_xdigit c)) key)

unfoldable pub is_argon2_encoded : Text → Bool
is_argon2_encoded hash_str = starts_with hash_str (codes "$argon2")

unfoldable pub nibble : ℕ → Option ℕ
nibble c =
    if is_digit c
    then some (c - b'0')
    else if leb b'a' c && leb c b'f'
    then some (c - b'a' + 10)
    else if leb b'A' c && leb c b'F'
    then some (c - b'A' + 10)
    else none

abbrev pub byte_of : Option ℕ → Option ℕ → Option ℕ
byte_of (some hi) (some lo) = some (hi * 16 + lo)
byte_of _ _ = none

abbrev pub more_bytes : Option ℕ → List ℕ → List ℕ
more_bytes none rest = []
more_bytes (some b) rest = b ∷ rest

-- Pairs of digits, up to the first that is none; an odd last digit is passed over.
unfoldable pub hex_to_bytes : Text → List ℕ
unfolding nibble
hex_to_bytes [] = []
hex_to_bytes (c ∷ []) = []
hex_to_bytes (c ∷ d ∷ s) = more_bytes (byte_of (nibble c) (nibble d)) (hex_to_bytes s)

-- `static_cast<uint32_t>` of an `int`
unfoldable pub to_uint32 : ℤ → ℕ
to_uint32 (pos n) = n % 2 ^ 32
to_uint32 (negsuc n) = 2 ^ 32 - 1 - n % 2 ^ 32

-- What `(\d+),` matches at the front: the reading of the group as an `int`.
unfoldable pub match_cost : Text → Option (Option ℤ)
match_cost s = elim (digits_value none s) [
  | none ↦ none
  | some n ↦ if starts_with (drop_digits s) (codes ",") then some (fit_int false (some n)) else none
]

abbrev pub first_match {ℓ} : {A : Type ℓ} → Option A → Option A → Option A
first_match (some a) later = some a
first_match none later = later

-- `regex_search(s, "\$m=(\d+),")`: the first match.
unfoldable pub search_cost : Text → Option (Option ℤ)
unfolding starts_with
search_cost [] = none
search_cost (c ∷ s) =
    let here = if starts_with (c ∷ s) (codes "$m=") then match_cost (drop 2 s) else none in
    first_match here (search_cost s)

abbrev pub flat {ℓ} : {A : Type ℓ} → Option (Option A) → Option A
flat none = none
flat (some a) = a

unfoldable pub memory_cost_from_hash : Text → Option ℤ
unfolding is_argon2_encoded search_cost
memory_cost_from_hash hash_str =
    if is_argon2_encoded hash_str then flat (search_cost hash_str) else none

match_cost-to_decimal :
    (m : ℕ) (r : Text) → m < 2 ^ 31 → match_cost (to_decimal m ++ b',' ∷ r) ≡ some (some (pos m))
unfolding match_cost fit_int starts_with digits_value drop_digits
match_cost-to_decimal m r small =
    rw (digits_value-to_decimal m (b',' ∷ r), match_cost, drop_digits-to_decimal m (b',' ∷ r))
      (ground arith)

search_cost-prefix :
    (r : Text) {v : Option ℤ}
    → match_cost r ≡ some v
    → search_cost (codes "$argon2id$v=19$m=" ++ r) ≡ some v
unfolding search_cost
search_cost-prefix r e = rw e refl

module _ (base64_encode : List ℕ → Text) where
  unfoldable pub encode_argon2id_phc : Text → ℕ → ℕ → ℕ → Text → Text
  unfolding to_decimal
  encode_argon2id_phc salt_hex memory_cost time_cost parallelism pure_b64_hash =
      codes "$argon2id$v=19$m="
      ++ (to_decimal memory_cost
          ++ (codes ",t="
              ++ (to_decimal time_cost
                  ++ (codes ",p="
                      ++ (to_decimal parallelism
                          ++ (codes "$"
                              ++ (base64_encode (hex_to_bytes salt_hex)
                                  ++ (codes "$" ++ pure_b64_hash))))))))

  pub encode-encoded :
      (salt_hex : Text) (m t p : ℕ) (h : Text)
      → is_argon2_encoded (encode_argon2id_phc salt_hex m t p h) ≡ true
  unfolding encode_argon2id_phc is_argon2_encoded starts_with
  encode-encoded salt_hex m t p h = refl

  -- An encoded text is recognised, and the memory cost is read back from it, whatever the salt, the
  -- other costs and the digest are, provided that it fits an `int`.
  pub memory_cost_from_hash-encode :
      (salt_hex : Text) (m t p : ℕ) (h : Text)
      → m < 2 ^ 31
      → (is_argon2_encoded (encode_argon2id_phc salt_hex m t p h) ≡ true)
        × (memory_cost_from_hash (encode_argon2id_phc salt_hex m t p h) ≡ some (pos m))
  unfolding encode_argon2id_phc memory_cost_from_hash
  memory_cost_from_hash-encode salt_hex m t p h small =
      (refl, ap flat (search_cost-prefix _ (match_cost-to_decimal m _ small)))

pub encoded-nonempty : (h : Text) → is_argon2_encoded h ≡ true → is_empty h ≡ false
unfolding is_argon2_encoded starts_with
encoded-nonempty [] e = cc
encoded-nonempty (x ∷ h) e = refl
