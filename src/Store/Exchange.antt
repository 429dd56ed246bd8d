-- ===== src/Store/Exchange.antt =====
-- `hits_to_bag_json` and `hits_from_bag_json` of src/queue/store.cpp: the hits that one miner hands to
-- another. The text of the JSON is left to the JSON library: a body is the fields that the code asks for.
use xnminer.Base.{
  ◌≡◌, refl, ap, Bool, not, ◌&&◌, Option, some, none, List, [], ◌∷◌, map, Text, is_empty, filter,
  if◌then◌else◌, Bool-cases, inl, inr,
}
use xnminer.Common.{BlockHit}
use xnminer.Store.Json.{
  Casts, Object, and_then, hit_to_json, hit_from_json, read_hit, hit_from_json-hit_to_json,
}

-- An item of a list is `none` if it is no object. `own` is the body itself, where it is an object with a
-- digest or a key.
pub record BagJson : Type 0 where
  pub worker : Option Text
  pub source : Option Text
  pub hits : Option (List (Option Object))
  pub pending : Option (List (Option Object))
  pub own : Option Object

unfoldable pub hits_to_bag_json : List BlockHit → Text → BagJson
unfolding hit_to_json
hits_to_bag_json hits worker = record {
  worker = some worker;
  source = none;
  hits = some (map (λ hit. some (hit_to_json hit)) hits);
  pending = none;
  own = none;
}

unfoldable pub is_blank : BlockHit → Bool
is_blank hit = is_empty hit.hash_str && is_empty hit.key

-- The lambda `take`, over the items of a list; `none` where reading a field throws.
unfoldable pub take_items : Casts → List (Option Object) → Option (List BlockHit)
unfolding hit_from_json is_blank
take_items k [] = some []
take_items k (none ∷ items) = take_items k items
take_items k (some item ∷ items) = and_then (hit_from_json k item) (λ hit.
    and_then (take_items k items) (λ hits. some (if is_blank hit then hits else hit ∷ hits)))

abbrev pub first_some {ℓ} : {A : Type ℓ} → Option A → Option A → Option A
first_some (some a) b = some a
first_some none b = b

abbrev pub own_item : Option Object → List (Option Object)
own_item none = []
own_item (some o) = some o ∷ []

abbrev pub items_of : Option (List (Option Object)) → List (Option Object) → List (Option Object)
items_of (some items) others = items
items_of none others = others

-- The hits, and the name of the worker if the body has one. A body that is no JSON is `none`, and so is
-- the result where reading throws.
unfoldable pub hits_from_bag_json : Casts → Option BagJson → Option (List BlockHit × Option Text)
unfolding take_items
hits_from_bag_json k none = some ([], none)
hits_from_bag_json k (some root) =
    and_then (take_items k (items_of root.hits (items_of root.pending (own_item root.own))))
      (λ hits. some (hits, first_some root.worker root.source))

abbrev full : List BlockHit → List BlockHit
full = filter (λ hit. not (is_blank hit))

take_one :
    (hit : BlockHit) (hs : List BlockHit)
    → (if is_blank (read_hit hit)
        then map read_hit (full hs)
        else read_hit hit ∷ map read_hit (full hs))
      ≡ map read_hit (full (hit ∷ hs))
unfolding is_blank read_hit
take_one hit hs = elim (Bool-cases (is_empty hit.hash_str && is_empty hit.key)) [
  | inl e ↦ rw e refl
  | inr e ↦ rw e refl
]

-- The items that `take` keeps of hits that are written.
taken :
    (k : Casts) (hs : List BlockHit)
    → take_items k (map (λ hit. some (hit_to_json hit)) hs) ≡ some (map read_hit (full hs))
unfolding take_items
taken k [] = refl
taken k (hit ∷ hs) = by_hit _ _ (hit_from_json-hit_to_json k hit) (taken k hs)
  where
    by_hit :
        (o : Option BlockHit) (rest : Option (List BlockHit))
        → o ≡ some (read_hit hit)
        → rest ≡ some (map read_hit (full hs))
        → and_then o (λ x. and_then rest (λ xs. some (if is_blank x then xs else x ∷ xs)))
          ≡ some (map read_hit (full (hit ∷ hs)))
    by_hit o rest e f = rw (e, f) (ap (λ (xs : List BlockHit). some xs) (take_one hit hs))

-- Hits that are handed over arrive in their order with all their fields and the worker's name, except those
-- with neither a digest nor a key; their attempts and memory costs are cut to 32 bits.
pub hits_from_bag_json-hits_to_bag_json :
    (k : Casts) (hits : List BlockHit) (worker : Text)
    → hits_from_bag_json k (some (hits_to_bag_json hits worker))
      ≡ some (map read_hit (filter (λ hit. not (is_blank hit)) hits), some worker)
unfolding hits_from_bag_json hits_to_bag_json
hits_from_bag_json-hits_to_bag_json k hits worker = by_taken _ (taken k hits)
  where
    by_taken :
        (o : Option (List BlockHit))
        → o ≡ some (map read_hit (full hits))
        → and_then {B = List BlockHit × Option Text} o (λ hs. some (hs, some worker))
          ≡ some (map read_hit (full hits), some worker)
    by_taken o e = rw e refl
