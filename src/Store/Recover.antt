-- ===== src/Store/Recover.antt =====
-- A start that rebuilds the store from queue.jsonl.
use xnminer.Base.{
  ℕ, ◌+◌, ◌≤◌, ◌≡◌, refl, Bool, true, false, Option, none, some, List, [], ◌∷◌, text_eq,
  text_eq_comm, eq_of_text_eq, any-append, max, Bool-cases, inl, inr, arith, All, is_some,
  if◌then◌else◌,
}
use xnminer.Store.Defs.{
  PendingBlock, DbFile, no_pending, QueueLine, QueueRecord, no_object, object, unreadable,
  Rejection, Store, save_db, absent, discarded,
}
use xnminer.Store.Distinct.{
  has_id, Below-mono, append-Below, snoc-DistinctIds, snoc-DistinctHashes, has_id-Below,
}
use xnminer.Store.Invariant.{IsValid}
use xnminer.Common.{BlockHit}
use xnminer.Store.Json.{Casts, and_then, hit_from_json}
use xnminer.Store.Load.{
  read_next_id, is_known, save_if, recover_id, recover_row, recover_line, recover_lines,
  recover_jsonl, empty_store, load,
}

-- The id of a recovered row is positive and new.
recover_id_fresh :
    (id? : Option ℕ) (s : Store)
    → IsValid s
    → (1 ≤ recover_id id? s) × (has_id (recover_id id? s) s.pending ≡ false)
unfolding recover_id
recover_id_fresh none s v = ground (arith, has_id-Below s.next_id s.pending v.fresh, v.counted)
recover_id_fresh (some id) s v = ground (arith, has_id-Below s.next_id s.pending v.fresh, v.counted)

recover_row-IsValid :
    (line : QueueLine) (hit : BlockHit) (s : Store)
    → IsValid s
    → is_known hit s ≡ false
    → IsValid (recover_row line hit s)
unfolding recover_row is_known
recover_row-IsValid line hit s v new = record {
  counted = omega (arith, v.counted);
  fresh =
      append-Below next s.pending (pb ∷ [])
        (Below-mono s.next_id next s.pending (omega arith) v.fresh) ((fresh.0, omega arith), tt);
  ids = snoc-DistinctIds pb s.pending fresh.1 v.ids;
  hashes = snoc-DistinctHashes pb s.pending (ground (arith, v.indexed hit.hash_str)) v.hashes;
  indexed = λ x n. ground (
    arith,
    v.indexed x n,
    any-append (λ (y : PendingBlock). text_eq y.hash_str x) s.pending (pb ∷ []),
    text_eq_comm x hit.hash_str,
    eq_of_text_eq hit.hash_str x,
  );
}
  where
    fresh : (1 ≤ recover_id line.id s) × (has_id (recover_id line.id s) s.pending ≡ false)
    fresh = recover_id_fresh line.id s v

    next : ℕ
    next = max s.next_id (recover_id line.id s + 1)

    pb : PendingBlock
    pb = record {
      id = recover_id line.id s;
      hit = hit;
      queue_reason = line.queue_reason;
      reject_count = line.reject_count;
      forwarded = false;
    }

-- The lines can be read: none has a field of a wrong type.
abbrev pub Readable : Casts → QueueRecord → Type 0
Readable k no_object = Unit {0}
Readable k (object line) = is_some (hit_from_json k line.hit) ≡ true
Readable k (unreadable o) = ⊥

-- A result that is well formed, if there is one; and there is one where the lines can be read.
abbrev Fine : Type 0 → Option (Store × Bool) → Type 0
Fine readable none = readable → ⊥
Fine readable (some r) = IsValid r.0

false_ne : ◌≡◌ {A = Bool} false true → ⊥
false_ne h = cc

recover_line-Fine :
    (k : Casts) (line : QueueRecord) (s : Store) (added : Bool)
    → IsValid s
    → Fine (Readable k line) (recover_line k line (s, added))
unfolding recover_line
recover_line-Fine k no_object s added v = v
recover_line-Fine k (object line) s added v = by_hit (hit_from_json k line.hit)
  where
    by_hit :
        (o : Option BlockHit)
        → Fine (is_some o ≡ true) (
            and_then o
              (λ hit. some (if is_known hit s then (s, added) else (recover_row line hit s, true))))
    by_hit none = λ h. false_ne h
    by_hit (some hit) = elim (Bool-cases (is_known hit s)) [
      | inl e ↦ rw e v
      | inr e ↦ rw e (recover_row-IsValid line hit s v e)
    ]
recover_line-Fine k (unreadable o) s added v = by_hit (hit_from_json k o)
  where
    by_hit :
        (h : Option BlockHit)
        → Fine ⊥ (and_then h (λ hit. if is_known hit s then some (s, added) else none))
    by_hit none = λ h. h
    by_hit (some hit) = elim (Bool-cases (is_known hit s)) [
      | inl e ↦ rw e v
      | inr e ↦ rw e (λ h. h)
    ]

recover_lines-Fine :
    (k : Casts) (lines : List QueueRecord) (s : Store) (added : Bool)
    → IsValid s
    → Fine (All (Readable k) lines) (recover_lines k lines (s, added))
unfolding recover_lines
recover_lines-Fine k [] s added v = v
recover_lines-Fine k (line ∷ lines) s added v =
    by_line (recover_line k line (s, added)) (recover_line-Fine k line s added v)
      (λ t b f. recover_lines-Fine k lines t b f)
  where
    weaker :
        (o : Option (Store × Bool))
        → Fine (All (Readable k) lines) o
        → Fine (All (Readable k) (line ∷ lines)) o
    weaker none f = λ h. f h.1
    weaker (some r) f = f

    by_line :
        (o : Option (Store × Bool))
        → Fine (Readable k line) o
        → ((t : Store) (b : Bool)
            → IsValid t
            → Fine (All (Readable k) lines) (recover_lines k lines (t, b)))
        → Fine (All (Readable k) (line ∷ lines)) (and_then o (λ t. recover_lines k lines t))
    by_line none f rest = λ h. f h.0
    by_line (some (t, b)) f rest = weaker (recover_lines k lines (t, b)) (rest t b f)

-- A start from the lines ends with a well-formed store or throws, and does not throw where they can be read.
abbrev pub Starts : Type 0 → Option Store → Type 0
Starts readable none = readable → ⊥
Starts readable (some s) = IsValid s

recover_jsonl-Starts :
    (k : Casts) (s : Store) → IsValid s → Starts (All (Readable k) s.jsonl) (recover_jsonl k s)
unfolding recover_jsonl
recover_jsonl-Starts k s v =
    by_lines (recover_lines k s.jsonl (s, false)) (recover_lines-Fine k s.jsonl s false v)
  where
    by_lines :
        (o : Option (Store × Bool))
        → Fine (All (Readable k) s.jsonl) o
        → Starts (All (Readable k) s.jsonl) (and_then o (λ r. some (save_if r)))
    by_lines none f = f
    by_lines (some (t, true)) f =
        unfold save_db in
        record {
          counted = f.counted;
          fresh = f.fresh;
          ids = f.ids;
          hashes = f.hashes;
          indexed = f.indexed;
        }
    by_lines (some (t, false)) f = f

-- When blocks.db is missing, is no JSON, or has no list of rows under a `next_id` that is positive as an
-- `int`, the start finds a well-formed store in the lines of queue.jsonl, or it throws; it does not throw
-- where no line has a field of a wrong type.
pub load_jsonl-IsValid :
    (k : Casts) (n : ℕ) (jsonl : List QueueRecord) (rejected : List Rejection)
    → 1 ≤ read_next_id n
    → Starts (All (Readable k) jsonl) (load k absent jsonl rejected)
      × Starts (All (Readable k) jsonl) (load k discarded jsonl rejected)
      × Starts (All (Readable k) jsonl) (load k (no_pending n) jsonl rejected)
unfolding load
load_jsonl-IsValid k n jsonl rejected h = (
  valid absent 1 (omega arith),
  valid discarded 1 (omega arith),
  valid (no_pending n) (read_next_id n) h,
)
  where
    begin : DbFile → ℕ → Store
    begin db next = record (empty_store db jsonl rejected) { next_id = next }

    valid :
        (db : DbFile) (next : ℕ)
        → 1 ≤ next
        → Starts (All (Readable k) jsonl) (recover_jsonl k (begin db next))
    valid db next p =
        recover_jsonl-Starts k (begin db next)
          (record { counted = p; fresh = tt; ids = tt; hashes = tt; indexed = λ x e. refl })
