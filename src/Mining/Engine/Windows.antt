-- ===== src/Mining/Engine/Windows.antt =====
-- When a batch looks for XUNI (`compute_allow_xuni_base` of src/mining/cuda_engine.cpp), over several calls.
use xnminer.Base.{
  ℕ, zero, suc, ◌+◌, ◌-◌, ◌*◌, ◌/◌, ◌%◌, ◌≤◌, ◌<◌, ℤ, pos, ◌≡◌, refl, ap, ◌∙◌, Bool, true, false,
  List, Bool-cases, inl, inr, [], ◌∷◌, All, leb_ℤ, max_ℤ, arith,
}
use native.Mathlib.Nat.{mul-mod_right, mod-lt, mod-add-div, mul-add}
use xnminer.Config.Load.{MiningSettings}
use xnminer.Policy.{in_xuni_window, in_xuni_taper_window}
use xnminer.Mining.Engine.{Engine, pause, every, divides, set_queue_counts, compute_allow_xuni_base}

-- The engine after `n` calls within one minute.
unfoldable pub asked : ℕ → MiningSettings → ℕ → Engine → Engine
asked zero ms minute e = e
asked (suc n) ms minute e = asked n ms minute (compute_allow_xuni_base ms minute e).1

-- Nothing but the count of batches keeps a batch from looking for XUNI.
abbrev pub Quiet : MiningSettings → ℕ → Engine → Type 0
Quiet ms minute e =
    (ms.xuni_mining_enabled ≡ true)
    × (in_xuni_window minute ≡ true)
    × (e.xuni_queue_paused ≡ false)
    × (leb_ℤ (max_ℤ (pos 0) ms.xuni_queue_soft_cap) e.pending_xuni ≡ false)
    × (leb_ℤ ms.xuni_max_lanes (pos 0) ≡ false)

compute_allow_xuni_base-Quiet :
    (ms : MiningSettings) (minute : ℕ) (e : Engine)
    → Quiet ms minute e
    → compute_allow_xuni_base ms minute e ≡ (
      divides (every ms minute) (e.batch_seq + 1),
      record e { xuni_queue_paused = false; batch_seq = e.batch_seq + 1 },
    )
unfolding compute_allow_xuni_base pause
compute_allow_xuni_base-Quiet ms minute e q = rw (q.0, q.1, q.2, q.3, q.4) refl

compute_allow_xuni_base-asked :
    (n : ℕ) (ms : MiningSettings) (minute : ℕ) (e : Engine)
    → Quiet ms minute e
    → (compute_allow_xuni_base ms minute (asked n ms minute e)).0
      ≡ divides (every ms minute) (e.batch_seq + (n + 1))
unfolding asked
compute_allow_xuni_base-asked zero ms minute e q =
    rw (compute_allow_xuni_base-Quiet ms minute e q) refl
compute_allow_xuni_base-asked (suc n) ms minute e q =
    rw (compute_allow_xuni_base-Quiet ms minute e q) (
      compute_allow_xuni_base-asked n ms minute
        (record e { xuni_queue_paused = false; batch_seq = e.batch_seq + 1 })
        (q.0, q.1, refl, q.3, q.4)
      ∙ ap (divides (every ms minute)) (omega arith))

-- Of any `m` numbers in a row, one is a multiple of `m`.
next_multiple : (m s : ℕ) → 1 ≤ m → (n : ℕ) × (n < m) × (divides m (s + (n + 1)) ≡ true)
next_multiple m s h =
    (m - 1 - s % m, omega (arith, h, mod-lt s h), rw (here, mul-mod_right m (s / m + 1)) refl)
  where
    here : s + (m - 1 - s % m + 1) ≡ m * (s / m + 1)
    here = omega (arith, h, mod-lt s h, mod-add-div s m, mul-add m (s / m) 1)

every-positive : (ms : MiningSettings) (minute : ℕ) → 1 ≤ every ms minute
unfolding every max_ℤ in_xuni_taper_window
every-positive ms minute = ground arith

-- Within the window, with XUNI on, a lane for it, the queue below the soft cap and not paused, one of
-- any `every` calls in a row lets its batch look for XUNI.
pub asked-allows :
    (ms : MiningSettings) (minute : ℕ) (e : Engine)
    → Quiet ms minute e
    → (n : ℕ) × (n < every ms minute)
      × ((compute_allow_xuni_base ms minute (asked n ms minute e)).0 ≡ true)
asked-allows ms minute e q =
    let (n, less, d) = next_multiple (every ms minute) e.batch_seq (every-positive ms minute) in
    (n, less, rw (compute_allow_xuni_base-asked n ms minute e q) d)

-- A call that follows a report of how many XUNI are queued.
pub record Report : Type 0 where
  pub minute : ℕ
  pub xuni : ℤ
  pub xnm : ℤ
  pub xblk : ℤ

unfoldable pub ask_all : MiningSettings → List Report → Engine → List Bool
ask_all ms [] e = []
ask_all ms (r ∷ rs) e =
    let (allow, after) =
      compute_allow_xuni_base ms r.minute (set_queue_counts r.xuni r.xnm r.xblk e) in
    allow ∷ ask_all ms rs after

-- The report is made in the window, and the queue has not come down to the count for resuming.
abbrev pub AboveResume : MiningSettings → Report → Type 0
AboveResume ms r =
    (in_xuni_window r.minute ≡ true)
    × (leb_ℤ (max_ℤ (pos 0) r.xuni) (max_ℤ (pos 0) ms.xuni_queue_resume) ≡ false)

pause_stays :
    (soft resume pending : ℤ) → leb_ℤ pending resume ≡ false → pause soft resume pending true ≡ true
unfolding pause
pause_stays soft resume pending h = rw h (ground arith)

still_paused :
    (ms : MiningSettings) (minute : ℕ) (e : Engine)
    → e.xuni_queue_paused ≡ true
    → in_xuni_window minute ≡ true
    → leb_ℤ e.pending_xuni (max_ℤ (pos 0) ms.xuni_queue_resume) ≡ false
    → let c = compute_allow_xuni_base ms minute e in (c.0 ≡ false) × (c.1.xuni_queue_paused ≡ true)
unfolding compute_allow_xuni_base
still_paused ms minute e p w a = elim (Bool-cases ms.xuni_mining_enabled) [
  | inl on ↦
      rw (on, w, p, pause_stays (max_ℤ (pos 0) ms.xuni_queue_soft_cap) _ e.pending_xuni a)
        (refl, refl)
  | inr off ↦ rw off (refl, p)
]

paused_call :
    (ms : MiningSettings) (r : Report) (e : Engine)
    → e.xuni_queue_paused ≡ true
    → AboveResume ms r
    → let c = compute_allow_xuni_base ms r.minute (set_queue_counts r.xuni r.xnm r.xblk e) in
      (c.0 ≡ false) × (c.1.xuni_queue_paused ≡ true)
unfolding set_queue_counts
paused_call ms r e p a = still_paused ms r.minute (set_queue_counts r.xuni r.xnm r.xblk e) p a.0 a.1

ask_all-paused :
    (ms : MiningSettings) (rs : List Report) (e : Engine)
    → e.xuni_queue_paused ≡ true
    → All (AboveResume ms) rs
    → All (λ b. b ≡ false) (ask_all ms rs e)
unfolding ask_all
ask_all-paused ms [] e p a = tt
ask_all-paused ms (r ∷ rs) e p a =
    let c = paused_call ms r e p a.0 in (c.0, ask_all-paused ms rs _ c.1 a.1)

pause_begins :
    (soft resume pending : ℤ) (paused : Bool)
    → leb_ℤ soft pending ≡ true
    → pause soft resume pending paused ≡ true
unfolding pause
pause_begins soft resume pending paused h = rw h refl

full_call :
    (ms : MiningSettings) (minute : ℕ) (e : Engine)
    → ms.xuni_mining_enabled ≡ true
    → in_xuni_window minute ≡ true
    → leb_ℤ (max_ℤ (pos 0) ms.xuni_queue_soft_cap) e.pending_xuni ≡ true
    → let c = compute_allow_xuni_base ms minute e in (c.0 ≡ false) × (c.1.xuni_queue_paused ≡ true)
unfolding compute_allow_xuni_base
full_call ms minute e on w full =
    rw
      (
        on,
        w,
        pause_begins _ (max_ℤ (pos 0) ms.xuni_queue_resume) e.pending_xuni e.xuni_queue_paused full,
      )
      (refl, refl)

-- With XUNI mining on, once the count of queued XUNI has been reported at the soft cap within the window, no batch looks
-- for XUNI as long as the reports within the window stay above the count for resuming, whatever the
-- engine's state before.
pub ask_all-full :
    (ms : MiningSettings) (r : Report) (rs : List Report) (e : Engine)
    → ms.xuni_mining_enabled ≡ true
    → in_xuni_window r.minute ≡ true
    → leb_ℤ (max_ℤ (pos 0) ms.xuni_queue_soft_cap) (max_ℤ (pos 0) r.xuni) ≡ true
    → All (AboveResume ms) rs
    → All (λ b. b ≡ false) (ask_all ms (r ∷ rs) e)
unfolding ask_all set_queue_counts
ask_all-full ms r rs e on w full a =
    let c = full_call ms r.minute (set_queue_counts r.xuni r.xnm r.xblk e) on w full in
    (c.0, ask_all-paused ms rs _ c.1 a)
