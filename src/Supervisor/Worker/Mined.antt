-- ===== src/Supervisor/Worker/Mined.antt =====
-- `handle_batch_hits` of src/app/supervisor.cpp: the hits of one wave of the GPU engine.
use xnminer.Base.{ℕ, suc, ◌≡◌, refl, Option, none, some, List, [], ◌∷◌}
use xnminer.Common.{BlockHit}
use xnminer.Supervisor.State.{Settings, World, Sup}
use xnminer.Supervisor.Hits.{handle_hit}
use xnminer.Supervisor.Worker.{Event, mined, happen, happen_all}

-- The hits one after the other; `ws` gives what each of them finds outside.
unfoldable pub handle_hits : Settings → (ℕ → World) → List BlockHit → Sup → Sup
handle_hits c ws [] s = s
handle_hits c ws (hit ∷ hits) s = handle_hits c (λ i. ws (suc i)) hits (handle_hit c (ws 0) hit s)

-- The one hit is for callers that know no list of hits, and counts only where the list is empty.
unfoldable pub handle_batch_hits :
    Settings → (ℕ → World) → List BlockHit → Option BlockHit → Sup → Sup
unfolding handle_hits
handle_batch_hits c ws [] none s = s
handle_batch_hits c ws [] (some hit) s = handle_hit c (ws 0) hit s
handle_batch_hits c ws (hit ∷ hits) first s = handle_hits c ws (hit ∷ hits) s

-- A wave as events of the mining thread.
abbrev pub mined_all : (ℕ → World) → List BlockHit → List Event
mined_all ws [] = []
mined_all ws (hit ∷ hits) = mined (ws 0) hit ∷ mined_all (λ i. ws (suc i)) hits

abbrev pub wave : List BlockHit → Option BlockHit → List BlockHit
wave [] none = []
wave [] (some hit) = hit ∷ []
wave (hit ∷ hits) first = hit ∷ hits

handle_hits-happen_all :
    (c : Settings) (ws : ℕ → World) (hits : List BlockHit) (s : Sup)
    → handle_hits c ws hits s ≡ happen_all c (mined_all ws hits) s
unfolding handle_hits happen_all happen
handle_hits-happen_all c ws [] s = refl
handle_hits-happen_all c ws (hit ∷ hits) s = handle_hits-happen_all c (λ i. ws (suc i)) hits _

-- A wave of hits has the effect of its hits as separate events in their order: of the list, or of the
-- one hit where the list is empty.
pub handle_batch_hits-happen_all :
    (c : Settings) (ws : ℕ → World) (hits : List BlockHit) (first : Option BlockHit) (s : Sup)
    → handle_batch_hits c ws hits first s ≡ happen_all c (mined_all ws (wave hits first)) s
unfolding handle_batch_hits happen_all happen
handle_batch_hits-happen_all c ws [] none s = refl
handle_batch_hits-happen_all c ws [] (some hit) s = refl
handle_batch_hits-happen_all c ws (hit ∷ hits) first s = handle_hits-happen_all c ws (hit ∷ hits) s
