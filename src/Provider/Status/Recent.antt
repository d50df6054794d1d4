-- ===== src/Provider/Status/Recent.antt =====
-- The list of recent requests: what is trimmed, and what stays.
use myference.Prelude.{ℕ, zero, suc, ◌+◌, not, List, [], ◌∷◌, ◌≡◌, refl, arith, keep, take}
use myference.Provider.Status.{RequestStatus, is_active, recent_limit, trim_after, trim_requests}

abbrev pub ended : List RequestStatus → List RequestStatus
ended = keep (λ r. not (is_active r))

abbrev pub active : List RequestStatus → List RequestStatus
active = keep is_active

active-trim_after : (n : ℕ) (rs : List RequestStatus) → active (trim_after n rs) ≡ active rs
unfolding trim_after
active-trim_after n [] = refl
active-trim_after n (r ∷ rs) = ground (arith, active-trim_after n rs, active-trim_after (n + 1) rs)

ended-trim_after :
    (n m : ℕ) (rs : List RequestStatus)
    → n + m ≡ recent_limit
    → ended (trim_after n rs) ≡ take m (ended rs)
unfolding trim_after
ended-trim_after n zero [] h = refl
ended-trim_after n (suc m) [] h = refl
ended-trim_after n zero (r ∷ rs) h = ground (arith, ended-trim_after n zero rs h)
ended-trim_after n (suc m) (r ∷ rs) h =
    ground
      (arith, ended-trim_after n (suc m) rs h, ended-trim_after (n + 1) m rs (omega (arith, h)))

-- Trimming keeps every request that is active or settling, and of the others the first 20; both in
-- their order.
pub trim_requests_lem :
    (rs : List RequestStatus)
    → (active (trim_requests rs) ≡ active rs) × (ended (trim_requests rs) ≡ take 20 (ended rs))
unfolding trim_requests
trim_requests_lem rs = (active-trim_after 0 rs, ended-trim_after 0 20 rs (omega arith))
