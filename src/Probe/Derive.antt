-- ===== src/Probe/Derive.antt =====
-- What `derive_service_state` (DeriveServiceState of internal/probe/probe.go) depends on: how often
-- each state occurs, and nothing else.
use mathlib.Core.List.{Perm, Permᴰ}
use mathlib.Core.Logic.{∥∥₁_elim}
use is_ntust_down.Prelude.{
  ℕ, suc, ◌+◌, ◌≡◌, ◌<◌, ◌⊎◌, ◌↔◌, refl, ap, ◌∙◌, Bool, true, not, ◌&&◌, List, [], ◌∷◌, length,
  filter_by, count_by, is_empty-length, length-filter_by, count_by-filter_by, ◌==◌, arith,
  if◌then◌else◌,
}
use is_ntust_down.Probe.{
  State, up, degraded, down, unknown, retired, same_state, derive_service_state,
}

-- how many of the states are `s`
abbrev pub tally : State → List State → ℕ
tally s = count_by (λ t. same_state t s)

abbrev only : Bool → ℕ → ℕ
only b n = if b then n else 0

count_by-tally :
    (p : State → Bool) (xs : List State)
    → count_by p xs
      ≡ only (p up) (tally up xs)
        + only (p degraded) (tally degraded xs)
        + only (p down) (tally down xs)
        + only (p unknown) (tally unknown xs)
        + only (p retired) (tally retired xs)
count_by-tally p [] = ground arith
count_by-tally p (up ∷ xs) = ground (arith, count_by-tally p xs)
count_by-tally p (degraded ∷ xs) = ground (arith, count_by-tally p xs)
count_by-tally p (down ∷ xs) = ground (arith, count_by-tally p xs)
count_by-tally p (unknown ∷ xs) = ground (arith, count_by-tally p xs)
count_by-tally p (retired ∷ xs) = ground (arith, count_by-tally p xs)

count_by_all : (xs : List State) → count_by (λ s. true) xs ≡ length xs
count_by_all [] = refl
count_by_all (x ∷ xs) = ap suc (count_by_all xs)

-- the same decision, taken from the five tallies
abbrev pub summary : ℕ → ℕ → ℕ → ℕ → ℕ → State
summary ups degs downs unks rets =
    let known = ups + degs + downs in
    if known + unks + rets == 0
    then unknown
    else if known + unks == 0
    then retired
    else if known == 0
    then unknown
    else if downs == known
    then down
    else if ups == known
    then up
    else degraded

abbrev is_live : State → Bool
is_live s = not (same_state s retired)

abbrev is_known : State → Bool
is_known s = not (same_state s unknown)

module _ (xs : List State) where
  -- Only the tallies matter.
  pub derive_service_state-tally :
      derive_service_state xs
      ≡ summary
          (tally up xs)
          (tally degraded xs)
          (tally down xs)
          (tally unknown xs)
          (tally retired xs)
  unfolding derive_service_state
  derive_service_state-tally =
      let live = filter_by is_live xs in
      let known = filter_by is_known live in
      ground (
        arith,
        is_empty-length xs,
        is_empty-length live,
        is_empty-length known,
        length-filter_by is_live xs,
        length-filter_by is_known live,
        count_by-filter_by is_known is_live xs,
        count_by-filter_by (λ (s : State). same_state s up) is_known live,
        count_by-filter_by (λ (s : State). same_state s down) is_known live,
        count_by-filter_by (λ (s : State). is_known s && same_state s up) is_live xs,
        count_by-filter_by (λ (s : State). is_known s && same_state s down) is_live xs,
        count_by-tally (λ (s : State). true) xs,
        count_by-tally is_live xs,
        count_by-tally (λ (s : State). is_live s && is_known s) xs,
        count_by-tally (λ (s : State). is_live s && (is_known s && same_state s up)) xs,
        count_by-tally (λ (s : State). is_live s && (is_known s && same_state s down)) xs,
        count_by_all xs,
      )

count_by-permᴰ :
    (p : State → Bool) {xs ys : List State} → Permᴰ xs ys → count_by p xs ≡ count_by p ys
count_by-permᴰ p Permᴰ.nil = refl
count_by-permᴰ p (Permᴰ.cons e d) = cc (count_by-permᴰ p d, ap p e)
count_by-permᴰ p (Permᴰ.swap {a = a} {b = b} e f) = rw (← e, ← f) (ground arith)
count_by-permᴰ p (Permᴰ.trans d e) = count_by-permᴰ p d ∙ count_by-permᴰ p e

State-set : IsSet State
State-set = hlevel

-- The order in which a service's checks are listed does not change its state.
derive_service_state-perm :
    {xs ys : List State} → Perm xs ys → derive_service_state xs ≡ derive_service_state ys
derive_service_state-perm {xs} {ys} h = ∥∥₁_elim h (State-set _ _) λ d. cc (
  derive_service_state-tally xs,
  derive_service_state-tally ys,
  count_by-permᴰ (λ (t : State). same_state t up) d,
  count_by-permᴰ (λ (t : State). same_state t degraded) d,
  count_by-permᴰ (λ (t : State). same_state t down) d,
  count_by-permᴰ (λ (t : State). same_state t unknown) d,
  count_by-permᴰ (λ (t : State). same_state t retired) d,
)

-- The tallies at which a service shows up, down, degraded or retired: up needs a check that is up
-- and none that is down or degraded, down needs a check that is down and none that is up or
-- degraded, and unknown or retired checks are no evidence for these.
pub derive_service_state_cases :
    (xs : List State)
    → let ups = tally up xs in
      let degs = tally degraded xs in
      let downs = tally down xs in
      let s = derive_service_state xs in
      ((s ≡ up) ↔ ((0 < ups) × (degs ≡ 0) × (downs ≡ 0)))
      × ((s ≡ down) ↔ ((0 < downs) × (ups ≡ 0) × (degs ≡ 0)))
      × ((s ≡ degraded) ↔ ((0 < degs) ⊎ ((0 < ups) × (0 < downs))))
      × ((s ≡ retired)
          ↔ ((0 < tally retired xs) × (ups + degs + downs ≡ 0) × (tally unknown xs ≡ 0)))
derive_service_state_cases xs =
    let e = derive_service_state-tally xs in
    (ground (arith, e), ground (arith, e), ground (arith, e), ground (arith, e))
