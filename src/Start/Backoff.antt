-- ===== src/Start/Backoff.antt =====
-- The waits of exponentialStartStrategy.
use courier_go.Base.{
  ℕ, zero, suc, ◌*◌, ◌^◌, ◌<◌, ◌≤◌, pos, false, some, List, [], ◌∷◌, length, get_elem?, sym, ltb,
  twice64, ◌≡◌, ◌∙◌, refl, ap, arith, if◌then◌else◌,
}
use native.Mathlib.Nat.{mul-le-mul_right, mul-le-mul_left}
use courier_go.ClientOptions.{StartOptions}
use courier_go.Errors.{Error}
use courier_go.Start.{
  min, StartEvent, started, Retry, Run, notification, starter_loop, first_interval,
  exponential_start_strategy,
}

-- Some starts that fail.
abbrev pub failures : List Error → List StartEvent
failures [] = []
failures (e ∷ es) = started (some e) ∷ failures es

abbrev pub min_nat : ℕ → ℕ → ℕ
min_nat a b = if ltb a b then a else b

-- The retries for some errors when the first wait is `interval` and each later one is twice the one
-- before, up to a limit.
abbrev pub retries_from : StartOptions → ℕ → ℕ → List Error → List Retry
retries_from so limit interval [] = []
retries_from so limit interval (e ∷ es) =
    record { notified = notification so e; slept = pos interval }
    ∷ retries_from so limit (min_nat (interval * 2) limit) es

next_interval :
    (interval limit : ℕ)
    → interval < 2 ^ 62
    → min (twice64 (pos interval)) (pos limit) ≡ pos (min_nat (interval * 2) limit)
unfolding min
next_interval interval limit small = ground arith

min_nat_small : (interval limit : ℕ) → limit < 2 ^ 62 → min_nat (interval * 2) limit < 2 ^ 62
min_nat_small interval limit small = ground arith

abbrev add_retry : StartOptions → ℕ → Error → Run → Run
add_retry so interval e run = record run {
  retries = record { notified = notification so e; slept = pos interval } ∷ run.retries;
}

starter_loop-failures :
    (so : StartOptions) (limit interval : ℕ) (es : List Error)
    → so.max_interval ≡ pos limit
    → limit < 2 ^ 62
    → interval < 2 ^ 62
    → starter_loop so (pos interval) (failures es)
      ≡ record { retries = retries_from so limit interval es; over = false }
unfolding starter_loop
starter_loop-failures so limit interval [] is_limit h small = refl
starter_loop-failures so limit interval (e ∷ es) is_limit h small =
    let next = min_nat (interval * 2) limit in
    let same : min (twice64 (pos interval)) so.max_interval ≡ pos next =
      ap (min (twice64 (pos interval))) is_limit ∙ next_interval interval limit small in
    ap (add_retry so interval e) (
      ap (λ j. starter_loop so j (failures es)) same
      ∙ starter_loop-failures so limit next es is_limit h (min_nat_small interval limit h))

-- The wait behind the error at a position: doubled once for each error before it, and limited
-- except at the first error.
abbrev pub wait_at : ℕ → ℕ → ℕ → ℕ
wait_at limit interval zero = interval
wait_at limit interval (suc k) = min_nat (interval * 2 ^ suc k) limit

pow_pos : (k : ℕ) → 1 ≤ 2 ^ k
pow_pos zero = omega arith
pow_pos (suc k) = omega (arith, pow_pos k)

le_scaled : (a p : ℕ) → 1 ≤ p → a ≤ a * p
le_scaled a p h = grind (arith, mul-le-mul_left a h)

mono_scaled : (a b p : ℕ) → a ≤ b → a * p ≤ b * p
mono_scaled a b p h = mul-le-mul_right p h

pow_two : (a k : ℕ) → a * 2 * 2 ^ k ≡ a * 2 ^ suc k
pow_two a k = grind arith

-- Doubling after the limit cuts it off is no different from cutting it off afterwards.
wait_at-min_nat :
    (limit interval k : ℕ)
    → wait_at limit (min_nat (interval * 2) limit) k ≡ wait_at limit interval (suc k)
wait_at-min_nat limit interval zero = ground (arith, pow_two interval 0)
wait_at-min_nat limit interval (suc k) =
    let p = 2 ^ suc k in
    let one = pow_pos (suc k) in
    ground
      (arith, pow_two interval (suc k), le_scaled limit p one, mono_scaled limit (interval * 2) p)

slept-retries_from :
    (so : StartOptions) (limit interval : ℕ) (es : List Error) (k : ℕ) (r : Retry)
    → get_elem? (retries_from so limit interval es) k ≡ some r
    → r.slept ≡ pos (wait_at limit interval k)
slept-retries_from so limit interval [] k r h = absurd (ground (arith, h))
slept-retries_from so limit interval (e ∷ es) zero r h = ground (arith, h)
slept-retries_from so limit interval (e ∷ es) (suc k) r h =
    slept-retries_from so limit (min_nat (interval * 2) limit) es k r h
    ∙ ap pos (wait_at-min_nat limit interval k)

length-retries_from :
    (so : StartOptions) (limit interval : ℕ) (es : List Error)
    → length (retries_from so limit interval es) ≡ length es
length-retries_from so limit interval [] = refl
length-retries_from so limit interval (e ∷ es) =
    ap suc (length-retries_from so limit (min_nat (interval * 2) limit) es)

-- With a maximum interval below 2^62 ns, the strategy goes on after every failed start: it starts
-- the client again once for each error, and the wait behind the error at position k is 100 ms for
-- the first error and else the smaller one of 100 ms * 2^k and the maximum interval.
pub exponential_start_strategy_waits :
    (so : StartOptions) (limit : ℕ) (es : List Error) (k : ℕ) (r : Retry)
    → so.max_interval ≡ pos limit
    → limit < 2 ^ 62
    → get_elem? (exponential_start_strategy so (failures es)).retries k ≡ some r
    → ((exponential_start_strategy so (failures es)).over ≡ false)
      × (length (exponential_start_strategy so (failures es)).retries ≡ length es)
      × (r.slept ≡ pos (wait_at limit first_interval k))
unfolding exponential_start_strategy
exponential_start_strategy_waits so limit es k r is_limit small h =
    let same = starter_loop-failures so limit first_interval es is_limit small (omega arith) in
    (
      ap (λ run. run.over) same,
      ap (λ run. length run.retries) same ∙ length-retries_from so limit first_interval es,
      slept-retries_from so limit first_interval es k r
          (sym (ap (λ run. get_elem? run.retries k) same) ∙ h),
    )
