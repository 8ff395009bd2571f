-- ===== src/RateLimit/Retry.antt =====
-- A refused client is served after the wait that it is told, and clients do not share a limit.
use rolling_api.Prelude.{
  ℕ, ◌+◌, ◌-◌, ◌*◌, ◌≤◌, ◌<◌, ◌≡◌, inl, inr, refl, List, [], ◌∷◌, arith, ltb, length, All,
  Bool-cases,
}
use mathlib.Core.Path.{subst}
use rolling_api.RateLimit.{prune, admit, Outcome, refusal, retry_after}

length-prune : (window now : ℕ) (bucket : List ℕ) → length (prune window now bucket) ≤ length bucket
unfolding prune
length-prune window now [] = omega arith
length-prune window now (t ∷ bucket) = ground (arith, length-prune window now bucket)

-- a bucket whose oldest reading has left the window becomes shorter
prune_drops :
    (window later t : ℕ) (bucket : List ℕ)
    → t + window < later
    → length (prune window later (t ∷ bucket)) ≤ length bucket
unfolding prune
prune_drops window later t bucket h = ground (arith, length-prune window later bucket)

refusal-eq-limited :
    (window now wait : ℕ) (pruned : List ℕ)
    → refusal window now pruned ≡ Outcome.limited wait
    → (t : ℕ) × (rest : List ℕ) × (pruned ≡ t ∷ rest) × (wait ≡ window - (now - t))
refusal-eq-limited window now wait [] h = absurd (ground (arith, h))
refusal-eq-limited window now wait (t ∷ rest) h = (t, rest, refl, ground (arith, h))

All-prune :
    (window now : ℕ) (bucket : List ℕ)
    → All (λ t. t ≤ now) bucket
    → All (λ t. t ≤ now) (prune window now bucket)
unfolding prune
All-prune window now [] past = tt
All-prune window now (t ∷ bucket) past = elim (Bool-cases (ltb (t + window) now)) [
  | inl old ↦ rw old (All-prune window now bucket past.1)
  | inr recent ↦ rw recent past
]

head_past : (now t : ℕ) (rest : List ℕ) → All (λ r. r ≤ now) (t ∷ rest) → t ≤ now
head_past now t rest past = past.0

-- A client that was refused and sends nothing for the seconds of the header Retry-After passes
-- with its next request, if the bucket was within its bound and held no reading of the future.
pub retry_passes :
    (max_req window now wait later : ℕ) (bucket : List ℕ)
    → length bucket ≤ max_req
    → All (λ t. t ≤ now) bucket
    → (admit max_req window now bucket).0 ≡ Outcome.limited wait
    → now + retry_after wait * 1_000_000 ≤ later
    → (admit max_req window later (admit max_req window now bucket).1).0 ≡ Outcome.passed
unfolding admit
retry_passes max_req window now wait later bucket small past h waited =
    let shorter = length-prune window now bucket in
    let said : refusal window now (prune window now bucket) ≡ Outcome.limited wait =
      ground (arith, h) in
    let (t, rest, shape, amount) =
      refusal-eq-limited window now wait (prune window now bucket) said in
    let old =
      head_past now t rest (subst (All (λ r. r ≤ now)) shape (All-prune window now bucket past)) in
    let drops = prune_drops window later t rest (omega (arith, amount, waited, old)) in
    ground (arith, h, shape, drops, shorter)
