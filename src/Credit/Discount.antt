-- ===== src/Credit/Discount.antt =====
-- What a credit is worth (`estimate_discount`, `best_discount`).
use native.Mathlib.Nat.{le_trans}
use rolling_api.Prelude.{
  ℕ, ◌*◌, ◌≤◌, ◌<◌, ◌≡◌, refl, inl, inr, Option, none, some, List, [], ◌∷◌, arith, All, Member,
  All-Member, Bool-cases, ltb,
}
use rolling_api.Model.{Credit, CreditKind}
use rolling_api.Credit.{estimate_discount, better, best_from, best_discount}

-- A percentage credit with a cap takes off at most the price, at most the cap, and at most that
-- percentage of the price.
percent_discount_bounds :
    (c : Credit) (price percent cap : ℕ)
    → c.kind ≡ CreditKind.percent
    → c.percent_off ≡ some percent
    → c.max_discount_krw ≡ some cap
    → (estimate_discount c price ≤ price)
      × (estimate_discount c price ≤ cap)
      × (estimate_discount c price * 100 ≤ price * percent)
unfolding estimate_discount
percent_discount_bounds c price percent cap k p m = (ground arith, ground arith, ground arith)

-- what the loop has found so far: the best credit is one of the list's, worth the discount
abbrev pub Achieved : List Credit → ℕ → Option Credit × ℕ → Type 0
Achieved all price (none, d) = d ≡ 0
Achieved all price (some c, d) = Member c all × (estimate_discount c price ≡ d) × (0 < d)

better-ge :
    (price : ℕ) (c : Credit) (best : Option Credit × ℕ)
    → (best.1 ≤ (better price c best).1) × (estimate_discount c price ≤ (better price c best).1)
better-ge price c best = ground arith

better-Achieved :
    (all : List Credit) (price : ℕ) (c : Credit) (best : Option Credit × ℕ)
    → Member c all
    → Achieved all price best
    → Achieved all price (better price c best)
better-Achieved all price c best m h = elim (Bool-cases (ltb best.1 (estimate_discount c price))) [
  | inl more ↦ rw more (m, refl, ground arith)
  | inr less ↦ rw less h
]

best_from-ge :
    (credits : List Credit) (price : ℕ) (best : Option Credit × ℕ)
    → (best.1 ≤ (best_from credits price best).1)
      × All (λ c. estimate_discount c price ≤ (best_from credits price best).1) credits
unfolding best_from
best_from-ge [] price best = (omega arith, tt)
best_from-ge (c ∷ credits) price best =
    let step = better-ge price c best in
    let rest = best_from-ge credits price (better price c best) in
    (le_trans step.0 rest.0, (le_trans step.1 rest.0, rest.1))

best_from-Achieved :
    (all credits : List Credit) (price : ℕ) (best : Option Credit × ℕ)
    → All (λ c. Member c all) credits
    → Achieved all price best
    → Achieved all price (best_from credits price best)
unfolding best_from
best_from-Achieved all [] price best m h = h
best_from-Achieved all (c ∷ credits) price best m h =
    best_from-Achieved all credits price (better price c best) m.1
      (better-Achieved all price c best m.0 h)

estimate-le-price : (c : Credit) (price : ℕ) → estimate_discount c price ≤ price
unfolding estimate_discount
estimate-le-price c price = ground arith

Achieved-le :
    (all : List Credit) (price : ℕ) (best : Option Credit × ℕ)
    → Achieved all price best
    → best.1 ≤ price
Achieved-le all price (none, d) h = omega (arith, h)
Achieved-le all price (some c, d) h = omega (arith, estimate-le-price c price, h.1)

-- The discount that `best_discount` reports is at most the price and at least what each of the
-- credits gives; it is 0 if it reports no credit, and else what the reported credit, one of the
-- list's, gives.
pub best_discount_lem :
    (credits : List Credit) (price : ℕ)
    → ((best_discount credits price).1 ≤ price)
      × All (λ c. estimate_discount c price ≤ (best_discount credits price).1) credits
      × Achieved credits price (best_discount credits price)
unfolding best_discount
best_discount_lem credits price = (
  Achieved-le credits price (best_from credits price (none, 0))
      (best_from-Achieved credits credits price (none, 0) (All-Member credits) refl),
  (best_from-ge credits price (none, 0)).1,
  best_from-Achieved credits credits price (none, 0) (All-Member credits) refl,
)
