-- ===== src/RateLimit/Window.antt =====
-- No window of time lets more than the allowed number of requests through.
use rolling_api.Prelude.{
  ℕ, ◌+◌, ◌≤◌, ◌≡◌, inl, inr, refl, Bool, true, false, ◌&&◌, List, [], ◌∷◌, ◌++◌, arith, ltb, leb,
  if◌then◌else◌, length, count, count-append, count_one, count-le-length, Bool-cases,
}
use rolling_api.RateLimit.{prune, admit, Outcome}

abbrev pub is_passed : Outcome → Bool
is_passed Outcome.passed = true
is_passed _ = false

-- the times at which the requests of one client pass, out of the times at which they arrive
unfoldable pub passes : ℕ → ℕ → List ℕ → List ℕ → List ℕ
passes max_req window bucket [] = []
passes max_req window bucket (now ∷ times) =
    let rest = passes max_req window (admit max_req window now bucket).1 times in
    if is_passed (admit max_req window now bucket).0 then now ∷ rest else rest

-- The clock does not go back.
abbrev pub IsMonotone : ℕ → List ℕ → Type 0
IsMonotone last [] = Unit
IsMonotone last (t ∷ times) = (last ≤ t) × IsMonotone t times

-- the closed window that begins at `s`
abbrev pub in_window : ℕ → ℕ → ℕ → Bool
in_window window s t = leb s t && leb t (s + window)

-- What pruning drops is too old to share a window with a later request.
pruned-count :
    (window now s : ℕ) (bucket : List ℕ)
    → now ≤ s + window
    → count (in_window window s) bucket ≤ count (in_window window s) (prune window now bucket)
unfolding count prune
pruned-count window now s [] h = omega arith
pruned-count window now s (t ∷ bucket) h = ground (arith, pruned-count window now s bucket)

count_nil : (window s : ℕ) → count (in_window window s) [] ≡ 0
unfolding count
count_nil window s = refl

count_cons :
    (window s t : ℕ) (xs : List ℕ)
    → count (in_window window s) (t ∷ xs)
      ≡ (if in_window window s t then 1 else 0) + count (in_window window s) xs
unfolding count
count_cons window s t xs = ground arith

module _ (max_req window s : ℕ) where
  -- the part of the window's requests that has passed, and those still to come
  passes_bound :
      (n last : ℕ) (bucket times : List ℕ)
      → n ≤ max_req
      → (last ≤ s + window → n ≤ count (in_window window s) bucket)
      → IsMonotone last times
      → n + count (in_window window s) (passes max_req window bucket times) ≤ max_req
  unfolding passes admit
  passes_bound n last bucket [] small kept mono = omega (arith, count_nil window s)
  passes_bound n last bucket (now ∷ times) small kept mono =
      let pruned = prune window now bucket in
      let before : now ≤ s + window → n ≤ count (in_window window s) pruned =
        λ e. omega (arith, kept (omega (arith, mono.0, e)), pruned-count window now s bucket e) in
      let room = count-le-length (in_window window s) pruned in
      let one : ℕ = if in_window window s now then 1 else 0 in
      let sum = count-append (in_window window s) pruned (now ∷ []) in
      let single = count_one (in_window window s) now in
      elim (Bool-cases (ltb (length pruned) max_req)) [
        | inl passed ↦
            let ih =
              passes_bound (n + one) now (pruned ++ now ∷ []) times
                (ground (arith, before, small, room, passed))
                (λ e. omega (arith, before e, sum, single)) mono.1 in
            let split =
              count_cons window s now (passes max_req window (pruned ++ now ∷ []) times) in
            ground (arith, ih, split, passed)
        | inr refused ↦
            let ih = passes_bound n now pruned times small before mono.1 in
            ground (arith, ih, refused)
      ]

-- For a client without earlier requests, whose requests arrive at any times of a clock that does
-- not go back, no window of
-- the rule's length, wherever it begins, has more than the rule's number of passed requests.
pub window_is_kept :
    (max_req window s : ℕ) (times : List ℕ)
    → IsMonotone 0 times
    → count (in_window window s) (passes max_req window [] times) ≤ max_req
window_is_kept max_req window s times mono =
    omega (arith, passes_bound max_req window s 0 0 [] times (omega arith) (λ _. omega arith) mono)
