-- ===== src/Rotation/Rounds.antt =====
-- The schedule of `_round_robin_pairs`.
use native.Mathlib.Nat.{add_comm, add-zero, zero-add}
use rolling_api.Prelude.{
  ℕ, zero, suc, ◌+◌, ◌-◌, ◌%◌, ◌<◌, ◌≡◌, refl, sym, ap, ◌∙◌, Bool, ◌&&◌, some, List, [], ◌∷◌, arith,
  leb, ◌==◌, ==_iff, if◌then◌else◌, length, get_elem?, get_elem?-lt, count, Bool-cases, inl, inr,
  IsDistinct,
}
use rolling_api.Rotation.{Seat, round_robin_pairs}
use rolling_api.Rotation.Pairs.{
  all_seats, position_unique, hits_one, hits_none, get_or, get_elem?-in_range, seat_list,
  round_list, rounds_from-eq-list, count-seat_list, count-round_list, wrap,
}

abbrev pub is_pair : ℕ → ℕ → Seat → Bool
is_pair x y (_, male, female) = male == x && female == y

abbrev pub has_male : ℕ → Seat → Bool
has_male x (_, male, female) = male == x

abbrev pub has_female : ℕ → Seat → Bool
has_female y (_, male, female) = female == y

some_get : (xs : List ℕ) (i v : ℕ) → get_elem? xs i ≡ some v → get_or xs i ≡ v
some_get [] i v e = cc
some_get (x ∷ xs) zero v e = cc
some_get (x ∷ xs) (suc i) v e = some_get xs i v e

-- In a list without repetition, comparing the value is comparing the position.
value_at :
    (xs : List ℕ) (j b y : ℕ)
    → IsDistinct xs
    → get_elem? xs b ≡ some y
    → j < length xs
    → (get_or xs j == y) ≡ (j == b)
value_at xs j b y d e h = elim (Bool-cases (get_or xs j == y)) [
  | inl same ↦
      let e' : j ≡ b =
        position_unique xs j b y d
          (get_elem?-in_range xs j h ∙ ap some ((==_iff (get_or xs j) y).0 same)) e in
      rw same (sym ((==_iff j b).1 e'))
  | inr other ↦ elim (Bool-cases (j == b)) [
    | inl at ↦ ground (arith, at, other, some_get xs b y e, ap (get_or xs) ((==_iff j b).0 at))
    | inr off ↦ rw (other, off) refl
  ]
]

-- the round in which the man at `a` meets the woman at `b`
abbrev meeting : ℕ → ℕ → ℕ → ℕ
meeting n a b = if leb a b then b - a else b + n - a

meeting_iff : (n a b s : ℕ) → a < n → b < n → s < n → ((a + s) % n == b) ≡ (s == meeting n a b)
meeting_iff n a b s ha hb hs = rw (wrap a s n ha hs) (ground arith)

module _ (males females : List ℕ) (n a b x y : ℕ) (em : length males ≡ n) (ef : length females ≡ n)
    (dm : IsDistinct males) (df : IsDistinct females) (at_a : get_elem? males a ≡ some x)
    (at_b : get_elem? females b ≡ some y) where
  a-lt : a < n
  a-lt = omega (arith, get_elem?-lt males a x at_a)

  b-lt : b < n
  b-lt = omega (arith, get_elem?-lt females b y at_b)

  man_at : (j : ℕ) → j < n → (get_or males j == x) ≡ (j == a)
  man_at j h = value_at males j a x dm at_a (omega arith)

  woman_at : (s j : ℕ) → j < n → (get_or females ((j + s) % n) == y) ≡ ((j + s) % n == b)
  woman_at s j h = value_at females ((j + s) % n) b y df at_b (omega arith)

  -- A man sits once in a round, and so does a woman.
  male_in_round : (s : ℕ) → count (has_male x) (seat_list males females n s 0 n) ≡ 1
  male_in_round s =
      count-seat_list males females n (has_male x) s 0 n
      ∙ hits_one _ a 0 n n (omega arith) man_at
      ∙ ground (arith, a-lt)

  female_in_round : (s : ℕ) → s < n → count (has_female y) (seat_list males females n s 0 n) ≡ 1
  female_in_round s hs =
      count-seat_list males females n (has_female y) s 0 n
      ∙ hits_one _ (meeting n s b) 0 n n (omega arith)
          (λ j h. woman_at s j h ∙ rw (add_comm j s) (meeting_iff n s b j hs b-lt h))
      ∙ ground (arith, b-lt)

  met_at : (s j : ℕ) → s < n → (j == a && (j + s) % n == b) ≡ (j == a && s == meeting n a b)
  met_at s j hs = elim (Bool-cases (j == a)) [
    | inl here ↦
        rw here
          (ap (λ i. (i + s) % n == b) ((==_iff j a).0 here) ∙ meeting_iff n a b s a-lt b-lt hs)
    | inr away ↦ rw away refl
  ]

  pair_in_round :
      (s : ℕ)
      → s < n
      → count (is_pair x y) (seat_list males females n s 0 n)
        ≡ (if s == meeting n a b then 1 else 0)
  pair_in_round s hs =
      count-seat_list males females n (is_pair x y) s 0 n ∙ elim (Bool-cases (s == meeting n a b)) [
        | inl met ↦
            hits_one _ a 0 n n (omega arith)
              (λ j h. rw (man_at j h, woman_at s j h) (met_at s j hs ∙ rw met (ground arith)))
            ∙ rw met (ground (arith, a-lt))
        | inr apart ↦
            hits_none _ 0 n n (omega arith)
              (λ j h. rw (man_at j h, woman_at s j h) (met_at s j hs ∙ rw apart (ground arith)))
            ∙ rw apart refl
      ]

  pair_in_all : count (is_pair x y) (all_seats (round_list males females n 0 n)) ≡ 1
  pair_in_all =
      count-round_list males females n (is_pair x y) (λ s. s == meeting n a b) 0 n n (omega arith)
        pair_in_round
      ∙ hits_one _ (meeting n a b) 0 n n (omega arith) (λ s h. refl)
      ∙ ground (arith, a-lt, b-lt)

get-round_list :
    (males females : List ℕ) (n i k s : ℕ)
    → i + k ≡ n
    → s < k
    → get_elem? (round_list males females n i k) s ≡ some (seat_list males females n (i + s) 0 n)
unfolding round_list
get-round_list males females n i zero s e h = elim h [ ]
get-round_list males females n i (suc k) zero e h = rw (add-zero i) refl
get-round_list males females n i (suc k) (suc s) e h =
    get-round_list males females n (i + 1) k s (omega arith) (omega arith)
    ∙ ap (λ r. some (seat_list males females n r 0 n)) (omega arith)

length-round_list :
    (males females : List ℕ) (n i k : ℕ) → length (round_list males females n i k) ≡ k
unfolding round_list
length-round_list males females n i zero = refl
length-round_list males females n i (suc k) = ap suc (length-round_list males females n (i + 1) k)

round_robin-eq-list :
    (males females : List ℕ)
    → length males ≡ length females
    → round_robin_pairs males females
      ≡ some (round_list males females (length males) 0 (length males))
unfolding round_robin_pairs
round_robin-eq-list males females e =
    rounds_from-eq-list males females (length males) refl (sym e) 0 (length males)

-- For as many men as women the loops index no list out of range, and build as many rounds as
-- there are men.
pub round_robin_total :
    (males females : List ℕ)
    → length males ≡ length females
    → (rounds : List (List Seat)) × (round_robin_pairs males females ≡ some rounds)
      × (length rounds ≡ length males)
round_robin_total males females e =
    let n = length males in
    (
      round_list males females n 0 n,
      round_robin-eq-list males females e,
      length-round_list males females n 0 n,
    )

same_rounds :
    (males females : List ℕ) (rounds : List (List Seat))
    → length males ≡ length females
    → round_robin_pairs males females ≡ some rounds
    → rounds ≡ round_list males females (length males) 0 (length males)
same_rounds males females rounds e h = cc (round_robin-eq-list males females e)

-- For as many men as women, nobody listed twice, every man of the one list meets every woman of
-- the other exactly once over all rounds.
pub meets_once :
    (males females : List ℕ) (a b x y : ℕ) (rounds : List (List Seat))
    → length males ≡ length females
    → IsDistinct males
    → IsDistinct females
    → get_elem? males a ≡ some x
    → get_elem? females b ≡ some y
    → round_robin_pairs males females ≡ some rounds
    → count (is_pair x y) (all_seats rounds) ≡ 1
meets_once males females a b x y rounds e dm df ea eb h =
    rw (same_rounds males females rounds e h)
      (pair_in_all males females (length males) a b x y refl (sym e) dm df ea eb)

-- For as many men as women, nobody listed twice, every man of the one list and every woman of the
-- other sits at exactly one table in each of the rounds.
pub seated_once :
    (males females : List ℕ) (a b x y r : ℕ) (rounds : List (List Seat)) (seats : List Seat)
    → length males ≡ length females
    → IsDistinct males
    → IsDistinct females
    → get_elem? males a ≡ some x
    → get_elem? females b ≡ some y
    → round_robin_pairs males females ≡ some rounds
    → get_elem? rounds r ≡ some seats
    → (count (has_male x) seats ≡ 1) × (count (has_female y) seats ≡ 1)
seated_once males females a b x y r rounds seats e dm df ea eb h hr =
    let n = length males in
    let built = same_rounds males females rounds e h in
    let r-lt : r < n = omega (
      arith,
      get_elem?-lt rounds r seats hr,
      ap length built,
      length-round_list males females n 0 n,
    ) in
    let same : seats ≡ seat_list males females n (0 + r) 0 n =
      cc (hr, built, get-round_list males females n 0 n r (omega arith) r-lt) in
    rw (same, zero-add)
      (
        male_in_round males females n a b x y refl (sym e) dm df ea eb r,
        female_in_round males females n a b x y refl (sym e) dm df ea eb r r-lt,
      )
