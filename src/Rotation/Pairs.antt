-- ===== src/Rotation/Pairs.antt =====
-- Counting in the two loops of `_round_robin_pairs`: how many rounds of a counted loop pass a test.
use mathlib.Core.Path.{subst}
use native.Mathlib.Nat.{mod-eq_of_lt, mod-eq-sub-mod}
use rolling_api.Prelude.{
  ℕ, zero, suc, ◌+◌, ◌-◌, ◌%◌, ◌<◌, ◌≡◌, refl, ap, ◌∙◌, ◌≢◌, Bool, false, ◌&&◌, some, List, [], ◌∷◌,
  ◌++◌, arith, ltb, leb, ◌==◌, if◌then◌else◌, length, get_elem?, count, All, IsDistinct,
  count-append, Bool-cases, inl, inr,
}
use rolling_api.Rotation.{Seat, seat_at, seats_from, rounds_from}

-- The seats of all rounds.
abbrev pub all_seats : List (List Seat) → List Seat
all_seats [] = []
all_seats (seats ∷ rounds) = seats ++ all_seats rounds

some_eq : {a b : ℕ} → some a ≡ some b → a ≡ b
some_eq e = cc

All-get : (P : ℕ → Type 0) (xs : List ℕ) (i v : ℕ) → All P xs → get_elem? xs i ≡ some v → P v
All-get P [] i v h e = cc
All-get P (x ∷ xs) zero v h e = subst P (some_eq e) h.0
All-get P (x ∷ xs) (suc i) v h e = All-get P xs i v h.1 e

-- In such a list a value has one position.
pub position_unique :
    (xs : List ℕ) (i j v : ℕ)
    → IsDistinct xs
    → get_elem? xs i ≡ some v
    → get_elem? xs j ≡ some v
    → i ≡ j
position_unique [] i j v d p q = cc
position_unique (x ∷ xs) zero zero v d p q = refl
position_unique (x ∷ xs) zero (suc j) v d p q =
    absurd (All-get (λ y. x ≢ y) xs j v d.0 q (some_eq p))
position_unique (x ∷ xs) (suc i) zero v d p q =
    absurd (All-get (λ y. x ≢ y) xs i v d.0 p (some_eq q))
position_unique (x ∷ xs) (suc i) (suc j) v d p q = ap suc (position_unique xs i j v d.1 p q)

-- how many of the numbers from `i`, `k` in a row, pass the test
pub hits : (ℕ → Bool) → ℕ → ℕ → ℕ
hits q i zero = 0
hits q i (suc k) = (if q i then 1 else 0) + hits q (i + 1) k

-- A test that only `a` passes is passed once, if `a` is in the range.
pub hits_one :
    (q : ℕ → Bool) (a i k n : ℕ)
    → i + k ≡ n
    → ((j : ℕ) → j < n → q j ≡ (j == a))
    → hits q i k ≡ (if leb i a && ltb a n then 1 else 0)
unfolding hits
hits_one q a i zero n e h = ground arith
hits_one q a i (suc k) n e h =
    rw (h i (omega arith), hits_one q a (i + 1) k n (omega arith) h) (ground arith)

pub hits_none :
    (q : ℕ → Bool) (i k n : ℕ) → i + k ≡ n → ((j : ℕ) → j < n → q j ≡ false) → hits q i k ≡ 0
unfolding hits
hits_none q i zero n e h = refl
hits_none q i (suc k) n e h =
    rw (h i (omega arith), hits_none q (i + 1) k n (omega arith) h) (omega arith)

-- `xs[i]`, with 0 out of range
abbrev pub get_or : List ℕ → ℕ → ℕ
get_or [] i = 0
get_or (x ∷ xs) zero = x
get_or (x ∷ xs) (suc i) = get_or xs i

pub get_elem?-in_range : (xs : List ℕ) (i : ℕ) → i < length xs → get_elem? xs i ≡ some (get_or xs i)
get_elem?-in_range [] i h = elim h [ ]
get_elem?-in_range (x ∷ xs) zero h = refl
get_elem?-in_range (x ∷ xs) (suc i) h = get_elem?-in_range xs i (omega arith)

-- The schedule that the loops build, as a table: the seat of round `r` at index `i`.
abbrev pub seat : List ℕ → List ℕ → ℕ → ℕ → ℕ → Seat
seat males females n r i = (i + 1, get_or males i, get_or females ((i + r) % n))

unfoldable pub seat_list : List ℕ → List ℕ → ℕ → ℕ → ℕ → ℕ → List Seat
seat_list males females n r i zero = []
seat_list males females n r i (suc k) =
    seat males females n r i ∷ seat_list males females n r (i + 1) k

unfoldable pub round_list : List ℕ → List ℕ → ℕ → ℕ → ℕ → List (List Seat)
round_list males females n r zero = []
round_list males females n r (suc k) =
    seat_list males females n r 0 n ∷ round_list males females n (r + 1) k

module _ (males females : List ℕ) (n : ℕ) (em : length males ≡ n) (ef : length females ≡ n) where
  seat_at-eq-seat :
      (r i : ℕ) → i < n → seat_at males females n r i ≡ some (seat males females n r i)
  seat_at-eq-seat r i h =
      rw
        (
          get_elem?-in_range males i (omega arith),
          get_elem?-in_range females ((i + r) % n) (omega arith),
        )
        refl

  pub seats_from-eq-list :
      (r i k : ℕ)
      → i + k ≡ n
      → seats_from males females n r i k ≡ some (seat_list males females n r i k)
  unfolding seats_from seat_list
  seats_from-eq-list r i zero e = refl
  seats_from-eq-list r i (suc k) e =
      rw (seat_at-eq-seat r i (omega arith), seats_from-eq-list r (i + 1) k (omega arith)) refl

  pub rounds_from-eq-list :
      (r k : ℕ) → rounds_from males females n r k ≡ some (round_list males females n r k)
  unfolding rounds_from round_list
  rounds_from-eq-list r zero = refl
  rounds_from-eq-list r (suc k) =
      rw (seats_from-eq-list r 0 n (omega arith), rounds_from-eq-list (r + 1) k) refl

module _ (males females : List ℕ) (n : ℕ) where
  pub count-seat_list :
      (p : Seat → Bool) (r i k : ℕ)
      → count p (seat_list males females n r i k) ≡ hits (λ j. p (seat males females n r j)) i k
  unfolding seat_list count hits
  count-seat_list p r i zero = refl
  count-seat_list p r i (suc k) = ground (arith, count-seat_list p r (i + 1) k)

  -- over all rounds: the rounds in which the test is passed once
  pub count-round_list :
      (p : Seat → Bool) (q : ℕ → Bool) (r k m : ℕ)
      → r + k ≡ m
      → ((s : ℕ) → s < m → count p (seat_list males females n s 0 n) ≡ (if q s then 1 else 0))
      → count p (all_seats (round_list males females n r k)) ≡ hits q r k
  unfolding round_list hits count
  count-round_list p q r zero m e h = refl
  count-round_list p q r (suc k) m e h =
      rw
        (
          count-append p (seat_list males females n r 0 n)
              (all_seats (round_list males females n (r + 1) k)),
          h r (omega arith),
          count-round_list p q (r + 1) k m (omega arith) h,
        )
        refl

-- `(i + r) % n` for indices in range
pub wrap : (i r n : ℕ) → i < n → r < n → (i + r) % n ≡ (if ltb (i + r) n then i + r else i + r - n)
wrap i r n hi hr = elim (Bool-cases (ltb (i + r) n)) [
  | inl below ↦ rw below (mod-eq_of_lt (ground (arith, below)))
  | inr above ↦
      rw above (mod-eq-sub-mod (ground (arith, above)) ∙ mod-eq_of_lt (ground (arith, above)))
]
