-- ===== src/Prelude/Queries.antt =====
-- The clauses of the queries that list rows: ORDER BY, and LIMIT with OFFSET. Rows that ORDER BY does
-- not tell apart keep the order of the table, which SQL allows.
use Prim.Native.Nat.{ℕ, zero, suc, ◌+◌, ◌*◌, ◌≤◌}
use mathlib.Core.Path.{◌≡◌, refl, ap, sym, ◌∙◌}
use mathlib.Core.Logic.{inl, inr}
use mathlib.Core.Bool.{Bool, true, false}
use mathlib.Core.List.{List, [], ◌∷◌, ◌++◌}
use native.Mathlib.Omega.{arith}
use rolling_api.Prelude.Lists.{All, All-map, count, select, length}
use rolling_api.Prelude.Tests.{Bool-cases, if◌then◌else◌}

suc_out : (n m : ℕ) → suc (n + m) ≡ suc n + m
suc_out n m = omega arith

module _ {A : Type 0} where
  unfoldable pub insert_row : (A → A → Bool) → A → List A → List A
  insert_row le a [] = a ∷ []
  insert_row le a (x ∷ xs) = if le a x then a ∷ x ∷ xs else x ∷ insert_row le a xs

  -- ORDER BY the key that `le` compares
  unfoldable pub order_by : (A → A → Bool) → List A → List A
  unfolding insert_row
  order_by le [] = []
  order_by le (x ∷ xs) = insert_row le x (order_by le xs)

  unfoldable pub take : ℕ → List A → List A
  take zero xs = []
  take (suc n) [] = []
  take (suc n) (x ∷ xs) = x ∷ take n xs

  unfoldable pub drop : ℕ → List A → List A
  drop zero xs = xs
  drop (suc n) [] = []
  drop (suc n) (x ∷ xs) = drop n xs

  -- LIMIT and OFFSET
  unfoldable pub page : ℕ → ℕ → List A → List A
  unfolding take drop
  page limit offset xs = take limit (drop offset xs)

  -- Each row comes before the later ones.
  abbrev pub IsOrdered : (A → A → Bool) → List A → Type 0
  IsOrdered le [] = Unit
  IsOrdered le (x ∷ xs) = All (λ y. le x y ≡ true) xs × IsOrdered le xs

  count-insert_row :
      (p : A → Bool) (le : A → A → Bool) (a : A) (xs : List A)
      → count p (insert_row le a xs) ≡ count p (a ∷ xs)
  unfolding count insert_row
  count-insert_row p le a [] = refl
  count-insert_row p le a (x ∷ xs) = ground (arith, count-insert_row p le a xs)

  count_cons :
      (p : A → Bool) (x : A) (xs ys : List A)
      → count p xs ≡ count p ys
      → count p (x ∷ xs) ≡ count p (x ∷ ys)
  unfolding count
  count_cons p x xs ys h = ground (arith, h)

  -- An order counts as the list does.
  pub count-order_by :
      (p : A → Bool) (le : A → A → Bool) (xs : List A) → count p (order_by le xs) ≡ count p xs
  unfolding order_by
  count-order_by p le [] = refl
  count-order_by p le (x ∷ xs) =
      count-insert_row p le x (order_by le xs) ∙ count_cons p x _ xs (count-order_by p le xs)

  length-insert_row :
      (le : A → A → Bool) (a : A) (xs : List A) → length (insert_row le a xs) ≡ suc (length xs)
  unfolding insert_row
  length-insert_row le a [] = refl
  length-insert_row le a (x ∷ xs) = ground (arith, length-insert_row le a xs)

  pub length-order_by : (le : A → A → Bool) (xs : List A) → length (order_by le xs) ≡ length xs
  unfolding order_by
  length-order_by le [] = refl
  length-order_by le (x ∷ xs) =
      length-insert_row le x (order_by le xs) ∙ ap suc (length-order_by le xs)

  module _ (le : A → A → Bool) where
    All-insert_row :
        (p : A → Bool) (a : A) (xs : List A)
        → p a ≡ true
        → All (λ y. p y ≡ true) xs
        → All (λ y. p y ≡ true) (insert_row le a xs)
    unfolding insert_row
    All-insert_row p a [] h k = (h, tt)
    All-insert_row p a (x ∷ xs) h k = elim (Bool-cases (le a x)) [
      | inl first ↦ rw first (h, k)
      | inr later ↦ rw later (k.0, All-insert_row p a xs h k.1)
    ]

    -- What holds of all rows holds of them in the order.
    pub All-order_by :
        (p : A → Bool) (xs : List A)
        → All (λ y. p y ≡ true) xs
        → All (λ y. p y ≡ true) (order_by le xs)
    unfolding order_by
    All-order_by p [] h = tt
    All-order_by p (x ∷ xs) h = All-insert_row p x (order_by le xs) h.0 (All-order_by p xs h.1)

    module _ (total : (x y : A) → le x y ≡ false → le y x ≡ true)
        (trans : (x y z : A) → le x y ≡ true → le y z ≡ true → le x z ≡ true) where
      insert_row-IsOrdered :
          (a : A) (xs : List A) → IsOrdered le xs → IsOrdered le (insert_row le a xs)
      unfolding insert_row
      insert_row-IsOrdered a [] h = (tt, tt)
      insert_row-IsOrdered a (x ∷ xs) h = elim (Bool-cases (le a x)) [
        | inl first ↦ rw first ((first, All-map _ _ xs (λ y le_x. trans a x y first le_x) h.0), h)
        | inr later ↦
            rw later
              (All-insert_row (le x) a xs (total a x later) h.0, insert_row-IsOrdered a xs h.1)
      ]

      -- What an order by a total and transitive comparison sends is ordered.
      pub order_by-IsOrdered : (xs : List A) → IsOrdered le (order_by le xs)
      unfolding order_by
      order_by-IsOrdered [] = tt
      order_by-IsOrdered (x ∷ xs) = insert_row-IsOrdered x (order_by le xs) (order_by-IsOrdered xs)

  pub IsOrdered-weaken :
      (le le' : A → A → Bool)
      → ((x y : A) → le x y ≡ true → le' x y ≡ true)
      → (xs : List A) → IsOrdered le xs
      → IsOrdered le' xs
  IsOrdered-weaken le le' weaker [] h = tt
  IsOrdered-weaken le le' weaker (x ∷ xs) h =
      (All-map _ _ xs (weaker x) h.0, IsOrdered-weaken le le' weaker xs h.1)

  -- Every two rows at different places of the list pass the test.
  abbrev pub Pairwise : (A → A → Bool) → List A → Type 0
  Pairwise apart [] = Unit
  Pairwise apart (x ∷ xs) = All (λ y. apart x y ≡ true) xs × Pairwise apart xs

  module _ (le le' apart : A → A → Bool)
      (agree : (x y : A) → apart x y ≡ true → le x y ≡ le' x y) where
    insert_row-agree :
        (a : A) (xs : List A)
        → All (λ y. apart a y ≡ true) xs
        → insert_row le a xs ≡ insert_row le' a xs
    unfolding insert_row
    insert_row-agree a [] h = refl
    insert_row-agree a (x ∷ xs) h =
        ap (λ b. if b then a ∷ x ∷ xs else x ∷ insert_row le a xs) (agree a x h.0)
        ∙ ap (λ l. if le' a x then a ∷ x ∷ xs else x ∷ l) (insert_row-agree a xs h.1)

    -- Two comparisons that agree on the rows of the list order it in the same way.
    pub order_by-agree : (xs : List A) → Pairwise apart xs → order_by le xs ≡ order_by le' xs
    unfolding order_by
    order_by-agree [] h = refl
    order_by-agree (x ∷ xs) h =
        insert_row-agree x (order_by le xs) (All-order_by le (apart x) xs h.0)
        ∙ ap (insert_row le' x) (order_by-agree xs h.1)

  All-take :
      (p : A → Bool) (n : ℕ) (xs : List A)
      → All (λ y. p y ≡ true) xs
      → All (λ y. p y ≡ true) (take n xs)
  unfolding take
  All-take p zero xs h = tt
  All-take p (suc n) [] h = tt
  All-take p (suc n) (x ∷ xs) h = (h.0, All-take p n xs h.1)

  All-drop :
      (p : A → Bool) (n : ℕ) (xs : List A)
      → All (λ y. p y ≡ true) xs
      → All (λ y. p y ≡ true) (drop n xs)
  unfolding drop
  All-drop p zero xs h = h
  All-drop p (suc n) [] h = tt
  All-drop p (suc n) (x ∷ xs) h = All-drop p n xs h.1

  pub All-page :
      (p : A → Bool) (limit offset : ℕ) (xs : List A)
      → All (λ y. p y ≡ true) xs
      → All (λ y. p y ≡ true) (page limit offset xs)
  unfolding page
  All-page p limit offset xs h = All-take p limit (drop offset xs) (All-drop p offset xs h)

  drop-IsOrdered :
      (le : A → A → Bool) (n : ℕ) (xs : List A) → IsOrdered le xs → IsOrdered le (drop n xs)
  unfolding drop
  drop-IsOrdered le zero xs h = h
  drop-IsOrdered le (suc n) [] h = tt
  drop-IsOrdered le (suc n) (x ∷ xs) h = drop-IsOrdered le n xs h.1

  take-IsOrdered :
      (le : A → A → Bool) (n : ℕ) (xs : List A) → IsOrdered le xs → IsOrdered le (take n xs)
  unfolding take
  take-IsOrdered le zero xs h = tt
  take-IsOrdered le (suc n) [] h = tt
  take-IsOrdered le (suc n) (x ∷ xs) h = (All-take (le x) n xs h.0, take-IsOrdered le n xs h.1)

  pub page-IsOrdered :
      (le : A → A → Bool) (limit offset : ℕ) (xs : List A)
      → IsOrdered le xs
      → IsOrdered le (page limit offset xs)
  unfolding page
  page-IsOrdered le limit offset xs h =
      take-IsOrdered le limit (drop offset xs) (drop-IsOrdered le offset xs h)

  -- A page and what follows it.
  take-append-drop : (n : ℕ) (xs : List A) → take n xs ++ drop n xs ≡ xs
  unfolding take drop
  take-append-drop zero xs = refl
  take-append-drop (suc n) [] = refl
  take-append-drop (suc n) (x ∷ xs) = ap (λ l. x ∷ l) (take-append-drop n xs)

  drop-nil : (n : ℕ) → drop n [] ≡ []
  unfolding drop
  drop-nil zero = refl
  drop-nil (suc n) = refl

  drop-drop : (m n : ℕ) (xs : List A) → drop m (drop n xs) ≡ drop (n + m) xs
  unfolding drop
  drop-drop m zero xs = ap (λ k. drop k xs) (omega arith)
  drop-drop m (suc n) [] = drop-nil m ∙ sym (drop-nil (suc n + m))
  drop-drop m (suc n) (x ∷ xs) = drop-drop m n xs ∙ ap (λ k. drop k (x ∷ xs)) (suc_out n m)

  drop_all : (n : ℕ) (xs : List A) → length xs ≤ n → drop n xs ≡ []
  unfolding drop
  drop_all zero [] h = refl
  drop_all zero (x ∷ xs) h = absurd (omega arith)
  drop_all (suc n) [] h = refl
  drop_all (suc n) (x ∷ xs) h = drop_all n xs (omega arith)

  length-take : (n : ℕ) (xs : List A) → length (take n xs) ≤ n
  unfolding take
  length-take zero xs = omega arith
  length-take (suc n) [] = omega arith
  length-take (suc n) (x ∷ xs) = omega (arith, length-take n xs)

  -- the pages with offsets 0, `limit`, 2 * `limit` and so on, `n` of them, in a row
  unfoldable pub pages : ℕ → ℕ → ℕ → List A → List A
  unfolding page
  pages limit offset zero xs = []
  pages limit offset (suc n) xs = page limit offset xs ++ pages limit (offset + limit) n xs

  pages-drop :
      (limit offset n : ℕ) (xs : List A)
      → length xs ≤ offset + n * limit
      → pages limit offset n xs ≡ drop offset xs
  unfolding pages page
  pages-drop limit offset zero xs h = sym (drop_all offset xs (omega arith))
  pages-drop limit offset (suc n) xs h =
      ap (λ l. take limit (drop offset xs) ++ l)
        (pages-drop limit (offset + limit) n xs (grind (arith, h))
          ∙ sym (drop-drop limit offset xs))
      ∙ take-append-drop limit (drop offset xs)

  -- Pages enough for all rows are all rows.
  pub pages_all : (limit n : ℕ) (xs : List A) → length xs ≤ n * limit → pages limit 0 n xs ≡ xs
  pages_all limit n xs h = pages-drop limit 0 n xs (omega (arith, h)) ∙ unfold drop in refl

  pub select_All : (p : A → Bool) (xs : List A) → All (λ y. p y ≡ true) (select p xs)
  unfolding select
  select_All p [] = tt
  select_All p (x ∷ xs) = elim (Bool-cases (p x)) [
    | inl here ↦ rw here (here, select_All p xs)
    | inr out ↦ rw out (select_All p xs)
  ]

  pub length-select : (p : A → Bool) (xs : List A) → length (select p xs) ≡ count p xs
  unfolding select count
  length-select p [] = refl
  length-select p (x ∷ xs) = ground (arith, length-select p xs)
