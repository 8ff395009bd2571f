-- ===== src/Prelude/Joins.antt =====
-- The joins of two tables, and which rows a query finds that joins, selects and orders.
use mathlib.Core.Path.{◌≡◌, refl, ap, ◌∙◌, fun_ext}
use mathlib.Core.Bool.{Bool, ◌&&◌, ◌||◌}
use mathlib.Core.Option.{Option, none, some}
use mathlib.Core.List.{List, [], ◌∷◌, ◌++◌, map}
use native.Mathlib.Omega.{arith}
use rolling_api.Prelude.Lists.{select, any}
use rolling_api.Prelude.Queries.{order_by, insert_row}

module _ {A B : Type 0} where
  unfoldable pub pair_all : A → List B → List (A × B)
  pair_all a [] = []
  pair_all a (b ∷ bs) = (a, b) ∷ pair_all a bs

  -- `select(A, B).join(B, on)`
  unfoldable pub join : (A → B → Bool) → List A → List B → List (A × B)
  unfolding pair_all select
  join on [] bs = []
  join on (a ∷ rest) bs = pair_all a (select (on a) bs) ++ join on rest bs

  unfoldable pub pair_or_none : A → List B → List (A × Option B)
  pair_or_none a [] = (a, none) ∷ []
  pair_or_none a (b ∷ []) = (a, some b) ∷ []
  pair_or_none a (b ∷ b' ∷ bs) = (a, some b) ∷ pair_or_none a (b' ∷ bs)

  -- `select(A, B).outerjoin(B, on)`: a row without a partner is kept
  unfoldable pub outer_join : (A → B → Bool) → List A → List B → List (A × Option B)
  unfolding pair_or_none select
  outer_join on [] bs = []
  outer_join on (a ∷ rest) bs = pair_or_none a (select (on a) bs) ++ outer_join on rest bs

module _ {A : Type 0} where
  any-append : (p : A → Bool) (xs ys : List A) → any p (xs ++ ys) ≡ any p xs || any p ys
  unfolding any
  any-append p [] ys = refl
  any-append p (x ∷ xs) ys = ground (arith, any-append p xs ys)

  pub any-congr : (p q : A → Bool) (xs : List A) → ((x : A) → p x ≡ q x) → any p xs ≡ any q xs
  any-congr p q xs h = rw (fun_ext h) refl

  pub any-select : (p q : A → Bool) (xs : List A) → any p (select q xs) ≡ any (λ x. q x && p x) xs
  unfolding any select
  any-select p q [] = refl
  any-select p q (x ∷ xs) = ground (arith, any-select p q xs)

  any-insert_row :
      (p : A → Bool) (le : A → A → Bool) (a : A) (xs : List A)
      → any p (insert_row le a xs) ≡ p a || any p xs
  unfolding any insert_row
  any-insert_row p le a [] = ground arith
  any-insert_row p le a (x ∷ xs) = ground (arith, any-insert_row p le a xs)

  pub any-order_by :
      (p : A → Bool) (le : A → A → Bool) (xs : List A) → any p (order_by le xs) ≡ any p xs
  unfolding any order_by
  any-order_by p le [] = refl
  any-order_by p le (x ∷ xs) =
      ground (arith, any-insert_row p le x (order_by le xs), any-order_by p le xs)

  -- A test that does not depend on the row is made once.
  pub any-and : (p : A → Bool) (b : Bool) (xs : List A) → any (λ x. p x && b) xs ≡ any p xs && b
  unfolding any
  any-and p b [] = refl
  any-and p b (x ∷ xs) = ground (arith, any-and p b xs)

  pub any-map {κ} :
      {B : Type κ} (p : B → Bool) (f : A → B) (xs : List A)
      → any p (map f xs) ≡ any (λ x. p (f x)) xs
  unfolding any
  any-map p f [] = refl
  any-map p f (x ∷ xs) = ground (arith, any-map p f xs)

module _ {A B : Type 0} where
  any-pair_all :
      (r : A × B → Bool) (a : A) (bs : List B) → any r (pair_all a bs) ≡ any (λ b. r (a, b)) bs
  unfolding any pair_all
  any-pair_all r a [] = refl
  any-pair_all r a (b ∷ bs) = ground (arith, any-pair_all r a bs)

  -- A row of a join is a row of each side.
  pub any-join :
      (r : A × B → Bool) (on : A → B → Bool) (xs : List A) (ys : List B)
      → any r (join on xs ys) ≡ any (λ a. any (λ b. on a b && r (a, b)) ys) xs
  unfolding any join
  any-join r on [] ys = refl
  any-join r on (a ∷ xs) ys =
      any-append r (pair_all a (select (on a) ys)) (join on xs ys)
      ∙ ap (λ b. b || any r (join on xs ys))
          (any-pair_all r a _ ∙ any-select (λ b. r (a, b)) (on a) ys)
      ∙ ground (arith, any-join r on xs ys)

  any-pair_or_none :
      (t : A → Bool) (a : A) (bs : List B) → any (λ x. t x.0) (pair_or_none a bs) ≡ t a
  unfolding any pair_or_none
  any-pair_or_none t a [] = ground arith
  any-pair_or_none t a (b ∷ []) = ground arith
  any-pair_or_none t a (b ∷ b' ∷ bs) = ground (arith, any-pair_or_none t a (b' ∷ bs))

  -- An outer join has every row of its left side.
  pub any-outer_join :
      (t : A → Bool) (on : A → B → Bool) (xs : List A) (ys : List B)
      → any (λ x. t x.0) (outer_join on xs ys) ≡ any t xs
  unfolding any outer_join
  any-outer_join t on [] ys = refl
  any-outer_join t on (a ∷ xs) ys =
      any-append (λ x. t x.0) (pair_or_none a (select (on a) ys)) (outer_join on xs ys)
      ∙ ap (λ b. b || any (λ x. t x.0) (outer_join on xs ys))
          (any-pair_or_none t a (select (on a) ys))
      ∙ ground (arith, any-outer_join t on xs ys)
