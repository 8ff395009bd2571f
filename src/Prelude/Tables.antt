-- ===== src/Prelude/Tables.antt =====
-- Tables: a table is the list of its rows under a primary key; reading by key, writing a changed
-- row back, and what stays of the other rows.
use Prim.Native.Nat.{ℕ}
use mathlib.Core.Path.{◌≡◌, refl, sym, ap, ◌∙◌}
use mathlib.Core.Logic.{◌≢◌, ◌⊎◌, inl, inr}
use mathlib.Core.Bool.{Bool, true, false}
use mathlib.Core.Option.{Option, some}
use mathlib.Core.List.{List, [], ◌∷◌, ◌++◌, map}
use native.Mathlib.Omega.{arith}
use rolling_api.Prelude.Lists.{All, All-at, find, find_matches, count, Member}
use rolling_api.Prelude.Tests.{◌==◌, ==_iff, ==_refl, Bool-cases, if◌then◌else◌}

-- A table's primary key.
pub record Row (A : Type 0) : Type 0 where
  pub key : A → ℕ

module _ {A : Type 0} ⦃r : Row A⦄ where
  -- `select(A).where(A.id == k)`
  unfoldable pub get : ℕ → List A → Option A
  unfolding find
  get k = find (λ x. r.key x == k)

  -- the write of a changed object: the row with its key is replaced
  unfoldable pub save : A → List A → List A
  save a [] = []
  save a (x ∷ xs) = (if r.key x == r.key a then a else x) ∷ save a xs

  pub key-get : (k : ℕ) (xs : List A) (a : A) → get k xs ≡ some a → r.key a ≡ k
  unfolding get
  key-get k xs a h = (==_iff _ k).0 (find_matches (λ x. r.key x == k) xs a h)

  pub get-save_self :
      (a : A) (xs : List A) (old : A)
      → get (r.key a) xs ≡ some old
      → get (r.key a) (save a xs) ≡ some a
  unfolding get find save
  get-save_self a [] old h = ground arith
  get-save_self a (x ∷ xs) old h = elim (Bool-cases (r.key x == r.key a)) [
    | inl same ↦ rw (same, ==_refl) refl
    | inr other ↦ rw (other, other) (get-save_self a xs old (rw (other, find) at h))
  ]

  pub get-save_ne : (k : ℕ) (a : A) (xs : List A) → r.key a ≢ k → get k (save a xs) ≡ get k xs
  unfolding get find save
  get-save_ne k a [] h = refl
  get-save_ne k a (x ∷ xs) h = elim (Bool-cases (r.key x == r.key a)) [
    | inl same ↦ rw same (ground (arith, get-save_ne k a xs h))
    | inr other ↦ rw other (ground (arith, get-save_ne k a xs h))
  ]

  -- A row of the table after a write is the written one, or one with another key that was there.
  pub Member-save_cases :
      (a x : A) (xs : List A) → Member x (save a xs) → (x ≡ a) ⊎ (Member x xs × (r.key x ≢ r.key a))
  unfolding save
  Member-save_cases a x (y ∷ xs) (inl e) = elim (Bool-cases (r.key y == r.key a)) [
    | inl same ↦ inl (e ∙ rw same refl)
    | inr other ↦
        let e' : x ≡ y = e ∙ rw other refl in inr (inl e', rw e' (λ k. ground (arith, other, k)))
  ]
  Member-save_cases a x (y ∷ xs) (inr m) = elim (Member-save_cases a x xs m) [
    | inl e ↦ inl e
    | inr (old, ne) ↦ inr (inr old, ne)
  ]
  Member-save_cases a x [] m = elim m [ ]

  -- A lookup that the written row still passes finds the written row.
  pub find-save :
      (p : A → Bool) (a old : A) (xs : List A)
      → find p xs ≡ some old
      → r.key old ≡ r.key a
      → p a ≡ true
      → find p (save a xs) ≡ some a
  unfolding find save
  find-save p a old [] h e t = cc
  find-save p a old (x ∷ xs) h e t = elim (Bool-cases (r.key x == r.key a)) [
    | inl same ↦ rw (same, t) refl
    | inr other ↦ rw other (elim (Bool-cases (p x)) [
      | inl here ↦ absurd (clash other (ground (arith, here)))
      | inr later ↦ rw later (find-save p a old xs (rw (later, find) at h) e t)
    ])
  ]
    where
      clash : (r.key x == r.key a) ≡ false → x ≡ old → ⊥
      clash other same = ground (arith, other, e, ap r.key same)

  -- A count does not change where the written row counts as the row that it replaces does.
  pub count-save :
      (p : A → Bool) (a : A) (xs : List A)
      → ((x : A) → Member x xs → r.key x ≡ r.key a → p x ≡ p a)
      → count p (save a xs) ≡ count p xs
  unfolding count save
  count-save p a [] h = refl
  count-save p a (x ∷ xs) h =
      let rest = count-save p a xs (λ y m. h y (inr m)) in
      elim (Bool-cases (r.key x == r.key a)) [
        | inl same ↦ rw (same, rest, h x (inl refl) ((==_iff _ _).0 same)) refl
        | inr other ↦ rw (other, rest) refl
      ]

  -- PRIMARY KEY: no two rows share their key.
  abbrev pub UniqueKeys : List A → Type 0
  UniqueKeys [] = Unit
  UniqueKeys (x ∷ xs) = All (λ y. r.key x ≢ r.key y) xs × UniqueKeys xs

  pub get-of_Member :
      (x : A) (xs : List A) → UniqueKeys xs → Member x xs → get (r.key x) xs ≡ some x
  unfolding get find
  get-of_Member x (y ∷ xs) u (inl e) = rw e (rw ==_refl refl)
  get-of_Member x (y ∷ xs) u (inr m) =
      let apart = All-at (λ z. r.key y ≢ r.key z) xs x u.0 m in
      ground (arith, apart, get-of_Member x xs u.1 m)
  get-of_Member x [] u m = elim m [ ]

  -- The row with a key is the one that a lookup of the key finds.
  pub Member-unique :
      (x a : A) (xs : List A) → UniqueKeys xs → Member x xs → get (r.key x) xs ≡ some a → x ≡ a
  Member-unique x a xs u m h = let same = get-of_Member x xs u m in cc

  pub All-append {κ} :
      (P : A → Type κ) (xs : List A) (a : A) → All P xs → P a → All P (xs ++ a ∷ [])
  All-append P [] a h p = (p, tt)
  All-append P (x ∷ xs) a h p = (h.0, All-append P xs a h.1 p)

  -- A row with another key stays, and the written row replaces the row with its key.
  pub Member-save_ne :
      (a x : A) (xs : List A) → Member x xs → r.key x ≢ r.key a → Member x (save a xs)
  unfolding save
  Member-save_ne a x (y ∷ xs) (inl e) ne = inl (
      rw (← e) (elim (Bool-cases (r.key x == r.key a)) [
        | inl same ↦ absurd (ne ((==_iff _ _).0 same))
        | inr other ↦ rw other refl
      ]))
  Member-save_ne a x (y ∷ xs) (inr m) ne = inr (Member-save_ne a x xs m ne)
  Member-save_ne a x [] m ne = elim m [ ]

  pub Member-save_self :
      (a old : A) (xs : List A) → Member old xs → r.key old ≡ r.key a → Member a (save a xs)
  unfolding save
  Member-save_self a old (y ∷ xs) (inl e) k = inl (rw (← e) (rw k (rw ==_refl refl)))
  Member-save_self a old (y ∷ xs) (inr m) k = inr (Member-save_self a old xs m k)
  Member-save_self a old [] m k = elim m [ ]

  -- A column keeps its values where the written row has the value of the row that it replaces.
  pub map-save {ℓ} :
      {B : Type ℓ} (f : A → B) (a : A) (xs : List A)
      → ((y : A) → Member y xs → r.key y ≡ r.key a → f y ≡ f a)
      → map f (save a xs) ≡ map f xs
  unfolding save
  map-save f a [] h = refl
  map-save f a (x ∷ xs) h =
      let rest = map-save f a xs (λ y m. h y (inr m)) in
      elim (Bool-cases (r.key x == r.key a)) [
        | inl same ↦ rw (same, rest, h x (inl refl) ((==_iff _ _).0 same)) refl
        | inr other ↦ rw (other, rest) refl
      ]

-- No value stands twice in the list.
abbrev pub IsDistinct : {A : Type 0} → List A → Type 0
IsDistinct [] = Unit
IsDistinct (x ∷ xs) = All (λ y. x ≢ y) xs × IsDistinct xs

module _ {A B : Type 0} where
  pub Member-map : (f : A → B) (x : A) (xs : List A) → Member x xs → Member (f x) (map f xs)
  Member-map f x (y ∷ xs) (inl e) = inl (ap f e)
  Member-map f x (y ∷ xs) (inr m) = inr (Member-map f x xs m)
  Member-map f x [] m = elim m [ ]

  -- Two rows of a table with one value in a unique column are the same row.
  pub IsDistinct-eq :
      (f : A → B) (x y : A) (xs : List A)
      → IsDistinct (map f xs)
      → Member x xs
      → Member y xs
      → f x ≡ f y
      → x ≡ y
  IsDistinct-eq f x y (z ∷ xs) u (inl e) (inl e') q = e ∙ sym e'
  IsDistinct-eq f x y (z ∷ xs) u (inl e) (inr m) q =
      absurd (All-at _ (map f xs) (f y) u.0 (Member-map f y xs m) (sym (ap f e) ∙ q))
  IsDistinct-eq f x y (z ∷ xs) u (inr m) (inl e) q =
      absurd (All-at _ (map f xs) (f x) u.0 (Member-map f x xs m) (sym (ap f e) ∙ sym q))
  IsDistinct-eq f x y (z ∷ xs) u (inr m) (inr n) q = IsDistinct-eq f x y xs u.1 m n q
  IsDistinct-eq f x y [] u m n q = elim m [ ]

  All-ne_append :
      (b : B) (f : A → B) (xs : List A) (x : A)
      → All (λ z. b ≢ z) (map f xs)
      → b ≢ f x
      → All (λ z. b ≢ z) (map f (xs ++ x ∷ []))
  All-ne_append b f [] x h n = (n, tt)
  All-ne_append b f (y ∷ xs) x h n = (h.0, All-ne_append b f xs x h.1 n)

  -- An insertion of a new value keeps a column distinct.
  pub IsDistinct-append :
      (f : A → B) (xs : List A) (x : A)
      → IsDistinct (map f xs)
      → All (λ y. f y ≢ f x) xs
      → IsDistinct (map f (xs ++ x ∷ []))
  IsDistinct-append f [] x u n = (tt, tt)
  IsDistinct-append f (y ∷ xs) x u n =
      (All-ne_append (f y) f xs x u.0 n.0, IsDistinct-append f xs x u.1 n.1)
