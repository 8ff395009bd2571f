-- ===== src/Prelude/Lists.antt =====
-- Lists measured by native numbers, with the queries
-- `find`, `select` and `count` that the services issue.
use Prim.Native.Nat.{ℕ, zero, suc, ◌+◌, ◌≤◌, ◌<◌}
use mathlib.Core.Path.{◌≡◌, refl, sym, subst}
use mathlib.Core.Logic.{◌↔◌, ◌⊎◌, inl, inr}
use mathlib.Core.Bool.{Bool, true, false}
use mathlib.Core.Option.{Option, none, some}
use mathlib.Core.List.{List, [], ◌∷◌, ◌++◌}
use native.Mathlib.Omega.{arith}
use rolling_api.Prelude.Tests.{Option-cases, is_some, Bool-cases, if◌then◌else◌}

module _ {ℓ} {A : Type ℓ} where
  abbrev pub length : List A → ℕ
  length [] = 0
  length (x ∷ xs) = suc (length xs)

  -- `xs[i]`; `none` is an `IndexError`
  abbrev pub get_elem? : List A → ℕ → Option A
  get_elem? [] i = none
  get_elem? (x ∷ xs) zero = some x
  get_elem? (x ∷ xs) (suc i) = get_elem? xs i

  -- Every element satisfies `P`.
  abbrev pub All {κ} : (A → Type κ) → List A → Type κ
  All P [] = Unit
  All P (x ∷ xs) = P x × All P xs

  -- `db.scalar(select(A).where(p))`: the first row that matches, in insertion order
  unfoldable pub find : (A → Bool) → List A → Option A
  find p [] = none
  find p (x ∷ xs) = if p x then some x else find p xs

  -- `db.scalars(select(A).where(p)).all()`
  unfoldable pub select : (A → Bool) → List A → List A
  select p [] = []
  select p (x ∷ xs) = let rest = select p xs in if p x then x ∷ rest else rest

  -- `select(func.count()).where(p)`
  unfoldable pub count : (A → Bool) → List A → ℕ
  count p [] = 0
  count p (x ∷ xs) = let rest = count p xs in if p x then suc rest else rest

  -- `any(p(x) for x in xs)`
  unfoldable pub any : (A → Bool) → List A → Bool
  any p [] = false
  any p (x ∷ xs) = let rest = any p xs in if p x then true else rest

module _ {ℓ} {A : Type ℓ} where
  pub get_elem?-lt : (xs : List A) (i : ℕ) (x : A) → get_elem? xs i ≡ some x → i < length xs
  get_elem?-lt [] i x e = cc
  get_elem?-lt (y ∷ xs) zero x e = omega arith
  get_elem?-lt (y ∷ xs) (suc i) x e = omega (arith, get_elem?-lt xs i x e)

  pub count-append : (p : A → Bool) (xs ys : List A) → count p (xs ++ ys) ≡ count p xs + count p ys
  unfolding count
  count-append p [] ys = omega arith
  count-append p (x ∷ xs) ys = ground (arith, count-append p xs ys)

  pub count-le-length : (p : A → Bool) (xs : List A) → count p xs ≤ length xs
  unfolding count
  count-le-length p [] = omega arith
  count-le-length p (x ∷ xs) = ground (arith, count-le-length p xs)

  -- What `find` returns matches.
  pub find_matches : (p : A → Bool) (xs : List A) (x : A) → find p xs ≡ some x → p x ≡ true
  unfolding find
  find_matches p [] x h = ground arith
  find_matches p (y ∷ xs) x h = ground (arith, find_matches p xs x)

  pub find-append :
      (p : A → Bool) (xs ys : List A) → find p xs ≡ none → find p (xs ++ ys) ≡ find p ys
  unfolding find
  find-append p [] ys h = refl
  find-append p (x ∷ xs) ys h = ground (arith, find-append p xs ys)

  pub find-append_some :
      (p : A → Bool) (xs ys : List A) (x : A) → find p xs ≡ some x → find p (xs ++ ys) ≡ some x
  unfolding find
  find-append_some p [] ys x h = ground arith
  find-append_some p (y ∷ xs) ys x h = ground (arith, find-append_some p xs ys x)

module _ {A : Type 0} where
  -- `x` stands in the list.
  abbrev pub Member : A → List A → Type 0
  Member x [] = ⊥
  Member x (y ∷ ys) = (x ≡ y) ⊎ Member x ys

  pub Member-append : (x : A) (xs ys : List A) → Member x xs → Member x (xs ++ ys)
  Member-append x (y ∷ xs) ys (inl e) = inl e
  Member-append x (y ∷ xs) ys (inr m) = inr (Member-append x xs ys m)
  Member-append x [] ys m = elim m [ ]

  pub Member-append_right : (x : A) (xs ys : List A) → Member x ys → Member x (xs ++ ys)
  Member-append_right x [] ys m = m
  Member-append_right x (y ∷ xs) ys m = inr (Member-append_right x xs ys m)

  pub All-map {κ μ} :
      (P : A → Type κ) (Q : A → Type μ) (xs : List A) → ((x : A) → P x → Q x) → All P xs → All Q xs
  All-map P Q [] f h = tt
  All-map P Q (x ∷ xs) f h = (f x h.0, All-map P Q xs f h.1)

  pub All-of_Member {κ} : (P : A → Type κ) (xs : List A) → ((x : A) → Member x xs → P x) → All P xs
  All-of_Member P [] f = tt
  All-of_Member P (x ∷ xs) f = (f x (inl refl), All-of_Member P xs (λ y m. f y (inr m)))

  pub All-at {κ} : (P : A → Type κ) (xs : List A) (x : A) → All P xs → Member x xs → P x
  All-at P (y ∷ xs) x h (inl e) = subst P (sym e) h.0
  All-at P (y ∷ xs) x h (inr m) = All-at P xs x h.1 m
  All-at P [] x h m = elim m [ ]

  pub find-none :
      (p : A → Bool) (xs : List A) (x : A) → find p xs ≡ none → Member x xs → p x ≡ false
  unfolding find
  find-none p (y ∷ xs) x h (inl e) = ground arith
  find-none p (y ∷ xs) x h (inr m) = ground (arith, find-none p xs x)
  find-none p [] x h m = elim m [ ]

  pub Member-find : (p : A → Bool) (xs : List A) (x : A) → find p xs ≡ some x → Member x xs
  unfolding find
  Member-find p [] x h = cc
  Member-find p (y ∷ xs) x h = elim (Bool-cases (p y)) [
    | inl here ↦ inl (ground (arith, here))
    | inr later ↦ inr (Member-find p xs x (ground (arith, later)))
  ]

  -- A test finds something exactly if it holds of an element.
  pub found_iff :
      (p : A → Bool) (xs : List A)
      → (is_some (find p xs) ≡ true) ↔ ((x : A) × Member x xs × (p x ≡ true))
  found_iff p xs = (λ h. there h, λ m. back m)
    where
      there : is_some (find p xs) ≡ true → (x : A) × Member x xs × (p x ≡ true)
      there h = elim (Option-cases (find p xs)) [
        | inl absent ↦ absurd (ground (arith, absent, h))
        | inr (x, found) ↦ (x, Member-find p xs x found, find_matches p xs x found)
      ]

      back : (x : A) × Member x xs × (p x ≡ true) → is_some (find p xs) ≡ true
      back (x, m, t) = elim (Option-cases (find p xs)) [
        | inl absent ↦ absurd (let n = find-none p xs x absent m in ground (arith, n, t))
        | inr (y, found) ↦ ground (arith, found)
      ]

  -- Every element of a list stands in it.
  pub All-Member : (xs : List A) → All (λ x. Member x xs) xs
  All-Member [] = tt
  All-Member (x ∷ xs) = (inl refl, All-map _ _ xs (λ y m. inr m) (All-Member xs))

module _ {ℓ} {A : Type ℓ} where
  pub count-none : (p : A → Bool) (xs : List A) → find p xs ≡ none → count p xs ≡ 0
  unfolding find count
  count-none p [] h = refl
  count-none p (x ∷ xs) h = ground (arith, count-none p xs)

  pub find_one : (p : A → Bool) (x : A) → p x ≡ true → find p (x ∷ []) ≡ some x
  unfolding find
  find_one p x h = rw h refl

  pub count_one : (p : A → Bool) (x : A) → count p (x ∷ []) ≡ (if p x then 1 else 0)
  unfolding count
  count_one p x = refl

  pub any-false : (p : A → Bool) (xs : List A) → any p xs ≡ false → All (λ y. p y ≡ false) xs
  unfolding any
  any-false p [] h = tt
  any-false p (x ∷ xs) h = (ground (arith, h), any-false p xs (ground (arith, h)))
