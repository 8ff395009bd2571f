-- ===== src/Choice/Flush.antt =====
-- What the insertion of the added rows keeps of the unique columns.
use rolling_api.Prelude.{
  ◌≡◌, ◌≢◌, refl, sym, ap, ◌∙◌, Bool, true, false, some, List, [], ◌∷◌, ◌++◌, map, arith, any,
  any-false, All-map, IsDistinct, IsDistinct-append,
}
use rolling_api.Choice.{insert_all}

module _ {A : Type 0} (same : A → A → Bool) where
  append_assoc : (xs : List A) (y : A) (ys : List A) → (xs ++ y ∷ []) ++ ys ≡ xs ++ y ∷ ys
  append_assoc [] y ys = refl
  append_assoc (x ∷ xs) y ys = ap (λ zs. x ∷ zs) (append_assoc xs y ys)

  append-nil : (xs : List A) → xs ++ [] ≡ xs
  append-nil [] = refl
  append-nil (x ∷ xs) = ap (λ zs. x ∷ zs) (append-nil xs)

  -- the head of an insertion that went through
  insert-head :
      (rows : List A) (x : A) (xs ys : List A)
      → insert_all same rows (x ∷ xs) ≡ some ys
      → (any (same x) rows ≡ false) × (insert_all same (rows ++ x ∷ []) xs ≡ some ys)
  unfolding insert_all
  insert-head rows x xs ys h = (ground (arith, h), ground (arith, h))

  pub insert-eq-append : (rows xs ys : List A) → insert_all same rows xs ≡ some ys → ys ≡ rows ++ xs
  unfolding insert_all
  insert-eq-append rows [] ys h =
      let e : rows ≡ ys = ground (arith, h) in sym e ∙ sym (append-nil rows)
  insert-eq-append rows (x ∷ xs) ys h =
      let (clear, rest) = insert-head rows x xs ys h in
      insert-eq-append (rows ++ x ∷ []) xs ys rest ∙ append_assoc rows x xs

  pub insert-IsDistinct :
      {B : Type 0} (f : A → B) (rows xs ys : List A)
      → ((x y : A) → f y ≡ f x → same x y ≡ true)
      → IsDistinct (map f rows)
      → insert_all same rows xs ≡ some ys
      → IsDistinct (map f ys)
  unfolding insert_all
  insert-IsDistinct f rows [] ys s u h = let e : rows ≡ ys = ground (arith, h) in rw (← e) u
  insert-IsDistinct f rows (x ∷ xs) ys s u h =
      let (clear, rest) = insert-head rows x xs ys h in
      insert-IsDistinct f (rows ++ x ∷ []) xs ys s
        (IsDistinct-append f rows x u
          (All-map _ _ rows (λ y n e. differ x y s n e) (any-false (same x) rows clear)))
        rest
    where
      differ : (x y : A) → ((x y : A) → f y ≡ f x → same x y ≡ true) → same x y ≡ false → f y ≢ f x
      differ x y s n e = let t = s x y e in ground (arith, t, n)
