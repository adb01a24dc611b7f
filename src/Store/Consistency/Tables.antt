-- ===== src/Store/Consistency/Tables.antt =====
-- The consistency of one table: no two rows clash, and every row refers to what exists. What a
-- statement does to a table keeps it.
use calbridge.Common.{
  ◌≡◌, refl, ◌∙◌, arith, inl, inr, List, [], ◌∷◌, Bool, true, false, All, Bool-cases,
}
use calbridge.Store.Rows.{remove, update, exists, All-remove, All-update, All-map}

module _ {A : Type 0} where
  pub exists-remove :
      (q p : A → Bool) (xs : List A) → exists q xs ≡ false → exists q (remove p xs) ≡ false
  unfolding exists remove
  exists-remove q p [] h = refl
  exists-remove q p (x ∷ xs) h = let IH = exists-remove q p xs in ground arith

  pub exists-remove_self : (p : A → Bool) (xs : List A) → exists p (remove p xs) ≡ false
  unfolding exists remove
  exists-remove_self p [] = refl
  exists-remove_self p (x ∷ xs) = elim (Bool-cases (p x)) [
    | inl e ↦ rw e (exists-remove_self p xs)
    | inr e ↦ rw (e, e) (exists-remove_self p xs)
  ]

  pub exists-update :
      (q p : A → Bool) (f : A → A) (xs : List A)
      → ((x : A) → q (f x) ≡ q x)
      → exists q (update p f xs) ≡ exists q xs
  unfolding exists update
  exists-update q p f [] k = refl
  exists-update q p f (x ∷ xs) k = elim (Bool-cases (p x)) [
    | inl e ↦ rw (e, k x, exists-update q p f xs k) refl
    | inr e ↦ rw (e, exists-update q p f xs k) refl
  ]

  pub exists_cong :
      (q r : A → Bool) (xs : List A) → ((x : A) → q x ≡ r x) → exists q xs ≡ exists r xs
  unfolding exists
  exists_cong q r [] k = refl
  exists_cong q r (x ∷ xs) k = rw (k x, exists_cong q r xs k) refl

  -- No two rows clash.
  unfoldable pub Distinct : (A → A → Bool) → List A → Type 0
  Distinct clash [] = Unit
  Distinct clash (x ∷ xs) = (exists (clash x) xs ≡ false) × Distinct clash xs

  -- A change of a row that no other row notices.
  unfoldable pub KeepsKey : (A → A → Bool) → (A → A) → Type 0
  KeepsKey clash f =
      ((x y : A) → clash x (f y) ≡ clash x y) × ((x y : A) → clash (f x) y ≡ clash x y)

  pub Distinct-remove :
      (clash : A → A → Bool) (p : A → Bool) (xs : List A)
      → Distinct clash xs
      → Distinct clash (remove p xs)
  unfolding Distinct remove
  Distinct-remove clash p [] h = tt
  Distinct-remove clash p (x ∷ xs) h = elim (Bool-cases (p x)) [
    | inl e ↦ rw e (Distinct-remove clash p xs h.1)
    | inr e ↦ rw e (exists-remove (clash x) p xs h.0, Distinct-remove clash p xs h.1)
  ]

  pub Distinct-update :
      (clash : A → A → Bool) (p : A → Bool) (f : A → A) (xs : List A)
      → KeepsKey clash f
      → Distinct clash xs
      → Distinct clash (update p f xs)
  unfolding Distinct KeepsKey update
  Distinct-update clash p f [] k h = tt
  Distinct-update clash p f (x ∷ xs) k h =
      let same = exists-update (clash x) p f xs (k.0 x) ∙ h.0 in
      let IH = Distinct-update clash p f xs k h.1 in
      elim (Bool-cases (p x)) [
        | inl e ↦ rw e (exists_cong (clash (f x)) (clash x) (update p f xs) (k.1 x) ∙ same, IH)
        | inr e ↦ rw e (same, IH)
      ]

  All-remove_rest :
      (q r p : A → Bool) (xs : List A)
      → ((x : A) → p x ≡ false → q x ≡ true → r x ≡ true)
      → All (λ x. q x ≡ true) xs
      → All (λ x. r x ≡ true) (remove p xs)
  unfolding remove
  All-remove_rest q r p [] k h = tt
  All-remove_rest q r p (x ∷ xs) k h = elim (Bool-cases (p x)) [
    | inl e ↦ rw e (All-remove_rest q r p xs k h.1)
    | inr e ↦ rw e (k x e h.0, All-remove_rest q r p xs k h.1)
  ]

  -- No two rows clash, and what each refers to exists.
  unfoldable pub IsTable : (A → A → Bool) → (A → Bool) → List A → Type 0
  unfolding Distinct
  IsTable clash refers xs = Distinct clash xs × All (λ x. refers x ≡ true) xs

  module _ (clash : A → A → Bool) (refers : A → Bool) (xs : List A)
      (h : IsTable clash refers xs) where
    pub IsTable-insert :
        (x : A) → exists (clash x) xs ≡ false → refers x ≡ true → IsTable clash refers (x ∷ xs)
    unfolding IsTable Distinct
    IsTable-insert x new there = ((new, h.0), (there, h.1))

    pub IsTable-remove : (p : A → Bool) → IsTable clash refers (remove p xs)
    unfolding IsTable
    IsTable-remove p = (Distinct-remove clash p xs h.0, All-remove (λ x. refers x ≡ true) p xs h.1)

    pub IsTable-update :
        (p : A → Bool) (f : A → A)
        → KeepsKey clash f
        → ((x : A) → refers (f x) ≡ refers x)
        → IsTable clash refers (update p f xs)
    unfolding IsTable
    IsTable-update p f key k = (
      Distinct-update clash p f xs key h.0,
      All-update (λ x. refers x ≡ true) p f xs (λ x e. k x ∙ e) h.1,
    )

    -- The rows referred to may grow.
    pub IsTable-refers :
        (refers' : A → Bool)
        → ((x : A) → refers x ≡ true → refers' x ≡ true)
        → IsTable clash refers' xs
    unfolding IsTable
    IsTable-refers refers' k =
        (h.0, All-map (λ x. refers x ≡ true) (λ x. refers' x ≡ true) xs k h.1)

    -- The rows whose references go are removed with them.
    pub IsTable-cascade :
        (refers' p : A → Bool)
        → ((x : A) → p x ≡ false → refers x ≡ true → refers' x ≡ true)
        → IsTable clash refers' (remove p xs)
    unfolding IsTable
    IsTable-cascade refers' p k =
        (Distinct-remove clash p xs h.0, All-remove_rest refers refers' p xs k h.1)
