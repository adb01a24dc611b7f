-- ===== src/Store/Rows.antt =====
-- What SQL does to the rows of a table.
use calbridge.Common.{
  ℕ, suc, ◌≡◌, inl, inr, Text, List, [], ◌∷◌, Option, none, some, Bool, true, false, ◌||◌, leb, eqb,
  if◌then◌else◌, All, Bool-cases,
}

module _ {A : Type 0} where
  -- SELECT ... WHERE
  unfoldable pub select : (A → Bool) → List A → List A
  select p [] = []
  select p (x ∷ xs) = let rest = select p xs in if p x then x ∷ rest else rest

  -- DELETE ... WHERE
  unfoldable pub remove : (A → Bool) → List A → List A
  remove p [] = []
  remove p (x ∷ xs) = let rest = remove p xs in if p x then rest else x ∷ rest

  -- UPDATE ... WHERE
  unfoldable pub update : (A → Bool) → (A → A) → List A → List A
  update p f [] = []
  update p f (x ∷ xs) = (if p x then f x else x) ∷ update p f xs

  unfoldable pub count : (A → Bool) → List A → ℕ
  count p [] = 0
  count p (x ∷ xs) = let rest = count p xs in if p x then suc rest else rest

  -- Whether a row fits.
  unfoldable pub exists : (A → Bool) → List A → Bool
  exists p [] = false
  exists p (x ∷ xs) = p x || exists p xs

  -- The first row that fits.
  unfoldable pub first : (A → Bool) → List A → Option A
  first p [] = none
  first p (x ∷ xs) = let later = first p xs in if p x then some x else later

  -- ORDER BY: a stable insertion sort by `le`.
  pub insert_by : (A → A → Bool) → A → List A → List A
  insert_by le x [] = x ∷ []
  insert_by le x (y ∷ ys) = let rest = insert_by le x ys in if le x y then x ∷ y ∷ ys else y ∷ rest

  pub order_by : (A → A → Bool) → List A → List A
  unfolding insert_by
  order_by le [] = []
  order_by le (x ∷ xs) = insert_by le x (order_by le xs)

  -- What is asked of every row survives a deletion and an update that keeps it.
  pub All-remove : (P : A → Type 0) (p : A → Bool) (xs : List A) → All P xs → All P (remove p xs)
  unfolding remove
  All-remove P p [] h = tt
  All-remove P p (x ∷ xs) h = elim (Bool-cases (p x)) [
    | inl e ↦ rw e (All-remove P p xs h.1)
    | inr e ↦ rw e (h.0, All-remove P p xs h.1)
  ]

  pub All-select : (P : A → Type 0) (p : A → Bool) (xs : List A) → All P xs → All P (select p xs)
  unfolding select
  All-select P p [] h = tt
  All-select P p (x ∷ xs) h = elim (Bool-cases (p x)) [
    | inl e ↦ rw e (h.0, All-select P p xs h.1)
    | inr e ↦ rw e (All-select P p xs h.1)
  ]

  pub All-update :
      (P : A → Type 0) (p : A → Bool) (f : A → A) (xs : List A)
      → ((x : A) → P x → P (f x))
      → All P xs
      → All P (update p f xs)
  unfolding update
  All-update P p f [] k h = tt
  All-update P p f (x ∷ xs) k h = elim (Bool-cases (p x)) [
    | inl e ↦ rw e (k x h.0, All-update P p f xs k h.1)
    | inr e ↦ rw e (h.0, All-update P p f xs k h.1)
  ]

  -- The rows that are selected fit.
  pub select-All : (p : A → Bool) (xs : List A) → All (λ x. p x ≡ true) (select p xs)
  unfolding select
  select-All p [] = tt
  select-All p (x ∷ xs) = elim (Bool-cases (p x)) [
    | inl e ↦ rw e (e, select-All p xs)
    | inr e ↦ rw e (select-All p xs)
  ]

  pub All-map : (P Q : A → Type 0) (xs : List A) → ((x : A) → P x → Q x) → All P xs → All Q xs
  All-map P Q [] k h = tt
  All-map P Q (x ∷ xs) k h = (k x h.0, All-map P Q xs k h.1)

-- The order of texts by their bytes.
pub text_le : Text → Text → Bool
text_le [] t = true
text_le (x ∷ s) [] = false
text_le (x ∷ s) (y ∷ t) = let later = text_le s t in if eqb x y then later else leb x y
