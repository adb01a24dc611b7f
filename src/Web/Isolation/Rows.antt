-- ===== src/Web/Isolation/Rows.antt =====
-- The rows of one user, and the statements on the rows of another.
use calbridge.Common.{
  ◌≡◌, refl, subst, inl, inr, Text, List, [], ◌∷◌, some, Bool, true, false, ◌&&◌, ◌==◌,
  if◌then◌else◌, All, arith, Bool-cases, ==_iff,
}
use calbridge.Store.{SourceRow, UserAlertPreferences, Tables}
use calbridge.Store.Rows.{select, remove, update, exists, first}
use calbridge.Store.Consistency.Tables.{Distinct}
use calbridge.Store.Consistency.Statements.{source_clash}

-- The sources and the preferences of the user.
unfoldable pub rows_of : Text → Tables → List SourceRow × List UserAlertPreferences
unfolding select
rows_of user_id t =
    (select (λ s. s.user_id == user_id) t.sources, select (λ p. p.user_id == user_id) t.preferences)

-- Another user's row is not the user's.
pub ==_other : (u other t : Text) → (u == other) ≡ false → (t == u) ≡ true → (t == other) ≡ false
==_other u other t h k = grind (arith, ==_iff u other, ==_iff t u, ==_iff t other)

module _ {A : Type 0} (q p : A → Bool) where
  pub select-update :
      (f : A → A) (xs : List A)
      → All (λ x. p x ≡ true → q x ≡ false) xs
      → ((x : A) → q (f x) ≡ q x)
      → select q (update p f xs) ≡ select q xs
  unfolding select update
  select-update f [] h k = refl
  select-update f (x ∷ xs) h k = elim (Bool-cases (p x)) [
    | inl e ↦ rw (e, k x, h.0 e) (select-update f xs h.1 k)
    | inr e ↦ rw (e, select-update f xs h.1 k) refl
  ]

  pub select-remove :
      (xs : List A) → All (λ x. p x ≡ true → q x ≡ false) xs → select q (remove p xs) ≡ select q xs
  unfolding select remove
  select-remove [] h = refl
  select-remove (x ∷ xs) h = elim (Bool-cases (p x)) [
    | inl e ↦ rw (e, h.0 e) (select-remove xs h.1)
    | inr e ↦ rw (e, select-remove xs h.1) refl
  ]

-- Every row fits.
pub for_each_row : {A : Type 0} (P : A → Type 0) → ((x : A) → P x) → (xs : List A) → All P xs
for_each_row P h [] = tt
for_each_row P h (x ∷ xs) = (h x, for_each_row P h xs)

-- The rows with the identifier are the user's.
abbrev pub AreOwn : Text → Text → List SourceRow → Type 0
AreOwn id u = All (λ s. (s.id == id) ≡ true → (s.user_id == u) ≡ true)

-- A source with the identifier is the only one.
AreOwn-none :
    (id u : Text) (r : SourceRow) (rows : List SourceRow)
    → (r.id == id) ≡ true
    → exists (source_clash r) rows ≡ false
    → AreOwn id u rows
unfolding exists
AreOwn-none id u r [] e h = tt
AreOwn-none id u r (s ∷ ss) e h = (
  (λ k. grind (arith, ==_iff r.id id, ==_iff s.id id, ==_iff s.id r.id)),
  AreOwn-none id u r ss e (ground arith),
)

-- A source that is found is a source with the identifier.
first-exists :
    (id u : Text) (s : SourceRow) (rows : List SourceRow) (r : SourceRow)
    → (s.id == id) ≡ true
    → first (λ x. x.id == id && x.user_id == u) rows ≡ some r
    → exists (source_clash s) rows ≡ true
unfolding exists first
first-exists id u s [] r k h = cc
first-exists id u s (x ∷ xs) r k h = elim (Bool-cases (x.id == id && x.user_id == u)) [
  | inl e ↦ grind (arith, ==_iff x.id id, ==_iff s.id id, ==_iff x.id s.id)
  | inr e ↦
      let IH = first-exists id u s xs r k (
        subst (λ b. (if b then some x else first (λ y. y.id == id && y.user_id == u) xs) ≡ some r) e
          h) in
      ground arith
]

pub first-AreOwn :
    (id u : Text) (rows : List SourceRow) (r : SourceRow)
    → Distinct source_clash rows
    → first (λ s. s.id == id && s.user_id == u) rows ≡ some r
    → AreOwn id u rows
unfolding Distinct exists first
first-AreOwn id u [] r d h = tt
first-AreOwn id u (s ∷ ss) r d h = elim (Bool-cases (s.id == id && s.user_id == u)) [
  | inl e ↦ ((λ k. ground arith), AreOwn-none id u s ss (ground arith) d.0)
  | inr e ↦
      let later : (first (λ x. x.id == id && x.user_id == u) ss ≡ some r) =
        subst (λ b. (if b then some s else first (λ x. x.id == id && x.user_id == u) ss) ≡ some r) e
          h in
      (
        (λ k. let bad = first-exists id u s ss r k later in let no = d.0 in grind arith),
        first-AreOwn id u ss r d.1 later,
      )
]
