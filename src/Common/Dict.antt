-- ===== src/Common/Dict.antt =====
-- Go's map with string keys, as an association list. What `range` visits is the list of entries,
-- in an order that the callers take as a parameter, since Go leaves it open.
use calbridge.Common.Tests.{if◌then◌else◌}
use calbridge.Common.Texts.{Text, ◌==◌, ==_iff}
use mathlib.Core.Path.{◌≡◌, refl}
use mathlib.Core.Logic.{◌⊎◌}
use mathlib.Core.Option.{Option, none, some}
use mathlib.Core.List.{List, [], ◌∷◌}
use native.Mathlib.Omega.{arith}

abbrev pub Dict {ℓ} : Type ℓ → Type ℓ
Dict V = List (Text × V)

module _ {ℓ} {V : Type ℓ} where
  -- v, ok := m[k]
  unfoldable pub get : Text → Dict V → Option V
  get k [] = none
  get k ((j, v) ∷ d) = if j == k then some v else get k d

  -- m[k] = v
  unfoldable pub put : Text → V → Dict V → Dict V
  put k v [] = (k, v) ∷ []
  put k v ((j, w) ∷ d) = if j == k then (k, v) ∷ d else (j, w) ∷ put k v d

  -- delete(m, k)
  unfoldable pub delete : Text → Dict V → Dict V
  delete k [] = []
  delete k ((j, v) ∷ d) = let rest = delete k d in if j == k then rest else (j, v) ∷ rest

  pub get-put :
      (k j : Text) (v : V) (d : Dict V) → get j (put k v d) ≡ (if k == j then some v else get j d)
  unfolding get put
  get-put k j v [] = refl
  get-put k j v ((i, w) ∷ d) = ground (arith, ==_iff k j, ==_iff i k, ==_iff i j, get-put k j v d)

  pub get-delete :
      (k j : Text) (d : Dict V) → get j (delete k d) ≡ (if k == j then none else get j d)
  unfolding get delete
  get-delete k j [] = ground arith
  get-delete k j ((i, w) ∷ d) = ground (arith, ==_iff k j, ==_iff i k, ==_iff i j, get-delete k j d)

  -- What a deletion leaves, and what it takes.
  pub get-delete_sub :
      (k j : Text) (v : V) (d : Dict V) → get j (delete k d) ≡ some v → get j d ≡ some v
  get-delete_sub k j v d h = ground (arith, get-delete k j d)

  pub get-delete-none :
      (k j : Text) (d : Dict V) → get j (delete k d) ≡ none → (k ≡ j) ⊎ (get j d ≡ none)
  get-delete-none k j d h = ground (arith, get-delete k j d, ==_iff k j)

  pub get-delete_self : (k : Text) (d : Dict V) → get k (delete k d) ≡ none
  get-delete_self k d = ground (arith, get-delete k k d, ==_iff k k)
