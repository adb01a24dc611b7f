-- ===== src/Scheduler/Jobs.antt =====
-- The stop channels of the scheduler's jobs: open, and each of one job.
use calbridge.Common.{
  ℕ, ◌+◌, ◌<◌, ◌≡◌, ◌≢◌, sym, ◌∙◌, subst, inl, inr, Text, List, [], ◌∷◌, none, some, false, ◌==◌,
  arith, All, Bool-cases,
}
use calbridge.Common.Dict.{Dict, get, put, delete}
use calbridge.Scheduler.{Job, member}

-- Every job's channel is open and below the bound, and no other job has it.
abbrev pub Live : List ℕ → ℕ → Dict Job → Type 0
Live closed bound [] = Unit
Live closed bound ((id, j) ∷ d) =
    (j.stop_ch < bound)
    × (member j.stop_ch closed ≡ false)
    × All (λ e. (e.1).stop_ch ≢ j.stop_ch) d
    × Live closed bound d

module _ (P : Job → Type 0) where
  All-put :
      (k : Text) (j : Job) (d : Dict Job)
      → P j
      → All (λ e. P (e.1)) d
      → All (λ e. P (e.1)) (put k j d)
  unfolding put
  All-put k j [] p h = (p, tt)
  All-put k j ((i, x) ∷ d) p h = elim (Bool-cases (i == k)) [
    | inl e ↦ rw e (p, h.1)
    | inr e ↦ rw e (h.0, All-put k j d p h.1)
  ]

  All-delete : (k : Text) (d : Dict Job) → All (λ e. P (e.1)) d → All (λ e. P (e.1)) (delete k d)
  unfolding delete
  All-delete k [] h = tt
  All-delete k ((i, x) ∷ d) h = elim (Bool-cases (i == k)) [
    | inl e ↦ rw e (All-delete k d h.1)
    | inr e ↦ rw e (h.0, All-delete k d h.1)
  ]

-- What holds of all entries' jobs holds of the one that is found.
All-get :
    (P : Job → Type 0) (k : Text) (j : Job) (d : Dict Job)
    → All (λ e. P (e.1)) d
    → get k d ≡ some j
    → P j
unfolding get
All-get P k j [] h e = cc
All-get P k j ((i, x) ∷ d) h e = elim (Bool-cases (i == k)) [
  | inl hit ↦ let same : x ≡ j = cc in subst P same h.0
  | inr miss ↦ All-get P k j d h.1 (rw miss at e)
]

pub Live-widen :
    (closed : List ℕ) (bound : ℕ) (d : Dict Job) → Live closed bound d → Live closed (bound + 1) d
Live-widen closed bound [] h = tt
Live-widen closed bound ((i, x) ∷ d) h = (omega arith, h.1, h.2, Live-widen closed bound d h.3)

module _ (closed : List ℕ) (bound : ℕ) where
  Live-below : (d : Dict Job) → Live closed bound d → All (λ e. (e.1).stop_ch < bound) d
  Live-below [] h = tt
  Live-below ((i, x) ∷ d) h = (h.0, Live-below d h.3)

  Live-unclosed :
      (d : Dict Job) → Live closed bound d → All (λ e. member (e.1).stop_ch closed ≡ false) d
  Live-unclosed [] h = tt
  Live-unclosed ((i, x) ∷ d) h = (h.1, Live-unclosed d h.3)

  Live-apart :
      (c : ℕ) (d : Dict Job) → c ≡ bound → Live closed bound d → All (λ e. (e.1).stop_ch ≢ c) d
  Live-apart c [] e h = tt
  Live-apart c ((i, x) ∷ d) e h = (omega (arith, h.0, e), Live-apart c d e h.3)

  pub Live-get :
      (k : Text) (j : Job) (d : Dict Job)
      → Live closed bound d
      → get k d ≡ some j
      → (j.stop_ch < bound) × (member j.stop_ch closed ≡ false)
  Live-get k j d h e = (
    All-get (λ x. x.stop_ch < bound) k j d (Live-below d h) e,
    All-get (λ x. member x.stop_ch closed ≡ false) k j d (Live-unclosed d h) e,
  )

  -- Closing a channel that no job has.
  pub Live-close :
      (c : ℕ) (d : Dict Job)
      → All (λ e. (e.1).stop_ch ≢ c) d
      → Live closed bound d
      → Live (c ∷ closed) bound d
  unfolding member
  Live-close c [] a h = tt
  Live-close c ((i, x) ∷ d) a h = (h.0, ground (arith, a.0), h.2, Live-close c d a.1 h.3)

  pub Live-delete_any :
      (k : Text) (d : Dict Job) → Live closed bound d → Live closed bound (delete k d)
  unfolding delete
  Live-delete_any k [] h = tt
  Live-delete_any k ((i, x) ∷ d) h = elim (Bool-cases (i == k)) [
    | inl e ↦ rw e (Live-delete_any k d h.3)
    | inr e ↦
        rw e (h.0, h.1, All-delete (λ y. y.stop_ch ≢ x.stop_ch) k d h.2, Live-delete_any k d h.3)
  ]

  -- The job that is found is deleted, and its channel closed.
  pub Live-delete :
      (k : Text) (j : Job) (d : Dict Job)
      → get k d ≡ some j
      → Live closed bound d
      → Live (j.stop_ch ∷ closed) bound (delete k d)
  unfolding get delete member
  Live-delete k j [] e h = cc
  Live-delete k j ((i, x) ∷ d) e h = elim (Bool-cases (i == k)) [
    | inl hit ↦
        let same : x ≡ j = cc in
        rw hit (
          Live-close j.stop_ch (delete k d)
            (All-delete (λ y. y.stop_ch ≢ j.stop_ch) k d
              (subst (λ y. All (λ e. (e.1).stop_ch ≢ y.stop_ch) d) same h.2))
            (Live-delete_any k d h.3))
    | inr miss ↦
        let later : get k d ≡ some j = rw miss at e in
        let apart : j.stop_ch ≢ x.stop_ch = All-get (λ y. y.stop_ch ≢ x.stop_ch) k j d h.2 later in
        rw miss (
          h.0,
          ground (arith, apart),
          All-delete (λ y. y.stop_ch ≢ x.stop_ch) k d h.2,
          Live-delete k j d later h.3,
        )
  ]

  -- A job for a source that has none, with a fresh channel.
  pub Live-put :
      (k : Text) (j : Job) (d : Dict Job)
      → get k d ≡ none
      → j.stop_ch ≡ bound
      → member bound closed ≡ false
      → Live closed bound d
      → Live closed (bound + 1) (put k j d)
  unfolding get put
  Live-put k j [] e new fits h = (omega arith, rw new fits, tt, tt)
  Live-put k j ((i, x) ∷ d) e new fits h = elim (Bool-cases (i == k)) [
    | inl hit ↦ cc
    | inr miss ↦
        let later : get k d ≡ none = rw miss at e in
        let apart : j.stop_ch ≢ x.stop_ch = omega (arith, h.0, new) in
        rw miss (
          omega (arith, h.0),
          h.1,
          All-put (λ y. y.stop_ch ≢ x.stop_ch) k j d apart h.2,
          Live-put k j d later new fits h.3,
        )
  ]

  -- A job in the place of another, whose channel is closed.
  pub Live-replace :
      (k : Text) (j old : Job) (d : Dict Job)
      → get k d ≡ some old
      → j.stop_ch ≡ bound
      → member bound closed ≡ false
      → Live closed bound d
      → Live (old.stop_ch ∷ closed) (bound + 1) (put k j d)
  unfolding get put member
  Live-replace k j old [] e new fits h = cc
  Live-replace k j old ((i, x) ∷ d) e new fits h = elim (Bool-cases (i == k)) [
    | inl hit ↦
        let same : x ≡ old = cc in
        let lower : old.stop_ch < bound = subst (λ y. y.stop_ch < bound) same h.0 in
        rw hit (
          omega (arith, new),
          ground (arith, fits, new, lower),
          Live-apart j.stop_ch d new h.3,
          Live-widen (old.stop_ch ∷ closed) bound d (
              Live-close old.stop_ch d
                (subst (λ y. All (λ e. (e.1).stop_ch ≢ y.stop_ch) d) same h.2) h.3),
        )
    | inr miss ↦
        let later : get k d ≡ some old = rw miss at e in
        let apart : j.stop_ch ≢ x.stop_ch = omega (arith, h.0, new) in
        let gone : old.stop_ch ≢ x.stop_ch =
          All-get (λ y. y.stop_ch ≢ x.stop_ch) k old d h.2 later in
        rw miss (
          omega (arith, h.0),
          ground (arith, gone),
          All-put (λ y. y.stop_ch ≢ x.stop_ch) k j d apart h.2,
          Live-replace k j old d later new fits h.3,
        )
  ]

  -- A write to a job that keeps its channel.
  pub Live-touch :
      (k : Text) (j old : Job) (d : Dict Job)
      → get k d ≡ some old
      → j.stop_ch ≡ old.stop_ch
      → Live closed bound d
      → Live closed bound (put k j d)
  unfolding get put
  Live-touch k j old [] e same h = cc
  Live-touch k j old ((i, x) ∷ d) e same h = elim (Bool-cases (i == k)) [
    | inl hit ↦
        let as_before : x.stop_ch ≡ j.stop_ch = cc in
        rw hit (
          omega (arith, h.0, as_before),
          subst (λ c. member c closed ≡ false) as_before h.1,
          subst (λ c. All (λ e. (e.1).stop_ch ≢ c) d) as_before h.2,
          h.3,
        )
    | inr miss ↦
        let later : get k d ≡ some old = rw miss at e in
        let apart : old.stop_ch ≢ x.stop_ch =
          All-get (λ y. y.stop_ch ≢ x.stop_ch) k old d h.2 later in
        rw miss (
          h.0,
          h.1,
          All-put (λ y. y.stop_ch ≢ x.stop_ch) k j d (λ q. apart (sym same ∙ q)) h.2,
          Live-touch k j old d later same h.3,
        )
  ]
