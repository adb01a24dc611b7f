-- ===== src/Scheduler/Stale.antt =====
-- internal/scheduler/scheduler.go: which sources are stale. Times and durations are nanoseconds.
use calbridge.Common.{
  ℕ, ◌+◌, ◌*◌, ◌^◌, ◌<◌, ◌≡◌, ◌↔◌, refl, ap, inl, inr, In, true, arith, exceeds, wrapped,
  wrapped_small, subst, sym, Text, List, [], ◌∷◌, Option, none, some, Bool, false, if◌then◌else◌,
}
use calbridge.Common.Dict.{Dict}
use calbridge.Scheduler.{Job, second}

-- The columns of a source that the two functions read.
pub record Watched : Type 0 where
  pub enabled : Bool
  pub sync_interval : ℕ
  pub last_sync_at : Option ℕ
  pub created_at : ℕ

abbrev pub stale_multiplier : ℕ
stale_multiplier = 2

-- The last sync, or the creation of a source that never synced.
abbrev pub last_sign : Option ℕ → ℕ → ℕ
last_sign none created_at = created_at
last_sign (some t) created_at = t

-- The two products wrap on 64 bits, together as one.
pub is_source_stale : ℕ → Watched → Bool
unfolding exceeds wrapped
is_source_stale now src =
    if src.enabled
    then exceeds now (last_sign src.last_sync_at src.created_at)
        (wrapped ((src.sync_interval * second) * stale_multiplier))
    else false

-- The body of the loop of checkStaleSources: whether the warning is given.
is_reported : ℕ → ℕ → Option Watched → Bool
unfolding exceeds wrapped
is_reported now interval none = false
is_reported now interval (some src) =
    if src.enabled
    then exceeds now (last_sign src.last_sync_at src.created_at)
        (wrapped (interval * stale_multiplier))
    else false

-- The sources that checkStaleSources warns of; `lookup` is GetSourceByID.
pub check_stale_sources : (Text → Option Watched) → ℕ → Dict Job → List Text
unfolding is_reported
check_stale_sources lookup now [] = []
check_stale_sources lookup now ((id, j) ∷ d) =
    let rest = check_stale_sources lookup now d in
    if is_reported now j.interval (lookup id) then id ∷ rest else rest

-- The source is enabled, and since its last sync, or its creation where it has none, more than twice its
-- interval has passed.
abbrev pub IsOverdue : ℕ → Watched → Type 0
IsOverdue now src =
    (src.enabled ≡ true)
    × (last_sign src.last_sync_at src.created_at + 2 * (src.sync_interval * second) < now)

-- A scheduled job whose source exists and has the property.
abbrev pub HasJob : (Text → Option Watched) → Dict Job → (Watched → Type 0) → Text → Type 0
HasJob lookup d P id = (j : Job) × (src : Watched) × In (id, j) d × (lookup id ≡ some src) × P src

-- The job has the interval that the database has for its source, twice which fits in 63 bits.
abbrev pub Agrees : Job → Option Watched → Type 0
Agrees j none = Unit
Agrees j (some src) = (j.interval ≡ src.sync_interval * second) × (2 * j.interval < 2 ^ 63)

abbrev pub AllAgree : (Text → Option Watched) → Dict Job → Type 0
AllAgree lookup [] = Unit
AllAgree lookup ((id, j) ∷ d) = Agrees j (lookup id) × AllAgree lookup d

-- Twice an interval that fits does not wrap.
exceeds_small :
    (now t n m : ℕ)
    → m ≡ n * stale_multiplier
    → 2 * n < 2 ^ 63
    → (exceeds now t (wrapped m) ≡ true) ↔ (t + 2 * n < now)
unfolding exceeds
exceeds_small now t n m e h =
    let fits : m < 2 ^ 63 = omega (arith, e, h) in rw (wrapped_small m fits) (ground (arith, e))

is_source_stale_iff :
    (now : ℕ) (src : Watched)
    → 2 * (src.sync_interval * second) < 2 ^ 63
    → (is_source_stale now src ≡ true) ↔ IsOverdue now src
unfolding is_source_stale exceeds wrapped
is_source_stale_iff now src h = ground (arith, h)

is_reported_iff :
    (now interval : ℕ) (src : Watched)
    → interval ≡ src.sync_interval * second
    → 2 * interval < 2 ^ 63
    → (is_reported now interval (some src) ≡ true) ↔ IsOverdue now src
unfolding is_reported exceeds wrapped
is_reported_iff now interval src e h = ground (arith, e, h)

-- A scheduled job whose source exists and passes the test, in a list of jobs with one more.
pub HasJob-cons_iff :
    (lookup : Text → Option Watched) (P : Watched → Type 0) (k : Text) (j : Job) (d : Dict Job)
    (b : Bool) (rest : List Text) (id : Text)
    → (b ≡ true) ↔ ((src : Watched) × (lookup k ≡ some src) × P src)
    → In id rest ↔ HasJob lookup d P id
    → In id (if b then k ∷ rest else rest) ↔ HasJob lookup ((k, j) ∷ d) P id
HasJob-cons_iff lookup P k j d true rest id here there = (
  λ h. elim h [
    | inl e ↦ let (src, found, p) = here.0 refl in (j, src, inl (ap (λ x. (x, j)) e), rw e found, p)
    | inr m ↦ let (i, src, at, found, p) = there.0 m in (i, src, inr at, found, p)
  ],
  λ h.
      let (i, src, at, found, p) = h in
      elim at [ inl e ↦ inl (ap (λ x. x.0) e) | inr m ↦ inr (there.1 (i, src, m, found, p)) ],
)
HasJob-cons_iff lookup P k j d false rest id here there = (
  λ h. let (i, src, at, found, p) = there.0 h in (i, src, inr at, found, p),
  λ h.
      let (i, src, at, found, p) = h in
      elim at [
        | inl e ↦
            let same : id ≡ k = ap (λ x. x.0) e in
            let there_too : lookup k ≡ some src = rw (← same) found in
            let no : false ≡ true = here.1 (src, there_too, p) in cc
        | inr m ↦ there.1 (i, src, m, found, p)
      ],
)

module _ (lookup : Text → Option Watched) (now : ℕ) where
  -- A job whose source is overdue, and one whose source is stale for IsSourceStale.
  abbrev pub HasOverdueJob : Dict Job → Text → Type 0
  HasOverdueJob d = HasJob lookup d (IsOverdue now)

  abbrev pub HasStaleJob : Dict Job → Text → Type 0
  HasStaleJob d = HasJob lookup d (λ src. is_source_stale now src ≡ true)

  -- A test on the source that is found, which no missing source passes.
  some_iff :
      (P : Watched → Type 0) (b : Bool) (o : Option Watched) (src : Watched)
      → o ≡ some src
      → (b ≡ true) ↔ P src
      → (b ≡ true) ↔ ((x : Watched) × (o ≡ some x) × P x)
  some_iff P b o src found test = (
    λ e. (src, found, test.0 e),
    λ h. let (x, at, p) = h in let same : src ≡ x = cc in test.1 (subst P (sym same) p),
  )

  not-both : (b : Bool) → b ≡ true → b ≡ false → ⊥
  not-both b e f = ground (arith, e, f)

  not-found : (o : Option Watched) (src : Watched) → o ≡ none → o ≡ some src → ⊥
  not-found none src e f = ground (arith, f)
  not-found (some x) src e f = ground (arith, e)

  none_iff :
      (P : Watched → Type 0) (b : Bool) (o : Option Watched)
      → o ≡ none
      → b ≡ false
      → (b ≡ true) ↔ ((x : Watched) × (o ≡ some x) × P x)
  none_iff P b o missing f = (
    λ e. elim (not-both b e f) [ ],
    λ h. let (x, at, p) = h in elim (not-found o x missing at) [ ],
  )

  found_iff :
      (j : Job) (o : Option Watched)
      → Agrees j o
      → ((is_reported now j.interval o ≡ true)
          ↔ ((src : Watched) × (o ≡ some src) × IsOverdue now src))
        × ((is_reported now j.interval o ≡ true)
            ↔ ((src : Watched) × (o ≡ some src) × (is_source_stale now src ≡ true)))
  unfolding is_reported
  found_iff j none h = (none_iff _ _ none refl refl, none_iff _ _ none refl refl)
  found_iff j (some src) h =
      let overdue = is_reported_iff now j.interval src h.0 h.1 in
      let stale = is_source_stale_iff now src (rw (← h.0) h.1) in
      (
        some_iff (IsOverdue now) _ (some src) src refl overdue,
        some_iff (λ x. is_source_stale now x ≡ true) _ (some src) src refl
            (λ e. stale.1 (overdue.0 e), λ e. overdue.1 (stale.0 e)),
      )

  -- If every job has the interval that the database has for its source, and twice that interval has its
  -- nanoseconds on 63 bits, then the check of the stale sources warns of a source exactly where it has a
  -- job, exists, is enabled, and has more than twice its interval behind its last sync, or behind its
  -- creation where it never synced; and exactly where it has a job and IsSourceStale reports it.
  pub check_stale_sources_iff :
      (d : Dict Job) (id : Text)
      → AllAgree lookup d
      → (In id (check_stale_sources lookup now d) ↔ HasOverdueJob d id)
        × (In id (check_stale_sources lookup now d) ↔ HasStaleJob d id)
  unfolding check_stale_sources
  check_stale_sources_iff [] id h =
      ((λ e. absurd e, λ x. absurd x.2), (λ e. absurd e, λ x. absurd x.2))
  check_stale_sources_iff ((k, j) ∷ d) id h =
      let here = found_iff j (lookup k) h.0 in
      let there = check_stale_sources_iff d id h.1 in
      (
        HasJob-cons_iff lookup (IsOverdue now) k j d _ _ id here.0 there.0,
        HasJob-cons_iff lookup (λ src. is_source_stale now src ≡ true) k j d _ _ id here.1 there.1,
      )
