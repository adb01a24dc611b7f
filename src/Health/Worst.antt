-- ===== src/Health/Worst.antt =====
-- The overall status of internal/health/health.go is the worst of the checks.
use calbridge.Common.{
  ◌≡◌, refl, ap, ◌∙◌, subst, inl, inr, Text, codes, [], ◌∷◌, Bool, true, false, not, eqb, ◌&&◌,
  ◌||◌, if◌then◌else◌, ◌==◌, arith, Bool-cases,
}
use calbridge.Common.Dict.{Dict, get, put}
use calbridge.Health.{
  Status, healthy, unhealthy, degraded, Check, World, Checker, is_unhealthy, is_degraded,
  has_status, is_down, is_down_check, determine_overall_status, Reply, not_created, failed,
  answered, caldav_reply, result, check_database, check_oidc, check_caldav, all_checks, check_all,
  is_blank,
}

-- The worse of two: unhealthy, then degraded, then healthy.
abbrev pub worse : Status → Status → Status
worse unhealthy t = unhealthy
worse degraded unhealthy = unhealthy
worse degraded healthy = degraded
worse degraded degraded = degraded
worse healthy t = t

abbrev pub worst : Dict Check → Status
worst [] = healthy
worst ((name, c) ∷ rest) = worse c.status (worst rest)

abbrev by_flags : Bool → Bool → Status
by_flags u d = if u then unhealthy else if d then degraded else healthy

worse-by_flags :
    (s : Status) (u d : Bool)
    → by_flags (if is_unhealthy s then true else u) (if is_degraded s then true else d)
      ≡ worse s (by_flags u d)
unfolding is_unhealthy is_degraded
worse-by_flags unhealthy u d = refl
worse-by_flags healthy u d = refl
worse-by_flags degraded true d = refl
worse-by_flags degraded false true = refl
worse-by_flags degraded false false = refl

flags-worst :
    (checks : Dict Check)
    → by_flags (has_status is_unhealthy checks) (has_status is_degraded checks) ≡ worst checks
unfolding has_status
flags-worst [] = refl
flags-worst ((name, c) ∷ rest) =
    worse-by_flags c.status (has_status is_unhealthy rest) (has_status is_degraded rest)
    ∙ ap (worse c.status) (flags-worst rest)

-- A check that is found is one of the checks.
is_down-has_status :
    (name : Text) (checks : Dict Check)
    → is_down name checks ≡ true
    → has_status is_unhealthy checks ≡ true
unfolding is_down is_down_check has_status get
is_down-has_status name [] h = h
is_down-has_status name ((n, c) ∷ rest) h = elim (Bool-cases (n == name)) [
  | inl hit ↦ let bad : is_unhealthy c.status ≡ true = rw hit at h in rw bad refl
  | inr miss ↦
      let later : has_status is_unhealthy rest ≡ true =
        is_down-has_status name rest (rw miss at h) in
      ground (arith, later)
]

is_down-worst :
    (name : Text) (checks : Dict Check) → is_down name checks ≡ true → unhealthy ≡ worst checks
is_down-worst name checks h =
    subst (λ b. by_flags b (has_status is_degraded checks) ≡ worst checks)
      (is_down-has_status name checks h) (flags-worst checks)

-- The overall status is the worst status of the checks: the special cases for the database and for
-- OIDC change nothing.
pub determine_overall_status-worst :
    (checks : Dict Check) → determine_overall_status checks ≡ worst checks
unfolding determine_overall_status
determine_overall_status-worst checks = elim (Bool-cases (is_down (codes "database") checks)) [
  | inl e ↦ rw e (is_down-worst (codes "database") checks e)
  | inr e ↦ elim (Bool-cases (is_down (codes "oidc") checks)) [
    | inl f ↦ rw (e, f) (is_down-worst (codes "oidc") checks f)
    | inr f ↦ rw (e, f) (flags-worst checks)
  ]
]

caldav_reply-required : (r : Reply) → is_unhealthy (caldav_reply r).status ≡ false
unfolding caldav_reply result is_unhealthy
caldav_reply-required not_created = refl
caldav_reply-required failed = refl
caldav_reply-required (answered n) =
    elim (Bool-cases (not (eqb n 200) && (not (eqb n 204) && not (eqb n 401)))) [
      | inl e ↦ rw e refl
      | inr e ↦ rw e refl
    ]

check_caldav-required : (w : World) (url : Text) → is_unhealthy (check_caldav w url).status ≡ false
unfolding check_caldav
check_caldav-required w url = caldav_reply-required (w.options url)

required_two :
    (d o : Status) → is_unhealthy (worse d (worse o healthy)) ≡ (is_unhealthy d || is_unhealthy o)
unfolding is_unhealthy
required_two unhealthy o = refl
required_two healthy unhealthy = refl
required_two healthy healthy = refl
required_two healthy degraded = refl
required_two degraded unhealthy = refl
required_two degraded healthy = refl
required_two degraded degraded = refl

required_three :
    (d o s : Status)
    → is_unhealthy s ≡ false
    → is_unhealthy (worse d (worse o (worse s healthy))) ≡ (is_unhealthy d || is_unhealthy o)
unfolding is_unhealthy
required_three d o unhealthy h = cc
required_three d o healthy h = required_two d o
required_three unhealthy o degraded h = refl
required_three healthy unhealthy degraded h = refl
required_three healthy healthy degraded h = refl
required_three healthy degraded degraded h = refl
required_three degraded unhealthy degraded h = refl
required_three degraded healthy degraded h = refl
required_three degraded degraded degraded h = refl

all_checks-worst :
    (w : World) (c : Checker)
    → is_unhealthy (worst (all_checks w c))
      ≡ (is_unhealthy (check_database w).status || is_unhealthy (check_oidc w c.oidc_issuer).status)
unfolding all_checks put ◌==◌
all_checks-worst w c = elim (Bool-cases (is_blank c.caldav_url)) [
  | inl e ↦ rw e (required_two (check_database w).status (check_oidc w c.oidc_issuer).status)
  | inr e ↦ rw e (
      required_three (check_database w).status (check_oidc w c.oidc_issuer).status
        (check_caldav w c.caldav_url).status (check_caldav-required w c.caldav_url))
]

-- The report of Check is unhealthy exactly if the check of the database or that of OIDC is; whatever
-- the CalDAV server replies, its check makes it no worse than degraded.
pub check_all-unhealthy :
    (w : World) (c : Checker)
    → is_unhealthy (check_all w c).1.status
      ≡ (is_unhealthy (check_database w).status || is_unhealthy (check_oidc w c.oidc_issuer).status)
unfolding check_all
check_all-unhealthy w c =
    rw (determine_overall_status-worst (all_checks w c)) (all_checks-worst w c)
