-- ===== src/Origin/Safety.antt =====
-- What ValidateOrigin lets through.
use calbridge.Common.{
  ◌≡◌, refl, sym, inl, inr, ◌⊎◌, subst, Text, List, [], ◌∷◌, Bool, true, false, if◌then◌else◌, ◌==◌,
  ==_sound, In, Bool-cases,
}
use calbridge.Origin.{
  is_blank, origin_of, is_valid_origin, keep_valid, default_origins, or_default,
  get_allowed_origins, member, next, missing_origin, invalid_origin, is_read_only, validate_origin,
}

member-In : (o : Text) (l : List Text) → member o l ≡ true → In o l
unfolding member
member-In o [] h = cc
member-In o (a ∷ rest) h = elim (Bool-cases (o == a)) [
  | inl e ↦ inl (==_sound o a e)
  | inr e ↦ inr (member-In o rest (rw e at h))
]

here_or_later :
    (o a : Text) (rest : List Text)
    → is_valid_origin a ≡ true
    → (o ≡ a) ⊎ In o (keep_valid rest)
    → (In o (keep_valid rest) → In o rest × (is_valid_origin o ≡ true))
    → ((o ≡ a) ⊎ In o rest) × (is_valid_origin o ≡ true)
here_or_later o a rest e (inl q) k = (inl q, subst (λ x. is_valid_origin x ≡ true) (sym q) e)
here_or_later o a rest e (inr l) k = let r = k l in (inr r.0, r.1)

In-keep_valid :
    (o : Text) (l : List Text) → In o (keep_valid l) → In o l × (is_valid_origin o ≡ true)
unfolding keep_valid
In-keep_valid o [] h = elim h [ ]
In-keep_valid o (a ∷ rest) h = elim (Bool-cases (is_valid_origin a)) [
  | inl e ↦ here_or_later o a rest e (rw e at h) (λ k. In-keep_valid o rest k)
  | inr e ↦ let r = In-keep_valid o rest (rw e at h) in (inr r.0, r.1)
]

-- A default origin, where no configured origin is valid, or a valid one of the configured ones.
abbrev pub IsAllowed : List Text → Text → Type 0
IsAllowed env o =
    (In o default_origins × (keep_valid env ≡ [])) ⊎ (In o env × (is_valid_origin o ≡ true))

In-or_default :
    (o : Text) (l : List Text) → In o (or_default l) → (In o default_origins × (l ≡ [])) ⊎ In o l
unfolding or_default
In-or_default o [] h = inl (h, refl)
In-or_default o (a ∷ rest) h = inr h

In-get_allowed_origins :
    (env : List Text) (o : Text) → In o (get_allowed_origins env) → IsAllowed env o
unfolding get_allowed_origins
In-get_allowed_origins env o h = elim (In-or_default o (keep_valid env) h) [
  | inl d ↦ inl d
  | inr k ↦ inr (In-keep_valid o env k)
]

verdict :
    (b c : Bool)
    → (if b then missing_origin else if c then next else invalid_origin) ≡ next
    → (b ≡ false) × (c ≡ true)
verdict true c h = cc
verdict false true h = (refl, refl)
verdict false false h = cc

-- If a request whose method is neither GET nor HEAD nor OPTIONS passes, then its Origin header, or
-- the origin of its Referer where it has no Origin header, is not empty, and it is one of the
-- configured origins and a valid one, or one of the defaults if no configured origin is valid.
pub validate_origin-IsAllowed :
    (env : List Text) (method origin referer : Text)
    → is_read_only method ≡ false
    → validate_origin env method origin referer ≡ next
    → (is_blank (origin_of origin referer) ≡ false) × IsAllowed env (origin_of origin referer)
unfolding validate_origin
validate_origin-IsAllowed env method origin referer m h =
    let o = origin_of origin referer in
    let v = verdict (is_blank o) (member o (get_allowed_origins env)) (rw m at h) in
    (v.0, In-get_allowed_origins env o (member-In o (get_allowed_origins env) v.1))
