-- ===== src/Validator/Endpoints.antt =====
-- What a CalDAV endpoint that ValidateCalDAVEndpoint accepts has shown.
use calbridge.Common.{
  ℕ, zero, suc, ◌+◌, ◌≤◌, ◌≡◌, refl, inl, inr, ◌⊎◌, Text, codes, Option, none, some, Bool, true,
  false, ltb, eqb, not, ◌&&◌, if◌then◌else◌, arith, Bool-cases, ◌==◌,
}
use calbridge.Validator.{
  Failure, invalid_url, connection_failed, bad_caldav, Parsed, Response, Net, Method,
  options_method, is_blank, check_parsed, follow, validate_url, checked, request, judge_caldav,
  validate_caldav_endpoint,
}

within :
    (count n : ℕ) → ltb 3 (count + 1) ≡ false → (n ≡ 0) ⊎ (count + 1 + n ≤ 3) → count + suc n ≤ 3
within count n e (inl z) = ground (arith, e, z)
within count n e (inr l) = omega (arith, l)

-- The last response was reached within the redirects that were left.
follow-some :
    (n count : ℕ) (r : Option Response) (x : Response)
    → (follow n r count).1 ≡ some x
    → (r ≡ some x) × ((n ≡ 0) ⊎ (count + n ≤ 3))
unfolding follow
follow-some zero count r x h = (h, inl refl)
follow-some (suc n) count r x h = elim (Bool-cases (ltb 3 (count + 1))) [
  | inl e ↦ let bad : none ≡ some x = rw e at h in cc
  | inr e ↦
      let g : (follow n r (count + 1)).1 ≡ some x = rw e at h in
      let ih = follow-some n (count + 1) r x g in (ih.0, inr (within count n e ih.1))
]

-- The URL is an https URL with a host, the server's response has the status 200 or 204 and a DAV
-- header, and it was reached within the redirects that were left.
pub record IsCaldavEndpoint (net : Net) (url : Text) (count : ℕ) : Type 0 where
  pub parsed : Parsed
  pub parses : net.parse url ≡ some parsed
  pub has_host : is_blank parsed.host ≡ false
  pub is_https : (parsed.scheme == codes "https") ≡ true
  pub final : Response
  pub responds : (net.answer options_method url).response ≡ some final
  pub status : (final.status_code ≡ 200) ⊎ (final.status_code ≡ 204)
  pub has_dav : is_blank final.dav ≡ false
  pub hops :
      ((net.answer options_method url).redirects ≡ 0)
      ⊎ (count + (net.answer options_method url).redirects ≤ 3)

parsed_facts :
    (o : Option Parsed)
    → check_parsed true o ≡ none
    → (p : Parsed) × ((o ≡ some p)
        × ((is_blank p.host ≡ false) × ((p.scheme == codes "https") ≡ true)))
unfolding check_parsed
parsed_facts none h = cc
parsed_facts (some p) h = (p, (refl, (ground (arith, h), ground (arith, h))))

validate_url-https :
    (net : Net) (url : Text)
    → validate_url net url true ≡ none
    → (p : Parsed) × ((net.parse url ≡ some p)
        × ((is_blank p.host ≡ false) × ((p.scheme == codes "https") ≡ true)))
unfolding validate_url
validate_url-https net url h = elim (Bool-cases (is_blank url)) [
  | inl e ↦ let bad : some invalid_url ≡ none = rw e at h in cc
  | inr e ↦ parsed_facts (net.parse url) (rw e at h)
]

judge_cases :
    (a b d : Bool) (x y : Failure)
    → (if not a && not b then some x else if d then some y else none) ≡ none
    → ((a ≡ true) ⊎ (b ≡ true)) × (d ≡ false)
judge_cases true b true x y h = cc
judge_cases true b false x y h = (inl refl, refl)
judge_cases false true true x y h = cc
judge_cases false true false x y h = (inr refl, refl)
judge_cases false false d x y h = cc

status_of : (n : ℕ) → (eqb n 200 ≡ true) ⊎ (eqb n 204 ≡ true) → (n ≡ 200) ⊎ (n ≡ 204)
status_of n (inl e) = inl (ground (arith, e))
status_of n (inr e) = inr (ground (arith, e))

judge_caldav-none :
    (r : Response)
    → judge_caldav r ≡ none
    → ((r.status_code ≡ 200) ⊎ (r.status_code ≡ 204)) × (is_blank r.dav ≡ false)
unfolding judge_caldav
judge_caldav-none r h =
    let j = judge_cases (eqb r.status_code 200) (eqb r.status_code 204) (is_blank r.dav) _ _ h in
    (status_of r.status_code j.0, j.1)

checked-none :
    (o : Option Failure) (wrap : Failure → Failure) (next : ℕ → ℕ × Option Failure) (count : ℕ)
    → (checked o wrap next count).1 ≡ none
    → (o ≡ none) × ((next count).1 ≡ none)
unfolding checked
checked-none none wrap next count h = (refl, h)
checked-none (some e) wrap next count h = cc

judged :
    (o : Option Response) (judge : Response → Option Failure)
    → elim o [ none ↦ some connection_failed | some response ↦ judge response ] ≡ none
    → (r : Response) × ((o ≡ some r) × (judge r ≡ none))
judged none judge h = cc
judged (some r) judge h = (r, (refl, h))

request-none :
    (net : Net) (method : Method) (url : Text) (refused : Failure)
    (judge : Response → Option Failure) (count : ℕ)
    → (request net method url refused judge count).1 ≡ none
    → (r : Response) × (((follow
            (net.answer method url).redirects
            (net.answer method url).response
            count).1
          ≡ some r)
        × (judge r ≡ none))
unfolding request
request-none net method url refused judge count h = elim (Bool-cases (net.can_request url)) [
  | inl e ↦ judged _ judge (rw e at h)
  | inr e ↦ let bad : some refused ≡ none = rw e at h in cc
]

-- If ValidateCalDAVEndpoint reports no error, then the URL is an https URL with a host, the server
-- answers the OPTIONS request with the status 200 or 204 and a DAV header, and the response was reached
-- without a redirect or within the three redirects that the validator's client follows in its life.
pub validate_caldav_endpoint-IsCaldavEndpoint :
    (net : Net) (url : Text) (count : ℕ)
    → (validate_caldav_endpoint net url count).1 ≡ none
    → IsCaldavEndpoint net url count
unfolding validate_caldav_endpoint
validate_caldav_endpoint-IsCaldavEndpoint net url count h =
    let c = checked-none (validate_url net url true) bad_caldav _ count h in
    let (p, (parses, (host, https))) = validate_url-https net url c.0 in
    let (r, (reached, judged_ok)) = request-none net options_method url _ judge_caldav count c.1 in
    let f = follow-some _ count _ r reached in
    let j = judge_caldav-none r judged_ok in
    record {
      parsed = p;
      parses = parses;
      has_host = host;
      is_https = https;
      final = r;
      responds = f.0;
      status = j.0;
      has_dav = j.1;
      hops = f.1;
    }
