-- ===== src/Validator/Redirects.antt =====
-- The count of redirects of internal/validator/validator.go.
use calbridge.Common.{
  ℕ, zero, suc, ◌+◌, ◌≤◌, ◌<◌, ◌≡◌, refl, Text, Option, none, some, true, false, ltb, arith,
}
use calbridge.Validator.{
  connection_failed, Response, Net, head_method, follow, validate_url, checked, request,
  test_connection,
}

not-positive : 0 < 0 → ⊥
not-positive p = omega (arith, p)

-- A client that has followed its redirects follows no more.
follow-exhausted :
    (n : ℕ) (r : Option Response) (count : ℕ)
    → 3 ≤ count
    → 0 < n
    → follow n r count ≡ (count + 1, none)
unfolding follow
follow-exhausted zero r count h p = elim (not-positive p) [ ]
follow-exhausted (suc n) r count h p =
    let over : ltb 3 (count + 1) ≡ true = ground (arith, h) in rw over refl

-- The requests of a validator share one count of redirects, which is never set back. Once it has
-- reached three, testing the connection to a valid URL whose server redirects even once fails, and the
-- count has grown, so that this stays so for as long as the validator lives.
pub test_connection-exhausted :
    (net : Net) (url : Text) (count : ℕ)
    → 3 ≤ count
    → validate_url net url false ≡ none
    → net.can_request url ≡ true
    → 0 < (net.answer head_method url).redirects
    → test_connection net url count ≡ (count + 1, some connection_failed)
unfolding test_connection checked request
test_connection-exhausted net url count h v c p =
    rw
      (
        v,
        c,
        follow-exhausted (net.answer head_method url).redirects
            (net.answer head_method url).response count h p,
      )
      refl
