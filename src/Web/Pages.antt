-- ===== src/Web/Pages.antt =====
-- The pages of the logs of a source.
use calbridge.Common.{
  Option, none, some, false, leb, ◌%◌, ◌^◌, ◌<◌, ℕ, zero, suc, ◌+◌, ◌-◌, ◌*◌, ◌≤◌, ◌≡◌, refl, sym,
  ap, ◌∙◌, subst, List, [], ◌∷◌, ◌++◌, length, take, drop, length-take, take-append-drop, arith,
}
use calbridge.Web.Logs.{page_limit, total_pages, cut, slice, paginate}

-- A page before the later ones.
abbrev pub append_pages : {A : Type 0} → Option (List A) → Option (List A) → Option (List A)
append_pages none later = none
append_pages (some xs) none = none
append_pages (some xs) (some ys) = some (xs ++ ys)

-- `n` pages one after the other, from the page on, if no request of them panics.
unfoldable pub all_pages : {A : Type 0} → ℕ → ℕ → List A → Option (List A)
unfolding paginate
all_pages zero page xs = some []
all_pages (suc n) page xs = append_pages (paginate page xs) (all_pages n (page + 1) xs)

-- A page, and several, as slices at offsets that do not wrap.
abbrev page_slice : {A : Type 0} → ℕ → List A → List A
page_slice page xs = slice ((page - 1) * page_limit) ((page - 1) * page_limit + page_limit) xs

abbrev all_slices : {A : Type 0} → ℕ → ℕ → List A → List A
all_slices zero page xs = []
all_slices (suc n) page xs = page_slice page xs ++ all_slices n (page + 1) xs

cut_le : (most m n : ℕ) → m ≤ n → cut most m ≤ cut most n
unfolding cut
cut_le most m n h = ground arith

cut_most : (most n : ℕ) → most ≤ n → cut most n ≡ most
unfolding cut
cut_most most n h = ground arith

total_pages-enough : (n : ℕ) → n ≤ total_pages n * page_limit
unfolding total_pages
total_pages-enough n = ground arith

total_pages-few : (n : ℕ) → n ≤ 1000 → (1 + total_pages n) * page_limit < 2 ^ 63
unfolding total_pages
total_pages-few n h = ground (arith, h)

cut_zero : (most : ℕ) → cut most 0 ≡ 0
unfolding cut
cut_zero most = ground arith

module _ {A : Type 0} where
  drop_nil : (n : ℕ) → drop {A = A} n [] ≡ []
  drop_nil zero = refl
  drop_nil (suc n) = refl

  drop-drop : (m n : ℕ) (xs : List A) → drop (m + n) xs ≡ drop n (drop m xs)
  drop-drop zero n xs = let e : (0 + n ≡ n) = omega arith in ap (λ k. drop k xs) e
  drop-drop (suc m) zero [] = drop_nil (suc m + zero)
  drop-drop (suc m) (suc n) [] = drop_nil (suc m + suc n)
  drop-drop (suc m) n (x ∷ xs) =
      let e : (suc m + n ≡ suc (m + n)) = omega arith in
      ap (λ k. drop k (x ∷ xs)) e ∙ drop-drop m n xs

  drop-length : (xs : List A) → drop (length xs) xs ≡ []
  drop-length [] = refl
  drop-length (x ∷ xs) = drop-length xs

  -- A slice, and what follows it.
  slice-append :
      (start stop : ℕ) (xs : List A)
      → start ≤ stop
      → take (stop - start) (drop start xs) ++ drop stop xs ≡ drop start xs
  slice-append start stop xs h =
      let e : (stop ≡ start + (stop - start)) = omega (arith, h) in
      ap (λ k. take (stop - start) (drop start xs) ++ drop k xs) e
      ∙ ap (λ ys. take (stop - start) (drop start xs) ++ ys) (drop-drop start (stop - start) xs)
      ∙ take-append-drop (stop - start) (drop start xs)

  abbrev from_page : ℕ → List A → List A
  from_page page xs = drop (cut (length xs) ((page - 1) * page_limit)) xs

  page_slice-append :
      (k : ℕ) (xs : List A)
      → page_slice (suc k) xs ++ from_page (suc k + 1) xs ≡ from_page (suc k) xs
  unfolding slice
  page_slice-append k xs =
      let e : ((suc k + 1 - 1) * page_limit ≡ (suc k - 1) * page_limit + page_limit) =
        omega arith in
      ap (λ o. page_slice (suc k) xs ++ drop (cut (length xs) o) xs) e
      ∙ slice-append _ _ xs (
          cut_le (length xs) ((suc k - 1) * page_limit) ((suc k - 1) * page_limit + page_limit)
            (omega arith))

  all_slices-from_page :
      (n k : ℕ) (xs : List A)
      → length xs ≤ k * page_limit + n * page_limit
      → all_slices n (suc k) xs ≡ from_page (suc k) xs
  all_slices-from_page zero k xs h =
      let e : (cut (length xs) ((suc k - 1) * page_limit) ≡ length xs) =
        cut_most (length xs) ((suc k - 1) * page_limit) (omega (arith, h)) in
      sym (ap (λ c. drop c xs) e ∙ drop-length xs)
  all_slices-from_page (suc n) k xs h =
      let next : (suc k + 1 ≡ suc (suc k)) = omega arith in
      let IH : (all_slices n (suc k + 1) xs ≡ from_page (suc k + 1) xs) =
        subst (λ p. all_slices n p xs ≡ from_page p xs) (sym next)
          (all_slices-from_page n (suc k) xs (omega (arith, h))) in
      ap (λ ys. page_slice (suc k) xs ++ ys) IH ∙ page_slice-append k xs

  page_slice-length : (page : ℕ) (xs : List A) → length (page_slice page xs) ≤ page_limit
  unfolding slice cut
  page_slice-length page xs =
      let o = (page - 1) * page_limit in
      let bound : (cut (length xs) (o + page_limit) - cut (length xs) o ≤ page_limit) =
        ground arith in
      omega (
        arith,
        length-take (cut (length xs) (o + page_limit) - cut (length xs) o)
            (drop (cut (length xs) o) xs),
        bound,
      )

  paginate_small :
      (page : ℕ) (xs : List A)
      → page * page_limit < 2 ^ 63
      → paginate page xs ≡ some (page_slice page xs)
  unfolding paginate
  paginate_small page xs h =
      let o = (page - 1) * page_limit in
      let offset : o % (2 ^ 64) ≡ o = omega (arith, h) in
      let end : (o + page_limit) % (2 ^ 64) ≡ o + page_limit = ground (arith, h) in
      let low : leb (2 ^ 63) o ≡ false = ground (arith, h) in
      let high : leb (2 ^ 63) (o + page_limit) ≡ false = ground (arith, h) in
      rw (offset, end, low, high) refl

  all_pages_small :
      (n page : ℕ) (xs : List A)
      → (page + n) * page_limit < 2 ^ 63
      → all_pages n page xs ≡ some (all_slices n page xs)
  unfolding all_pages
  all_pages_small zero page xs h = refl
  all_pages_small (suc n) page xs h =
      rw
        (
          paginate_small page xs (omega (arith, h)),
          all_pages_small n (page + 1) xs (omega (arith, h)),
        )
        refl

  -- Of at most 1000 logs, which is what the query gives: a page whose number times 20 fits in 63 bits is
  -- served, with at most 20 of the logs, and the pages from the first to the last one, as their number is
  -- given, are all served and are together all the logs, each once and in their order.
  pub paginate-all_pages :
      (xs : List A) (page : ℕ)
      → length xs ≤ 1000
      → page * 20 < 2 ^ 63
      → ((ys : List A) × (paginate page xs ≡ some ys) × (length ys ≤ 20))
        × (all_pages (total_pages (length xs)) 1 xs ≡ some xs)
  paginate-all_pages xs page few fits = (
    (page_slice page xs, paginate_small page xs fits, page_slice-length page xs),
    all_pages_small (total_pages (length xs)) 1 xs (total_pages-few (length xs) few)
        ∙ ap some (
            all_slices-from_page (total_pages (length xs)) 0 xs
              (omega (arith, total_pages-enough (length xs)))
            ∙ ap (λ c. drop c xs) (cut_zero (length xs))),
  )
