-- ===== src/Triage/Pages.antt =====
-- Paging through the issues: `fetchSquadIssues` returns them all.
use foundry_capital_markets.Prelude.{
  ℕ, zero, suc, ◌+◌, ◌-◌, ◌*◌, ◌/◌, ◌≤◌, ◌<◌, ◌≡◌, refl, sym, ap, ◌∙◌, inl, inr, false, some, List,
  [], ◌∷◌, ◌++◌, append-nil, arith, ltb, ltb→lt, lt→ltb, Bool-cases, length, take, drop,
  take-append-drop, length-drop, length-take-le,
}
use foundry_capital_markets.Triage.Issues.{Issue, Answer, issues, per_page, fetch_from}

-- A server that holds the issues, and answers the pages from 1 as GitHub documents them.
pub server : List Issue → ℕ → Answer
server repo page = issues (take per_page (drop ((page - 1) * per_page) repo))

take-nil : {A : Type 0} (n : ℕ) → take {A = A} n [] ≡ []
take-nil zero = refl
take-nil (suc n) = refl

drop-nil : {A : Type 0} (n : ℕ) → drop {A = A} n [] ≡ []
drop-nil zero = refl
drop-nil (suc n) = refl

suc-add : (n m : ℕ) → suc n + m ≡ suc (n + m)
suc-add n m = omega arith

take-add : {A : Type 0} (n m : ℕ) (xs : List A) → take (n + m) xs ≡ take n xs ++ take m (drop n xs)
take-add zero m xs = ap (λ k. take k xs) (omega arith)
take-add (suc n) m [] = take-nil (suc n + m) ∙ sym (take-nil m)
take-add (suc n) m (x ∷ xs) =
    ap (λ k. take k (x ∷ xs)) (suc-add n m) ∙ ap (λ t. x ∷ t) (take-add n m xs)

drop-add : {A : Type 0} (n m : ℕ) (xs : List A) → drop (n + m) xs ≡ drop m (drop n xs)
drop-add zero m xs = ap (λ k. drop k xs) (omega arith)
drop-add (suc n) m [] = drop-nil (suc n + m) ∙ sym (drop-nil m)
drop-add (suc n) m (x ∷ xs) = ap (λ k. drop k (x ∷ xs)) (suc-add n m) ∙ drop-add n m xs

nil_of_take : {A : Type 0} (xs : List A) → take per_page xs ≡ [] → xs ≡ []
nil_of_take [] e = refl
nil_of_take (x ∷ xs) e = cc

take_short : {A : Type 0} (n : ℕ) (xs : List A) → length (take n xs) < n → take n xs ≡ xs
take_short zero xs h = absurd (omega arith)
take_short (suc n) [] h = refl
take_short (suc n) (x ∷ xs) h = ap (λ t. x ∷ t) (take_short n xs (omega arith))

ltb_false→le : (a b : ℕ) → ltb a b ≡ false → b ≤ a
ltb_false→le a b h = ground arith

length_of_full : {A : Type 0} (n : ℕ) (xs : List A) → n ≤ length (take n xs) → n ≤ length xs
length_of_full zero xs h = omega arith
length_of_full (suc n) [] h = h
length_of_full (suc n) (x ∷ xs) h = omega (arith, length_of_full n xs)

module _ (fuel : ℕ) (request : ℕ → Answer) (page : ℕ) (all : List Issue) where
  fetch_end : request page ≡ issues [] → fetch_from (suc fuel) request page all ≡ some all
  unfolding fetch_from
  fetch_end e = rw (e, fetch_from)

  fetch_last :
      (c : List Issue)
      → request page ≡ issues c
      → length c < per_page
      → fetch_from (suc fuel) request page all ≡ some (all ++ c)
  unfolding fetch_from
  fetch_last [] e h = rw (e, fetch_from, append-nil)
  fetch_last (i ∷ is) e h = rw (e, fetch_from, lt→ltb _ _ h)

  fetch_more :
      (c : List Issue)
      → request page ≡ issues c
      → per_page ≤ length c
      → fetch_from (suc fuel) request page all ≡ fetch_from fuel request (page + 1) (all ++ c)
  unfolding fetch_from
  fetch_more [] e h = absurd (omega arith)
  fetch_more (i ∷ is) e h = rw (e, fetch_from) (ground arith)

fetch_from-server :
    (fuel page n : ℕ) (repo : List Issue)
    → (page - 1) * per_page ≡ n
    → 1 ≤ page
    → length (drop n repo) < fuel * per_page
    → fetch_from fuel (server repo) page (take n repo) ≡ some repo
unfolding server
fetch_from-server zero page n repo at_page pos h = absurd (omega arith)
fetch_from-server (suc fuel) page n repo at_page pos h =
    let c = take per_page (drop n repo) in
    let sent : server repo page ≡ issues c =
      ap (λ k. issues (take per_page (drop k repo))) at_page in
    elim (Bool-cases (ltb (length c) per_page)) [
      | inl short ↦
          fetch_last fuel (server repo) page (take n repo) c sent (ltb→lt _ _ short)
          ∙ ap some (
              ap (λ t. take n repo ++ t) (take_short per_page (drop n repo) (ltb→lt _ _ short))
              ∙ take-append-drop n repo)
      | inr full ↦
          fetch_more fuel (server repo) page (take n repo) c sent (ltb_false→le _ _ full)
          ∙ ap (λ t. fetch_from fuel (server repo) (page + 1) t) (sym (take-add n per_page repo))
          ∙ fetch_from-server fuel (page + 1) (n + per_page) repo (ground arith) (omega arith) (
              rw (drop-add n per_page repo) (
                omega (
                  arith,
                  length-drop per_page (drop n repo),
                  length-take-le per_page (drop n repo),
                  length_of_full per_page (drop n repo) (ltb_false→le _ _ full),
                )))
    ]

-- The pages that GitHub serves are read to their end: with a round for each full page and one
-- more, the loop returns all the issues, in their order.
pub fetch_from-eq :
    (repo : List Issue) → fetch_from (length repo / per_page + 1) (server repo) 1 [] ≡ some repo
fetch_from-eq repo =
    fetch_from-server (length repo / per_page + 1) 1 0 repo refl (omega arith) (omega arith)
