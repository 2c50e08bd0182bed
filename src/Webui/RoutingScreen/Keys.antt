-- ===== src/Webui/RoutingScreen/Keys.antt =====
-- The keys of the rows of BreachTable.
use foundry_capital_markets.Prelude.{
  ℕ, zero, suc, ◌+◌, ◌-◌, ◌*◌, ◌/◌, ◌%◌, ◌≤◌, ◌<◌, ◌≡◌, refl, sym, ap, ◌∙◌, ◌≢◌, inl, inr, true,
  false, none, some, List, [], ◌∷◌, ◌++◌, map, append_assoc, arith, ltb, ◌==◌, if◌then◌else◌,
  Bool-cases, any, All, Str, codes, Distinct,
}
use foundry_capital_markets.Diagram.Svg.{decimal_from, decimal}
use foundry_capital_markets.Webui.Orders.{boundary_text, PolicyBreach}
use foundry_capital_markets.Webui.RoutingScreen.{TableRow, breach_key, breach_row, breach_rows}

-- The number that digits write, behind those that were read.
read_digits : ℕ → Str → ℕ
read_digits n [] = n
read_digits n (d ∷ ds) = read_digits (n * 10 + (d - b'0')) ds

not_below : (n : ℕ) → ltb n 10 ≡ false → 10 ≤ n
not_below n e = ground (arith, e)

read_digits-decimal_from :
    (fuel n : ℕ) (out : Str)
    → n < fuel
    → read_digits 0 (decimal_from fuel n out) ≡ read_digits n out
unfolding decimal_from read_digits
read_digits-decimal_from zero n out h = omega (arith, h)
read_digits-decimal_from (suc fuel) n out h = elim (Bool-cases (ltb n 10)) [
  | inl e ↦ rw e (ap (λ m. read_digits m out) (omega arith))
  | inr e ↦ rw e (
      read_digits-decimal_from fuel (n / 10) ((b'0' + n % 10) ∷ out)
        (omega (arith, h, not_below n e))
      ∙ ap (λ m. read_digits m out) (omega arith))
]

decimal-inj : (m n : ℕ) → decimal m ≡ decimal n → m ≡ n
unfolding decimal read_digits
decimal-inj m n e =
    sym (read_digits-decimal_from (m + 1) m [] (omega arith))
    ∙ ap (read_digits 0) e
    ∙ read_digits-decimal_from (n + 1) n [] (omega arith)

-- What stands behind the last dash.
behind_dash : Str → Str
behind_dash [] = []
behind_dash (c ∷ s) =
    let rest = behind_dash s in
    if any (λ d. d == b'-') s then rest else if c == b'-' then s else c ∷ s

any-dash : (xs ds : Str) → any (λ d. d == b'-') (xs ++ b'-' ∷ ds) ≡ true
unfolding any
any-dash [] ds = refl
any-dash (x ∷ xs) ds = ground (arith, any-dash xs ds)

behind_dash-append :
    (xs ds : Str) → any (λ d. d == b'-') ds ≡ false → behind_dash (xs ++ b'-' ∷ ds) ≡ ds
unfolding behind_dash
behind_dash-append [] ds h = rw (h, behind_dash) refl
behind_dash-append (x ∷ xs) ds h = rw (any-dash xs ds, behind_dash) (behind_dash-append xs ds h)

decimal_from-no_dash :
    (fuel n : ℕ) (out : Str)
    → any (λ d. d == b'-') out ≡ false
    → any (λ d. d == b'-') (decimal_from fuel n out) ≡ false
unfolding decimal_from any
decimal_from-no_dash zero n out h = h
decimal_from-no_dash (suc fuel) n out h =
    ground (arith, h, decimal_from-no_dash fuel (n / 10) ((b'0' + n % 10) ∷ out))

decimal-no_dash : (n : ℕ) → any (λ d. d == b'-') (decimal n) ≡ false
unfolding decimal any
decimal-no_dash n = decimal_from-no_dash (n + 1) n [] refl

breach_key-index : (b : PolicyBreach) (i : ℕ) → behind_dash (breach_key b i) ≡ decimal i
unfolding breach_key
breach_key-index b i =
    let venue : Str = elim b.venue_code [ some v ↦ v | none ↦ codes "order" ] in
    let name = boundary_text b.boundary in
    ap behind_dash (sym (append_assoc name (b'-' ∷ venue) (b'-' ∷ decimal i)))
    ∙ behind_dash-append (name ++ b'-' ∷ venue) (decimal i) (decimal-no_dash i)

abbrev pub keys : List TableRow → List Str
keys rows = map (λ (r : TableRow). r.key) rows

later_keys :
    (b : PolicyBreach) (i j : ℕ) (bs : List PolicyBreach)
    → i < j
    → All (λ k. breach_key b i ≢ k) (keys (breach_rows j bs))
unfolding breach_rows breach_row
later_keys b i j [] h = tt
later_keys b i j (c ∷ cs) h = (
  λ e.
      let same =
        decimal-inj i j (sym (breach_key-index b i) ∙ ap behind_dash e ∙ breach_key-index c j) in
      omega (arith, same, h),
  later_keys b i (j + 1) cs (omega (arith, h)),
)

-- The rows of the table of breaches have keys of their own, whatever the breaches are: two breaches of
-- one boundary at one venue too.
pub breach_rows-Distinct :
    (index : ℕ) (breaches : List PolicyBreach) → Distinct (keys (breach_rows index breaches))
unfolding breach_rows breach_row
breach_rows-Distinct index [] = tt
breach_rows-Distinct index (b ∷ bs) =
    (later_keys b index (index + 1) bs (omega arith), breach_rows-Distinct (index + 1) bs)
