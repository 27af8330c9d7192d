-- ===== src/Account/Waterfall/Split.antt =====
-- `approvedSingle` and `approvedSplit` of internal/account/waterfall.go: the legs of an approved purchase.
use native.Mathlib.Nat.{div-le_of_le-mul}
use stable_bank.Base.{
  ℕ, zero, ◌+◌, ◌-◌, ◌*◌, ◌/◌, ◌<◌, ◌≤◌, ◌≡◌, sym, ap, subst, ◌∙◌, String, List, [], ◌∷◌, All,
  arith, inl, inr, str_eq, ltb, Bool-cases, if◌then◌else◌,
}
use stable_bank.Base.Int.{ℤ, pos, negsuc, ◌+ℤ◌, ◌*ℤ◌, ◌≤ℤ◌, int_laws}
use stable_bank.Base.Int64.{Fits, half_mod, wrap64, wrap64-eq, add64, sub64-pos, add64-pos}
use stable_bank.Account.Waterfall.{
  Leg, Purchase, approved_split, first_portion, first_pct, quot64, leg, split_legs,
}

abbrev pub sum_cents : List Leg → ℤ
sum_cents [] = pos 0
sum_cents (l ∷ ls) = add64 l.usd_equivalent_cents (sum_cents ls)

abbrev pub sum_shares : List Leg → ℤ
sum_shares [] = pos 0
sum_shares (l ∷ ls) = add64 l.share_pct (sum_shares ls)

abbrev pub balance_of : Purchase → String → ℤ
balance_of p currency = if str_eq currency "USD" then p.usd else p.usdc

-- A leg that takes something, no more than its balance, with a share between 0 and 100.
abbrev pub Covered : Purchase → Leg → Type 0
Covered p l =
    (pos 1 ≤ℤ l.usd_equivalent_cents)
    × (l.usd_equivalent_cents ≤ℤ balance_of p l.currency)
    × (pos 0 ≤ℤ l.share_pct)
    × (l.share_pct ≤ℤ pos 100)

abbrev pub IsFunding : Purchase → List Leg → Type 0
IsFunding p legs =
    (sum_cents legs ≡ pos p.amount) × (sum_shares legs ≡ pos 100) × All (Covered p) legs

-- No sum or product of the evaluation leaves int64.
abbrev pub InRange : Purchase → Type 0
InRange p = (0 < p.amount) × (p.amount * 100 < half_mod) × Fits (p.usd +ℤ p.usdc)

-- How a split divides an amount over two balances that cover it.
split_parts :
    (first_bal second_bal : ℤ) (amount : ℕ)
    → pos amount ≤ℤ first_bal +ℤ second_bal
    → (k : ℕ) × (first_portion first_bal amount ≡ pos k)
      × (k ≤ amount)
      × (0 < k → pos k ≤ℤ first_bal)
      × (k < amount → pos (amount - k) ≤ℤ second_bal)
split_parts (negsuc n) second_bal amount h = (
  zero,
  ground arith,
  omega arith,
  λ some_left. omega (arith, some_left),
  λ less. omega (int_laws, h),
)
split_parts (pos n) second_bal amount h = elim (Bool-cases (ltb amount n)) [
  | inl plenty ↦
      (amount, ground arith, omega arith, λ some_left. ground arith, λ less. omega (arith, less))
  | inr scarce ↦
      (n, ground arith, ground arith, λ some_left. omega arith, λ less. omega (int_laws, h, less))
]

times_hundred : (k : ℕ) → pos k *ℤ pos 100 ≡ pos (k * 100)
unfolding ◌*ℤ◌
times_hundred k = ground arith

share :
    (k amount : ℕ)
    → k ≤ amount
    → 0 < amount
    → amount * 100 < half_mod
    → (first_pct (pos k) amount ≡ pos (k * 100 / amount)) × (k * 100 / amount ≤ 100)
share k amount le h small =
    let fits : Fits (pos (k * 100)) = (omega (arith, le, small), omega arith) in
    (
      ap (λ x. quot64 x amount) (ap wrap64 (times_hundred k) ∙ wrap64-eq (pos (k * 100)) fits),
      div-le_of_le-mul amount (omega (arith, le)),
    )

module _ (p : Purchase) (range : InRange p) where
  pub single-IsFunding :
      (currency : String)
      → pos p.amount ≤ℤ balance_of p currency
      → IsFunding p (leg currency (pos p.amount) (pos 100) ∷ [])
  single-IsFunding currency enough = (
    add64-pos p.amount 0 (omega (arith, range)) ∙ ap pos (omega arith),
    add64-pos 100 0 (omega arith),
    ((omega (arith, range), enough, omega arith, omega arith), tt),
  )

  two_legs :
      (first_ccy second_ccy : String) (k q : ℕ)
      → 0 < k
      → k < p.amount
      → q ≤ 100
      → pos k ≤ℤ balance_of p first_ccy
      → pos (p.amount - k) ≤ℤ balance_of p second_ccy
      → IsFunding p
          (leg first_ccy (pos k) (pos q) ∷ leg second_ccy (pos (p.amount - k)) (pos (100 - q)) ∷ [])
  two_legs first_ccy second_ccy k q some_left less le first_ok second_ok = (
    rw (add64-pos (p.amount - k) 0 (omega (arith, range))) (
        add64-pos k (p.amount - k + 0) (omega (arith, range, less)) ∙ ap pos (omega (arith, less))),
    rw (add64-pos (100 - q) 0 (omega arith))
        (add64-pos q (100 - q + 0) (omega (arith, le)) ∙ ap pos (omega (arith, le))),
    (
      (omega (arith, some_left), first_ok, omega arith, omega (arith, le)),
      ((omega (arith, less), second_ok, omega arith, omega arith), tt),
    ),
  )

  split_legs-IsFunding :
      (first_ccy second_ccy : String) (k q : ℕ)
      → k ≤ p.amount
      → q ≤ 100
      → (0 < k → pos k ≤ℤ balance_of p first_ccy)
      → (k < p.amount → pos (p.amount - k) ≤ℤ balance_of p second_ccy)
      → IsFunding p (split_legs first_ccy (pos k) (pos q) second_ccy (pos (p.amount - k)))
  split_legs-IsFunding first_ccy second_ccy k q le pct_le first_ok second_ok =
      elim (Bool-cases (ltb 0 (k + 0))) [
        | inl some_left ↦ elim (Bool-cases (ltb 0 (p.amount - k + 0))) [
          | inl rest ↦
              rw (some_left, rest, sub64-pos 100 q (omega arith) pct_le)
                (two_legs first_ccy second_ccy k q (ground arith) (ground arith) pct_le
                  (first_ok (ground arith)) (second_ok (ground arith)))
          | inr used_up ↦
              let all : k ≡ p.amount = ground arith in
              rw (some_left, used_up)
                (subst (λ n. IsFunding p (leg first_ccy (pos n) (pos 100) ∷ [])) (sym all)
                  (single-IsFunding first_ccy
                    (subst (λ n. pos n ≤ℤ balance_of p first_ccy) all (first_ok (ground arith)))))
        ]
        | inr nothing ↦ rw nothing (
            let all : p.amount - k ≡ p.amount = ground arith in
            subst (λ n. IsFunding p (leg second_ccy (pos n) (pos 100) ∷ [])) (sym all)
              (single-IsFunding second_ccy (
                subst (λ n. pos n ≤ℤ balance_of p second_ccy) all
                  (second_ok (ground (arith, range))))))
      ]

  pub split-IsFunding :
      (rule first_ccy second_ccy : String)
      → pos p.amount ≤ℤ balance_of p first_ccy +ℤ balance_of p second_ccy
      → IsFunding p
          (approved_split rule first_ccy (balance_of p first_ccy) second_ccy p.amount).funding
  unfolding approved_split
  split-IsFunding rule first_ccy second_ccy enough =
      let (k, first_eq, le, first_ok, second_ok) =
        split_parts (balance_of p first_ccy) (balance_of p second_ccy) p.amount enough in
      let (pct_eq, pct_le) = share k p.amount le range.0 range.1 in
      rw (first_eq, sub64-pos p.amount k (omega (arith, range)) le, pct_eq)
        (split_legs-IsFunding first_ccy second_ccy k (k * 100 / p.amount) le pct_le first_ok
          second_ok)
