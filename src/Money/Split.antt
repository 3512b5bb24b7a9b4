-- ===== src/Money/Split.antt =====
-- `split_evenly` of app/domain/money.py.
use payzeno_ledger.Prelude.{
  ℕ, zero, suc, ◌+◌, ◌-◌, ◌*◌, ◌≤◌, ◌≡◌, refl, inl, inr, String, Bool, true, false, List, [], ◌∷◌,
  map, arith, ltb, ltb→lt, if◌then◌else◌, length, All, Bool-cases,
}
use payzeno_ledger.Prelude.Int.{
  ℤ, pos, ◌+ℤ◌, ◌≤ℤ◌, pos_part, neg_part, int_laws, eq_of_parts, sum_ℤ, floor_div, floor_mod,
}
use payzeno_ledger.Prelude.Int.Rounding.{floor_lem}
use payzeno_ledger.Errors.{ok}
use payzeno_ledger.Money.{Contracts, Money, slices, split_evenly}
use Prim.Native.Nat.{min}

pub total_of : List Money → ℤ
total_of ms = sum_ℤ (map (λ (m : Money). m.amount_minor) ms)

abbrev IsBetween : ℤ → Money → Type 0
IsBetween base s = (base ≤ℤ s.amount_minor) × (s.amount_minor ≤ℤ base +ℤ pos 1)

-- What a split of `m` into `n` parts has to be.
pub record IsSplit (m : Money) (n : ℕ) (base : ℤ) (ms : List Money) : Type 0 where
  pub parts : length ms ≡ n
  pub sums : total_of ms ≡ m.amount_minor
  pub same_currency : All (λ (s : Money). s.currency ≡ m.currency) ms
  pub even : All (λ (s : Money). (base ≤ℤ s.amount_minor) × (s.amount_minor ≤ℤ base +ℤ pos 1)) ms

module _ (base : ℤ) (r : ℕ) (currency : String) where
  -- the slices, built with no check of the currency
  plain : ℕ → ℕ → List Money
  plain i zero = []
  plain i (suc left) =
      record { amount_minor = base +ℤ (if ltb i r then pos 1 else pos 0); currency = currency }
      ∷ plain (i + 1) left

  length-plain : (i left : ℕ) → length (plain i left) ≡ left
  unfolding plain
  length-plain i zero = refl
  length-plain i (suc left) = omega (arith, length-plain (i + 1) left)

  plain_currency : (i left : ℕ) → All (λ (s : Money). s.currency ≡ currency) (plain i left)
  unfolding plain
  plain_currency i zero = tt
  plain_currency i (suc left) = (refl, plain_currency (i + 1) left)

  plain_even : (i left : ℕ) → All (IsBetween base) (plain i left)
  unfolding plain
  plain_even i zero = tt
  plain_even i (suc left) = (between (ltb i r), plain_even (i + 1) left)
    where
      between :
          (b : Bool)
          → (base ≤ℤ base +ℤ (if b then pos 1 else pos 0))
            × (base +ℤ (if b then pos 1 else pos 0) ≤ℤ base +ℤ pos 1)
      between true = omega int_laws
      between false = omega int_laws

  plain_total :
      (i left : ℕ)
      → pos_part (total_of (plain i left)) + left * neg_part base
        ≡ neg_part (total_of (plain i left)) + left * pos_part base + min (r - i) left
  unfolding plain total_of sum_ℤ
  plain_total i zero = omega arith
  plain_total i (suc left) = elim (Bool-cases (ltb i r)) [
    | inl e ↦ let lt = ltb→lt i r e in rw e (omega (int_laws, plain_total (i + 1) left))
    | inr e ↦ let ge : r ≤ i = ground arith in rw e (omega (int_laws, plain_total (i + 1) left))
  ]

  slices-plain :
      (c : Contracts) (i left : ℕ)
      → c.supports currency ≡ true
      → slices c base r currency i left ≡ ok (plain i left)
  unfolding plain slices
  slices-plain c i zero known = refl
  slices-plain c i (suc left) known = rw (known, slices-plain c (i + 1) left known)

module _ (c : Contracts) (m : Money) (n : ℕ) (known : c.supports m.currency ≡ true) where
  -- An amount of a supported currency splits into n + 1 parts of that currency which sum to it, each
  -- the floor of the amount over n + 1 or one minor unit more.
  pub split_evenly-IsSplit :
      (ms : List Money) × (split_evenly c m (pos (suc n)) ≡ ok ms)
      × IsSplit m (suc n) (floor_div m.amount_minor (suc n)) ms
  unfolding split_evenly
  split_evenly-IsSplit = (
    plain base r m.currency 0 (suc n),
    slices-plain base r m.currency c 0 (suc n) known,
    record {
      parts = length-plain base r m.currency 0 (suc n);
      sums =
          eq_of_parts _ _
            (omega (arith, plain_total base r m.currency 0 (suc n), floor_lem m.amount_minor n));
      same_currency = plain_currency base r m.currency 0 (suc n);
      even = plain_even base r m.currency 0 (suc n);
    },
  )
    where
      base : ℤ
      base = floor_div m.amount_minor (suc n)

      r : ℕ
      r = floor_mod m.amount_minor (suc n)
