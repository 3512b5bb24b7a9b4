-- ===== src/Fees/Apportion.antt =====
-- `apportion_fee` of app/domain/fees.py: the components, their total and the remainder.
use payzeno_ledger.Prelude.{
  ◌+◌, ◌*◌, ◌≤◌, ◌≡◌, refl, ap, ◌∙◌, inl, inr, String, Bool, Bool-cases, true, false, List, [], ◌∷◌,
  map, any, length, arith, if◌then◌else◌, str_eq,
}
use payzeno_ledger.Prelude.Int.{
  ℤ, ◌+ℤ◌, ◌-ℤ◌, pos_part, neg_part, int_laws, part_zero, sum_ℤ, round_half_up,
}
use payzeno_ledger.Prelude.Int.Rounding.{IsHalfUp, round_half_up-IsHalfUp, round_half_up-IsNearest}
use payzeno_ledger.Errors.{ok}
use payzeno_ledger.Money.{Contracts, Money, make_money, bps_denominator}
use payzeno_ledger.Fees.{
  FeeComponent, FeeBreakdown, apportion_fee, add_to, minors, priced, exact_part, rounded_parts,
  last_name, names_of, has_duplicates, markup_component,
}
use text.Mathlib.TextPositions.{eq_refl}

abbrev Parts : Type 0
Parts = List (String × ℤ)

abbrev has : String → List String → Bool
has s names = any (λ n. str_eq n s) names

names : Parts → List String
names parts = map (λ (p : String × ℤ). p.0) parts

-- The remainder that goes to a listed component raises the sum by just that.
sum-add_to :
    (sink : String) (r : ℤ) (parts : Parts)
    → has sink (names parts) ≡ true
    → sum_ℤ (minors (add_to sink r parts)) ≡ sum_ℤ (minors parts) +ℤ r
unfolding sum_ℤ add_to minors names
sum-add_to sink r [] h = cc
sum-add_to sink r ((n, m) ∷ parts) h = elim (Bool-cases (str_eq n sink)) [
  | inl same ↦ rw same (omega int_laws)
  | inr other ↦
      let h' : has sink (names parts) ≡ true = rw other at h in
      rw (other, sum-add_to sink r parts h') (omega int_laws)
]

names-add_to : (sink : String) (r : ℤ) (parts : Parts) → names (add_to sink r parts) ≡ names parts
unfolding add_to names
names-add_to sink r [] = refl
names-add_to sink r ((n, m) ∷ parts) = elim (Bool-cases (str_eq n sink)) [
  | inl same ↦ rw same
  | inr other ↦ rw other (ap (λ t. n ∷ t) (names-add_to sink r parts))
]

has-last_name : (n : String) (ns : List String) → has (last_name n ns) (n ∷ ns) ≡ true
unfolding last_name
has-last_name n [] = rw (eq_refl n)
has-last_name n (m ∷ ns) = rw (has-last_name m ns) (ground arith)

names-rounded_parts :
    (gross : Money) (fs : List FeeComponent) → names (rounded_parts gross fs) ≡ names_of fs
unfolding names rounded_parts names_of
names-rounded_parts gross [] = refl
names-rounded_parts gross (f ∷ fs) = ap (λ t. f.name ∷ t) (names-rounded_parts gross fs)

-- The parts, each with the currency.
with_currency : String → Parts → List (String × Money)
with_currency currency parts =
    map (λ (p : String × ℤ). (p.0, record { amount_minor = p.1; currency = currency })) parts

priced_lem :
    (c : Contracts) (currency : String) (parts : Parts)
    → c.supports currency ≡ true
    → priced c currency parts ≡ ok (with_currency currency parts)
unfolding priced make_money with_currency
priced_lem c currency [] known = refl
priced_lem c currency ((n, m) ∷ parts) known = rw (known, priced_lem c currency parts known)

pub amounts : List (String × Money) → List ℤ
amounts components = map (λ (p : String × Money). p.1.amount_minor) components

pub component_names : List (String × Money) → List String
component_names components = map (λ (p : String × Money). p.0) components

amounts-with_currency :
    (currency : String) (parts : Parts) → amounts (with_currency currency parts) ≡ minors parts
unfolding amounts with_currency minors
amounts-with_currency currency [] = refl
amounts-with_currency currency ((n, m) ∷ parts) =
    ap (λ t. m ∷ t) (amounts-with_currency currency parts)

names-with_currency :
    (currency : String) (parts : Parts)
    → component_names (with_currency currency parts) ≡ names parts
unfolding component_names with_currency names
names-with_currency currency [] = refl
names-with_currency currency ((n, m) ∷ parts) = ap (λ t. n ∷ t) (names-with_currency currency parts)

-- Rounded one by one, the parts stray from the exact sum by at most half a unit each.
parts_near :
    (gross : Money) (fs : List FeeComponent)
    → let exact = sum_ℤ (map (exact_part gross) fs) in
      let rounded = sum_ℤ (minors (rounded_parts gross fs)) in
      (20_000 * pos_part rounded + 2 * neg_part exact
        ≤ 2 * pos_part exact + 20_000 * neg_part rounded + 10_000 * length fs)
      × (2 * pos_part exact + 20_000 * neg_part rounded
          ≤ 20_000 * pos_part rounded + 2 * neg_part exact + 10_000 * length fs)
unfolding sum_ℤ minors rounded_parts
parts_near gross [] = omega arith
parts_near gross (f ∷ fs) = omega (
  int_laws,
  parts_near gross fs,
  round_half_up-IsNearest (exact_part gross f) bps_denominator (omega arith),
)

-- What a breakdown of a fee on `gross` over `fs` has to be.
pub record IsBreakdownOf (gross : Money) (fs : List FeeComponent) (b : FeeBreakdown) : Type 0 where
  pub sums : sum_ℤ (amounts b.components) ≡ b.total.amount_minor
  pub in_order : component_names b.components ≡ names_of fs
  pub total_rounded :
      IsHalfUp (sum_ℤ (map (exact_part gross) fs)) bps_denominator b.total.amount_minor
  pub small_remainder :
      2 * (pos_part b.remainder_minor + neg_part b.remainder_minor) ≤ length fs + 1

remainder_small :
    (gross : Money) (fs : List FeeComponent)
    → let exact = sum_ℤ (map (exact_part gross) fs) in
      let r = round_half_up exact bps_denominator -ℤ sum_ℤ (minors (rounded_parts gross fs)) in
      2 * (pos_part r + neg_part r) ≤ length fs + 1
remainder_small gross fs =
    let exact = sum_ℤ (map (exact_part gross) fs) in
    let rounded = sum_ℤ (minors (rounded_parts gross fs)) in
    omega (
      int_laws,
      parts_near gross fs,
      round_half_up-IsNearest exact bps_denominator (omega arith),
      part_zero (round_half_up exact bps_denominator -ℤ rounded),
    )

-- The sink of the remainder is one of the components.
has_sink :
    (markup last : String) (ns : List String) (b : Bool)
    → has markup ns ≡ b
    → has last ns ≡ true
    → has (if b then markup else last) ns ≡ true
has_sink markup last ns true e h = e
has_sink markup last ns false e h = h

module _ (c : Contracts) (gross : Money) (f : FeeComponent) (fs : List FeeComponent) where
  -- In a supported currency, with components of different names, the fee is split: the parts sum to
  -- the total and keep the components' order and names, the total is the exact fee rounded half up,
  -- and what the rounded parts miss is at most half a minor unit for each component, and a half.
  pub apportion_fee-IsBreakdownOf :
      c.supports gross.currency ≡ true
      → has_duplicates (names_of (f ∷ fs)) ≡ false
      → (b : FeeBreakdown) × (apportion_fee c gross (f ∷ fs) ≡ ok b)
        × IsBreakdownOf gross (f ∷ fs) b
  unfolding apportion_fee make_money
  apportion_fee-IsBreakdownOf known unique = (
    record {
      total = record { amount_minor = total; currency = gross.currency };
      components = with_currency gross.currency (add_to sink remainder parts);
      remainder_minor = remainder;
    },
    rw (unique, known, priced_lem c gross.currency (add_to sink remainder parts) known),
    record {
      sums =
          rw
            (
              amounts-with_currency gross.currency (add_to sink remainder parts),
              sum-add_to sink remainder parts listed,
            )
            (omega int_laws);
      in_order =
          names-with_currency gross.currency (add_to sink remainder parts)
          ∙ names-add_to sink remainder parts
          ∙ names-rounded_parts gross (f ∷ fs);
      total_rounded = round_half_up-IsHalfUp _ _ (omega arith);
      small_remainder = remainder_small gross (f ∷ fs);
    },
  )
    where
      parts : Parts
      parts = rounded_parts gross (f ∷ fs)

      total : ℤ
      total = round_half_up (sum_ℤ (map (exact_part gross) (f ∷ fs))) bps_denominator

      remainder : ℤ
      remainder = total -ℤ sum_ℤ (minors parts)

      all_names : List String
      all_names = names_of (f ∷ fs)

      sink : String
      sink =
          if has markup_component all_names
          then markup_component
          else last_name f.name (names_of fs)

      listed : has sink (names parts) ≡ true
      listed = rw (names-rounded_parts gross (f ∷ fs)) (
          has_sink markup_component (last_name f.name (names_of fs)) all_names
            (has markup_component all_names) refl
            (unfold names_of in has-last_name f.name (names_of fs)))
