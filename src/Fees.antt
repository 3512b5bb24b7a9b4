-- ===== src/Fees.antt =====
-- app/domain/fees.py: the platform's own fee, and the split of a fee over named components.
pub mod Platform
pub mod Apportion
use payzeno_ledger.Prelude.{
  ℕ, ◌*◌, String, Bool, true, false, not, ◌||◌, Option, none, some, List, [], ◌∷◌, map, any,
  if◌then◌else◌, str_eq,
}
use payzeno_ledger.Prelude.Int.{ℤ, pos, ◌+ℤ◌, ◌-ℤ◌, ◌*ℤ◌, ltb_ℤ, min_ℤ, sum_ℤ, round_half_up}
use payzeno_ledger.Errors.{
  Result, ok, err, ◌>>=◌, ◌>>◌, raise_if, validation, fixed_fee_negative, no_components,
  names_not_unique, no_dispute_fee, fee_currency_differs,
}
use payzeno_ledger.Money.{Contracts, Money, make_money, zero_money, apply_bps, bps_denominator}

pub record FeeComponent : Type 0 where
  pub name : String
  pub bps : ℤ
  pub fixed_minor : ℤ

pub record FeeBreakdown : Type 0 where
  pub total : Money
  pub components : List (String × Money)
  pub remainder_minor : ℤ

abbrev pub markup_component : String
markup_component = "platform_markup"

-- `DEFAULT_DISPUTE_FEE_BY_CURRENCY.get(currency)`
unfoldable pub default_dispute_fee : String → Option ℤ
default_dispute_fee currency =
    if str_eq currency "USD"
    then some (pos 1500)
    else if str_eq currency "EUR"
    then some (pos 1400)
    else if str_eq currency "GBP"
    then some (pos 1200)
    else if str_eq currency "ILS"
    then some (pos 5500)
    else if str_eq currency "JPY"
    then some (pos 2200)
    else none

abbrev pub legacy_blended_bps : ℤ
legacy_blended_bps = pos 290

abbrev pub legacy_blended_fixed_minor : ℤ
legacy_blended_fixed_minor = pos 30

module _ (c : Contracts) where
  unfoldable pub compute_platform_fee : Money → ℤ → ℤ → Result Money
  compute_platform_fee gross bps fixed_minor = do
    raise_if (ltb_ℤ fixed_minor (pos 0)) (validation fixed_fee_negative)
    variable ← apply_bps c gross bps
    make_money c (min_ℤ (variable.amount_minor +ℤ fixed_minor) gross.amount_minor) gross.currency

  unfoldable pub dispute_fee_for : String → Result Money
  dispute_fee_for currency = elim (default_dispute_fee currency) [
    | some minor ↦ make_money c minor currency
    | none ↦ err (validation no_dispute_fee)
  ]

  -- The rate is 290 / 10_000, so the product has four decimal places, and the first `quantize`
  -- rounds it to that many.
  unfoldable pub legacy_blended_fee : Money → Result Money
  legacy_blended_fee gross =
      let truncated = round_half_up (gross.amount_minor *ℤ legacy_blended_bps) 1 in
      let minor = round_half_up truncated bps_denominator +ℤ legacy_blended_fixed_minor in
      make_money c (min_ℤ minor gross.amount_minor) gross.currency

  unfoldable pub blended_or_legacy : Money → ℤ → ℤ → Bool → Result Money
  blended_or_legacy gross bps fixed_minor legacy =
      if legacy then legacy_blended_fee gross else compute_platform_fee gross bps fixed_minor

  unfoldable pub net_of_fee : Money → Money → Result Money
  net_of_fee gross fee = do
    raise_if (not (str_eq gross.currency fee.currency)) (validation fee_currency_differs)
    if ltb_ℤ gross.amount_minor fee.amount_minor
        then zero_money c gross.currency
        else make_money c (gross.amount_minor -ℤ fee.amount_minor) gross.currency

unfoldable pub acquirer_markup_minor : ℤ → ℤ → ℤ → ℤ
acquirer_markup_minor fee_minor interchange_minor scheme_fee_minor =
    let markup = fee_minor -ℤ interchange_minor -ℤ scheme_fee_minor in
    if ltb_ℤ markup (pos 0) then pos 0 else markup

-- `len(set(names)) != len(names)`
unfoldable pub has_duplicates : List String → Bool
has_duplicates [] = false
has_duplicates (n ∷ ns) = any (str_eq n) ns || has_duplicates ns

-- gross * bps / 10_000 + fixed, in units of 1 / 10_000
unfoldable pub exact_part : Money → FeeComponent → ℤ
exact_part gross component =
    gross.amount_minor *ℤ component.bps +ℤ component.fixed_minor *ℤ pos bps_denominator

-- `parts[sink] += remainder`
unfoldable pub add_to : String → ℤ → List (String × ℤ) → List (String × ℤ)
add_to sink remainder [] = []
add_to sink remainder ((name, minor) ∷ parts) =
    if str_eq name sink
    then (name, minor +ℤ remainder) ∷ parts
    else (name, minor) ∷ add_to sink remainder parts

-- `names[-1]`, of a list that begins with `n`
unfoldable pub last_name : String → List String → String
last_name n [] = n
last_name n (m ∷ ns) = last_name m ns

unfoldable pub names_of : List FeeComponent → List String
names_of components = map (λ (f : FeeComponent). f.name) components

-- Each component rounded on its own.
unfoldable pub rounded_parts : Money → List FeeComponent → List (String × ℤ)
rounded_parts gross components =
    map (λ (f : FeeComponent). (f.name, round_half_up (exact_part gross f) bps_denominator))
      components

unfoldable pub minors : List (String × ℤ) → List ℤ
minors parts = map (λ (p : String × ℤ). p.1) parts

module _ (c : Contracts) where
  unfoldable pub priced : String → List (String × ℤ) → Result (List (String × Money))
  priced currency [] = ok []
  priced currency ((name, minor) ∷ parts) = do
    m ← make_money c minor currency
    rest ← priced currency parts
    ok ((name, m) ∷ rest)

  unfoldable pub apportion_fee : Money → List FeeComponent → Result FeeBreakdown
  apportion_fee gross [] = err (validation no_components)
  apportion_fee gross (f ∷ fs) =
      let names = names_of (f ∷ fs) in
      let parts = rounded_parts gross (f ∷ fs) in
      let exact_total = sum_ℤ (map (exact_part gross) (f ∷ fs)) in
      let total_minor = round_half_up exact_total bps_denominator in
      let remainder = total_minor -ℤ sum_ℤ (minors parts) in
      let sink =
        if any (λ n. str_eq n markup_component) names
        then markup_component
        else last_name f.name (names_of fs) in
      do
        raise_if (has_duplicates names) (validation names_not_unique)
        total ← make_money c total_minor gross.currency
        components ← priced gross.currency (add_to sink remainder parts)
        ok (record { total = total; components = components; remainder_minor = remainder })

unfoldable pub interchange_plus_components : ℤ → ℤ → ℤ → ℤ → List FeeComponent
interchange_plus_components markup_bps markup_fixed_minor interchange_minor scheme_fee_minor =
    record { name = "interchange"; bps = pos 0; fixed_minor = interchange_minor }
    ∷ record { name = "scheme_fee"; bps = pos 0; fixed_minor = scheme_fee_minor }
    ∷ record { name = markup_component; bps = markup_bps; fixed_minor = markup_fixed_minor }
    ∷ []
