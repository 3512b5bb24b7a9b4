-- ===== src/Fx/Spread.antt =====
-- The spread of a quote of app/domain/fx.py, and the posting rule of app/domain/rules/payouts.py
-- that the quote is made for.
use payzeno_ledger.Prelude.{
  ℕ, zero, suc, ◌-◌, ◌*◌, ◌^◌, ◌≤◌, ◌<◌, ◌≡◌, refl, sym, ap, ◌∙◌, subst, String, Bool, true, false,
  ◌||◌, str_eq, arith, List, if◌then◌else◌,
}
use payzeno_ledger.Prelude.Int.{
  ℤ, pos, negsuc, pos_part, ◌*ℤ◌, neg_ℤ, ◌≤ℤ◌, ltb_ℤ, leb_ℤ, half_up, round_half_up, int_laws,
}
use payzeno_ledger.Prelude.Int.Rounding.{half_up-le, half_up_mono}
use payzeno_ledger.Errors.{
  Result, ok, err, ◌>>=◌, >>=-eq-ok, raise_if, Error, validation, markup_out_of_range,
  unsupported_currency,
}
use payzeno_ledger.Money.{Contracts, Money, make_money, exponent_for, bps_denominator}
use payzeno_ledger.Chart.{cash, fx_clearing, fx_revenue}
use payzeno_ledger.Posting.{PostingContext, PostingLine, is_blank}
use payzeno_ledger.Posting.Balance.{movement}
use payzeno_ledger.Rules.Payouts.{build_fx_payout_target}
use payzeno_ledger.Accounting.Cycles.{build_fx_payout_target_posts}
use payzeno_ledger.Fx.{
  FxConversion, rate_scale, spread_minor, marked_down_rate, converted, convert_minor,
  quote_payout_conversion,
}
use native.Mathlib.Nat.{mul-le-mul_left, mul-le-mul_right, one-le-pow}

-- The rate of a payout is never above the mid rate.
marked_down_rate-le :
    (mid : ℕ) (markup : ℤ) (rate : ℕ) → marked_down_rate mid markup ≡ ok rate → rate ≤ mid
unfolding marked_down_rate
marked_down_rate-le mid markup rate h =
    by_test (ltb_ℤ markup (pos 0) || leb_ℤ (pos bps_denominator) markup) h
  where
    rounded : ℕ
    rounded = half_up (mid * (bps_denominator - pos_part markup)) bps_denominator

    below : rounded ≤ mid
    below =
        half_up-le (mid * (bps_denominator - pos_part markup)) bps_denominator mid (omega arith)
          (mul-le-mul_left mid (omega arith))

    by_test :
        (t : Bool)
        → (if t then err (validation markup_out_of_range) else ok rounded) ≡ ok rate
        → rate ≤ mid
    by_test true e = cc
    by_test false e = let same : rounded ≡ rate = cc in subst (λ r. r ≤ mid) same below

product_pos : (a b : ℕ) → pos a *ℤ pos b ≡ pos (a * b)
unfolding ◌*ℤ◌
product_pos a b = ground arith

scale_positive : (k : ℕ) → 0 < rate_scale * 10 ^ k
scale_positive k = omega (arith, one-le-pow k 10 (omega arith))

-- A higher rate converts to no less.
converted_mono :
    (n : ℕ) (low high to_exponent from_exponent : ℕ)
    → low ≤ high
    → converted (pos n) low to_exponent from_exponent
      ≤ℤ converted (pos n) high to_exponent from_exponent
unfolding round_half_up
converted_mono n low high to_exponent from_exponent le =
    rw (product_pos n (low * 10 ^ to_exponent), product_pos n (high * 10 ^ to_exponent))
      (omega (
        arith,
        half_up_mono (n * (low * 10 ^ to_exponent)) (n * (high * 10 ^ to_exponent))
            (rate_scale * 10 ^ from_exponent) (scale_positive from_exponent)
            (mul-le-mul_left n (mul-le-mul_right (10 ^ to_exponent) le)),
      ))

raise_if-passed : (t : Bool) (e : Error) {u : Unit {0}} → raise_if t e ≡ ok u → t ≡ false
raise_if-passed true e h = cc
raise_if-passed false e h = refl

exponents_mono :
    (n low high : ℕ) (a b : ℤ) (r r' : Result ℕ)
    → low ≤ high
    → (r >>= λ to_exp. r' >>= λ from_exp. ok (converted (pos n) low to_exp from_exp)) ≡ ok a
    → (r >>= λ to_exp. r' >>= λ from_exp. ok (converted (pos n) high to_exp from_exp)) ≡ ok b
    → a ≤ℤ b
exponents_mono n low high a b (err e) r' le h k = cc
exponents_mono n low high a b (ok to_exp) (err e) le h k = cc
exponents_mono n low high a b (ok to_exp) (ok from_exp) le h k =
    let less : converted (pos n) low to_exp from_exp ≡ a = cc in
    let more : converted (pos n) high to_exp from_exp ≡ b = cc in
    rw (← less, ← more) (converted_mono n low high to_exp from_exp le)

convert_minor-mono :
    (c : Contracts) (amount : ℤ) (from_currency to_currency : String) (low high : ℕ) (a b : ℤ)
    → leb_ℤ amount (pos 0) ≡ false
    → low ≤ high
    → convert_minor c amount from_currency to_currency low ≡ ok a
    → convert_minor c amount from_currency to_currency high ≡ ok b
    → a ≤ℤ b
unfolding convert_minor
convert_minor-mono c (pos n) from_currency to_currency low high a b positive le h k =
    exponents_mono n low high a b (exponent_for c to_currency) (exponent_for c from_currency) le h k
convert_minor-mono c (negsuc n) from_currency to_currency low high a b positive le h k =
    absurd (ground arith)

make_money-amount :
    (c : Contracts) (amount : ℤ) (currency : String) (m : Money)
    → make_money c amount currency ≡ ok m
    → m.amount_minor ≡ amount
unfolding make_money
make_money-amount c amount currency m h = by_test (c.supports currency) h
  where
    by_test :
        (t : Bool)
        → (if t
            then ok (record { amount_minor = amount; currency = currency })
            else err (validation unsupported_currency))
          ≡ ok m
        → m.amount_minor ≡ amount
    by_test true e =
        let same : record { amount_minor = amount; currency = currency } ≡ m = cc in
        ap (λ (m : Money). m.amount_minor) (sym same)
    by_test false e = cc

-- A rate of zero makes nothing of any amount.
converted_zero :
    (n to_exponent from_exponent : ℕ) → converted (pos n) 0 to_exponent from_exponent ≤ℤ pos 0
unfolding round_half_up
converted_zero n to_exponent from_exponent =
    let nothing : n * (0 * 10 ^ to_exponent) ≡ 0 = omega arith in
    rw (product_pos n (0 * 10 ^ to_exponent), nothing)
      (omega (
        arith,
        half_up-le 0 (rate_scale * 10 ^ from_exponent) 0 (scale_positive from_exponent)
            (omega arith),
      ))

exponents_rate :
    (n rate : ℕ) (t : ℤ) (r r' : Result ℕ)
    → (r >>= λ to_exp. r' >>= λ from_exp. ok (converted (pos n) rate to_exp from_exp)) ≡ ok t
    → leb_ℤ t (pos 0) ≡ false
    → 1 ≤ rate
exponents_rate n rate t (err e) r' h k = cc
exponents_rate n rate t (ok to_exp) (err e) h k = cc
exponents_rate n (suc rate) t (ok to_exp) (ok from_exp) h k = omega arith
exponents_rate n zero t (ok to_exp) (ok from_exp) h k =
    let same : converted (pos n) 0 to_exp from_exp ≡ t = cc in
    let none_ : t ≤ℤ pos 0 = subst (λ x. x ≤ℤ pos 0) same (converted_zero n to_exp from_exp) in
    absurd (ground arith)

convert_minor-rate :
    (c : Contracts) (amount : ℤ) (from_currency to_currency : String) (rate : ℕ) (t : ℤ)
    → leb_ℤ amount (pos 0) ≡ false
    → convert_minor c amount from_currency to_currency rate ≡ ok t
    → leb_ℤ t (pos 0) ≡ false
    → 1 ≤ rate
unfolding convert_minor
convert_minor-rate c (pos n) from_currency to_currency rate t positive h k =
    exponents_rate n rate t (exponent_for c to_currency) (exponent_for c from_currency) h k
convert_minor-rate c (negsuc n) from_currency to_currency rate t positive h k =
    absurd (ground arith)

-- What a quote fixes: the rate and the payout are positive, and the payout is at most the mid amount.
pub record IsQuote (q : FxConversion) : Type 0 where
  pub rate : 1 ≤ q.rate
  pub positive : pos 1 ≤ℤ q.target.amount_minor
  pub spread : pos 0 ≤ℤ spread_minor q

bounds :
    (q : FxConversion) (t : ℤ)
    → q.target.amount_minor ≡ t
    → leb_ℤ t (pos 0) ≡ false
    → t ≤ℤ q.mid_target_minor
    → 1 ≤ q.rate
    → IsQuote q
bounds q t same survives le some_rate = record {
  rate = some_rate;
  positive = rw (same) (ground arith);
  spread = rw (same) (omega (int_laws, le));
}

pub quote_payout_conversion-IsQuote :
    (c : Contracts) (source : Money) (to_currency : String) (mid_rate : ℕ) (markup_bps : ℤ)
    (q : FxConversion)
    → quote_payout_conversion c source to_currency mid_rate markup_bps ≡ ok q
    → IsQuote q
unfolding quote_payout_conversion
quote_payout_conversion-IsQuote c source to_currency mid_rate markup_bps q e =
    let (u, has_amount, e1) = >>=-eq-ok (raise_if (leb_ℤ source.amount_minor (pos 0)) _) _ e in
    let (u', _, e2) = >>=-eq-ok (raise_if (str_eq source.currency to_currency) _) _ e1 in
    let (rate, marked, e3) = >>=-eq-ok (marked_down_rate mid_rate markup_bps) _ e2 in
    let (t, at_rate, e4) =
      >>=-eq-ok (convert_minor c source.amount_minor source.currency to_currency rate) _ e3 in
    let (mid, at_mid, e5) =
      >>=-eq-ok (convert_minor c source.amount_minor source.currency to_currency mid_rate) _ e4 in
    let (u'', survives, e6) = >>=-eq-ok (raise_if (leb_ℤ t (pos 0)) _) _ e5 in
    let (target, made, e7) = >>=-eq-ok (make_money c t to_currency) _ e6 in
    subst IsQuote (ok_eq _ _ e7) (
      bounds _ t (make_money-amount c t to_currency target made) (raise_if-passed _ _ survives)
        (convert_minor-mono c source.amount_minor source.currency to_currency rate mid_rate t mid
          (raise_if-passed _ _ has_amount) (marked_down_rate-le mid_rate markup_bps rate marked)
          at_rate at_mid)
        (convert_minor-rate c source.amount_minor source.currency to_currency rate t
          (raise_if-passed _ _ has_amount) at_rate (raise_if-passed _ _ survives)))
  where
    ok_eq : (p q : FxConversion) → ok p ≡ ok q → p ≡ q
    ok_eq p q h = cc

-- A quote is for the amount that was asked about.
pub quote_payout_conversion-source :
    (c : Contracts) (source : Money) (to_currency : String) (mid_rate : ℕ) (markup_bps : ℤ)
    (q : FxConversion)
    → quote_payout_conversion c source to_currency mid_rate markup_bps ≡ ok q
    → q.source ≡ source
unfolding quote_payout_conversion
quote_payout_conversion-source c source to_currency mid_rate markup_bps q e =
    let (u, has_amount, e1) = >>=-eq-ok (raise_if (leb_ℤ source.amount_minor (pos 0)) _) _ e in
    let (u', _, e2) = >>=-eq-ok (raise_if (str_eq source.currency to_currency) _) _ e1 in
    let (rate, marked, e3) = >>=-eq-ok (marked_down_rate mid_rate markup_bps) _ e2 in
    let (t, at_rate, e4) =
      >>=-eq-ok (convert_minor c source.amount_minor source.currency to_currency rate) _ e3 in
    let (mid, at_mid, e5) =
      >>=-eq-ok (convert_minor c source.amount_minor source.currency to_currency mid_rate) _ e4 in
    let (u'', survives, e6) = >>=-eq-ok (raise_if (leb_ℤ t (pos 0)) _) _ e5 in
    let (target, made, e7) = >>=-eq-ok (make_money c t to_currency) _ e6 in source_eq _ q e7
  where
    source_eq : (p q : FxConversion) → ok p ≡ ok q → q.source ≡ p.source
    source_eq p q h = let same : q ≡ p = cc in ap (λ (q : FxConversion). q.source) same

-- In a currency that is not blank, what a quote fixes is what the bank side of the payout posts: the
-- posting is accepted, debits the mid amount to the clearing account, and credits the payout to cash and the spread to revenue.
pub build_fx_payout_target-quote_payout_conversion :
    (c : Contracts) (source : Money) (to_currency : String) (mid_rate : ℕ) (markup_bps : ℤ)
    (q : FxConversion) (ctx : PostingContext)
    → quote_payout_conversion c source to_currency mid_rate markup_bps ≡ ok q
    → is_blank ctx.currency ≡ false
    → ctx.gross_minor ≡ q.mid_target_minor
    → ctx.net_minor ≡ q.target.amount_minor
    → ctx.fee_minor ≡ spread_minor q
    → (out : List PostingLine) × (build_fx_payout_target ctx ≡ ok out)
      × (movement fx_clearing out ≡ q.mid_target_minor)
      × (movement cash out ≡ neg_ℤ q.target.amount_minor)
      × (movement fx_revenue out ≡ neg_ℤ (spread_minor q))
build_fx_payout_target-quote_payout_conversion c source to_currency mid_rate markup_bps q ctx e
      named gross net fee =
    let quote = quote_payout_conversion-IsQuote c source to_currency mid_rate markup_bps q e in
    let (out, built_, clearing, paid, revenue) =
      build_fx_payout_target_posts ctx named (rw (net) quote.positive) (rw (fee) quote.spread)
        (rw (gross, net, fee) (omega int_laws)) in
    (out, built_, clearing ∙ gross, paid ∙ ap neg_ℤ net, revenue ∙ ap neg_ℤ fee)
