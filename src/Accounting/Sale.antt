-- ===== src/Accounting/Sale.antt =====
-- The capture of app/domain/rules/sale.py: what it moves on every account type, and when it is
-- refused.
pub mod Settlement
pub mod Lifecycle
use payzeno_ledger.Prelude.{
  ◌≡◌, refl, sym, ap, ◌∙◌, inl, inr, Bool, true, false, List, [], ◌∷◌, ◌++◌, keep, arith,
  if◌then◌else◌,
}
use payzeno_ledger.Prelude.Int.{
  ℤ, pos, ◌+ℤ◌, ◌-ℤ◌, ◌*ℤ◌, neg_ℤ, ◌≤ℤ◌, ◌<ℤ◌, ltb_ℤ, leb_ℤ, min_ℤ, max_ℤ, int_laws, round_half_up,
  parts_of,
}
use payzeno_ledger.Prelude.Int.Rounding.{round_half_up_nonneg}
use payzeno_ledger.Errors.{
  Result, ok, err, ◌>>=◌, ◌>>◌, raise_if, validation, fee_plus_reserve_exceeds,
}
use payzeno_ledger.Money.{Contracts, make_money, apply_bps, bps_denominator}
use payzeno_ledger.Fees.{compute_platform_fee, acquirer_markup_minor}
use payzeno_ledger.Fees.Platform.{*ℤ_nonneg, min_ℤ_bounds}
use payzeno_ledger.Chart.{
  AccountType, debit, credit, processor_clearing, merchant_receivable, authorization_hold,
  merchant_payable, platform_fee_revenue, interchange_expense, scheme_fee_expense,
  acquirer_fee_expense, reserve, cash,
}
use payzeno_ledger.Posting.{
  PostingContext, PostingLine, is_nonzero, is_blank, built, debit_line, credit_line,
}
use payzeno_ledger.Posting.Balance.{side_total, movement, movement-append}
use payzeno_ledger.Posting.Built.{IsNonneg, built_moves}
use payzeno_ledger.Rules.Sale.{
  build_auth, build_capture, build_settlement, build_settlement_funding, capture_legs,
  interchange_part, scheme_part, markup_part,
}

-- A context that a sale may be posted under.
pub record IsSale (c : Contracts) (ctx : PostingContext) : Type 0 where
  pub known : c.supports ctx.currency ≡ true
  pub named : is_blank ctx.currency ≡ false
  pub gross_positive : pos 1 ≤ℤ ctx.gross_minor
  pub fee_rate : pos 0 ≤ℤ ctx.platform_fee_bps
  pub fee_fixed : pos 0 ≤ℤ ctx.platform_fee_fixed_minor
  pub reserve_rate : pos 0 ≤ℤ ctx.reserve_bps

-- Payzeno's own take, and what is held back.
unfoldable pub take_of : PostingContext → ℤ
take_of ctx =
    min_ℤ
      (round_half_up (ctx.gross_minor *ℤ ctx.platform_fee_bps) bps_denominator
        +ℤ ctx.platform_fee_fixed_minor)
      ctx.gross_minor

unfoldable pub held_of : PostingContext → ℤ
held_of ctx = round_half_up (ctx.gross_minor *ℤ ctx.reserve_bps) bps_denominator

pub net_of : PostingContext → ℤ
net_of ctx = ctx.gross_minor -ℤ take_of ctx -ℤ held_of ctx

-- What a capture moves: the receivable from the acquirer, its three shares, and the hold.
pub captured : PostingContext → AccountType → ℤ
captured ctx processor_clearing = ctx.gross_minor
captured ctx authorization_hold = ctx.gross_minor
captured ctx merchant_receivable = neg_ℤ ctx.gross_minor
captured ctx merchant_payable = neg_ℤ (net_of ctx)
captured ctx platform_fee_revenue = neg_ℤ (take_of ctx)
captured ctx reserve = neg_ℤ (held_of ctx)
captured ctx _ = pos 0

movement-capture_legs :
    (ctx : PostingContext) (t : AccountType)
    → movement t (capture_legs ctx.gross_minor (net_of ctx) (take_of ctx) (held_of ctx))
      ≡ captured ctx t
unfolding movement captured
movement-capture_legs ctx processor_clearing = omega int_laws
movement-capture_legs ctx _ = omega int_laws

take_nonneg : (c : Contracts) (ctx : PostingContext) → IsSale c ctx → pos 0 ≤ℤ take_of ctx
unfolding take_of
take_nonneg c ctx s =
    (min_ℤ_bounds _ ctx.gross_minor).1
      (omega (
        int_laws,
        round_half_up_nonneg _ bps_denominator
            (*ℤ_nonneg ctx.gross_minor ctx.platform_fee_bps (omega arith) s.fee_rate),
      ))
      (omega arith)

held_nonneg : (c : Contracts) (ctx : PostingContext) → IsSale c ctx → pos 0 ≤ℤ held_of ctx
unfolding held_of
held_nonneg c ctx s =
    round_half_up_nonneg _ bps_denominator
      (*ℤ_nonneg ctx.gross_minor ctx.reserve_bps (omega arith) s.reserve_rate)

-- The rule computes the fee and the reserve, and then tests what is left.
capture_computes :
    (c : Contracts) (ctx : PostingContext)
    → IsSale c ctx
    → build_capture c ctx ≡ (
        raise_if (ltb_ℤ (net_of ctx) (pos 0)) (validation fee_plus_reserve_exceeds)
        >> built ctx (capture_legs ctx.gross_minor (net_of ctx) (take_of ctx) (held_of ctx)))
unfolding build_capture make_money compute_platform_fee apply_bps net_of take_of held_of
capture_computes c ctx s =
    let rate : ltb_ℤ ctx.platform_fee_bps (pos 0) ≡ false = ground arith in
    let fixed : ltb_ℤ ctx.platform_fee_fixed_minor (pos 0) ≡ false = ground arith in
    let hold : ltb_ℤ ctx.reserve_bps (pos 0) ≡ false = ground arith in
    rw (s.known, fixed, rate, s.known, hold) refl

module _ (c : Contracts) (ctx : PostingContext) (sale : IsSale c ctx) where
  capture_built :
      pos 0 ≤ℤ net_of ctx
      → (out : List PostingLine) × (built ctx
            (capture_legs ctx.gross_minor (net_of ctx) (take_of ctx) (held_of ctx))
          ≡ ok out)
        × ((t : AccountType) → movement t out ≡ captured ctx t)
  unfolding side_total
  capture_built fits =
      let take = take_nonneg c ctx sale in
      let held = held_nonneg c ctx sale in
      let net : net_of ctx ≡ ctx.gross_minor -ℤ take_of ctx -ℤ held_of ctx =
        unfold net_of in refl in
      let (out, accepted, moves) =
        built_moves ctx (capture_legs ctx.gross_minor (net_of ctx) (take_of ctx) (held_of ctx))
          sale.named (omega arith) (omega (int_laws, parts_of net)) (omega int_laws) in
      (out, accepted, λ t. moves t ∙ movement-capture_legs ctx t)

  -- A capture of a positive amount in a supported and named currency, at rates that are not negative,
  -- whose take and reserve fit into the amount, is posted and moves these amounts.
  pub build_capture-captured :
      take_of ctx +ℤ held_of ctx ≤ℤ ctx.gross_minor
      → (out : List PostingLine) × (build_capture c ctx ≡ ok out)
        × ((t : AccountType) → movement t out ≡ captured ctx t)
  build_capture-captured fits =
      let left = net_nonneg in
      let test : ltb_ℤ (net_of ctx) (pos 0) ≡ false = ground arith in
      let (out, accepted, moves) = capture_built left in
      (out, rw (capture_computes c ctx sale, test) accepted, moves)
    where
      legs : List PostingLine
      legs = capture_legs ctx.gross_minor (net_of ctx) (take_of ctx) (held_of ctx)

      net_nonneg : pos 0 ≤ℤ net_of ctx
      net_nonneg = unfold net_of in (omega int_laws)

  -- One that they leave nothing of is refused.
  pub build_capture_refused :
      ctx.gross_minor <ℤ take_of ctx +ℤ held_of ctx
      → build_capture c ctx ≡ err (validation fee_plus_reserve_exceeds)
  unfolding net_of
  build_capture_refused over =
      let short : net_of ctx <ℤ pos 0 = omega int_laws in
      let test : ltb_ℤ (net_of ctx) (pos 0) ≡ true = ground arith in
      rw (capture_computes c ctx sale, test) refl
