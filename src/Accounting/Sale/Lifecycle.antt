-- ===== src/Accounting/Sale/Lifecycle.antt =====
-- One sale from the authorisation to the funding of its batch: what the four transactions of
-- app/domain/rules/sale.py leave on each account type.
use payzeno_ledger.Prelude.{◌≡◌, ◌∙◌, List, [], ◌∷◌, ◌++◌}
use payzeno_ledger.Prelude.Int.{ℤ, pos, ◌+ℤ◌, ◌-ℤ◌, neg_ℤ, ◌≤ℤ◌, ◌<ℤ◌, int_laws}
use payzeno_ledger.Errors.{ok}
use payzeno_ledger.Money.{Contracts}
use payzeno_ledger.Chart.{
  AccountType, cash, processor_clearing, merchant_receivable, authorization_hold, merchant_payable,
  platform_fee_revenue, interchange_expense, scheme_fee_expense, acquirer_fee_expense, reserve,
}
use payzeno_ledger.Posting.{PostingContext, PostingLine, debit_line, credit_line}
use payzeno_ledger.Posting.Balance.{movement, movement-append}
use payzeno_ledger.Posting.Built.{built_pair}
use payzeno_ledger.Rules.Sale.{
  build_auth, build_capture, build_settlement, build_settlement_funding, interchange_part,
  scheme_part, markup_part,
}
use payzeno_ledger.Accounting.Sale.{
  IsSale, take_of, held_of, net_of, captured, build_capture-captured,
}
use payzeno_ledger.Accounting.Sale.Settlement.{settled, build_settlement-settled}

-- The funding pays what the acquirer owes: the gross amount less its fee.
abbrev pub funding_of : PostingContext → PostingContext
funding_of ctx = record ctx { gross_minor = ctx.gross_minor -ℤ ctx.fee_minor }

-- What is left: the cash, the three shares of the sale, and the acquirer's fee as expenses. The
-- receivables, the hold and the acquirer's clearing account are back where they were.
pub sale_outcome : PostingContext → AccountType → ℤ
sale_outcome ctx cash = ctx.gross_minor -ℤ ctx.fee_minor
sale_outcome ctx merchant_payable = neg_ℤ (net_of ctx)
sale_outcome ctx platform_fee_revenue = neg_ℤ (take_of ctx)
sale_outcome ctx reserve = neg_ℤ (held_of ctx)
sale_outcome ctx interchange_expense = interchange_part ctx
sale_outcome ctx scheme_fee_expense = scheme_part ctx
sale_outcome ctx acquirer_fee_expense = markup_part ctx
sale_outcome ctx _ = pos 0

abbrev auth_legs : PostingContext → List PostingLine
auth_legs ctx =
    debit_line merchant_receivable ctx.gross_minor
    ∷ credit_line authorization_hold ctx.gross_minor
    ∷ []

abbrev funding_legs : PostingContext → List PostingLine
funding_legs ctx =
    debit_line cash (ctx.gross_minor -ℤ ctx.fee_minor)
    ∷ credit_line processor_clearing (ctx.gross_minor -ℤ ctx.fee_minor)
    ∷ []

sale_adds_up :
    (ctx : PostingContext) (t : AccountType)
    → movement t (auth_legs ctx)
        +ℤ (captured ctx t +ℤ (settled ctx t +ℤ movement t (funding_legs ctx)))
      ≡ sale_outcome ctx t
unfolding movement captured settled sale_outcome
sale_adds_up ctx processor_clearing = omega int_laws
sale_adds_up ctx _ = omega int_laws

add_up :
    (a b c d x y z w : ℤ)
    → a ≡ x
    → b ≡ y
    → c ≡ z
    → d ≡ w
    → a +ℤ (b +ℤ (c +ℤ d)) ≡ x +ℤ (y +ℤ (z +ℤ w))
add_up a b c d x y z w p q r s = cc

module _ (c : Contracts) (ctx : PostingContext) (sale : IsSale c ctx) where
  -- For a sale of a positive amount in a supported and named currency, with rates that are not
  -- negative, whose take and reserve fit into it, and an acquirer's fee of at least 1 and below the
  -- sale, the four postings are accepted, and together they leave the stated amounts: the
  -- receivables, the hold and the clearing account are back at zero.
  pub sale_lifecycle :
      take_of ctx +ℤ held_of ctx ≤ℤ ctx.gross_minor
      → pos 1 ≤ℤ ctx.fee_minor
      → ctx.fee_minor <ℤ ctx.gross_minor
      → (auths captures settles fundings : List PostingLine) × (build_auth ctx ≡ ok auths)
        × (build_capture c ctx ≡ ok captures)
        × (build_settlement ctx ≡ ok settles)
        × (build_settlement_funding (funding_of ctx) ≡ ok fundings)
        × ((t : AccountType)
            → movement t (auths ++ (captures ++ (settles ++ fundings))) ≡ sale_outcome ctx t)
  unfolding build_auth build_settlement_funding
  sale_lifecycle fits charged below =
      let (auths, a, ma) =
        built_pair ctx merchant_receivable authorization_hold ctx.gross_minor sale.named
          sale.gross_positive in
      let (captures, k, mk) = build_capture-captured c ctx sale fits in
      let (settles, s, ms, _) = build_settlement-settled ctx sale.named charged in
      let (fundings, f, mf) =
        built_pair (funding_of ctx) cash processor_clearing (ctx.gross_minor -ℤ ctx.fee_minor)
          sale.named (omega int_laws) in
      (
        auths,
        captures,
        settles,
        fundings,
        a,
        k,
        s,
        f,
        λ t.
            rw (movement-append t, movement-append t, movement-append t)
              (add_up _ _ _ _ _ _ _ _ (ma t) (mk t) (ms t) (mf t) ∙ sale_adds_up ctx t),
      )
