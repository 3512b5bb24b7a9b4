-- ===== src/Accounting/Sale/Settlement.antt =====
-- The settlement of an acquirer's sale line in app/domain/rules/sale.py: the fee and its three parts.
use payzeno_ledger.Prelude.{◌≡◌, ◌∙◌, List, [], ◌∷◌, false, arith}
use payzeno_ledger.Prelude.Int.{
  ℤ, pos, ◌+ℤ◌, ◌-ℤ◌, neg_ℤ, ◌≤ℤ◌, leb_ℤ, min_ℤ, max_ℤ, int_laws, parts_of,
}
use payzeno_ledger.Errors.{ok}
use payzeno_ledger.Fees.{acquirer_markup_minor}
use payzeno_ledger.Chart.{
  AccountType, processor_clearing, interchange_expense, scheme_fee_expense, acquirer_fee_expense,
}
use payzeno_ledger.Posting.{PostingContext, PostingLine, is_blank, debit_line, credit_line}
use payzeno_ledger.Posting.Balance.{side_total, movement}
use payzeno_ledger.Posting.Built.{built_moves}
use payzeno_ledger.Rules.Sale.{build_settlement, interchange_part, scheme_part, markup_part}

clamped :
    (a f : ℤ) → pos 0 ≤ℤ f → (pos 0 ≤ℤ min_ℤ (max_ℤ a (pos 0)) f) × (min_ℤ (max_ℤ a (pos 0)) f ≤ℤ f)
clamped a f h = (ground arith, ground arith)

markup_rest : (f i s : ℤ) → i +ℤ s ≤ℤ f → acquirer_markup_minor f i s ≡ f -ℤ i -ℤ s
unfolding acquirer_markup_minor
markup_rest f i s h = let nonneg : pos 0 ≤ℤ f -ℤ i -ℤ s = omega int_laws in ground arith

-- The three parts of the acquirer's fee.
record IsSplitOf (fee i s m : ℤ) : Type 0 where
  interchange_nonneg : pos 0 ≤ℤ i
  scheme_nonneg : pos 0 ≤ℤ s
  markup_nonneg : pos 0 ≤ℤ m
  whole : i +ℤ s +ℤ m ≡ fee

parts_split :
    (ctx : PostingContext)
    → pos 1 ≤ℤ ctx.fee_minor
    → IsSplitOf ctx.fee_minor (interchange_part ctx) (scheme_part ctx) (markup_part ctx)
parts_split ctx h =
    let i = interchange_part ctx in
    let s = scheme_part ctx in
    let ci = clamped ctx.interchange_minor ctx.fee_minor (omega arith) in
    let room : pos 0 ≤ℤ ctx.fee_minor -ℤ i = omega int_laws in
    let cs = clamped ctx.scheme_fee_minor (ctx.fee_minor -ℤ i) room in
    let rest : markup_part ctx ≡ ctx.fee_minor -ℤ i -ℤ s = markup_rest _ _ _ (omega int_laws) in
    record {
      interchange_nonneg = ci.0;
      scheme_nonneg = cs.0;
      markup_nonneg = omega (int_laws, parts_of rest);
      whole = omega (int_laws, parts_of rest);
    }

-- What a settlement moves: the fee off the receivable, into three expenses.
unfoldable pub settled : PostingContext → AccountType → ℤ
settled ctx processor_clearing = neg_ℤ ctx.fee_minor
settled ctx interchange_expense = interchange_part ctx
settled ctx scheme_fee_expense = scheme_part ctx
settled ctx acquirer_fee_expense = markup_part ctx
settled ctx _ = pos 0

settlement_legs : PostingContext → List PostingLine
settlement_legs ctx =
    debit_line interchange_expense (interchange_part ctx)
    ∷ debit_line scheme_fee_expense (scheme_part ctx)
    ∷ debit_line acquirer_fee_expense (markup_part ctx)
    ∷ credit_line processor_clearing ctx.fee_minor
    ∷ []

movement-settlement_legs :
    (ctx : PostingContext) (t : AccountType) → movement t (settlement_legs ctx) ≡ settled ctx t
unfolding movement settled settlement_legs
movement-settlement_legs ctx processor_clearing = omega int_laws
movement-settlement_legs ctx _ = omega int_laws

module _ (ctx : PostingContext) (named : is_blank ctx.currency ≡ false)
    (charged : pos 1 ≤ℤ ctx.fee_minor) where
  -- A settled line of a positive fee, in a currency that is not blank, is posted; it debits the three
  -- expenses with the parts of the fee and credits the clearing account with the fee, and the parts
  -- sum to it.
  pub build_settlement-settled :
      (out : List PostingLine) × (build_settlement ctx ≡ ok out)
      × ((t : AccountType) → movement t out ≡ settled ctx t)
      × (interchange_part ctx +ℤ scheme_part ctx +ℤ markup_part ctx ≡ ctx.fee_minor)
  unfolding build_settlement settlement_legs side_total
  build_settlement-settled =
      let split = parts_split ctx charged in
      let test : leb_ℤ ctx.fee_minor (pos 0) ≡ false = ground arith in
      let (out, accepted, moves) =
        built_moves ctx (settlement_legs ctx) named (omega arith)
          (omega (int_laws, parts_of split.whole)) (omega (int_laws, parts_of split.whole)) in
      (out, rw test accepted, λ t. moves t ∙ movement-settlement_legs ctx t, split.whole)
