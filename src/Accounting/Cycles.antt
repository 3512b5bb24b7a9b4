-- ===== src/Accounting/Cycles.antt =====
-- Postings of app/domain/rules/ and their opposites: reversals, payouts and their return, the reserve;
-- and the bank side of a converted payout.
use payzeno_ledger.Prelude.{
  ◌≡◌, ◌≢◌, ◌∙◌, Bool, true, false, List, [], ◌∷◌, ◌++◌, arith, if◌then◌else◌,
}
use payzeno_ledger.Prelude.Int.{
  ℤ, pos, ◌+ℤ◌, neg_ℤ, ◌≤ℤ◌, leb_ℤ, eqb_ℤ, ltb_ℤ, abs_ℤ, eqb_ℤ_iff, int_laws, parts_of,
}
use payzeno_ledger.Errors.{ok}
use payzeno_ledger.Chart.{
  AccountType, same_type, cash, merchant_payable, fx_clearing, fx_revenue, reserve,
}
use payzeno_ledger.Posting.{PostingContext, PostingLine, debit_line, credit_line, is_blank}
use payzeno_ledger.Posting.Balance.{IsBalanced, side_total, movement, movement-append}
use payzeno_ledger.Posting.Built.{built_pair, built_moves, built_balanced}
use payzeno_ledger.Posting.Mirror.{mirrored, movement-mirrored, mirrored-IsBalanced}
use payzeno_ledger.Rules.Corrections.{build_reversal}
use payzeno_ledger.Rules.Payouts.{
  build_payout, build_payout_reversal, build_fx_payout_target, build_reserve_hold,
  build_reserve_release,
}

reversal_accepted :
    (ctx : PostingContext) (lines : List PostingLine)
    → is_blank ctx.currency ≡ false
    → IsBalanced lines
    → build_reversal lines ctx ≡ ok (mirrored lines)
unfolding build_reversal mirrored
reversal_accepted ctx [] named b = absurd (omega (arith, b.two_legs))
reversal_accepted ctx (l ∷ ls) named b =
    built_balanced ctx (mirrored (l ∷ ls)) named (mirrored-IsBalanced (l ∷ ls) b)

-- The reversal of balanced legs is accepted, and with them it moves nothing on any account.
pub build_reversal_undoes :
    (ctx : PostingContext) (lines : List PostingLine)
    → is_blank ctx.currency ≡ false
    → IsBalanced lines
    → (build_reversal lines ctx ≡ ok (mirrored lines))
      × ((t : AccountType) → movement t (lines ++ mirrored lines) ≡ pos 0)
build_reversal_undoes ctx lines named b = (
  reversal_accepted ctx lines named b,
  λ t. movement-append t lines (mirrored lines) ∙ movement-mirrored t lines,
)

-- One debit and one credit, and the same with the accounts swapped, move nothing.
abbrev pair : AccountType → AccountType → ℤ → List PostingLine
pair a b x = debit_line a x ∷ credit_line b x ∷ []

swapped_bits :
    (u v : Bool) (x : ℤ)
    → (if u then x else pos 0)
        +ℤ ((if v then neg_ℤ x else pos 0) +ℤ pos 0)
        +ℤ ((if v then x else pos 0) +ℤ ((if u then neg_ℤ x else pos 0) +ℤ pos 0))
      ≡ pos 0
swapped_bits true true x = omega int_laws
swapped_bits true false x = omega int_laws
swapped_bits false true x = omega int_laws
swapped_bits false false x = omega int_laws

swapped_cancel :
    (a b : AccountType) (x : ℤ) (t : AccountType)
    → movement t (pair a b x) +ℤ movement t (pair b a x) ≡ pos 0
unfolding movement
swapped_cancel a b x t = swapped_bits (same_type a t) (same_type b t) x

swapped_undo :
    (a b : AccountType) (x : ℤ) (p q : List PostingLine)
    → ((t : AccountType) → movement t p ≡ movement t (pair a b x))
    → ((t : AccountType) → movement t q ≡ movement t (pair b a x))
    → (t : AccountType) → movement t (p ++ q) ≡ pos 0
swapped_undo a b x p q mp mq t = movement-append t p q ∙ rw (mp t, mq t) (swapped_cancel a b x t)

abs_positive : (a : ℤ) → a ≢ pos 0 → (pos 1 ≤ℤ abs_ℤ a) × (eqb_ℤ (abs_ℤ a) (pos 0) ≡ false)
abs_positive a h = (ground arith, ground arith)

module _ (ctx : PostingContext) (named : is_blank ctx.currency ≡ false) where
  -- A payout draws the amount from the balance, and its return gives it back in full.
  pub build_payout_reversal_undoes :
      pos 1 ≤ℤ ctx.gross_minor
      → (paid returned : List PostingLine) × (build_payout ctx ≡ ok paid)
        × (build_payout_reversal ctx ≡ ok returned)
        × (movement merchant_payable paid ≡ ctx.gross_minor)
        × ((t : AccountType) → movement t (paid ++ returned) ≡ pos 0)
  unfolding build_payout build_payout_reversal movement
  build_payout_reversal_undoes some_amount =
      let test : leb_ℤ ctx.gross_minor (pos 0) ≡ false = ground arith in
      let (paid, p, mp) = built_pair ctx merchant_payable cash ctx.gross_minor named some_amount in
      let (returned, r, mr) =
        built_pair ctx cash merchant_payable ctx.gross_minor named some_amount in
      (
        paid,
        returned,
        rw test p,
        rw test r,
        mp merchant_payable ∙ omega int_laws,
        swapped_undo merchant_payable cash ctx.gross_minor paid returned mp mr,
      )

  -- Reserve that an acquirer holds back is given back in full when it is released.
  pub build_reserve_release_undoes :
      ctx.gross_minor ≢ pos 0
      → (holds releases : List PostingLine) × (build_reserve_hold ctx ≡ ok holds)
        × (build_reserve_release ctx ≡ ok releases)
        × (movement reserve holds ≡ neg_ℤ (abs_ℤ ctx.gross_minor))
        × ((t : AccountType) → movement t (holds ++ releases) ≡ pos 0)
  unfolding build_reserve_hold build_reserve_release movement
  build_reserve_release_undoes some_amount =
      let x = abs_ℤ ctx.gross_minor in
      let (positive, test) = abs_positive ctx.gross_minor some_amount in
      let (holds, h, mh) = built_pair ctx merchant_payable reserve x named positive in
      let (releases, r, mr) = built_pair ctx reserve merchant_payable x named positive in
      (
        holds,
        releases,
        rw test h,
        rw test r,
        mh reserve ∙ omega int_laws,
        swapped_undo merchant_payable reserve x holds releases mh mr,
      )

  -- The bank side of a converted payout is posted when the mid amount is the payout and the
  -- spread; it credits the payout to cash and the spread to revenue.
  pub build_fx_payout_target_posts :
      pos 1 ≤ℤ ctx.net_minor
      → pos 0 ≤ℤ ctx.fee_minor
      → ctx.gross_minor ≡ ctx.net_minor +ℤ ctx.fee_minor
      → (out : List PostingLine) × (build_fx_payout_target ctx ≡ ok out)
        × (movement fx_clearing out ≡ ctx.gross_minor)
        × (movement cash out ≡ neg_ℤ ctx.net_minor)
        × (movement fx_revenue out ≡ neg_ℤ ctx.fee_minor)
  unfolding build_fx_payout_target movement side_total
  build_fx_payout_target_posts paid spread whole =
      let low : leb_ℤ ctx.net_minor (pos 0) ≡ false = ground arith in
      let neg : ltb_ℤ ctx.fee_minor (pos 0) ≡ false = ground arith in
      let eq : eqb_ℤ ctx.gross_minor (ctx.net_minor +ℤ ctx.fee_minor) ≡ true =
        (eqb_ℤ_iff _ _).1 whole in
      let (out, accepted, moves) =
        built_moves ctx
          (debit_line fx_clearing ctx.gross_minor
            ∷ credit_line cash ctx.net_minor
            ∷ credit_line fx_revenue ctx.fee_minor
            ∷ [])
          named (omega (int_laws, parts_of whole)) (omega (int_laws, parts_of whole))
          (omega (int_laws, parts_of whole)) in
      (
        out,
        rw (low, neg, eq) accepted,
        moves fx_clearing ∙ omega int_laws,
        moves cash ∙ omega int_laws,
        moves fx_revenue ∙ omega int_laws,
      )
