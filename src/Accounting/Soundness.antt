-- ===== src/Accounting/Soundness.antt =====
-- The legs that the rules of app/domain/rules/ return, against the double-entry invariants.
use payzeno_ledger.Prelude.{Bool, true, false, ◌≡◌, List, [], ◌∷◌, ◌||◌, not}
use payzeno_ledger.Prelude.Int.{pos, ◌+ℤ◌, eqb_ℤ, leb_ℤ, ltb_ℤ}
use payzeno_ledger.Errors.{Error, Result, ok, ◌>>◌, >>=-eq-ok, raise_if}
use payzeno_ledger.Money.{Contracts, make_money, apply_bps}
use payzeno_ledger.Fees.{compute_platform_fee}
use payzeno_ledger.Posting.{PostingContext, PostingLine}
use payzeno_ledger.Posting.Balance.{IsBalanced}
use payzeno_ledger.Posting.Built.{built-IsBalanced}
use payzeno_ledger.Rules.{PostingRule, build}
use payzeno_ledger.Rules.Sale.{
  build_auth, build_auth_release, build_capture, build_settlement, build_settlement_funding,
  build_settlement_refund,
}
use payzeno_ledger.Rules.Corrections.{
  build_reversal, build_adjustment, build_adjustment_line, build_refund,
}
use payzeno_ledger.Rules.Disputes.{build_dispute, build_chargeback, build_chargeback_reversal}
use payzeno_ledger.Rules.Charges.{build_fee, build_scheme_fee}
use payzeno_ledger.Rules.Payouts.{
  build_payout, build_payout_reversal, build_fx_payout_source, build_fx_payout_target,
  build_reserve_hold, build_reserve_release,
}

pub past {ℓ} :
    {A : Type ℓ} (b : Bool) (e : Error) {m : Result A} {x : A}
    → (raise_if b e >> m) ≡ ok x
    → m ≡ ok x
past true e h = cc
past false e h = h

capture-IsBalanced :
    (c : Contracts) (ctx : PostingContext) {out : List PostingLine}
    → build_capture c ctx ≡ ok out
    → IsBalanced out
unfolding build_capture
capture-IsBalanced c ctx h =
    let (gross, _, h1) = >>=-eq-ok (make_money c ctx.gross_minor ctx.currency) _ h in
    let (markup, _, h2) =
      >>=-eq-ok (compute_platform_fee c gross ctx.platform_fee_bps ctx.platform_fee_fixed_minor) _
        h1 in
    let (held, _, h3) = >>=-eq-ok (apply_bps c gross ctx.reserve_bps) _ h2 in
    built-IsBalanced ctx _ (past _ _ h3)

-- Every rule returns a list of at least two legs, all positive, with equal sides, or it raises.
pub build-IsBalanced :
    (c : Contracts) (rule : PostingRule) (ctx : PostingContext) {out : List PostingLine}
    → build c rule ctx ≡ ok out
    → IsBalanced out
unfolding build build_auth build_auth_release build_settlement build_settlement_funding
    build_settlement_refund build_reversal build_adjustment build_adjustment_line build_refund
    build_dispute build_chargeback build_chargeback_reversal build_fee build_scheme_fee build_payout
    build_payout_reversal build_fx_payout_source build_fx_payout_target build_reserve_hold
    build_reserve_release
build-IsBalanced c PostingRule.auth ctx h = built-IsBalanced ctx _ h
build-IsBalanced c PostingRule.auth_release ctx h = built-IsBalanced ctx _ h
build-IsBalanced c PostingRule.capture ctx h = capture-IsBalanced c ctx h
build-IsBalanced c PostingRule.settlement ctx h = built-IsBalanced ctx _ (past _ _ h)
build-IsBalanced c PostingRule.settlement_funding ctx h = built-IsBalanced ctx _ h
build-IsBalanced c PostingRule.settlement_refund ctx h = built-IsBalanced ctx _ h
build-IsBalanced c (PostingRule.reversal []) ctx h = cc
build-IsBalanced c (PostingRule.reversal (l ∷ ls)) ctx h = built-IsBalanced ctx _ h
build-IsBalanced c (PostingRule.adjustment []) ctx h = cc
build-IsBalanced c (PostingRule.adjustment (l ∷ ls)) ctx h = built-IsBalanced ctx _ h
build-IsBalanced c PostingRule.adjustment_line ctx h = built-IsBalanced ctx _ (past _ _ h)
build-IsBalanced c (PostingRule.refund settled) ctx h = built-IsBalanced ctx _ (past _ _ h)
build-IsBalanced c PostingRule.dispute ctx h = built-IsBalanced ctx _ (past _ _ h)
build-IsBalanced c PostingRule.chargeback ctx h = built-IsBalanced ctx _ (past _ _ h)
build-IsBalanced c PostingRule.chargeback_reversal ctx h = built-IsBalanced ctx _ (past _ _ h)
build-IsBalanced c PostingRule.fee ctx h = built-IsBalanced ctx _ (past _ _ h)
build-IsBalanced c PostingRule.scheme_fee ctx h = built-IsBalanced ctx _ (past _ _ h)
build-IsBalanced c PostingRule.payout ctx h = built-IsBalanced ctx _ (past _ _ h)
build-IsBalanced c PostingRule.payout_reversal ctx h = built-IsBalanced ctx _ (past _ _ h)
build-IsBalanced c PostingRule.fx_payout_source ctx h = built-IsBalanced ctx _ (past _ _ h)
build-IsBalanced c PostingRule.fx_payout_target ctx h = built-IsBalanced ctx _ (
    past (not (eqb_ℤ ctx.gross_minor (ctx.net_minor +ℤ ctx.fee_minor))) _
      (past (leb_ℤ ctx.net_minor (pos 0) || ltb_ℤ ctx.fee_minor (pos 0)) _ h))
build-IsBalanced c PostingRule.reserve_hold ctx h = built-IsBalanced ctx _ (past _ _ h)
build-IsBalanced c PostingRule.reserve_release ctx h = built-IsBalanced ctx _ (past _ _ h)
