-- ===== src/Rules.antt =====
-- The posting rules: the classes of app/domain/rules/ as one data type, and the two registries of
-- app/domain/postings.py.
pub mod Sale
pub mod Corrections
pub mod Disputes
pub mod Charges
pub mod Payouts
use payzeno_ledger.Prelude.{Bool, true, false, List, [], ◌∷◌, Option, some, none}
use payzeno_ledger.Errors.{Result}
use payzeno_ledger.Money.{Contracts}
use payzeno_ledger.Posting.{PostingContext, PostingLine}
use Sale.{
  build_auth, build_auth_release, build_capture, build_settlement, build_settlement_funding,
  build_settlement_refund,
}
use Corrections.{build_reversal, build_adjustment, build_adjustment_line, build_refund}
use Disputes.{build_dispute, build_chargeback, build_chargeback_reversal}
use Charges.{build_fee, build_scheme_fee}
use Payouts.{
  build_payout, build_payout_reversal, build_fx_payout_source, build_fx_payout_target,
  build_reserve_hold, build_reserve_release,
}

pub data LedgerPurpose : Type 0 where
  auth auth_release capture settle settlement_funding fee refund dispute : LedgerPurpose
  reserve_release payout payout_reversal reversal adjustment : LedgerPurpose

pub data LineType : Type 0 where
  sale refund chargeback chargeback_reversal scheme_fee adjustment : LineType
  reserve_hold reserve_release : LineType

-- A constructor is a concrete class, with what its instance holds.
pub data PostingRule : Type 0 where
  auth auth_release capture settlement settlement_funding settlement_refund : PostingRule
  reversal adjustment : List PostingLine → PostingRule
  adjustment_line : PostingRule
  refund : (settled : Bool) → PostingRule
  dispute chargeback chargeback_reversal fee scheme_fee : PostingRule
  payout payout_reversal fx_payout_source fx_payout_target : PostingRule
  reserve_hold reserve_release : PostingRule

-- `rule.build(ctx)`
unfoldable pub build : Contracts → PostingRule → PostingContext → Result (List PostingLine)
build c PostingRule.auth ctx = build_auth ctx
build c PostingRule.auth_release ctx = build_auth_release ctx
build c PostingRule.capture ctx = build_capture c ctx
build c PostingRule.settlement ctx = build_settlement ctx
build c PostingRule.settlement_funding ctx = build_settlement_funding ctx
build c PostingRule.settlement_refund ctx = build_settlement_refund ctx
build c (PostingRule.reversal original) ctx = build_reversal original ctx
build c (PostingRule.adjustment requested) ctx = build_adjustment requested ctx
build c PostingRule.adjustment_line ctx = build_adjustment_line ctx
build c (PostingRule.refund settled) ctx = build_refund settled ctx
build c PostingRule.dispute ctx = build_dispute ctx
build c PostingRule.chargeback ctx = build_chargeback ctx
build c PostingRule.chargeback_reversal ctx = build_chargeback_reversal ctx
build c PostingRule.fee ctx = build_fee ctx
build c PostingRule.scheme_fee ctx = build_scheme_fee ctx
build c PostingRule.payout ctx = build_payout ctx
build c PostingRule.payout_reversal ctx = build_payout_reversal ctx
build c PostingRule.fx_payout_source ctx = build_fx_payout_source ctx
build c PostingRule.fx_payout_target ctx = build_fx_payout_target ctx
build c PostingRule.reserve_hold ctx = build_reserve_hold ctx
build c PostingRule.reserve_release ctx = build_reserve_release ctx

-- The class attribute `purpose`
abbrev pub purpose_of : PostingRule → LedgerPurpose
purpose_of PostingRule.auth = LedgerPurpose.auth
purpose_of PostingRule.auth_release = LedgerPurpose.auth_release
purpose_of PostingRule.capture = LedgerPurpose.capture
purpose_of PostingRule.settlement = LedgerPurpose.settle
purpose_of PostingRule.settlement_funding = LedgerPurpose.settlement_funding
purpose_of PostingRule.settlement_refund = LedgerPurpose.refund
purpose_of (PostingRule.reversal _) = LedgerPurpose.reversal
purpose_of (PostingRule.adjustment _) = LedgerPurpose.adjustment
purpose_of PostingRule.adjustment_line = LedgerPurpose.adjustment
purpose_of (PostingRule.refund _) = LedgerPurpose.refund
purpose_of PostingRule.dispute = LedgerPurpose.dispute
purpose_of PostingRule.chargeback = LedgerPurpose.dispute
purpose_of PostingRule.chargeback_reversal = LedgerPurpose.dispute
purpose_of PostingRule.fee = LedgerPurpose.fee
purpose_of PostingRule.scheme_fee = LedgerPurpose.fee
purpose_of PostingRule.payout = LedgerPurpose.payout
purpose_of PostingRule.payout_reversal = LedgerPurpose.payout_reversal
purpose_of PostingRule.fx_payout_source = LedgerPurpose.payout
purpose_of PostingRule.fx_payout_target = LedgerPurpose.payout
purpose_of PostingRule.reserve_hold = LedgerPurpose.reserve_release
purpose_of PostingRule.reserve_release = LedgerPurpose.reserve_release

-- `POSTING_RULE_BY_PURPOSE`
abbrev pub posting_rule_by_purpose : LedgerPurpose → PostingRule
posting_rule_by_purpose LedgerPurpose.auth = PostingRule.auth
posting_rule_by_purpose LedgerPurpose.auth_release = PostingRule.auth_release
posting_rule_by_purpose LedgerPurpose.capture = PostingRule.capture
posting_rule_by_purpose LedgerPurpose.settle = PostingRule.settlement
posting_rule_by_purpose LedgerPurpose.settlement_funding = PostingRule.settlement_funding
posting_rule_by_purpose LedgerPurpose.fee = PostingRule.fee
posting_rule_by_purpose LedgerPurpose.refund = PostingRule.refund false
posting_rule_by_purpose LedgerPurpose.dispute = PostingRule.dispute
posting_rule_by_purpose LedgerPurpose.reserve_release = PostingRule.reserve_release
posting_rule_by_purpose LedgerPurpose.payout = PostingRule.payout
posting_rule_by_purpose LedgerPurpose.payout_reversal = PostingRule.payout_reversal
posting_rule_by_purpose LedgerPurpose.reversal = PostingRule.reversal []
posting_rule_by_purpose LedgerPurpose.adjustment = PostingRule.adjustment []

-- `POSTING_RULE_BY_LINE_TYPE`
abbrev pub posting_rule_by_line_type : LineType → PostingRule
posting_rule_by_line_type LineType.sale = posting_rule_by_purpose LedgerPurpose.settle
posting_rule_by_line_type LineType.refund = PostingRule.settlement_refund
posting_rule_by_line_type LineType.chargeback = PostingRule.chargeback
posting_rule_by_line_type LineType.chargeback_reversal = PostingRule.chargeback_reversal
posting_rule_by_line_type LineType.scheme_fee = PostingRule.scheme_fee
posting_rule_by_line_type LineType.adjustment = PostingRule.adjustment_line
posting_rule_by_line_type LineType.reserve_hold = PostingRule.reserve_hold
posting_rule_by_line_type LineType.reserve_release =
    posting_rule_by_purpose LedgerPurpose.reserve_release
