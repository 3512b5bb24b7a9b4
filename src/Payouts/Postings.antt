-- ===== src/Payouts/Postings.antt =====
-- The ledger transactions of a payout in app/services/payouts.py: the payout and its reversal, in
-- one currency or through the clearing account in two.
use payzeno_ledger.Prelude.{ℕ, String, Option, none, some, List, [], ◌∷◌}
use payzeno_ledger.Prelude.Int.{ℤ, pos, ◌+ℤ◌}
use payzeno_ledger.Errors.{Result}
use payzeno_ledger.Chart.{merchant_payable, cash}
use payzeno_ledger.Posting.{PostingContext, PostingLine, debit_line, credit_line}
use payzeno_ledger.Posting.Mirror.{mirrored}
use payzeno_ledger.Rules.{LedgerPurpose}
use payzeno_ledger.Rules.Payouts.{build_fx_payout_source, build_fx_payout_target}
use payzeno_ledger.Fx.{FxConversion, spread_minor}
use payzeno_ledger.Keys.{LedgerKey, ledger_key, id_part, text_part, rate_part}
use payzeno_ledger.Payout.{Payout, PayoutSource, balance_currency}
use payzeno_ledger.Ledger.{Action, pure, lift, ◌>>=◌}
use payzeno_ledger.Ledger.Poster.{Request, raise_error, post}
use payzeno_ledger.Payouts.{PayoutSettings}

-- `_fx_context`
unfoldable pub fx_context : Payout → String → (gross net fee : ℤ) → PostingContext
fx_context payout currency gross net fee = record {
  merchant_id = some payout.merchant_id;
  currency = currency;
  livemode = payout.livemode;
  gross_minor = gross;
  fee_minor = fee;
  net_minor = net;
  interchange_minor = pos 0;
  scheme_fee_minor = pos 0;
  reserve_bps = pos 0;
  platform_fee_bps = pos 0;
  platform_fee_fixed_minor = pos 0;
}

-- `_fx_source_lines`
unfoldable pub fx_source_lines : Payout → ℤ → Result (List PostingLine)
fx_source_lines payout source_minor =
    build_fx_payout_source
      (fx_context payout (balance_currency payout) source_minor source_minor (pos 0))

-- `_fx_target_lines`
unfoldable pub fx_target_lines :
    Payout → (mid_minor payout_minor spread : ℤ) → Result (List PostingLine)
fx_target_lines payout mid_minor payout_minor spread =
    build_fx_payout_target (fx_context payout payout.currency mid_minor payout_minor spread)

-- The arguments that every posting of a payout has in common.
unfoldable pub payout_request :
    Payout → LedgerPurpose → LedgerKey → String → ℕ → List PostingLine → Request
payout_request payout purpose key currency fingerprint lines = record {
  idempotency_key = key;
  purpose = purpose;
  merchant_id = some payout.merchant_id;
  currency = currency;
  livemode = payout.livemode;
  reference_type = "payout";
  reference_id = payout.id;
  lines = lines;
  created_by = "system";
  request_fingerprint = fingerprint;
  on_conflict = raise_error;
}

-- `ledger_key(purpose, payout.merchant_id, payout.id)`
abbrev pub payout_key : String → Payout → LedgerKey
payout_key purpose payout = ledger_key purpose (id_part payout.merchant_id) (id_part payout.id)

abbrev pub payout_lines : ℤ → List PostingLine
payout_lines amount_minor =
    debit_line merchant_payable amount_minor ∷ credit_line cash amount_minor ∷ []

abbrev pub reversal_lines : ℤ → List PostingLine
reversal_lines amount_minor =
    debit_line cash amount_minor ∷ credit_line merchant_payable amount_minor ∷ []

module _ (svc : PayoutSettings) where
  -- The id of the transaction that a posting of a payout writes.
  unfoldable pub post_for_payout :
      Payout → LedgerPurpose → LedgerKey → String → LedgerKey → List PostingLine → Action ℕ
  post_for_payout payout purpose key currency fingerprint lines = do
    posted ← post (payout_request payout purpose key currency (svc.sha256_of fingerprint) lines)
    pure posted.transaction.id

  -- `_post_payout`
  unfoldable pub post_payout : Payout → Action ℕ
  post_payout payout =
      post_for_payout payout LedgerPurpose.payout (payout_key "payout" payout) payout.currency
        (payout_key "payoutfp" payout) (payout_lines payout.amount_minor)

  -- `_post_converted_payout`
  unfoldable pub post_converted_payout : Payout → FxConversion → Action ℕ
  post_converted_payout payout conversion = do
    source_lines ← lift (fx_source_lines payout conversion.source.amount_minor)
    target_lines ← lift (
        fx_target_lines payout conversion.mid_target_minor conversion.target.amount_minor
          (spread_minor conversion))
    source ←
        post_for_payout payout LedgerPurpose.payout (payout_key "payout" payout)
          conversion.source.currency (payout_key "payoutfp" payout) source_lines
    target ←
        post_for_payout payout LedgerPurpose.payout (payout_key "payoutfx" payout)
          conversion.target.currency
          (ledger_key "payoutfxfp" (id_part payout.id) (rate_part conversion.rate)) target_lines
    pure source

  -- `_reverse_converted_payout`
  unfoldable pub reverse_converted_payout : Payout → PayoutSource → String → Action ℕ
  reverse_converted_payout payout source reason = do
    target_lines ← lift (
        fx_target_lines payout (payout.amount_minor +ℤ source.fx_spread_minor) payout.amount_minor
          source.fx_spread_minor)
    target ←
        post_for_payout payout LedgerPurpose.payout_reversal (payout_key "payoutfxrev" payout)
          payout.currency (ledger_key "payoutfxrevfp" (id_part payout.id) (text_part reason))
          (mirrored target_lines)
    source_lines ← lift (fx_source_lines payout source.source_amount_minor)
    post_for_payout payout LedgerPurpose.payout_reversal (payout_key "payoutrev" payout)
        source.source_currency (ledger_key "payoutrevfp" (id_part payout.id) (text_part reason))
        (mirrored source_lines)

  -- The plain branch of `_reverse_payout_posting`
  unfoldable pub reverse_plain_payout : Payout → String → Action ℕ
  reverse_plain_payout payout reason =
      post_for_payout payout LedgerPurpose.payout_reversal (payout_key "payoutrev" payout)
        payout.currency (ledger_key "payoutrevfp" (id_part payout.id) (text_part reason))
        (reversal_lines payout.amount_minor)

  abbrev pub reverse_by_source : Payout → String → Option PayoutSource → Action ℕ
  reverse_by_source payout reason none = reverse_plain_payout payout reason
  reverse_by_source payout reason (some source) = reverse_converted_payout payout source reason

  -- `_reverse_payout_posting`
  unfoldable pub reverse_payout_posting : Payout → String → Action ℕ
  reverse_payout_posting payout reason = reverse_by_source payout reason payout.source
