-- ===== src/Posting.antt =====
-- app/domain/postings.py: the legs of a transaction, and the checks that every rule ends with.
pub mod Balance
pub mod Built
pub mod Mirror
use payzeno_ledger.Prelude.{
  ℕ, String, Bool, true, false, not, ◌&&◌, ◌||◌, Option, List, [], ◌∷◌, map, keep, length, ltb, leb,
  ◌==◌,
}
use payzeno_ledger.Prelude.Int.{ℤ, pos, neg_ℤ, sum_ℤ, leb_ℤ, eqb_ℤ}
use payzeno_ledger.Errors.{
  Result, ok, err, ◌>>=◌, ◌>>◌, raise_if, validation, unbalanced_transaction, negative_amount,
  context_without_currency,
}
use payzeno_ledger.Chart.{AccountType, Direction, debit, credit}
use Prim.Native.String.{String as Text}
use Prim.Native.Char.{code}

pub record PostingContext : Type 0 where
  pub merchant_id : Option ℕ
  pub currency : String
  pub livemode : Bool
  pub gross_minor : ℤ
  pub fee_minor : ℤ
  pub net_minor : ℤ
  pub interchange_minor : ℤ
  pub scheme_fee_minor : ℤ
  pub reserve_bps : ℤ
  pub platform_fee_bps : ℤ
  pub platform_fee_fixed_minor : ℤ

pub record PostingLine : Type 0 where
  pub account_type : AccountType
  pub direction : Direction
  pub amount_minor : ℤ

-- `debit(account_type, amount_minor)`
abbrev pub debit_line : AccountType → ℤ → PostingLine
debit_line t a = record { account_type = t; direction = debit; amount_minor = a }

-- `credit(account_type, amount_minor)`
abbrev pub credit_line : AccountType → ℤ → PostingLine
credit_line t a = record { account_type = t; direction = credit; amount_minor = a }

-- `amount if direction == "debit" else -amount`
abbrev pub signed : Direction → ℤ → ℤ
signed debit a = a
signed credit a = neg_ℤ a

abbrev pub signed_minor : PostingLine → ℤ
signed_minor l = signed l.direction l.amount_minor

-- The loop that refuses an amount of zero or less.
unfoldable pub check_positive : List PostingLine → Result (Unit {0})
check_positive [] = ok tt
check_positive (l ∷ ls) = do
  raise_if (leb_ℤ l.amount_minor (pos 0)) negative_amount
  check_positive ls

unfoldable pub validate : List PostingLine → Result (Unit {0})
validate lines = do
  raise_if (ltb (length lines) 2) unbalanced_transaction
  check_positive lines
  raise_if (not (eqb_ℤ (sum_ℤ (map signed_minor lines)) (pos 0))) unbalanced_transaction

-- What `str.strip` takes off: the code points that `str.isspace` accepts.
unfoldable pub is_space : ℕ → Bool
is_space c =
    leb 9 c && leb c 13
    || leb 28 c && leb c 32
    || c == 133
    || c == 160
    || c == 5760
    || leb 8192 c && leb c 8202
    || c == 8232
    || c == 8233
    || c == 8239
    || c == 8287
    || c == 12288

unfoldable pub strips_to_nothing : Text → Bool
unfolding is_space
strips_to_nothing Text.[] = true
strips_to_nothing (Text.◌∷◌ c s) = is_space (code c) && strips_to_nothing s

-- `currency and not currency.strip()`
unfoldable pub is_blank : Text → Bool
unfolding strips_to_nothing
is_blank Text.[] = false
is_blank (Text.◌∷◌ c s) = is_space (code c) && strips_to_nothing s

abbrev pub is_nonzero : PostingLine → Bool
is_nonzero l = not (eqb_ℤ l.amount_minor (pos 0))

-- `PostingRule._built`
unfoldable pub built : PostingContext → List PostingLine → Result (List PostingLine)
built ctx lines =
    let kept = keep is_nonzero lines in
    do
      validate kept
      raise_if (is_blank ctx.currency) (validation context_without_currency)
      ok kept
