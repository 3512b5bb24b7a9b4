-- ===== src/Keys.antt =====
-- app/domain/idempotency.py: the keys of postings. A key is kept as the three components that
-- `ledger_key` joins; Keys/Text shows that the joined text tells the components apart.
pub mod Text
use payzeno_ledger.Prelude.{
  ℕ, ◌≡◌, ◌↔◌, String, Bool, true, false, ◌&&◌, ◌==◌, str_eq, eq_iff, arith,
}

-- A component is an id, a text of the caller's, or a rate as `format_rate` (app/domain/fx.py)
-- prints it.
pub data KeyPart : Type 0 where
  id_part : ℕ → KeyPart
  text_part : String → KeyPart
  rate_part : ℕ → KeyPart

-- `ledger_key(purpose, scope_id, subject_id)`
pub record LedgerKey : Type 0 where
  pub purpose : String
  pub scope_id : KeyPart
  pub subject_id : KeyPart

abbrev pub ledger_key : String → KeyPart → KeyPart → LedgerKey
ledger_key purpose scope_id subject_id = record {
  purpose = purpose;
  scope_id = scope_id;
  subject_id = subject_id;
}

unfoldable same_part : KeyPart → KeyPart → Bool
same_part (id_part a) (id_part b) = a == b
same_part (text_part a) (text_part b) = str_eq a b
same_part (rate_part a) (rate_part b) = a == b
same_part (id_part a) (text_part b) = false
same_part (id_part a) (rate_part b) = false
same_part (text_part a) (id_part b) = false
same_part (text_part a) (rate_part b) = false
same_part (rate_part a) (id_part b) = false
same_part (rate_part a) (text_part b) = false

unfoldable pub same_key : LedgerKey → LedgerKey → Bool
unfolding same_part
same_key k l =
    str_eq k.purpose l.purpose
    && (same_part k.scope_id l.scope_id && same_part k.subject_id l.subject_id)

same_part_iff : (a b : KeyPart) → (same_part a b ≡ true) ↔ (a ≡ b)
unfolding same_part
same_part_iff (id_part a) (id_part b) = ground arith
same_part_iff (text_part a) (text_part b) = ground (arith, eq_iff a b)
same_part_iff (rate_part a) (rate_part b) = ground arith
same_part_iff (id_part a) (text_part b) = ground arith
same_part_iff (id_part a) (rate_part b) = ground arith
same_part_iff (text_part a) (id_part b) = ground arith
same_part_iff (text_part a) (rate_part b) = ground arith
same_part_iff (rate_part a) (id_part b) = ground arith
same_part_iff (rate_part a) (text_part b) = ground arith

pub same_key_iff : (k l : LedgerKey) → (same_key k l ≡ true) ↔ (k ≡ l)
unfolding same_key
same_key_iff k l = ground (
  arith,
  eq_iff k.purpose l.purpose,
  same_part_iff k.scope_id l.scope_id,
  same_part_iff k.subject_id l.subject_id,
)
