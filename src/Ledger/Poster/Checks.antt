-- ===== src/Ledger/Poster/Checks.antt =====
-- `_assert_invariants` of app/services/transactions.py against the invariants themselves and
-- against `PostingRule.validate` (app/domain/postings.py), which tests them a second time.
use payzeno_ledger.Prelude.{
  ℕ, ◌≤◌, ◌≡◌, refl, ◌↔◌, List, [], ◌∷◌, length, All, arith, ltb, not, if◌then◌else◌,
}
use payzeno_ledger.Prelude.Int.{ℤ, pos, ◌≤ℤ◌, eqb_ℤ, eqb_ℤ_iff}
use payzeno_ledger.Errors.{Result, ok, err, unbalanced_transaction}
use payzeno_ledger.Chart.{debit, credit}
use payzeno_ledger.Posting.{PostingLine, validate}
use payzeno_ledger.Posting.Balance.{side_total, IsBalanced, validate_iff}
use payzeno_ledger.Ledger.Poster.{check_lines, assert_invariants}

check_lines_iff :
    (lines : List PostingLine)
    → (check_lines lines ≡ ok tt) ↔ All (λ (l : PostingLine). pos 1 ≤ℤ l.amount_minor) lines
unfolding check_lines
check_lines_iff [] = (λ h. tt, λ h. refl)
check_lines_iff (l ∷ ls) = ground (arith, check_lines_iff ls)

tests_iff :
    (n : ℕ) (d c : ℤ) (r : Result (Unit {0}))
    → ((if ltb n 2
          then err unbalanced_transaction
          else if not (eqb_ℤ d c)
          then err unbalanced_transaction
          else r)
        ≡ ok tt)
      ↔ ((2 ≤ n) × (d ≡ c) × (r ≡ ok tt))
tests_iff n d c r = (λ h. ground (arith, eqb_ℤ_iff d c), λ h. ground (arith, eqb_ℤ_iff d c))

-- `_assert_invariants` accepts just the lists of legs that are balanced.
pub assert_invariants_iff :
    (lines : List PostingLine) → (assert_invariants lines ≡ ok tt) ↔ IsBalanced lines
unfolding assert_invariants
assert_invariants_iff lines = (
  λ h.
      let (two, sides, checked) = tests.0 h in
      record { two_legs = two; positive = (check_lines_iff lines).0 checked; equal_sides = sides },
  λ b. tests.1 (b.two_legs, b.equal_sides, (check_lines_iff lines).1 b.positive),
)
  where
    tests : (assert_invariants lines ≡ ok tt) ↔ (
        (2 ≤ length lines)
        × (side_total debit lines ≡ side_total credit lines)
        × (check_lines lines ≡ ok tt))
    tests = tests_iff (length lines) _ _ (check_lines lines)

-- The poster and the rules, which test in different orders, accept the same legs.
pub assert_invariants_iff-validate :
    (lines : List PostingLine) → (assert_invariants lines ≡ ok tt) ↔ (validate lines ≡ ok tt)
assert_invariants_iff-validate lines = (
  λ h. (validate_iff lines).1 ((assert_invariants_iff lines).0 h),
  λ h. (assert_invariants_iff lines).1 ((validate_iff lines).0 h),
)
