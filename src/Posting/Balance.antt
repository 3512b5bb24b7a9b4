-- ===== src/Posting/Balance.antt =====
-- The double-entry invariants of app/domain/postings.py, stated apart from the code that checks
-- them, and the movement that a list of legs makes on each account type.
use payzeno_ledger.Prelude.{
  ℕ, ◌≤◌, ◌≡◌, refl, ◌↔◌, List, [], ◌∷◌, ◌++◌, map, length, All, arith, if◌then◌else◌, not, ltb,
  ◌∙◌,
}
use payzeno_ledger.Prelude.Int.{ℤ, pos, ◌+ℤ◌, ◌≤ℤ◌, parts_of, int_laws, sum_ℤ, eqb_ℤ}
use payzeno_ledger.Errors.{Result, ok, err, ◌>>◌, raise_if, unbalanced_transaction}
use payzeno_ledger.Chart.{AccountType, Direction, debit, credit, same_direction, same_type}
use payzeno_ledger.Posting.{PostingLine, check_positive, validate, signed, signed_minor}

-- `sum(line.amount_minor for line in lines if line.direction == d)`
unfoldable pub side_total : Direction → List PostingLine → ℤ
side_total d [] = pos 0
side_total d (l ∷ ls) =
    (if same_direction l.direction d then l.amount_minor else pos 0) +ℤ side_total d ls

pub record IsBalanced (lines : List PostingLine) : Type 0 where
  pub two_legs : 2 ≤ length lines
  pub positive : All (λ (l : PostingLine). pos 1 ≤ℤ l.amount_minor) lines
  pub equal_sides : side_total debit lines ≡ side_total credit lines

abbrev on_side : Direction → Direction → ℤ → ℤ
on_side d e a = if same_direction e d then a else pos 0

signed_step :
    (d : Direction) (a s c b : ℤ)
    → s +ℤ c ≡ b
    → signed d a +ℤ s +ℤ (on_side credit d a +ℤ c) ≡ on_side debit d a +ℤ b
signed_step debit a s c b h = rw (← h) (omega int_laws)
signed_step credit a s c b h = rw (← h) (omega int_laws)

-- The signed sum that the code takes is the difference of the two sides.
pub signed_sum :
    (lines : List PostingLine)
    → sum_ℤ (map signed_minor lines) +ℤ side_total credit lines ≡ side_total debit lines
unfolding sum_ℤ side_total
signed_sum [] = omega int_laws
signed_sum (l ∷ ls) = signed_step l.direction l.amount_minor _ _ _ (signed_sum ls)

+ℤ_cancel : (s c : ℤ) → s +ℤ c ≡ c → s ≡ pos 0
+ℤ_cancel s c h = omega (int_laws, parts_of h)

zero_+ℤ : (s c d : ℤ) → s ≡ pos 0 → s +ℤ c ≡ d → d ≡ c
zero_+ℤ s c d e h = rw (← h, e) (omega int_laws)

check_positive_iff :
    (lines : List PostingLine)
    → (check_positive lines ≡ ok tt) ↔ All (λ (l : PostingLine). pos 1 ≤ℤ l.amount_minor) lines
unfolding check_positive
check_positive_iff [] = (λ h. tt, λ h. refl)
check_positive_iff (l ∷ ls) = ground (arith, check_positive_iff ls)

-- The three tests of `validate`, on their values.
tests_iff :
    (n : ℕ) (r : Result (Unit {0})) (s : ℤ)
    → ((raise_if (ltb n 2) unbalanced_transaction
          >> (r >> raise_if (not (eqb_ℤ s (pos 0))) unbalanced_transaction))
        ≡ ok tt)
      ↔ ((2 ≤ n) × (r ≡ ok tt) × (s ≡ pos 0))
tests_iff n (ok u) s = (λ h. ground arith, λ h. ground arith)
tests_iff n (err e) s = (λ h. ground arith, λ h. ground arith)

pub validate_iff : (lines : List PostingLine) → (validate lines ≡ ok tt) ↔ IsBalanced lines
unfolding validate
validate_iff lines = (
  λ h.
      let (two, checked, zero_sum) = tests.0 h in
      record {
        two_legs = two;
        positive = (check_positive_iff lines).0 checked;
        equal_sides = zero_+ℤ _ _ _ zero_sum (signed_sum lines);
      },
  λ b. tests.1 (
    b.two_legs,
    (check_positive_iff lines).1 b.positive,
    +ℤ_cancel _ _ (signed_sum lines ∙ b.equal_sides),
  ),
)
  where
    tests : (validate lines ≡ ok tt) ↔ (
        (2 ≤ length lines)
        × (check_positive lines ≡ ok tt)
        × (sum_ℤ (map signed_minor lines) ≡ pos 0))
    tests = tests_iff (length lines) (check_positive lines) (sum_ℤ (map signed_minor lines))

-- The debit-positive movement that the legs make on the accounts of one type.
unfoldable pub movement : AccountType → List PostingLine → ℤ
movement t [] = pos 0
movement t (l ∷ ls) =
    (if same_type l.account_type t then signed_minor l else pos 0) +ℤ movement t ls

pub movement-append :
    (t : AccountType) (xs ys : List PostingLine)
    → movement t (xs ++ ys) ≡ movement t xs +ℤ movement t ys
unfolding movement
movement-append t [] ys = omega int_laws
movement-append t (x ∷ xs) ys = rw (movement-append t xs ys) (omega int_laws)
