-- ===== src/Posting/Built.antt =====
-- `_built` of app/domain/postings.py, which drops the zero legs.
use payzeno_ledger.Prelude.{
  ◌≤◌, ◌≡◌, refl, Bool, true, false, List, [], ◌∷◌, keep, length, All, arith, if◌then◌else◌, inl,
  inr, Bool-cases,
}
use payzeno_ledger.Prelude.Int.{ℤ, pos, ◌+ℤ◌, ◌≤ℤ◌, parts_of, int_laws}
use payzeno_ledger.Errors.{Error, Result, ok, err, ◌>>◌, raise_if}
use payzeno_ledger.Chart.{AccountType, Direction, debit, credit, same_direction}
use payzeno_ledger.Posting.{
  PostingContext, PostingLine, validate, signed, is_nonzero, is_blank, built, debit_line,
  credit_line,
}
use payzeno_ledger.Posting.Balance.{side_total, IsBalanced, validate_iff, movement}

abbrev pub IsNonneg : PostingLine → Type 0
IsNonneg l = pos 0 ≤ℤ l.amount_minor

zero_amount : (l : PostingLine) → is_nonzero l ≡ false → l.amount_minor ≡ pos 0
zero_amount l h = ground arith

zero_+ : (b : Bool) (a x : ℤ) → a ≡ pos 0 → (if b then a else pos 0) +ℤ x ≡ x
zero_+ true a x e = rw e (omega int_laws)
zero_+ false a x e = omega int_laws

signed_zero : (d : Direction) (a : ℤ) → a ≡ pos 0 → signed d a ≡ pos 0
signed_zero debit a e = e
signed_zero credit a e = rw e (omega int_laws)

pub side_total-keep :
    (d : Direction) (lines : List PostingLine)
    → side_total d (keep is_nonzero lines) ≡ side_total d lines
unfolding side_total keep
side_total-keep d [] = refl
side_total-keep d (l ∷ ls) = elim (Bool-cases (is_nonzero l)) [
  | inl e ↦ rw (e, side_total-keep d ls) refl
  | inr e ↦ rw (e, side_total-keep d ls, zero_+ _ _ _ (zero_amount l e)) refl
]

pub movement-keep :
    (t : AccountType) (lines : List PostingLine)
    → movement t (keep is_nonzero lines) ≡ movement t lines
unfolding movement keep
movement-keep t [] = refl
movement-keep t (l ∷ ls) = elim (Bool-cases (is_nonzero l)) [
  | inl e ↦ rw (e, movement-keep t ls) refl
  | inr e ↦
      rw (e, movement-keep t ls, zero_+ _ _ _ (signed_zero l.direction _ (zero_amount l e))) refl
]

positive-keep :
    (lines : List PostingLine)
    → All IsNonneg lines
    → All (λ (l : PostingLine). pos 1 ≤ℤ l.amount_minor) (keep is_nonzero lines)
unfolding keep
positive-keep [] h = tt
positive-keep (l ∷ ls) h = elim (Bool-cases (is_nonzero l)) [
  | inl e ↦ let p : pos 1 ≤ℤ l.amount_minor = ground arith in rw e (p, positive-keep ls h.1)
  | inr e ↦ rw e (positive-keep ls h.1)
]

-- A single leg cannot balance.
one_leg :
    (d : Direction) (a : ℤ)
    → pos 1 ≤ℤ a
    → (if same_direction d debit then a else pos 0) +ℤ pos 0
      ≡ (if same_direction d credit then a else pos 0) +ℤ pos 0
    → ⊥
one_leg debit a p e = omega (int_laws, parts_of e)
one_leg credit a p e = omega (int_laws, parts_of e)

two_legs_of :
    (lines : List PostingLine)
    → All (λ (l : PostingLine). pos 1 ≤ℤ l.amount_minor) lines
    → side_total debit lines ≡ side_total credit lines
    → pos 1 ≤ℤ side_total debit lines
    → 2 ≤ length lines
unfolding side_total
two_legs_of [] p e h = absurd (omega arith)
two_legs_of (l ∷ []) p e h = absurd (one_leg l.direction l.amount_minor p.0 e)
two_legs_of (l ∷ m ∷ ls) p e h = omega arith

built_do :
    (v : Result (Unit {0})) (blank : Bool) (kept out : List PostingLine) (e : Error)
    → (v >> (raise_if blank e >> ok kept)) ≡ ok out
    → (v ≡ ok tt) × (kept ≡ out)
built_do (ok u) true kept out e h = cc
built_do (ok u) false kept out e h = (refl, ground arith)
built_do (err x) blank kept out e h = cc

-- Whatever a rule's legs were, the legs that it returns are balanced.
pub built-IsBalanced :
    (ctx : PostingContext) (lines : List PostingLine) {out : List PostingLine}
    → built ctx lines ≡ ok out
    → IsBalanced out
unfolding built
built-IsBalanced ctx lines {out} h =
    let (valid, same) = built_do (validate kept) (is_blank ctx.currency) kept out _ h in
    rw (← same) ((validate_iff kept).0 valid)
  where
    kept : List PostingLine
    kept = keep is_nonzero lines

-- The legs that are dropped move nothing.
pub built-moves_same :
    (ctx : PostingContext) (lines : List PostingLine) {out : List PostingLine}
    → built ctx lines ≡ ok out
    → (t : AccountType) → movement t out ≡ movement t lines
unfolding built
built-moves_same ctx lines {out} h t =
    let (_, same) = built_do (validate (keep is_nonzero lines)) (is_blank ctx.currency) _ out _ h in
    rw (← same) (movement-keep t lines)

-- Legs that are not negative, whose sides are equal and not zero, are accepted.
pub built_lem :
    (ctx : PostingContext) (lines : List PostingLine)
    → is_blank ctx.currency ≡ false
    → All IsNonneg lines
    → side_total debit lines ≡ side_total credit lines
    → pos 1 ≤ℤ side_total debit lines
    → built ctx lines ≡ ok (keep is_nonzero lines)
unfolding built
built_lem ctx lines named nonneg equal some_amount =
    rw ((validate_iff (keep is_nonzero lines)).1 balanced, named)
  where
    equal' : side_total debit (keep is_nonzero lines) ≡ side_total credit (keep is_nonzero lines)
    equal' = rw (side_total-keep, side_total-keep) equal

    balanced : IsBalanced (keep is_nonzero lines)
    balanced = record {
      two_legs =
          two_legs_of (keep is_nonzero lines) (positive-keep lines nonneg) equal'
            (rw side_total-keep some_amount);
      positive = positive-keep lines nonneg;
      equal_sides = equal';
    }

-- The same with the movement of what is accepted.
pub built_moves :
    (ctx : PostingContext) (lines : List PostingLine)
    → is_blank ctx.currency ≡ false
    → All IsNonneg lines
    → side_total debit lines ≡ side_total credit lines
    → pos 1 ≤ℤ side_total debit lines
    → (out : List PostingLine) × (built ctx lines ≡ ok out)
      × ((t : AccountType) → movement t out ≡ movement t lines)
built_moves ctx lines named nonneg equal some_amount = (
  keep is_nonzero lines,
  built_lem ctx lines named nonneg equal some_amount,
  λ t. movement-keep t lines,
)

-- The common case: one debit and one credit of a positive amount.
pub built_pair :
    (ctx : PostingContext) (a b : AccountType) (x : ℤ)
    → is_blank ctx.currency ≡ false
    → pos 1 ≤ℤ x
    → (out : List PostingLine) × (built ctx (debit_line a x ∷ credit_line b x ∷ []) ≡ ok out)
      × ((t : AccountType) → movement t out ≡ movement t (debit_line a x ∷ credit_line b x ∷ []))
unfolding side_total
built_pair ctx a b x named h =
    built_moves ctx _ named (omega arith) (omega int_laws) (omega int_laws)

keep-All :
    (lines : List PostingLine)
    → All (λ (l : PostingLine). pos 1 ≤ℤ l.amount_minor) lines
    → keep is_nonzero lines ≡ lines
unfolding keep
keep-All [] h = refl
keep-All (l ∷ ls) h =
    let nonzero : is_nonzero l ≡ true = ground arith in rw (nonzero, keep-All ls h.1) refl

-- Legs that are balanced already come back as they are.
pub built_balanced :
    (ctx : PostingContext) (lines : List PostingLine)
    → is_blank ctx.currency ≡ false
    → IsBalanced lines
    → built ctx lines ≡ ok lines
unfolding built
built_balanced ctx lines named b =
    rw (keep-All lines b.positive, (validate_iff lines).1 b, named) refl
