-- ===== src/Posting/Mirror.antt =====
-- `mirrored` of app/domain/rules/payouts.py, the shape of every reversal.
use payzeno_ledger.Prelude.{
  ◌≡◌, refl, sym, Bool, true, false, List, [], ◌∷◌, map, length-map, All, if◌then◌else◌,
}
use payzeno_ledger.Prelude.Int.{ℤ, pos, ◌+ℤ◌, neg_ℤ, ◌≤ℤ◌, parts_of, int_laws}
use payzeno_ledger.Chart.{AccountType, Direction, debit, credit, same_direction}
use payzeno_ledger.Posting.{PostingLine, signed}
use payzeno_ledger.Posting.Balance.{side_total, IsBalanced, movement}

-- `"credit" if direction == "debit" else "debit"`
abbrev pub flip : Direction → Direction
flip debit = credit
flip credit = debit

abbrev pub flip_line : PostingLine → PostingLine
flip_line l = record l { direction = flip l.direction }

unfoldable pub mirrored : List PostingLine → List PostingLine
mirrored lines = map flip_line lines

flip-flip : (d : Direction) → flip (flip d) ≡ d
flip-flip debit = refl
flip-flip credit = refl

-- The mirror image of a mirror image is the list itself.
pub mirrored-mirrored : (lines : List PostingLine) → mirrored (mirrored lines) ≡ lines
unfolding mirrored
mirrored-mirrored [] = refl
mirrored-mirrored (l ∷ ls) = rw (mirrored-mirrored ls, flip-flip l.direction) refl

signed-flip : (d : Direction) (a : ℤ) → signed (flip d) a ≡ neg_ℤ (signed d a)
signed-flip debit a = refl
signed-flip credit a = omega int_laws

undo_step :
    (b : Bool) (x y m n : ℤ)
    → y ≡ neg_ℤ x
    → m +ℤ n ≡ pos 0
    → (if b then x else pos 0) +ℤ m +ℤ ((if b then y else pos 0) +ℤ n) ≡ pos 0
undo_step true x y m n e h = omega (int_laws, parts_of e, parts_of h)
undo_step false x y m n e h = omega (int_laws, parts_of h)

-- The legs and their mirror image move nothing together.
pub movement-mirrored :
    (t : AccountType) (lines : List PostingLine)
    → movement t lines +ℤ movement t (mirrored lines) ≡ pos 0
unfolding movement mirrored
movement-mirrored t [] = omega int_laws
movement-mirrored t (l ∷ ls) =
    undo_step _ _ _ _ _ (signed-flip l.direction l.amount_minor) (movement-mirrored t ls)

other_side : (d e : Direction) → same_direction (flip d) e ≡ same_direction d (flip e)
other_side debit debit = refl
other_side debit credit = refl
other_side credit debit = refl
other_side credit credit = refl

pub side_total-mirrored :
    (d : Direction) (lines : List PostingLine)
    → side_total d (mirrored lines) ≡ side_total (flip d) lines
unfolding side_total mirrored
side_total-mirrored d [] = refl
side_total-mirrored d (l ∷ ls) = rw (other_side l.direction d, side_total-mirrored d ls) refl

amounts-mirrored :
    (lines : List PostingLine)
    → All (λ (l : PostingLine). pos 1 ≤ℤ l.amount_minor) lines
    → All (λ (l : PostingLine). pos 1 ≤ℤ l.amount_minor) (mirrored lines)
unfolding mirrored
amounts-mirrored [] h = tt
amounts-mirrored (l ∷ ls) h = (h.0, amounts-mirrored ls h.1)

-- The mirror image of balanced legs is balanced.
pub mirrored-IsBalanced :
    (lines : List PostingLine) → IsBalanced lines → IsBalanced (mirrored lines)
mirrored-IsBalanced lines b = record {
  two_legs = unfold mirrored in (rw (length-map lines flip_line) b.two_legs);
  positive = amounts-mirrored lines b.positive;
  equal_sides =
      rw (side_total-mirrored debit lines, side_total-mirrored credit lines) (sym b.equal_sides);
}
