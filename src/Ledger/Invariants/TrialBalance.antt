-- ===== src/Ledger/Invariants/TrialBalance.antt =====
-- `trial_balance_by_currency` of app/repositories/ledger_entry.py on the tables that the poster of
-- app/services/transactions.py writes.
use payzeno_ledger.Prelude.{
  ℕ, ◌+◌, ◌≡◌, refl, ◌∙◌, String, Bool, true, false, ◌&&◌, ◌⊎◌, inl, inr, Option, List, [], ◌∷◌,
  ◌++◌, map, keep, str_eq, bool_eq, if◌then◌else◌,
}
use payzeno_ledger.Prelude.Int.{ℤ, pos, ◌+ℤ◌, int_laws}
use payzeno_ledger.Chart.{Direction, debit, credit, same_direction}
use payzeno_ledger.Posting.{PostingLine}
use payzeno_ledger.Posting.Balance.{side_total, IsBalanced}
use payzeno_ledger.Ledger.{LedgerEntry, Tables}
use payzeno_ledger.Ledger.Actions.{Ensures-weaken}
use payzeno_ledger.Ledger.Reports.{
  case_sum, in_group, TrialBalanceRow, trial_row, total_of, trial_balance_rows,
  trial_balance_by_currency,
}
use payzeno_ledger.Ledger.Poster.{Request, PostResult, post}
use payzeno_ledger.Ledger.Poster.Entries.{AreEntriesOf}
use payzeno_ledger.Ledger.Poster.Outcome.{IsPosted, IsReplayed, post_outcome}
use payzeno_ledger.Ledger.Invariants.{no_tables, Reachable, Keeps, Reachable-induction}

-- The sum over one side of a currency and a mode.
abbrev group_sum : Direction → String → Bool → List LedgerEntry → ℤ
group_sum d c m es = case_sum d (keep (in_group c m) es)

case_sum-keep :
    (d : Direction) (p : LedgerEntry → Bool) (e : LedgerEntry) (es : List LedgerEntry)
    → case_sum d (keep p (e ∷ es))
      ≡ (if p e then (if same_direction e.direction d then e.amount_minor else pos 0) else pos 0)
        +ℤ case_sum d (keep p es)
unfolding keep case_sum
case_sum-keep d p e es = by_test (p e)
  where
    by_test :
        (b : Bool)
        → case_sum d (if b then e ∷ keep p es else keep p es)
          ≡ (if b then (if same_direction e.direction d then e.amount_minor else pos 0) else pos 0)
            +ℤ case_sum d (keep p es)
    by_test true = refl
    by_test false = omega int_laws

pub group_sum-append :
    (d : Direction) (c : String) (m : Bool) (xs ys : List LedgerEntry)
    → group_sum d c m (xs ++ ys) ≡ group_sum d c m xs +ℤ group_sum d c m ys
unfolding keep case_sum
group_sum-append d c m [] ys = omega int_laws
group_sum-append d c m (x ∷ xs) ys =
    rw
      (
        case_sum-keep d (in_group c m) x (xs ++ ys),
        case_sum-keep d (in_group c m) x xs,
        group_sum-append d c m xs ys,
      )
      (omega int_laws)

if_zero : (b : Bool) → pos 0 ≡ (if b then pos 0 else pos 0)
if_zero true = refl
if_zero false = refl

if_sum :
    (b : Bool) (x y : ℤ)
    → (if b then x else pos 0) +ℤ (if b then y else pos 0) ≡ (if b then x +ℤ y else pos 0)
if_sum true x y = refl
if_sum false x y = omega int_laws

abbrev is_group : String → Bool → String → Bool → Bool
is_group cur mode c m = str_eq cur c && bool_eq mode m

-- The entries of a posting are all in one group, and there they sum to the sides of its legs.
pub group_sum-AreEntriesOf :
    (d : Direction) (c : String) (m : Bool) (txn : ℕ) (cur : String) (mode : Bool) (n : ℕ)
    (ls : List PostingLine) (es : List LedgerEntry)
    → AreEntriesOf txn cur mode n ls es
    → group_sum d c m es ≡ (if is_group cur mode c m then side_total d ls else pos 0)
unfolding side_total keep case_sum
group_sum-AreEntriesOf d c m txn cur mode n [] [] h = if_zero (is_group cur mode c m)
group_sum-AreEntriesOf d c m txn cur mode n [] (e ∷ es) h = absurd h
group_sum-AreEntriesOf d c m txn cur mode n (l ∷ ls) [] h = absurd h
group_sum-AreEntriesOf d c m txn cur mode n (l ∷ ls) (e ∷ es) h =
    case_sum-keep d (in_group c m) e es
    ∙ rw
        (
          h.0.same_currency,
          h.0.same_mode,
          h.0.same_side,
          h.0.same_amount,
          group_sum-AreEntriesOf d c m txn cur mode (n + 1) ls es h.1,
        )
        (if_sum (is_group cur mode c m) _ _)

abbrev pub IsLevel : List LedgerEntry → Type 0
IsLevel es = (c : String) (m : Bool) → group_sum debit c m es ≡ group_sum credit c m es

-- A posting of balanced legs keeps the books level, in every currency and mode.
posted-IsLevel :
    (req : Request) (n : ℕ) (old es : List LedgerEntry)
    → IsBalanced req.lines
    → AreEntriesOf n req.currency req.livemode 1 req.lines es
    → IsLevel old
    → IsLevel (es ++ old)
posted-IsLevel req n old es b made level c m =
    rw
      (
        group_sum-append debit c m es old,
        group_sum-append credit c m es old,
        group_sum-AreEntriesOf debit c m n req.currency req.livemode 1 req.lines es made,
        group_sum-AreEntriesOf credit c m n req.currency req.livemode 1 req.lines es made,
        level c m,
        b.equal_sides,
      )
      refl

abbrev IsLevelIn : Tables → Type 0
IsLevelIn s = IsLevel s.entries

post-Keeps : (req : Request) → Keeps IsLevelIn (post req)
post-Keeps req s level =
    Ensures-weaken (λ r t. IsBalanced req.lines × (IsPosted req s r t ⊎ IsReplayed req s r t))
      (λ r t. IsLevelIn t) (post req) s (λ r t outcome. by_outcome r t outcome) (post_outcome req s)
  where
    by_outcome :
        (r : PostResult) (t : Tables)
        → IsBalanced req.lines × (IsPosted req s r t ⊎ IsReplayed req s r t)
        → IsLevelIn t
    by_outcome r t (b, inl p) =
        let (es, written, made) = p.entries in
        rw (written) (posted-IsLevel req s.next_id s.entries es b made level)
    by_outcome r t (b, inr p) = rw (p.unchanged.entries) level

nothing-IsLevel : IsLevelIn no_tables
unfolding keep case_sum
nothing-IsLevel c m = refl

Reachable-IsLevel : (s : Tables) → Reachable s → IsLevel s.entries
Reachable-IsLevel =
    Reachable-induction IsLevelIn nothing-IsLevel post-Keeps (λ id original s level. level)

rows-level :
    (c : String) (es : List LedgerEntry)
    → IsLevel es
    → (modes : List Bool)
    → total_of (λ (r : TrialBalanceRow). r.debit_minor) (map (trial_row c es) modes)
      ≡ total_of (λ (r : TrialBalanceRow). r.credit_minor) (map (trial_row c es) modes)
unfolding trial_row
rows-level c es level [] = refl
rows-level c es level (m ∷ ms) = rw (level c m, rows-level c es level ms) refl

-- Whatever was posted and reversed, whether the sessions committed or failed, the trial balance
-- has equal debits and credits, for each currency and for one mode or both.
pub trial_balance_by_currency-level :
    (s : Tables)
    → Reachable s
    → (currency : String) (livemode : Option Bool)
    → (trial_balance_by_currency currency livemode s.entries).debit_minor
      ≡ (trial_balance_by_currency currency livemode s.entries).credit_minor
unfolding trial_balance_by_currency trial_balance_rows
trial_balance_by_currency-level s r currency livemode =
    rows-level currency s.entries (Reachable-IsLevel s r) _
