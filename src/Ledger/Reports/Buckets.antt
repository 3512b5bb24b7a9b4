-- ===== src/Ledger/Reports/Buckets.antt =====
-- The bucket sums of app/repositories/ledger_entry.py over the entries of a posting, and
-- `_signed_total` of app/services/transactions.py over its legs.
use payzeno_ledger.Prelude.{
  ℕ, ◌≡◌, refl, sym, ap, ◌∙◌, inl, inr, String, Bool, true, false, ◌&&◌, Bool-cases, Option, some,
  none, List, [], ◌∷◌, ◌++◌, keep, ==_iff, bool_eq, str_eq, if◌then◌else◌,
}
use payzeno_ledger.Prelude.Int.{ℤ, pos, ◌+ℤ◌, ◌-ℤ◌, neg_ℤ, int_laws}
use payzeno_ledger.Chart.{
  AccountType, Direction, debit, credit, same_direction, same_type, index, normal_balance_by_type,
  is_platform_account, merchant_payable, merchant_receivable, reserve, chargeback_liability, Bucket,
  bucket_type, available, pending, reserved, disputed,
}
use payzeno_ledger.Posting.{PostingLine}
use payzeno_ledger.Ledger.{Account, LedgerEntry, Tables, opt_eq}
use payzeno_ledger.Ledger.Accounts.{has_key}
use payzeno_ledger.Ledger.Accounts.Identity.{Extends}
use payzeno_ledger.Ledger.Reports.{case_sum, counts, sum_bucket}
use payzeno_ledger.Ledger.Poster.{owner_of, signed_total}
use payzeno_ledger.Ledger.Poster.Booking.{IsBooked, AreBooked, AreKnown}

-- An amount on the normal side of an account type, or against it.
abbrev pub on_normal : AccountType → Direction → ℤ → ℤ
on_normal t d a = if same_direction d (normal_balance_by_type t) then a else neg_ℤ a

abbrev side_of : Direction → Direction → ℤ → ℤ
side_of s d a = if same_direction d s then a else pos 0

signed_step :
    (b : Bucket) (d : Direction) (a cr db : ℤ)
    → (if same_direction (normal_balance_by_type (bucket_type b)) debit
        then neg_ℤ (side_of credit d a +ℤ cr -ℤ (side_of debit d a +ℤ db))
        else side_of credit d a +ℤ cr -ℤ (side_of debit d a +ℤ db))
      ≡ on_normal (bucket_type b) d a
        +ℤ (if same_direction (normal_balance_by_type (bucket_type b)) debit
            then neg_ℤ (cr -ℤ db)
            else cr -ℤ db)
signed_step available debit a cr db = omega int_laws
signed_step available credit a cr db = omega int_laws
signed_step pending debit a cr db = omega int_laws
signed_step pending credit a cr db = omega int_laws
signed_step reserved debit a cr db = omega int_laws
signed_step reserved credit a cr db = omega int_laws
signed_step disputed debit a cr db = omega int_laws
signed_step disputed credit a cr db = omega int_laws

if_zero : (b : Bool) → pos 0 ≡ (if b then pos 0 else pos 0)
if_zero true = refl
if_zero false = refl

zero_left : (x : ℤ) → x ≡ pos 0 +ℤ x
zero_left x = omega int_laws

module _ (merchant : ℕ) (c : String) (m : Bool) (b : Bucket) where
  -- One entry more, on the normal side of the bucket's accounts if it counts.
  pub sum_bucket-step :
      (accounts : List Account) (e : LedgerEntry) (es : List LedgerEntry)
      → sum_bucket merchant c m b accounts (e ∷ es)
        ≡ (if counts merchant c m b accounts e
            then on_normal (bucket_type b) e.direction e.amount_minor
            else pos 0)
          +ℤ sum_bucket merchant c m b accounts es
  unfolding sum_bucket keep case_sum
  sum_bucket-step accounts e es = elim (Bool-cases (counts merchant c m b accounts e)) [
    | inl yes_ ↦ rw (yes_) (signed_step b e.direction e.amount_minor _ _)
    | inr no_ ↦ rw (no_) (zero_left _)
  ]

  pub sum_bucket-none : (accounts : List Account) → sum_bucket merchant c m b accounts [] ≡ pos 0
  unfolding sum_bucket keep case_sum
  sum_bucket-none accounts = by_bucket b
    where
      by_bucket :
          (b : Bucket)
          → (if same_direction (normal_balance_by_type (bucket_type b)) debit
              then neg_ℤ (pos 0 -ℤ pos 0)
              else pos 0 -ℤ pos 0)
            ≡ pos 0
      by_bucket available = omega int_laws
      by_bucket pending = omega int_laws
      by_bucket reserved = omega int_laws
      by_bucket disputed = omega int_laws

  pub sum_bucket-append :
      (accounts : List Account) (xs ys : List LedgerEntry)
      → sum_bucket merchant c m b accounts (xs ++ ys)
        ≡ sum_bucket merchant c m b accounts xs +ℤ sum_bucket merchant c m b accounts ys
  sum_bucket-append accounts [] ys = rw (sum_bucket-none accounts) (zero_left _)
  sum_bucket-append accounts (x ∷ xs) ys =
      rw
        (
          sum_bucket-step accounts x (xs ++ ys),
          sum_bucket-step accounts x xs,
          sum_bucket-append accounts xs ys,
        )
        (omega int_laws)

  -- The sum over entries whose accounts were known before is the sum of before.
  pub sum_bucket-stable :
      (s t : Tables) (es : List LedgerEntry)
      → Extends s t
      → AreKnown s es
      → sum_bucket merchant c m b t.accounts es ≡ sum_bucket merchant c m b s.accounts es
  sum_bucket-stable s t [] ext known = sum_bucket-none t.accounts ∙ sym (sum_bucket-none s.accounts)
  sum_bucket-stable s t (e ∷ es) ext known =
      rw
        (
          sum_bucket-step t.accounts e es,
          sum_bucket-step s.accounts e es,
          ext.stable e.account_id known.0,
          sum_bucket-stable s t es ext known.1,
        )
        refl

-- A type is told by its number.
pub type_of_bucket :
    (t : AccountType) (b : Bucket) → same_type t (bucket_type b) ≡ true → t ≡ bucket_type b
type_of_bucket merchant_payable available h = refl
type_of_bucket _ available h = cc
type_of_bucket merchant_receivable pending h = refl
type_of_bucket _ pending h = cc
type_of_bucket reserve reserved h = refl
type_of_bucket _ reserved h = cc
type_of_bucket chargeback_liability disputed h = refl
type_of_bucket _ disputed h = cc

-- The types that feed a bucket are no platform types.
bucket_type-merchant : (b : Bucket) → is_platform_account (bucket_type b) ≡ false
bucket_type-merchant available = refl
bucket_type-merchant pending = refl
bucket_type-merchant reserved = refl
bucket_type-merchant disputed = refl

abbrev pub owns : Option ℕ → ℕ → Bool
owns o merchant = opt_eq o (some merchant)

opt_eq_eq : (o o' : Option ℕ) → opt_eq o o' ≡ true → o ≡ o'
opt_eq_eq none none h = refl
opt_eq_eq none (some n) h = cc
opt_eq_eq (some n) none h = cc
opt_eq_eq (some n) (some n') h = ap some ((==_iff n n').0 h)

first_and_last : (p q r w : Bool) → (p && (q && (r && w))) ≡ true → (p ≡ true) × (w ≡ true)
first_and_last true true true true h = (refl, refl)
first_and_last true true true false h = cc
first_and_last true true false w h = cc
first_and_last true false r w h = cc
first_and_last false q r w h = cc

-- The two parts of a key that the bucket sums read.
key_parts :
    (o : Option ℕ) (type : AccountType) (c : String) (m : Bool) (a : Account)
    → has_key o type c m a ≡ true
    → (index a.type ≡ index type) × (a.merchant_id ≡ o)
key_parts o type c m a h =
    let (first, last) = first_and_last _ _ _ _ h in
    ((==_iff (index a.type) (index type)).0 first, opt_eq_eq a.merchant_id o last)

owner_of-bucket :
    (o : Option ℕ) (l : PostingLine) (b : Bucket)
    → same_type l.account_type (bucket_type b) ≡ true
    → owner_of o l ≡ o
owner_of-bucket o l b h = rw (type_of_bucket l.account_type b h, bucket_type-merchant b) refl

and_shuffle :
    (same w w' g : Bool) → (same ≡ true → w ≡ w') → ((w && same) && g) ≡ (same && (w' && g))
and_shuffle true true w' g h = rw (← (h refl)) refl
and_shuffle true false w' g h = rw (← (h refl)) refl
and_shuffle false true w' g h = refl
and_shuffle false false w' g h = refl

-- An entry that was booked for a leg counts if the leg is of the bucket's type, and the posting of
-- the merchant, the currency and the mode.
counts-IsBooked :
    (merchant : ℕ) (cur : String) (mode : Bool) (b : Bucket) (o : Option ℕ) (c : String) (m : Bool)
    (t : Tables) (l : PostingLine) (e : LedgerEntry)
    → IsBooked o c m t l e
    → counts merchant cur mode b t.accounts e ≡ (
        same_type l.account_type (bucket_type b)
        && (owns o merchant && (str_eq c cur && bool_eq m mode)))
counts-IsBooked merchant cur mode b o c m t l e k =
    let (a, named, of_key) = k.account in
    let (same_index, same_owner) = key_parts (owner_of o l) l.account_type c m a of_key in
    rw (named, k.currency, k.mode, same_index, same_owner)
      (and_shuffle (same_type l.account_type (bucket_type b)) (owns (owner_of o l) merchant)
        (owns o merchant) (str_eq c cur && bool_eq m mode)
        (λ same. ap (λ w. owns w merchant) (owner_of-bucket o l b same)))

if_sum :
    (same own : Bool) (x y z : ℤ)
    → (same ≡ true → x ≡ y)
    → (if same && own then x else pos 0) +ℤ (if own then z else pos 0)
      ≡ (if own then (if same then y else pos 0) +ℤ z else pos 0)
if_sum true true x y z h = rw (h refl) refl
if_sum true false x y z h = omega int_laws
if_sum false true x y z h = refl
if_sum false false x y z h = omega int_laws

-- The bucket sum over the entries of a posting is the signed total of its legs, for the merchant,
-- the currency and the mode of the posting, and zero for any other.
pub sum_bucket-AreBooked :
    (merchant : ℕ) (cur : String) (mode : Bool) (b : Bucket) (o : Option ℕ) (c : String) (m : Bool)
    (t : Tables) (ls : List PostingLine) (es : List LedgerEntry)
    → AreBooked o c m t ls es
    → sum_bucket merchant cur mode b t.accounts es ≡ (
        if owns o merchant && (str_eq c cur && bool_eq m mode)
        then signed_total (bucket_type b) ls
        else pos 0)
unfolding signed_total
sum_bucket-AreBooked merchant cur mode b o c m t [] [] h =
    sum_bucket-none merchant cur mode b t.accounts
    ∙ if_zero (owns o merchant && (str_eq c cur && bool_eq m mode))
sum_bucket-AreBooked merchant cur mode b o c m t [] (e ∷ es) h = absurd h
sum_bucket-AreBooked merchant cur mode b o c m t (l ∷ ls) [] h = absurd h
sum_bucket-AreBooked merchant cur mode b o c m t (l ∷ ls) (e ∷ es) h =
    rw
      (
        sum_bucket-step merchant cur mode b t.accounts e es,
        counts-IsBooked merchant cur mode b o c m t l e h.0,
        h.0.side,
        h.0.amount,
        sum_bucket-AreBooked merchant cur mode b o c m t ls es h.1,
      )
      (if_sum (same_type l.account_type (bucket_type b))
        (owns o merchant && (str_eq c cur && bool_eq m mode))
        (on_normal (bucket_type b) l.direction l.amount_minor)
        (on_normal l.account_type l.direction l.amount_minor) (signed_total (bucket_type b) ls)
        (λ same.
          ap (λ t. on_normal t l.direction l.amount_minor)
            (sym (type_of_bucket l.account_type b same))))
