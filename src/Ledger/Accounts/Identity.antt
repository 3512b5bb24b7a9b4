-- ===== src/Ledger/Accounts/Identity.antt =====
-- The ids of accounts (app/models/account.py), and the account that `get_or_create`
-- (app/services/accounts.py) returns.
use payzeno_ledger.Prelude.{
  ℕ, ◌≤◌, ◌<◌, ◌≡◌, refl, ◌∙◌, String, Bool, true, false, Option, some, none, List, [], ◌∷◌, find,
  find-eq_some, find-All, All, ◌==◌, ==_iff, bool_eq, eq_iff, arith, if◌then◌else◌,
}
use payzeno_ledger.Chart.{AccountType}
use payzeno_ledger.Ledger.{Account, Tables, opt_eq}
use payzeno_ledger.Ledger.Actions.{Ensures}
use payzeno_ledger.Ledger.Accounts.{
  has_key, find_one, account_by_id, new_account, existing_or_new, get_or_create,
}

-- The newest account first, each with an id less than the one before.
abbrev pub Descending : ℕ → List Account → Type 0
Descending n [] = Unit
Descending n (a ∷ rows) = (a.id < n) × Descending a.id rows

pub Descending-weaken :
    (n m : ℕ) (rows : List Account) → n ≤ m → Descending n rows → Descending m rows
Descending-weaken n m [] h d = tt
Descending-weaken n m (a ∷ rows) h d = (omega (arith, d.0), d.1)

Descending-All :
    (n : ℕ) (rows : List Account) → Descending n rows → All (λ (a : Account). a.id < n) rows
Descending-All n [] d = tt
Descending-All n (a ∷ rows) d =
    (d.0, Descending-All n rows (Descending-weaken a.id n rows (omega (arith, d.0)) d.1))

pub find_below :
    (n : ℕ) (p : Account → Bool) (rows : List Account) (a : Account)
    → Descending n rows
    → find p rows ≡ some a
    → a.id < n
find_below n p rows a d e =
    find-All (λ (a : Account). a.id < n) p rows (Descending-All n rows d) a e

-- A found account is the one that its id finds.
pub account_by_id-find :
    (n : ℕ) (p : Account → Bool) (rows : List Account) (a : Account)
    → Descending n rows
    → find p rows ≡ some a
    → account_by_id a.id rows ≡ some a
unfolding account_by_id find
account_by_id-find n p [] a d e = cc
account_by_id-find n p (b ∷ bs) a d e =
    by_test (p b) e
      (λ found. (find_below b.id p bs a d.1 found, account_by_id-find b.id p bs a d.1 found))
  where
    by_test :
        (t : Bool)
        → (if t then some b else find p bs) ≡ some a
        → (find p bs ≡ some a → (a.id < b.id) × (account_by_id a.id bs ≡ some a))
        → (if b.id == a.id then some b else account_by_id a.id bs) ≡ some a
    by_test true found later =
        let same : b ≡ a = cc in rw (← same) (rw ((==_iff b.id b.id).1 refl) refl)
    by_test false found later =
        let (below, there) = later found in
        let apart : (b.id == a.id) ≡ false = ground (arith, below) in rw (apart) there

-- The ids of the tables' accounts were drawn, in order.
abbrev pub AreNumbered : Tables → Type 0
AreNumbered s = Descending s.next_id s.accounts

-- No id that was drawn names another account later.
pub record Extends (s t : Tables) : Type 0 where
  pub later : s.next_id ≤ t.next_id
  pub stable : (id : ℕ) → id < s.next_id → account_by_id id t.accounts ≡ account_by_id id s.accounts

pub Extends-refl : (s : Tables) → Extends s s
Extends-refl s = record { later = omega arith; stable = λ id h. refl }

pub Extends-trans : (s t u : Tables) → Extends s t → Extends t u → Extends s u
Extends-trans s t u h k = record {
  later = omega (arith, h.later, k.later);
  stable = λ id below. k.stable id (omega (arith, h.later)) ∙ h.stable id below;
}

-- What `get_or_create` returns: an account of the key, which its id names.
pub record IsResolved (s : Tables) (o : Option ℕ) (type : AccountType) (c : String) (m : Bool)
    (a : Account) (t : Tables) : Type 0 where
  pub numbered : AreNumbered t
  pub extends : Extends s t
  pub below : a.id < t.next_id
  pub named : account_by_id a.id t.accounts ≡ some a
  pub of_key : has_key o type c m a ≡ true

opt_eq_refl : (o : Option ℕ) → opt_eq o o ≡ true
opt_eq_refl none = refl
opt_eq_refl (some n) = (==_iff n n).1 refl

bool_eq_refl : (b : Bool) → bool_eq b b ≡ true
bool_eq_refl true = refl
bool_eq_refl false = refl

has_key-new_account :
    (id : ℕ) (o : Option ℕ) (type : AccountType) (c : String) (m : Bool)
    → has_key o type c m (new_account id o type c m) ≡ true
has_key-new_account id o type c m =
    rw ((==_iff _ _).1 refl, (eq_iff c c).1 refl, bool_eq_refl m) (opt_eq_refl o)

module _ (n : ℕ) where
  the_new :
      (o : Option ℕ) (type : AccountType) (c : String) (m : Bool) (rows : List Account)
      → account_by_id n (new_account n o type c m ∷ rows) ≡ some (new_account n o type c m)
  unfolding account_by_id find
  the_new o type c m rows = rw ((==_iff n n).1 refl) refl

  not_the_new :
      (id : ℕ) (o : Option ℕ) (type : AccountType) (c : String) (m : Bool) (rows : List Account)
      → id < n
      → account_by_id id (new_account n o type c m ∷ rows) ≡ account_by_id id rows
  unfolding account_by_id find
  not_the_new id o type c m rows below =
      let apart : (n == id) ≡ false = ground (arith, below) in rw (apart) refl

existing_or_new-IsResolved :
    (s : Tables) (o : Option ℕ) (type : AccountType) (c : String) (m : Bool)
    (found : Option Account)
    → AreNumbered s
    → find (has_key o type c m) s.accounts ≡ found
    → Ensures (existing_or_new o type c m found) s (IsResolved s o type c m)
existing_or_new-IsResolved s o type c m (some a) d e = record {
  numbered = d;
  extends = Extends-refl s;
  below = find_below s.next_id _ s.accounts a d e;
  named = account_by_id-find s.next_id _ s.accounts a d e;
  of_key = find-eq_some _ s.accounts e;
}
existing_or_new-IsResolved s o type c m none d e = record {
  numbered = (omega arith, d);
  extends = record {
    later = omega arith;
    stable = λ id below. not_the_new s.next_id id o type c m s.accounts below;
  };
  below = omega arith;
  named = the_new s.next_id o type c m s.accounts;
  of_key = has_key-new_account s.next_id o type c m;
}

pub get_or_create-IsResolved :
    (s : Tables) (o : Option ℕ) (type : AccountType) (c : String) (m : Bool)
    → AreNumbered s
    → Ensures (get_or_create o type c m) s (IsResolved s o type c m)
unfolding get_or_create find_one
get_or_create-IsResolved s o type c m d = existing_or_new-IsResolved s o type c m _ d refl
