-- ===== src/Ledger/Invariants/Drift.antt =====
-- The cached balances of app/repositories/balance_cache.py and the entries that they sum up, which
-- app/services/audit.py compares.
use payzeno_ledger.Prelude.{
  ℕ, ◌+◌, ◌≡◌, sym, String, Bool, true, false, Option, some, none, List, [], ◌++◌, All-append, find,
  arith, if◌then◌else◌,
}
use payzeno_ledger.Prelude.Int.{ℤ, pos, ◌+ℤ◌, int_laws}
use payzeno_ledger.Chart.{Bucket}
use payzeno_ledger.Ledger.{LedgerTransaction, LedgerEntry, Tables, ◌>>=◌}
use payzeno_ledger.Ledger.Actions.{Ensures, >>=-Ensures, Ensures-and}
use payzeno_ledger.Ledger.Accounts.Identity.{AreNumbered, Descending-weaken, Extends}
use payzeno_ledger.Ledger.Transactions.{get_or_raise, found_or_raise, IdempotencyClaim}
use payzeno_ledger.Ledger.Cache.{get_balance}
use payzeno_ledger.Ledger.Cache.Delta.{cached}
use payzeno_ledger.Ledger.Reports.{sum_bucket}
use payzeno_ledger.Ledger.Reports.Buckets.{
  sum_bucket-append, sum_bucket-stable, sum_bucket-none, sum_bucket-AreBooked,
}
use payzeno_ledger.Ledger.Poster.{
  Request, OnConflict, raise_error, return_existing, row_of, balances_after, materialise_entries,
  publish_posted, post_claimed, post_conflict, post,
}
use payzeno_ledger.Ledger.Poster.Entries.{IsFramed, materialise_entries-IsFramed}
use payzeno_ledger.Ledger.Poster.Booking.{
  IsBooking, AreKnown, AreKnown-extends, AreBooked-AreKnown, materialise_entries-IsBooking,
}
use payzeno_ledger.Ledger.Poster.Movement.{is_posting_of, balances_after_lem, delta_of-deltas_of}
use payzeno_ledger.Ledger.Poster.Outcome.{
  after_insert, writes, new_is_first, found-Ensures, free_claim, taken_claim, post-Ensures,
}
use payzeno_ledger.Ledger.Invariants.{no_tables, Reachable, Keeps, Keeps->>=, Reachable-induction}

-- The cache agrees with the entries, and the ids that the entries name were drawn.
pub record HasNoDrift (s : Tables) : Type 0 where
  pub numbered : AreNumbered s
  pub known : AreKnown s s.entries
  pub agree :
      (merchant : ℕ) (cur : String) (mode : Bool) (b : Bucket)
      → cached b (get_balance merchant cur mode s.balances)
        ≡ sum_bucket merchant cur mode b s.accounts s.entries

adds_up :
    (x y d e : ℤ) (key : Bool)
    → x ≡ y
    → d ≡ e
    → x +ℤ (if key then d else pos 0) ≡ (if key then e else pos 0) +ℤ y
adds_up x y d e true h k = rw (h, k) (omega int_laws)
adds_up x y d e false h k = rw (h) (omega int_laws)

module _ (req : Request) (s : Tables) (drift_free : HasNoDrift s) where
  IsMade : List LedgerEntry → Tables → Type 0
  IsMade es t =
      IsBooking (after_insert req s) req.merchant_id req.currency req.livemode req.lines es t
      × IsFramed (after_insert req s) t

  materialise-IsMade :
      Ensures
        (materialise_entries s.next_id req.merchant_id req.currency req.livemode 1 req.lines)
        (after_insert req s)
        IsMade
  unfolding IsMade
  materialise-IsMade =
      Ensures-and
        (IsBooking (after_insert req s) req.merchant_id req.currency req.livemode req.lines)
        (IsFramed (after_insert req s))
        (materialise_entries s.next_id req.merchant_id req.currency req.livemode 1 req.lines)
        (after_insert req s)
        (materialise_entries-IsBooking s.next_id req.merchant_id req.currency req.livemode 1
          req.lines (after_insert req s)
          (Descending-weaken _ _ s.accounts (omega arith) drift_free.numbered))
        (materialise_entries-IsFramed s.next_id req.merchant_id req.currency req.livemode 1
          req.lines _)

  old-Extends : (t : Tables) → Extends (after_insert req s) t → Extends s t
  old-Extends t ext = record {
    later = omega (arith, ext.later);
    stable = λ id below. ext.stable id (omega arith);
  }

  -- The movement that the cache takes up is the one that the new entries have.
  agrees :
      (t : Tables) (es : List LedgerEntry)
      → IsMade es t
      → (merchant : ℕ) (cur : String) (mode : Bool) (b : Bucket)
      → cached b (
          get_balance merchant cur mode (
            balances_after req.merchant_id req.currency req.livemode req.lines s.next_id
              t.balances))
        ≡ sum_bucket merchant cur mode b t.accounts (es ++ t.entries)
  unfolding IsMade
  agrees t es (booking, framed) merchant cur mode b =
      rw
        (
          framed.balances,
          framed.entries,
          balances_after_lem b req.merchant_id req.currency req.livemode req.lines s.next_id
              s.balances merchant cur mode,
          sum_bucket-append merchant cur mode b t.accounts es s.entries,
          sum_bucket-AreBooked merchant cur mode b req.merchant_id req.currency req.livemode t
              req.lines es booking.booked,
          sum_bucket-stable merchant cur mode b s t s.entries (old-Extends t booking.extends)
              drift_free.known,
        )
        (adds_up _ _ _ _ (is_posting_of req.merchant_id req.currency req.livemode merchant cur mode)
          (drift_free.agree merchant cur mode b) (delta_of-deltas_of b req.lines))

  writes-HasNoDrift :
      (t : Tables) (es : List LedgerEntry)
      → IsMade es t
      → Ensures (writes req s.next_id es) t (λ r u. HasNoDrift u)
  unfolding ◌>>=◌ publish_posted IsMade
  writes-HasNoDrift t es (booking, framed) = record {
    numbered = booking.numbered;
    known =
        All-append _ es t.entries
          (AreBooked-AreKnown req.merchant_id req.currency req.livemode t req.lines es
            booking.booked)
          (rw (framed.entries) (
            AreKnown-extends s t s.entries (old-Extends t booking.extends).later drift_free.known));
    agree = agrees t es (booking, framed);
  }

  post_claimed-HasNoDrift :
      Ensures (post_claimed req (free_claim s.next_id)) (after_insert req s) (λ r t. HasNoDrift t)
  unfolding post_claimed
  post_claimed-HasNoDrift =
      found-Ensures s.next_id _ (row_of req s.next_id) _ _
        (new_is_first req s.next_id s.transactions)
        (>>=-Ensures IsMade _
          (materialise_entries s.next_id req.merchant_id req.currency req.livemode 1 req.lines)
          (writes req s.next_id) (after_insert req s) materialise-IsMade
          (λ es made. writes-HasNoDrift _ es made))

  drawn-HasNoDrift : HasNoDrift (record s { next_id = s.next_id + 1 })
  drawn-HasNoDrift = record {
    numbered = Descending-weaken _ _ s.accounts (omega arith) drift_free.numbered;
    known =
        AreKnown-extends s (record s { next_id = s.next_id + 1 }) s.entries (omega arith)
          drift_free.known;
    agree = drift_free.agree;
  }

found_or_raise-Keeps : (found : Option LedgerTransaction) → Keeps HasNoDrift (found_or_raise found)
found_or_raise-Keeps (some t) s h = h
found_or_raise-Keeps none s h = tt

get_or_raise-Keeps : (id : ℕ) → Keeps HasNoDrift (get_or_raise id)
unfolding get_or_raise
get_or_raise-Keeps id s h = found_or_raise-Keeps _ s h

post_conflict-Keeps :
    (on_conflict : OnConflict) (claim : IdempotencyClaim)
    → Keeps HasNoDrift (post_conflict on_conflict claim)
unfolding post_conflict
post_conflict-Keeps return_existing claim =
    Keeps->>= HasNoDrift (get_or_raise claim.transaction_id) _
      (get_or_raise-Keeps claim.transaction_id) (λ t s h. h)
post_conflict-Keeps raise_error claim =
    Keeps->>= HasNoDrift (get_or_raise claim.transaction_id) _
      (get_or_raise-Keeps claim.transaction_id) (λ t s h. tt)

post-Keeps : (req : Request) → Keeps HasNoDrift (post req)
post-Keeps req s h =
    post-Ensures req s (λ r t. HasNoDrift t) (λ b free. post_claimed-HasNoDrift req s h)
      (λ b existing matches owned.
        post_conflict-Keeps req.on_conflict (taken_claim existing matches) _
          (drawn-HasNoDrift req s h))

nothing-HasNoDrift : HasNoDrift no_tables
unfolding get_balance find
nothing-HasNoDrift = record {
  numbered = tt;
  known = tt;
  agree = λ merchant cur mode b. sym (sum_bucket-none merchant cur mode b []);
}

-- Whatever was posted and reversed, the cached balance of every merchant, currency, mode and bucket
-- is the sum of the entries on the merchant's accounts of the bucket's type, on their normal side.
pub cache-agrees :
    (s : Tables)
    → Reachable s
    → (merchant : ℕ) (currency : String) (livemode : Bool) (b : Bucket)
    → cached b (get_balance merchant currency livemode s.balances)
      ≡ sum_bucket merchant currency livemode b s.accounts s.entries
cache-agrees s r = no_drift.agree
  where
    no_drift : HasNoDrift s
    no_drift =
        Reachable-induction HasNoDrift nothing-HasNoDrift post-Keeps
          (λ id original s h. record { numbered = h.numbered; known = h.known; agree = h.agree }) s
          r
