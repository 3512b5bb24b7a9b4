-- ===== src/Reserves.antt =====
-- `create_hold` of app/services/reserves.py, and the key under which `_release_one` releases a hold;
-- ids are texts here.
use payzeno_ledger.Prelude.{
  ℕ, zero, suc, ◌+◌, ◌/◌, ◌%◌, ◌≡◌, refl, ap, String, Bool, true, false, [], ◌∷◌, ◌⊎◌, inl, inr,
  take_first, ltb, if◌then◌else◌,
}
use payzeno_ledger.Prelude.Int.{ℤ, pos, pos_part, leb_ℤ}
use payzeno_ledger.Errors.{
  Result, ok, err, ◌>>=◌, ◌>>◌, raise_if, >>=-eq-ok, validation, amount_not_positive, value_error,
}
use payzeno_ledger.Keys.Text.{
  Chars, codes, separator, contains, same_text, check_component, ledger_key_text,
  ledger_key_text_lem,
}

pub record ReserveHold : Type 0 where
  pub id : Chars
  pub merchant_id : Chars
  pub currency : String
  pub amount_minor : ℤ
  pub held_from_transaction_id : Chars
  pub release_on : ℕ
  pub livemode : Bool

-- `str(n)`: so many digits at most, and n has no more than n + 1.
unfoldable pub digits : ℕ → ℕ → Chars → Chars
digits zero n out = out
digits (suc fuel) n out =
    let rest = digits fuel (n / 10) ((48 + n % 10) ∷ out) in
    if ltb n 10 then (48 + n % 10) ∷ out else rest

abbrev pub decimal : ℕ → Chars
decimal n = digits (suc n) n []

unfoldable pub create_hold :
    (merchant_id : Chars) (currency : String) (amount_minor : ℤ) (held_from_transaction_id : Chars)
    (release_on : ℕ) (livemode : Bool)
    → Result ReserveHold
create_hold merchant_id currency amount_minor held_from_transaction_id release_on livemode = do
  raise_if (leb_ℤ amount_minor (pos 0)) (validation amount_not_positive)
  key ← ledger_key_text (codes "rh") held_from_transaction_id (decimal (pos_part amount_minor))
  ok (record {
    id = take_first 26 key;
    merchant_id = merchant_id;
    currency = currency;
    amount_minor = amount_minor;
    held_from_transaction_id = held_from_transaction_id;
    release_on = release_on;
    livemode = livemode;
  })

-- The idempotency key of the posting of `_release_one`
unfoldable pub release_key : ReserveHold → Result Chars
release_key hold = ledger_key_text (codes "reserverelease") hold.merchant_id hold.id

check_outcome :
    (may_be_empty : Bool) (value : Chars)
    → (check_component may_be_empty value ≡ ok tt)
      ⊎ (check_component may_be_empty value ≡ err value_error)
unfolding check_component
check_outcome true [] = inl refl
check_outcome false [] = inr refl
check_outcome may_be_empty (c ∷ cs) = by_test (contains separator (c ∷ cs))
  where
    by_test :
        (t : Bool) → (raise_if t value_error ≡ ok tt) ⊎ (raise_if t value_error ≡ err value_error)
    by_test true = inr refl
    by_test false = inl refl

-- The first 26 code points of such a key are "rh:" and 23 more.
id_has_separator :
    (txn amount key : Chars)
    → ledger_key_text (codes "rh") txn amount ≡ ok key
    → check_component false (take_first 26 key) ≡ err value_error
unfolding check_component contains
id_has_separator txn amount key h =
    let (_, _, _, same) = ledger_key_text_lem (codes "rh") txn amount key h in rw (← same) refl

refused_subject :
    (hold : ReserveHold)
    → check_component false hold.id ≡ err value_error
    → release_key hold ≡ err value_error
unfolding release_key ledger_key_text same_text check_component contains
refused_subject hold h = elim (check_outcome false hold.merchant_id) [
  | inl fine ↦ rw (fine, h) refl
  | inr bad ↦ rw (bad) refl
]

hold_id :
    (merchant_id : Chars) (currency : String) (amount_minor : ℤ) (txn : Chars) (release_on : ℕ)
    (livemode : Bool) (hold : ReserveHold)
    → create_hold merchant_id currency amount_minor txn release_on livemode ≡ ok hold
    → check_component false hold.id ≡ err value_error
unfolding create_hold
hold_id merchant_id currency amount_minor txn release_on livemode hold h =
    let (u, c, h1) = >>=-eq-ok (raise_if (leb_ℤ amount_minor (pos 0)) _) _ h in
    let (key, built, h2) =
      >>=-eq-ok (ledger_key_text (codes "rh") txn (decimal (pos_part amount_minor))) _ h1 in
    let same : take_first 26 key ≡ hold.id = id_eq _ hold h2 in
    rw (← same) (id_has_separator txn (decimal (pos_part amount_minor)) key built)
  where
    id_eq : (a b : ReserveHold) → ok a ≡ ok b → a.id ≡ b.id
    id_eq a b e = let same : a ≡ b = cc in ap (λ (hold : ReserveHold). hold.id) same

-- Whatever hold `create_hold` makes, its release raises ValueError: the id that is made from a ledger
-- key holds the separator, which `ledger_key` refuses in a component.
pub release_key-create_hold :
    (merchant_id : Chars) (currency : String) (amount_minor : ℤ) (txn : Chars) (release_on : ℕ)
    (livemode : Bool) (hold : ReserveHold)
    → create_hold merchant_id currency amount_minor txn release_on livemode ≡ ok hold
    → release_key hold ≡ err value_error
release_key-create_hold merchant_id currency amount_minor txn release_on livemode hold h =
    refused_subject hold (hold_id merchant_id currency amount_minor txn release_on livemode hold h)
