-- ===== src/Tests/Keys.antt =====
-- Keys of app/domain/idempotency.py, and the id of a hold of app/services/reserves.py.
use payzeno_ledger.Prelude.{◌≡◌, refl, true}
use payzeno_ledger.Prelude.Int.{pos}
use payzeno_ledger.Errors.{ok, err, value_error}
use payzeno_ledger.Keys.Text.{
  codes, contains, same_text, before, check_component, require_prefix, require_shape,
  ledger_key_text, parse_key, parse_key-ledger_key_text,
}
use payzeno_ledger.Reserves.{ReserveHold, digits, create_hold, release_key, release_key-create_hold}

settle_key :
    ledger_key_text (codes "settle") (codes "sb_1") (codes "ri_2") ≡ ok (codes "settle:sb_1:ri_2")
unfolding ledger_key_text check_component contains require_shape same_text require_prefix before
settle_key = refl

parse_key-ledger_key_text_example :
    parse_key (codes "settle:sb_1:ri_2") ≡ ok (codes "settle", codes "sb_1", codes "ri_2")
parse_key-ledger_key_text_example =
    parse_key-ledger_key_text (codes "settle") (codes "sb_1") (codes "ri_2")
      (codes "settle:sb_1:ri_2") settle_key

abbrev a_hold : ReserveHold
a_hold = record {
  id = codes "rh:txn_01HZX3V9Q2M8K7R4:25";
  merchant_id = codes "mch_1";
  currency = "USD";
  amount_minor = pos 25;
  held_from_transaction_id = codes "txn_01HZX3V9Q2M8K7R4";
  release_on = 738_000;
  livemode = true;
}

hold_made :
    create_hold (codes "mch_1") "USD" (pos 25) (codes "txn_01HZX3V9Q2M8K7R4") 738_000 true
    ≡ ok a_hold
unfolding create_hold ledger_key_text check_component contains require_shape same_text digits
hold_made = refl

release_key-create_hold_example : release_key a_hold ≡ err value_error
release_key-create_hold_example =
    release_key-create_hold (codes "mch_1") "USD" (pos 25) (codes "txn_01HZX3V9Q2M8K7R4") 738_000
      true a_hold hold_made
