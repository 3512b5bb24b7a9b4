-- ===== src/Breaker/Circuit.antt =====
-- The windows of the circuits of app/clients/breaker.py, in every state that calls lead to.
use payzeno_ledger.Prelude.{ℕ, ◌≤◌, ◌≡◌, String, Bool, false, Option, none, List, length}
use payzeno_ledger.Breaker.{
  Settings, Circuits, no_circuits, is_open, trips, record_outcome, bucket_of,
}

-- The states that calls lead to, in any interleaving: the test at the start of a call and the record
-- at its end are steps of their own.
pub data Reached (settings : Settings) : Circuits → Type 0 where
  fresh : Reached settings no_circuits
  asked :
      {s : Circuits}
      → Reached settings s
      → (name : String) (now : ℕ) → Reached settings (is_open settings name now s).1
  ended :
      {s : Circuits}
      → Reached settings s
      → (name : String) (now : ℕ) (ok : Bool)
      → Reached settings (record_outcome settings name now ok s)

module _ (settings : Settings) (has_window : 1 ≤ settings.window) where
  -- A window of one circuit is not overfull, and one that trips is an open circuit's.
  abbrev IsKept : Option (List Bool) → Option ℕ → Type 0
  IsKept bucket opened =
      (length (bucket_of settings bucket) ≤ settings.window)
      × (opened ≡ none → trips settings (bucket_of settings bucket) ≡ false)

  abbrev IsSane : Circuits → Type 0
  IsSane s = (name : String) → IsKept (s.outcomes name) (s.opened_at name)
