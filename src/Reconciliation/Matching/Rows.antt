-- ===== src/Reconciliation/Matching/Rows.antt =====
-- Charges among the stored ones, and what a query finds of them.
use payzeno_ledger.Prelude.{
  ◌≡◌, ◌∙◌, refl, ap, sym, subst, Bool, true, false, some, List, [], ◌∷◌, ◌⊎◌, inl, inr, Any, find,
  keep, if◌then◌else◌,
}
use payzeno_ledger.Reconciliation.{SettlementCharge}

abbrev pub IsStoredCharge : SettlementCharge → List SettlementCharge → Type 0
IsStoredCharge c charges = Any (λ d. d ≡ c) charges

pub find-stored :
    (p : SettlementCharge → Bool) (cs : List SettlementCharge) (c : SettlementCharge)
    → find p cs ≡ some c
    → IsStoredCharge c cs
unfolding find
find-stored p [] c h = cc
find-stored p (d ∷ ds) c h = by_test (p d) (find-stored p ds c) h
  where
    by_test :
        (t : Bool)
        → (find p ds ≡ some c → IsStoredCharge c ds)
        → (if t then some d else find p ds) ≡ some c
        → (d ≡ c) ⊎ IsStoredCharge c ds
    by_test true later e = inl (cc)
    by_test false later e = inr (later e)

-- The first of the rows that pass a test
pub keep_first :
    (p : SettlementCharge → Bool) (cs : List SettlementCharge) (c : SettlementCharge)
    (rest : List SettlementCharge)
    → keep p cs ≡ c ∷ rest
    → IsStoredCharge c cs × (p c ≡ true)
unfolding keep
keep_first p [] c rest h = cc
keep_first p (d ∷ ds) c rest h = by_test (p d) refl (keep_first p ds c rest) h
  where
    by_test :
        (t : Bool)
        → p d ≡ t
        → (keep p ds ≡ c ∷ rest → IsStoredCharge c ds × (p c ≡ true))
        → (if t then d ∷ keep p ds else keep p ds) ≡ c ∷ rest
        → ((d ≡ c) ⊎ IsStoredCharge c ds) × (p c ≡ true)
    by_test true passed later e = let same : d ≡ c = cc in (inl same, ap p (sym same) ∙ passed)
    by_test false passed later e = let (stored, fine) = later e in (inr stored, fine)

-- A stored row that passes is among them.
pub stored_keep :
    (p : SettlementCharge → Bool) (cs : List SettlementCharge) (d : SettlementCharge)
    → IsStoredCharge d cs
    → p d ≡ true
    → IsStoredCharge d (keep p cs)
unfolding keep
stored_keep p [] d stored passed = stored
stored_keep p (e ∷ es) d (inl same) passed =
    let here : p e ≡ true = ap p same ∙ passed in rw (here) (inl same)
stored_keep p (e ∷ es) d (inr stored) passed = by_test (p e) (stored_keep p es d stored passed)
  where
    by_test :
        (t : Bool)
        → IsStoredCharge d (keep p es)
        → IsStoredCharge d (if t then e ∷ keep p es else keep p es)
    by_test true later = inr later
    by_test false later = later

pub keep_alone :
    (p : SettlementCharge → Bool) (cs : List SettlementCharge) (c d : SettlementCharge)
    → keep p cs ≡ c ∷ []
    → IsStoredCharge d cs
    → p d ≡ true
    → d ≡ c
keep_alone p cs c d h stored passed =
    only (subst (IsStoredCharge d) h (stored_keep p cs d stored passed))
  where
    only : IsStoredCharge d (c ∷ []) → d ≡ c
    only (inl same) = sym same
    only (inr nowhere) = absurd nowhere

pub found_stored :
    (p : SettlementCharge → Bool) (cs : List SettlementCharge) (c : SettlementCharge)
    → IsStoredCharge c cs
    → p c ≡ true
    → (d : SettlementCharge) × (find p cs ≡ some d)
unfolding find
found_stored p [] c stored h = absurd stored
found_stored p (d ∷ ds) c (inl same) h =
    let here : p d ≡ true = ap p same ∙ h in (d, rw (here) refl)
found_stored p (d ∷ ds) c (inr stored) h = by_test (p d) (found_stored p ds c stored h)
  where
    by_test :
        (t : Bool)
        → (e : SettlementCharge) × (find p ds ≡ some e)
        → (e : SettlementCharge) × ((if t then some d else find p ds) ≡ some e)
    by_test true later = (d, refl)
    by_test false later = later
