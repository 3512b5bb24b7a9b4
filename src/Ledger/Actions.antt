-- ===== src/Ledger/Actions.antt =====
-- What is known of a chain of actions from what is known of its parts.
use payzeno_ledger.Prelude.{ℕ, ◌+◌, ◌≡◌, refl, sym, ◌∙◌, subst}
use payzeno_ledger.Errors.{Result, ok, err}
use payzeno_ledger.Ledger.{Tables, Action, lift, next, new_id, ◌>>=◌, ◌>>◌}

module _ {A B : Type 0} where
  next-holds :
      (R : Tables → Type 0) (f : A → Action B) (r : Result A) (s : Tables)
      → R s
      → ((a : A) → R (f a s).1)
      → R (next f r s).1
  next-holds R f (ok a) s h k = k a
  next-holds R f (err e) s h k = h

  -- What holds after the first action, and after the second whatever the first returned, holds
  -- after the chain.
  pub >>=-holds :
      (R : Tables → Type 0) (m : Action A) (f : A → Action B) (s : Tables)
      → R (m s).1
      → ((a : A) → R (f a (m s).1).1)
      → R ((m >>= f) s).1
  unfolding ◌>>=◌
  >>=-holds R m f s h k = next-holds R f (m s).0 (m s).1 h k

-- A postcondition of the outcomes that return.
abbrev pub OnOk : {A : Type 0} → (A → Tables → Type 0) → Result A → Tables → Type 0
OnOk Q (ok a) s = Q a s
OnOk Q (err e) s = Unit

-- The action returns only what the postcondition holds of.
abbrev pub Ensures : {A : Type 0} → Action A → Tables → (A → Tables → Type 0) → Type 0
Ensures m s Q = OnOk Q (m s).0 (m s).1

module _ {A B : Type 0} where
  next-OnOk :
      (P : A → Tables → Type 0) (Q : B → Tables → Type 0) (f : A → Action B) (r : Result A)
      (s : Tables)
      → OnOk P r s
      → ((a : A) → P a s → Ensures (f a) s Q)
      → Ensures (next f r) s Q
  next-OnOk P Q f (ok a) s h k = k a h
  next-OnOk P Q f (err e) s h k = tt

  pub >>=-Ensures :
      (P : A → Tables → Type 0) (Q : B → Tables → Type 0) (m : Action A) (f : A → Action B)
      (s : Tables)
      → Ensures m s P
      → ((a : A) → P a (m s).1 → Ensures (f a) (m s).1 Q)
      → Ensures (m >>= f) s Q
  unfolding ◌>>=◌
  >>=-Ensures P Q m f s h k = next-OnOk P Q f (m s).0 (m s).1 h k

pub OnOk-any : {A : Type 0} (r : Result A) (s : Tables) → OnOk (λ a t. Unit {0}) r s
OnOk-any (ok a) s = tt
OnOk-any (err e) s = tt

module _ {A B : Type 0} where
  -- When the postcondition of the second action needs nothing of the first.
  pub forgetting :
      (m : Action A) (f : A → Action B) (s : Tables) (Q : B → Tables → Type 0)
      → ((a : A) (t : Tables) → Ensures (f a) t Q)
      → Ensures (m >>= f) s Q
  forgetting m f s Q k =
      >>=-Ensures (λ a t. Unit {0}) Q m f s (OnOk-any (m s).0 (m s).1) (λ a h. k a (m s).1)

OnOk-and :
    {A : Type 0} (Q : A → Tables → Type 0) (R : Tables → Type 0) (r : Result A) (s : Tables)
    → OnOk Q r s
    → R s
    → OnOk (λ a t. Q a t × R t) r s
OnOk-and Q R (ok a) s h k = (h, k)
OnOk-and Q R (err e) s h k = tt

pub Ensures-and :
    {A : Type 0} (Q : A → Tables → Type 0) (R : Tables → Type 0) (m : Action A) (s : Tables)
    → Ensures m s Q
    → R (m s).1
    → Ensures m s (λ a t. Q a t × R t)
Ensures-and Q R m s h k = OnOk-and Q R (m s).0 (m s).1 h k

OnOk-weaken :
    {A : Type 0} (P Q : A → Tables → Type 0) (r : Result A) (s : Tables)
    → ((a : A) (t : Tables) → P a t → Q a t)
    → OnOk P r s
    → OnOk Q r s
OnOk-weaken P Q (ok a) s k h = k a s h
OnOk-weaken P Q (err e) s k h = tt

pub Ensures-weaken :
    {A : Type 0} (P Q : A → Tables → Type 0) (m : Action A) (s : Tables)
    → ((a : A) (t : Tables) → P a t → Q a t)
    → Ensures m s P
    → Ensures m s Q
Ensures-weaken P Q m s k h = OnOk-weaken P Q (m s).0 (m s).1 k h

-- A test that passed.
pub lift->>-Ensures :
    {B : Type 0} (r : Result (Unit {0})) (m : Action B) (s : Tables) (Q : B → Tables → Type 0)
    → (r ≡ ok tt → Ensures m s Q)
    → Ensures (lift r >> m) s Q
unfolding ◌>>=◌
lift->>-Ensures (ok u) m s Q k = k refl
lift->>-Ensures (err e) m s Q k = tt

-- A call that returned.
pub lift->>=-Ensures :
    {A B : Type 0} (r : Result A) (f : A → Action B) (s : Tables) (Q : B → Tables → Type 0)
    → ((a : A) → r ≡ ok a → Ensures (f a) s Q)
    → Ensures (lift r >>= f) s Q
unfolding ◌>>=◌
lift->>=-Ensures (ok a) f s Q k = k a refl
lift->>=-Ensures (err e) f s Q k = tt

-- The postcondition at a run that returned.
pub Ensures-returned :
    {A : Type 0} (Q : A → Tables → Type 0) (m : Action A) (s s' : Tables) (a : A)
    → m s ≡ (ok a, s')
    → Ensures m s Q
    → Q a s'
Ensures-returned {A} Q m s s' a e h = subst (λ (r : Result A × Tables). OnOk Q r.0 r.1) e h

-- The outcome returned, with the postcondition.
abbrev pub IsOk : {A : Type 0} → (A → Tables → Type 0) → Result A → Tables → Type 0
IsOk Q (ok a) s = Q a s
IsOk Q (err e) s = ⊥

abbrev pub Succeeds : {A : Type 0} → Action A → Tables → (A → Tables → Type 0) → Type 0
Succeeds m s Q = IsOk Q (m s).0 (m s).1

module _ {A B : Type 0} where
  next-IsOk :
      (P : A → Tables → Type 0) (Q : B → Tables → Type 0) (f : A → Action B) (r : Result A)
      (s : Tables)
      → IsOk P r s
      → ((a : A) → P a s → Succeeds (f a) s Q)
      → Succeeds (next f r) s Q
  next-IsOk P Q f (ok a) s h k = k a h
  next-IsOk P Q f (err e) s h k = absurd h

  pub >>=-Succeeds :
      (P : A → Tables → Type 0) (Q : B → Tables → Type 0) (m : Action A) (f : A → Action B)
      (s : Tables)
      → Succeeds m s P
      → ((a : A) → P a (m s).1 → Succeeds (f a) (m s).1 Q)
      → Succeeds (m >>= f) s Q
  unfolding ◌>>=◌
  >>=-Succeeds P Q m f s h k = next-IsOk P Q f (m s).0 (m s).1 h k

-- An action that succeeds returns what it ensures.
IsOk-run :
    {A : Type 0} (P Q : A → Tables → Type 0) (r : Result A) (s : Tables)
    → IsOk P r s
    → OnOk Q r s
    → (a : A) × (r ≡ ok a) × Q a s
IsOk-run P Q (ok a) s h k = (a, refl, k)
IsOk-run P Q (err e) s h k = absurd h

pub Succeeds-run :
    {A : Type 0} (P Q : A → Tables → Type 0) (m : Action A) (s : Tables)
    → Succeeds m s P
    → Ensures m s Q
    → (a : A) × ((m s).0 ≡ ok a) × Q a (m s).1
Succeeds-run P Q m s h k = IsOk-run P Q (m s).0 (m s).1 h k

IsOk-and :
    {A : Type 0} (P Q : A → Tables → Type 0) (r : Result A) (s : Tables)
    → IsOk P r s
    → OnOk Q r s
    → IsOk (λ a t. P a t × Q a t) r s
IsOk-and P Q (ok a) s h k = (h, k)
IsOk-and P Q (err e) s h k = absurd h

pub Succeeds-and :
    {A : Type 0} (P Q : A → Tables → Type 0) (m : Action A) (s : Tables)
    → Succeeds m s P
    → Ensures m s Q
    → Succeeds m s (λ a t. P a t × Q a t)
Succeeds-and P Q m s h k = IsOk-and P Q (m s).0 (m s).1 h k

IsOk-weaken :
    {A : Type 0} (P Q : A → Tables → Type 0) (r : Result A) (s : Tables)
    → ((a : A) (t : Tables) → P a t → Q a t)
    → IsOk P r s
    → IsOk Q r s
IsOk-weaken P Q (ok a) s k h = k a s h
IsOk-weaken P Q (err e) s k h = absurd h

pub Succeeds-weaken :
    {A : Type 0} (P Q : A → Tables → Type 0) (m : Action A) (s : Tables)
    → ((a : A) (t : Tables) → P a t → Q a t)
    → Succeeds m s P
    → Succeeds m s Q
Succeeds-weaken P Q m s k h = IsOk-weaken P Q (m s).0 (m s).1 k h

-- A call that is known to return.
pub lift->>=-Succeeds :
    {A B : Type 0} (a : A) (r : Result A) (f : A → Action B) (s : Tables) (Q : B → Tables → Type 0)
    → r ≡ ok a
    → Succeeds (f a) s Q
    → Succeeds (lift r >>= f) s Q
unfolding ◌>>=◌
lift->>=-Succeeds a r f s Q h k = rw (h) k

-- A fresh id.
pub new_id->>=-Ensures :
    {B : Type 0} (f : ℕ → Action B) (s : Tables) (Q : B → Tables → Type 0)
    → Ensures (f s.next_id) (record s { next_id = s.next_id + 1 }) Q
    → Ensures (new_id >>= f) s Q
unfolding ◌>>=◌
new_id->>=-Ensures f s Q h = h

-- An action that writes nothing.
abbrev pub Reads : {A : Type 0} → Action A → Type 0
Reads m = (s : Tables) → (m s).1 ≡ s

module _ {A B : Type 0} where
  next-reading :
      (f : A → Action B) (r : Result A) (s t : Tables) (Q : B → Tables → Type 0)
      → t ≡ s
      → ((a : A) → r ≡ ok a → Ensures (f a) s Q)
      → Ensures (next f r) t Q
  next-reading f (ok a) s t Q same k = subst (λ u. Ensures (f a) u Q) (sym same) (k a refl)
  next-reading f (err e) s t Q same k = tt

  -- What a read returned is known, and the rest starts from the same tables.
  pub reading-Ensures :
      (m : Action A) (f : A → Action B) (s : Tables) (Q : B → Tables → Type 0)
      → Reads m
      → ((a : A) → (m s).0 ≡ ok a → Ensures (f a) s Q)
      → Ensures (m >>= f) s Q
  unfolding ◌>>=◌
  reading-Ensures m f s Q reads k = next-reading f (m s).0 s (m s).1 Q (reads s) k

  next-Reads : (f : A → Action B) (r : Result A) → ((a : A) → Reads (f a)) → Reads (next f r)
  next-Reads f (ok a) k s = k a s
  next-Reads f (err e) k s = refl

  pub Reads->>= :
      (m : Action A) (f : A → Action B) → Reads m → ((a : A) → Reads (f a)) → Reads (m >>= f)
  unfolding ◌>>=◌
  Reads->>= m f hm hf s = next-Reads f (m s).0 hf (m s).1 ∙ hm s

pub lift->>=-Reads :
    {A B : Type 0} (r : Result A) (f : A → Action B)
    → ((a : A) → Reads (f a))
    → Reads (lift r >>= f)
lift->>=-Reads r f k = Reads->>= (lift r) f (λ s. refl) k

pub new_id->>=-Succeeds :
    {B : Type 0} (f : ℕ → Action B) (s : Tables) (Q : B → Tables → Type 0)
    → Succeeds (f s.next_id) (record s { next_id = s.next_id + 1 }) Q
    → Succeeds (new_id >>= f) s Q
unfolding ◌>>=◌
new_id->>=-Succeeds f s Q h = h

module _ {A B : Type 0} where
  next-read :
      (a : A) (f : A → Action B) (r : Result A) (s t : Tables) (Q : B → Tables → Type 0)
      → t ≡ s
      → r ≡ ok a
      → Succeeds (f a) s Q
      → Succeeds (next f r) t Q
  next-read a f r s t Q same returned h =
      subst (λ (x : Result A). Succeeds (next f x) t Q) (sym returned)
        (subst (λ u. Succeeds (f a) u Q) (sym same) h)

  -- A read that is known to return.
  pub reading-Succeeds :
      (a : A) (m : Action A) (f : A → Action B) (s : Tables) (Q : B → Tables → Type 0)
      → Reads m
      → (m s).0 ≡ ok a
      → Succeeds (f a) s Q
      → Succeeds (m >>= f) s Q
  unfolding ◌>>=◌
  reading-Succeeds a m f s Q reads returned h =
      next-read a f (m s).0 s (m s).1 Q (reads s) returned h
