-- ===== src/Keys/Text.antt =====
-- `ledger_key` and `parse_key` of app/domain/idempotency.py on texts, which are lists of code points.
use payzeno_ledger.Prelude.{
  ℕ, ◌≡◌, refl, Bool, true, false, not, ◌&&◌, ◌||◌, List, [], ◌∷◌, ◌++◌, ◌==◌, Bool-cases, inl, inr,
  arith, if◌then◌else◌,
}
use payzeno_ledger.Errors.{
  Result, ok, err, ◌>>◌, raise_if, >>=-eq-ok, validation, value_error, unexpected_id_prefix,
  malformed_ledger_key,
}
use Prim.Native.String.{String as Text}
use Prim.Native.Char.{code}

abbrev pub Chars : Type 0
Chars = List ℕ

abbrev pub codes : Text → Chars
codes Text.[] = []
codes (Text.◌∷◌ c s) = code c ∷ codes s

-- `_SEPARATOR`
abbrev pub separator : ℕ
separator = 58

-- `separator in value`
unfoldable pub contains : ℕ → Chars → Bool
contains c [] = false
contains c (d ∷ ds) = d == c || contains c ds

abbrev pub is_empty : Chars → Bool
is_empty [] = true
is_empty (c ∷ cs) = false

unfoldable pub same_text : Chars → Chars → Bool
same_text [] [] = true
same_text [] (d ∷ ds) = false
same_text (c ∷ cs) [] = false
same_text (c ∷ cs) (d ∷ ds) = c == d && same_text cs ds

-- `value.partition("_")[0]`
unfoldable pub before : ℕ → Chars → Chars
before c [] = []
before c (d ∷ ds) = let rest = before c ds in if d == c then [] else d ∷ rest

-- The loop's body for one component
unfoldable pub check_component : (may_be_empty : Bool) → Chars → Result (Unit {0})
check_component may_be_empty value =
    if is_empty value
    then raise_if (not may_be_empty) value_error
    else raise_if (contains separator value) value_error

-- `_require_prefix`
unfoldable pub require_prefix : Chars → Chars → Result (Unit {0})
require_prefix value prefix =
    raise_if (not (contains 95 value) || not (same_text (before 95 value) prefix))
      (validation unexpected_id_prefix)

-- The strict shape of `settle`
unfoldable pub require_shape : Chars → Chars → Chars → Result (Unit {0})
require_shape purpose scope_id subject_id =
    if same_text purpose (codes "settle")
    then (require_prefix scope_id (codes "sb") >> require_prefix subject_id (codes "ri"))
    else ok tt

-- `ledger_key`
unfoldable pub ledger_key_text : Chars → Chars → Chars → Result Chars
ledger_key_text purpose scope_id subject_id = do
  check_component false purpose
  check_component false scope_id
  check_component (same_text purpose (codes "fee")) subject_id
  require_shape purpose scope_id subject_id
  ok (purpose ++ separator ∷ (scope_id ++ separator ∷ subject_id))

abbrev pub put_first : ℕ → List Chars → List Chars
put_first c [] = (c ∷ []) ∷ []
put_first c (part ∷ parts) = (c ∷ part) ∷ parts

-- `key.split(":")`
unfoldable pub split : Chars → List Chars
split [] = [] ∷ []
split (c ∷ cs) = let rest = split cs in if c == separator then [] ∷ rest else put_first c rest

-- The tests of `parse_key` on the parts
abbrev pub parsed : List Chars → Result (Chars × Chars × Chars)
parsed (purpose ∷ scope_id ∷ subject_id ∷ []) =
    if is_empty purpose || is_empty scope_id
    then err (validation malformed_ledger_key)
    else ok (purpose, scope_id, subject_id)
parsed _ = err (validation malformed_ledger_key)

unfoldable pub parse_key : Chars → Result (Chars × Chars × Chars)
parse_key key = parsed (split key)

split-append :
    (p rest : Chars) → contains separator p ≡ false → split (p ++ separator ∷ rest) ≡ p ∷ split rest
unfolding contains split
split-append [] rest h = refl
split-append (c ∷ cs) rest h = elim (Bool-cases (c == separator)) [
  | inl same ↦ absurd (ground arith)
  | inr other ↦ rw (other, split-append cs rest (ground arith)) refl
]

split-lacks : (p : Chars) → contains separator p ≡ false → split p ≡ p ∷ []
unfolding contains split
split-lacks [] h = refl
split-lacks (c ∷ cs) h = elim (Bool-cases (c == separator)) [
  | inl same ↦ absurd (ground arith)
  | inr other ↦ rw (other, split-lacks cs (ground arith)) refl
]

passed : (t : Bool) {u : Unit {0}} → raise_if t value_error ≡ ok u → t ≡ false
passed true h = cc
passed false h = refl

lacks_separator :
    (may_be_empty : Bool) (value : Chars) {u : Unit {0}}
    → check_component may_be_empty value ≡ ok u
    → contains separator value ≡ false
unfolding check_component contains
lacks_separator may_be_empty [] h = refl
lacks_separator may_be_empty (c ∷ cs) h = passed _ h

not_empty :
    (value : Chars) {u : Unit {0}} → check_component false value ≡ ok u → is_empty value ≡ false
unfolding check_component
not_empty [] h = cc
not_empty (c ∷ cs) h = refl

-- What `ledger_key` returns: the joined components, which have passed their checks.
pub ledger_key_text_lem :
    (purpose scope_id subject_id key : Chars)
    → ledger_key_text purpose scope_id subject_id ≡ ok key
    → (check_component false purpose ≡ ok tt)
      × (check_component false scope_id ≡ ok tt)
      × (check_component (same_text purpose (codes "fee")) subject_id ≡ ok tt)
      × (purpose ++ separator ∷ (scope_id ++ separator ∷ subject_id) ≡ key)
unfolding ledger_key_text
ledger_key_text_lem purpose scope_id subject_id key h =
    let (u1, c1, h1) = >>=-eq-ok (check_component false purpose) _ h in
    let (u2, c2, h2) = >>=-eq-ok (check_component false scope_id) _ h1 in
    let (u3, c3, h3) =
      >>=-eq-ok (check_component (same_text purpose (codes "fee")) subject_id) _ h2 in
    let (u4, c4, h4) = >>=-eq-ok (require_shape purpose scope_id subject_id) _ h3 in
    (c1, c2, c3, cc)

-- A key that `ledger_key` builds is parsed back into its three components; so different components
-- never share a key.
pub parse_key-ledger_key_text :
    (purpose scope_id subject_id key : Chars)
    → ledger_key_text purpose scope_id subject_id ≡ ok key
    → parse_key key ≡ ok (purpose, scope_id, subject_id)
unfolding parse_key
parse_key-ledger_key_text purpose scope_id subject_id key h =
    let (c1, c2, c3, same) = ledger_key_text_lem purpose scope_id subject_id key h in
    rw
      (
        ← same,
        split-append purpose (scope_id ++ separator ∷ subject_id) (lacks_separator _ purpose c1),
        split-append scope_id subject_id (lacks_separator _ scope_id c2),
        split-lacks subject_id (lacks_separator _ subject_id c3),
        not_empty purpose c1,
        not_empty scope_id c2,
      )
      refl
