-- ===== src/Exec.antt =====
-- Python's methods: they return or raise, and what was written before a raise stays written, so
-- the state comes back with an exception too.
use a2a_tokenized_provisioni.Base.{ℕ, ◌≡◌, ◌≢◌, refl, ◌⊎◌, inl, inr, Option, none, some, List}
use a2a_tokenized_provisioni.Base.Decimal.{Text}
use a2a_tokenized_provisioni.Interfaces.{SessionState, ErrorCode}

-- The exceptions that the components raise or let through, each by its class. `library_error` is
-- one that a library raises, such as a lost connection.
pub data Exception : Type 0 where
  denied : ErrorCode → Exception
  illegal_transition : SessionState → Text → Exception
  unmapped_resource : List ℕ → Exception
  key_error value_error attribute_error type_error assertion_error validation_error : Exception
  not_implemented runtime_error structured_error library_error : Exception
  chain_revert : (name : List ℕ) → Exception
  offer_already_used offer_expired wrong_consumer insufficient_funds : Exception

pub data Result {ℓ} (A : Type ℓ) : Type ℓ where
  ok : A → Result A
  raised : Exception → Result A

pub Result-cases {ℓ} :
    {A : Type ℓ} (r : Result A) → ((a : A) × (r ≡ ok a)) ⊎ ((x : Exception) × (r ≡ raised x))
Result-cases (ok a) = inl (a, refl)
Result-cases (raised x) = inr (x, refl)

pub raised-ne-ok {ℓ} : {A : Type ℓ} {x : Exception} {a : A} → raised x ≢ ok a
raised-ne-ok h = cc

-- the rest of a computation after a result
abbrev pub and_then {ℓ κ} : {A : Type ℓ} {B : Type κ} → Result A → (A → Result B) → Result B
and_then (ok a) f = f a
and_then (raised x) f = raised x

abbrev pub Exec {ℓ κ} : Type ℓ → Type κ → Type (ℓ ⊔ κ)
Exec S A = S → Result A × S

module _ {ℓ κ} {S : Type ℓ} {A : Type κ} where
  abbrev pub pure : A → Exec S A
  pure a s = (ok a, s)

  abbrev pub raise : Exception → Exec S A
  raise x s = (raised x, s)

  -- a call that reads no state of its own
  abbrev pub lift : Result A → Exec S A
  lift r s = (r, s)

  abbrev pub gets : (S → A) → Exec S A
  gets f s = (ok (f s), s)

abbrev pub modify {ℓ} : {S : Type ℓ} → (S → S) → Exec S (Unit {0})
modify f s = (ok tt, f s)

module _ {ℓ κ μ} {S : Type ℓ} {A : Type κ} {B : Type μ} where
  -- the rest of the block, by how the first part ended
  abbrev pub after : Result A → (A → Exec S B) → Exec S B
  after (ok a) f s = f a s
  after (raised x) f s = (raised x, s)

infixl 5 ◌>>=◌ ◌>>◌
abbrev pub ◌>>=◌ {ℓ κ μ} :
    {S : Type ℓ} {A : Type κ} {B : Type μ} → Exec S A → (A → Exec S B) → Exec S B
◌>>=◌ m f s = let (r, s') = m s in after r f s'

abbrev pub ◌>>◌ {ℓ κ μ} : {S : Type ℓ} {A : Type κ} {B : Type μ} → Exec S A → Exec S B → Exec S B
m >> n = m >>= λ _. n

-- `if denial is not None: raise Denied(denial)`
abbrev pub deny {ℓ} : {S : Type ℓ} → Option ErrorCode → Exec S (Unit {0})
deny none = pure tt
deny (some code) = raise (denied code)
