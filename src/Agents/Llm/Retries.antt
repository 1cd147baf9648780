-- ===== src/Agents/Llm/Retries.antt =====
-- llm.py: what a structured call returns, by the replies to its attempts.
use a2a_tokenized_provisioni.Base.{
  ℕ, suc, zero, ◌+◌, ◌<◌, ◌≤◌, ◌≡◌, inl, inr, Option, none, some, arith, subst, ltb, Bool-cases,
  Option-cases,
}
use a2a_tokenized_provisioni.Base.Decimal.{Text}
use a2a_tokenized_provisioni.Exec.{Exception, Result, ok, raised, structured_error, Result-cases}
use a2a_tokenized_provisioni.Agents.Llm.{extract_json, structured_from, structured}

module _ {ℓ} {A : Type ℓ} (chat : ℕ → Result Text) (validate : Text → Option A) where
  -- The reply to an attempt holds no object of the schema.
  abbrev pub Unusable : ℕ → Type ℓ
  Unusable i = (reply : Text) × (chat i ≡ ok reply) × (validate (extract_json reply) ≡ none)

  -- The ends of a call that has made `start` attempts and may make them up to `stop`.
  pub data Outcome (start stop : ℕ) : Result A → ℕ → Type ℓ where
    found :
        (i : ℕ) (reply : Text) (a : A)
        → start ≤ i
        → i < stop
        → ((j : ℕ) → start ≤ j → j < i → Unusable j)
        → chat i ≡ ok reply
        → validate (extract_json reply) ≡ some a
        → Outcome start stop (ok a) (i + 1)
    broken :
        (i : ℕ) (x : Exception)
        → start ≤ i
        → i < stop
        → ((j : ℕ) → start ≤ j → j < i → Unusable j)
        → chat i ≡ raised x
        → Outcome start stop (raised x) i
    exhausted :
        ((j : ℕ) → start ≤ j → j < stop → Unusable j)
        → Outcome start stop (raised structured_error) stop

  -- One more unusable reply before the rest of a call.
  extend :
      (start : ℕ)
      → Unusable start
      → (i : ℕ) → ((j : ℕ) → start + 1 ≤ j → j < i → Unusable j)
      → (j : ℕ) → start ≤ j
      → j < i
      → Unusable j
  extend start u i h j a b = elim (Bool-cases (ltb start j)) [
    | inl later ↦ h j (ground (arith, later)) b
    | inr first ↦ let same : start ≡ j = ground (arith, first, a) in subst Unusable same u
  ]

  before :
      {start stop : ℕ} {r : Result A} {n : ℕ}
      → Unusable start
      → Outcome (start + 1) stop r n
      → Outcome start stop r n
  before {start} u (found i reply a le lt h c v) =
      found i reply a (omega (arith, le)) lt (extend start u i h) c v
  before {start} u (broken i x le lt h c) = broken i x (omega (arith, le)) lt (extend start u i h) c
  before {start} {stop} u (exhausted h) = exhausted (extend start u stop h)

  structured_from_lem :
      (left attempts stop : ℕ)
      → left + attempts ≡ stop
      → let (r, n) = structured_from chat validate left attempts in Outcome attempts stop r n
  unfolding structured_from
  structured_from_lem zero attempts stop e =
      subst (λ n. Outcome attempts n (raised structured_error) attempts) (omega (arith, e))
        (exhausted (λ j a b. absurd (omega (arith, a, b))))
  structured_from_lem (suc left) attempts stop e = elim (Result-cases (chat attempts)) [
    | inr (x, p) ↦ rw p (
        broken attempts x (omega arith) (omega (arith, e)) (λ j a b. absurd (omega (arith, a, b)))
          p)
    | inl (reply, p) ↦ elim (Option-cases (validate (extract_json reply))) [
      | inr (a, q) ↦
          rw (p, q)
            (found attempts reply a (omega arith) (omega (arith, e))
              (λ j a b. absurd (omega (arith, a, b))) p q)
      | inl q ↦
          rw (p, q)
            (before (reply, p, q) (structured_from_lem left (attempts + 1) stop (omega (arith, e))))
    ]
  ]

  -- A structured call makes at most its budget of attempts: it returns the object of the first
  -- usable reply, or the first exception of the endpoint, or raises StructuredError after as many
  -- unusable replies as it may ask for; the count of its attempts says which.
  pub structured_lem :
      (max_retries : ℕ)
      → let (r, n) = structured chat validate max_retries in Outcome 0 max_retries r n
  unfolding structured
  structured_lem max_retries = structured_from_lem max_retries 0 max_retries (omega arith)
