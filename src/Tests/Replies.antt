-- ===== src/Tests/Replies.antt =====
-- Instances of the theorems on structured output.
use a2a_tokenized_provisioni.Base.{
  starts_with, ℕ, ◌≡◌, refl, ◌≢◌, All, Option, none, some, [], ◌==◌, if◌then◌else◌, arith, text_eq,
  nat_eq,
}
use a2a_tokenized_provisioni.Base.Decimal.{Text, codes}
use a2a_tokenized_provisioni.Exec.{Result, ok}
use a2a_tokenized_provisioni.Agents.Llm.{structured, after_last, think_end}
use a2a_tokenized_provisioni.Agents.Llm.Retries.{Outcome, structured_lem}
use a2a_tokenized_provisioni.Agents.Llm.Extract.{Nested, plain, other}

-- a model that first answers in prose
abbrev chat : ℕ → Result Text
chat i = if i == 0 then ok (codes "no") else ok (codes "{}")

abbrev validate : Text → Option ℕ
validate text = if text == codes "{}" then some 1 else none

structured_lem_example : let (r, n) = structured chat validate 3 in Outcome chat validate 0 3 r n
structured_lem_example = structured_lem chat validate 3

no_brace : All (λ c. c ≢ b'{') (codes "a")
no_brace = (λ e. omega (arith, e), tt)

inner : Nested (codes "1")
inner = other b'1' [] (λ e. omega (arith, e)) (λ e. omega (arith, e)) plain

unclosed : after_last think_end (codes "a{1}}") ≡ none
unfolding after_last starts_with
unclosed = refl
