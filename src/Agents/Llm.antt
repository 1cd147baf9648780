-- ===== src/Agents/Llm.antt =====
-- agents/src/agents/llm.py: `LLMClient.structured`, its retries, and `_extract_json`. The chat
-- endpoint is a parameter, the reply to each attempt of a call; so is pydantic's validation, which
-- gives nothing where it raises. The usage counters of a call are left out.
pub mod Retries
pub mod Extract
use a2a_tokenized_provisioni.Base.{
  ℕ, suc, zero, ◌+◌, ◌-◌, Bool, true, false, Option, none, some, [], ◌∷◌, ◌==◌, ◌&&◌, nat_eq,
  length, drop, if◌then◌else◌, starts_with,
}
use a2a_tokenized_provisioni.Base.Decimal.{Text, codes}
use a2a_tokenized_provisioni.Exec.{Result, ok, raised, structured_error}

-- the text after the last occurrence of a word
unfoldable pub after_last : (word text : Text) → Option Text
after_last word [] = none
after_last word (c ∷ text) = elim (after_last word text) [
  | some rest ↦ some rest
  | none ↦ if starts_with word (c ∷ text) then some (drop (length word) (c ∷ text)) else none
]

-- the text from the first "{"
unfoldable pub from_brace : Text → Option Text
from_brace [] = none
from_brace (c ∷ text) = if c == b'{' then some (c ∷ text) else from_brace text

abbrev pub prepend : (c : ℕ) → Option Text → Option Text
prepend c none = none
prepend c (some text) = some (c ∷ text)

-- The loop over the text from the first "{": up to the "}" at which the depth is zero.
unfoldable pub scan : (depth : ℕ) → Text → Option Text
scan depth [] = none
scan depth (c ∷ text) =
    let deeper = scan (depth + 1) text in
    let shallower = scan (depth - 1) text in
    let level = scan depth text in
    if c == b'{'
    then prepend c deeper
    else if c == b'}'
    then (if depth == 1 then some (c ∷ []) else prepend c shallower)
    else prepend c level

abbrev pub or_else : Option Text → Text → Text
or_else none text = text
or_else (some found) text = found

abbrev pub think_end : Text
think_end = codes "</think>"

-- the part of `_extract_json` after the thinking was dropped
unfoldable pub extract_object : Text → Text
unfolding scan
extract_object text = elim (from_brace text) [
  | none ↦ text
  | some rest ↦ or_else (scan 0 rest) rest
]

-- `_extract_json`
unfoldable pub extract_json : Text → Text
unfolding extract_object
extract_json text = extract_object (or_else (after_last think_end text) text)

-- a call, with the number of its attempts
module _ {ℓ} {A : Type ℓ} (chat : ℕ → Result Text) (validate : Text → Option A) where
  abbrev pub judged : Option A → (attempts : ℕ) → Result A × ℕ → Result A × ℕ
  judged none attempts later = later
  judged (some a) attempts later = (ok a, attempts)

  abbrev pub replied : Result Text → (attempts : ℕ) → Result A × ℕ → Result A × ℕ
  replied (raised x) attempts later = (raised x, attempts)
  replied (ok reply) attempts later = judged (validate (extract_json reply)) (attempts + 1) later

  -- `left` attempts are left after `attempts` made
  unfoldable pub structured_from : (left attempts : ℕ) → Result A × ℕ
  structured_from zero attempts = (raised structured_error, attempts)
  structured_from (suc left) attempts =
      let later = structured_from left (attempts + 1) in replied (chat attempts) attempts later

  unfoldable pub structured : (max_retries : ℕ) → Result A × ℕ
  unfolding structured_from
  structured max_retries = structured_from max_retries 0
