-- ===== src/Agents/Llm/Extract.antt =====
-- llm.py: what `_extract_json` finds in a reply.
use a2a_tokenized_provisioni.Base.{
  starts_with, ℕ, ◌+◌, ◌-◌, ◌≡◌, refl, ◌≢◌, ap, ◌∙◌, sym, Option, none, some, [], ◌∷◌, ◌++◌, arith,
  All, nat_eq,
}
use mathlib.Core.List.{append_assoc}
use a2a_tokenized_provisioni.Base.Decimal.{Text}
use a2a_tokenized_provisioni.Agents.Llm.{
  after_last, from_brace, prepend, scan, or_else, think_end, extract_object, extract_json,
}

-- Text in which every brace is matched.
pub data Nested : Text → Type 0 where
  plain : Nested []
  other : (c : ℕ) (s : Text) → c ≢ b'{' → c ≢ b'}' → Nested s → Nested (c ∷ s)
  group : (s t : Text) → Nested s → Nested t → Nested (b'{' ∷ (s ++ b'}' ∷ t))

abbrev prefixed : Text → Option Text → Option Text
prefixed s none = none
prefixed s (some t) = some (s ++ t)

prefixed-append : (s t : Text) (o : Option Text) → prefixed s (prefixed t o) ≡ prefixed (s ++ t) o
prefixed-append s t none = refl
prefixed-append s t (some u) = ap (λ w. some w) (sym (append_assoc s t u))

prefixed-cons : (c : ℕ) (s : Text) (o : Option Text) → prepend c (prefixed s o) ≡ prefixed (c ∷ s) o
prefixed-cons c s none = refl
prefixed-cons c s (some t) = refl

prefixed-nil : (o : Option Text) → o ≡ prefixed [] o
prefixed-nil none = refl
prefixed-nil (some t) = refl

scan-open : (depth : ℕ) (s : Text) → scan depth (b'{' ∷ s) ≡ prepend b'{' (scan (depth + 1) s)
unfolding scan
scan-open depth s = refl

scan-close :
    (depth : ℕ) (s : Text) → scan (depth + 1 + 1) (b'}' ∷ s) ≡ prepend b'}' (scan (depth + 1) s)
unfolding scan
scan-close depth s =
    let less : depth + 1 + 1 - 1 ≡ depth + 1 = omega arith in rw less (ground arith)

scan-other :
    (depth c : ℕ) (s : Text) → c ≢ b'{' → c ≢ b'}' → scan depth (c ∷ s) ≡ prepend c (scan depth s)
unfolding scan
scan-other depth c s no_open no_close = ground (arith, no_open, no_close)

-- Matched text inside a group leaves the depth as it is.
scan-Nested :
    (s rest : Text) (depth : ℕ)
    → Nested s
    → scan (depth + 1) (s ++ rest) ≡ prefixed s (scan (depth + 1) rest)
scan-Nested _ rest depth plain = prefixed-nil (scan (depth + 1) rest)
scan-Nested _ rest depth (other c s no_open no_close inner) =
    scan-other (depth + 1) c (s ++ rest) no_open no_close
    ∙ ap (λ o. prepend c o) (scan-Nested s rest depth inner)
    ∙ prefixed-cons c s (scan (depth + 1) rest)
scan-Nested _ rest depth (group s t left right) =
    scan-open (depth + 1) ((s ++ b'}' ∷ t) ++ rest)
    ∙ ap (λ u. prepend b'{' (scan (depth + 1 + 1) u)) (append_assoc s (b'}' ∷ t) rest)
    ∙ ap (λ o. prepend b'{' o)
        (scan-Nested s (b'}' ∷ (t ++ rest)) (depth + 1) left
          ∙ ap (λ o. prefixed s o)
              (scan-close depth (t ++ rest)
                ∙ ap (λ o. prepend b'}' o) (scan-Nested t rest depth right)
                ∙ prefixed-cons b'}' t (scan (depth + 1) rest))
          ∙ prefixed-append s (b'}' ∷ t) (scan (depth + 1) rest))
    ∙ prefixed-cons b'{' (s ++ b'}' ∷ t) (scan (depth + 1) rest)

-- the object with these contents
abbrev pub object : Text → Text
object inner = b'{' ∷ (inner ++ b'}' ∷ [])

scan-last : (rest : Text) → scan 1 (b'}' ∷ rest) ≡ some (b'}' ∷ [])
unfolding scan
scan-last rest = refl

scan-object :
    (inner rest : Text)
    → Nested inner
    → scan 0 (b'{' ∷ (inner ++ b'}' ∷ rest)) ≡ some (object inner)
scan-object inner rest h =
    scan-open 0 (inner ++ b'}' ∷ rest)
    ∙ ap (λ o. prepend b'{' o)
        (scan-Nested inner (b'}' ∷ rest) 0 h ∙ ap (λ o. prefixed inner o) (scan-last rest))

from_brace-append :
    (prose rest : Text)
    → All (λ c. c ≢ b'{') prose
    → from_brace (prose ++ b'{' ∷ rest) ≡ some (b'{' ∷ rest)
unfolding from_brace
from_brace-append [] rest h = refl
from_brace-append (c ∷ prose) rest h = ground (arith, h.0, from_brace-append prose rest h.1)

after_last-append :
    (word before text rest : Text)
    → after_last word text ≡ some rest
    → after_last word (before ++ text) ≡ some rest
unfolding after_last
after_last-append word [] text rest h = h
after_last-append word (c ∷ before) text rest h =
    rw (after_last-append word before text rest h) refl

after_last-think_end :
    (text : Text)
    → after_last think_end text ≡ none
    → after_last think_end (think_end ++ text) ≡ some text
unfolding after_last starts_with
after_last-think_end text h = rw h refl

extract_object-object :
    (prose inner rest : Text)
    → All (λ c. c ≢ b'{') prose
    → Nested inner
    → extract_object (prose ++ b'{' ∷ (inner ++ b'}' ∷ rest)) ≡ object inner
unfolding extract_object
extract_object-object prose inner rest no_brace nested =
    rw
      (
        extract_object,
        from_brace-append prose (inner ++ b'}' ∷ rest) no_brace,
        scan-object inner rest nested,
      )
      refl

-- A reply is prose with no brace, an object whose inner braces match, and anything after it; a
-- reply may begin with thinking that is closed, where nothing after it closes thinking again. Then
-- the object is what is extracted, with the thinking and without.
pub extract_json-object :
    (thinking prose inner rest : Text)
    → All (λ c. c ≢ b'{') prose
    → Nested inner
    → after_last think_end (prose ++ b'{' ∷ (inner ++ b'}' ∷ rest)) ≡ none
    → let reply = prose ++ b'{' ∷ (inner ++ b'}' ∷ rest) in
      (extract_json reply ≡ object inner)
      × (extract_json (thinking ++ (think_end ++ reply)) ≡ object inner)
unfolding extract_json
extract_json-object thinking prose inner rest no_brace nested unclosed =
    let reply = prose ++ b'{' ∷ (inner ++ b'}' ∷ rest) in
    let found = extract_object-object prose inner rest no_brace nested in
    let thought =
      after_last-append think_end thinking (think_end ++ reply) reply
        (after_last-think_end reply unclosed) in
    (
      ap (λ o. extract_object (or_else o reply)) unclosed ∙ found,
      ap (λ o. extract_object (or_else o (thinking ++ (think_end ++ reply)))) thought ∙ found,
    )
