-- ===== src/Chainmcp/Reverts/Names.antt =====
-- artifacts.py and client.py: a revert is named after the last error of the ABIs with its selector.
use a2a_tokenized_provisioni.Base.{
  ℕ, ◌+◌, ◌*◌, ◌/◌, ◌%◌, ◌<◌, ◌≡◌, refl, ◌∙◌, ap, Bool, true, false, Option, none, some, List, [],
  ◌∷◌, ◌++◌, ◌==◌, if◌then◌else◌, starts_with, nat_eq, text_eq, arith,
}
use a2a_tokenized_provisioni.Base.Decimal.{Text, codes}
use a2a_tokenized_provisioni.Base.Hex.{hex_char, hex_digit-hex_char}
use a2a_tokenized_provisioni.Exec.{ok, raised, key_error, chain_revert}
use a2a_tokenized_provisioni.Dict
use a2a_tokenized_provisioni.Dict.{Dict, get-put}
use a2a_tokenized_provisioni.Interfaces.{Bytes}
use a2a_tokenized_provisioni.Interfaces.Patterns.Hex.{hex_char-is_hex}
use a2a_tokenized_provisioni.Controller.ResourceMap.{fromhex, is_space, byte_before}
use a2a_tokenized_provisioni.Chainmcp.Client.{nonexistent}
use a2a_tokenized_provisioni.Chainmcp.Reverts.{
  AbiEntry, error, other, selector, add_errors, add_abis, error_selectors, LogicError, name_or,
  has_selector, data_of, reverts, revert_name, as_chain_revert, owner_of, receipt_of,
}

-- two lower-case digits
abbrev pub byte_text : ℕ → Text
byte_text b = hex_char (b / 16) ∷ hex_char (b % 16) ∷ []

hex_char-is_space : (d : ℕ) → d < 16 → is_space (hex_char d) ≡ false
unfolding hex_char
hex_char-is_space d h = ground (arith, h)

fromhex-byte :
    (b : ℕ) (s : Text)
    → b < 256
    → fromhex (hex_char (b / 16) ∷ hex_char (b % 16) ∷ s) ≡ byte_before b (fromhex s)
unfolding fromhex
fromhex-byte b s h =
    let high : b / 16 < 16 = omega (arith, h) in
    let low : b % 16 < 16 = omega arith in
    let whole : b / 16 * 16 + b % 16 ≡ b = omega arith in
    rw
      (
        hex_char-is_space (b / 16) high,
        hex_char-is_hex (b / 16) high,
        hex_char-is_hex (b % 16) low,
        hex_digit-hex_char (b / 16) high,
        hex_digit-hex_char (b % 16) low,
        whole,
      )
      refl

abbrev or_earlier : Option Text → Option Text → Option Text
or_earlier (some later) earlier = some later
or_earlier none earlier = earlier

module _ (keccak : Text → Bytes) where
  -- the last error with a selector, in one ABI and in several
  unfoldable pub last_error : Bytes → List AbiEntry → Option Text
  last_error sel [] = none
  last_error sel (error name inputs ∷ abi) =
      or_earlier (last_error sel abi)
        (if selector keccak name inputs == sel then some name else none)
  last_error sel (other ∷ abi) = last_error sel abi

  unfoldable pub last_of_all : Bytes → List (List AbiEntry) → Option Text
  unfolding last_error
  last_of_all sel [] = none
  last_of_all sel (abi ∷ abis) = or_earlier (last_of_all sel abis) (last_error sel abi)

  or_earlier-if :
      (later earlier : Option Text) (b : Bool) (name : Text)
      → or_earlier later (if b then some name else earlier)
        ≡ or_earlier (or_earlier later (if b then some name else none)) earlier
  or_earlier-if (some n) earlier b name = refl
  or_earlier-if none earlier true name = refl
  or_earlier-if none earlier false name = refl

  or_earlier_assoc :
      (a b c : Option Text) → or_earlier a (or_earlier b c) ≡ or_earlier (or_earlier a b) c
  or_earlier_assoc (some n) b c = refl
  or_earlier_assoc none b c = refl

  get-add_errors :
      (sel : Bytes) (abi : List AbiEntry) (table : Dict Bytes Text)
      → Dict.get (add_errors keccak abi table) sel
        ≡ or_earlier (last_error sel abi) (Dict.get table sel)
  unfolding add_errors last_error
  get-add_errors sel [] table = refl
  get-add_errors sel (error name inputs ∷ abi) table =
      get-add_errors sel abi (Dict.put table (selector keccak name inputs) name)
      ∙ ap (or_earlier (last_error sel abi)) (get-put table (selector keccak name inputs) sel name)
      ∙ or_earlier-if (last_error sel abi) (Dict.get table sel) (selector keccak name inputs == sel)
          name
  get-add_errors sel (other ∷ abi) table = get-add_errors sel abi table

  get-add_abis :
      (sel : Bytes) (abis : List (List AbiEntry)) (table : Dict Bytes Text)
      → Dict.get (add_abis keccak abis table) sel
        ≡ or_earlier (last_of_all sel abis) (Dict.get table sel)
  unfolding add_abis last_of_all
  get-add_abis sel [] table = refl
  get-add_abis sel (abi ∷ abis) table =
      get-add_abis sel abis (add_errors keccak abi table)
      ∙ ap (or_earlier (last_of_all sel abis)) (get-add_errors sel abi table)
      ∙ or_earlier_assoc (last_of_all sel abis) (last_error sel abi) (Dict.get table sel)

  or_earlier-none : (a : Option Text) → or_earlier a none ≡ a
  or_earlier-none (some n) = refl
  or_earlier-none none = refl

  get-error_selectors :
      (sel : Bytes) (abis : List (List AbiEntry))
      → Dict.get (error_selectors keccak abis) sel ≡ last_of_all sel abis
  unfolding error_selectors Dict.get
  get-error_selectors sel abis = get-add_abis sel abis [] ∙ or_earlier-none (last_of_all sel abis)

  module _ (abis : List (List AbiEntry)) (a b c d : ℕ) (rest message : Text) where
    -- what a node answers for a revert: the selector and the encoded arguments
    abbrev pub answered : LogicError
    answered = record {
      revert_data =
          some (
            codes "0x" ++ (byte_text a ++ (byte_text b ++ (byte_text c ++ (byte_text d ++ rest)))));
      message = message;
    }

    -- the last error with the selector, or the selector itself
    abbrev pub name_of_selector : Text
    name_of_selector =
        name_or (last_of_all (a ∷ b ∷ c ∷ d ∷ []) abis)
          (codes "0x" ++ (byte_text a ++ (byte_text b ++ (byte_text c ++ byte_text d))))

    module _ (small : (a < 256) × (b < 256) × (c < 256) × (d < 256)) where
      fromhex-selector :
          fromhex (byte_text a ++ (byte_text b ++ (byte_text c ++ byte_text d)))
          ≡ ok (a ∷ b ∷ c ∷ d ∷ [])
      fromhex-selector =
          rw
            (
              fromhex-byte a (byte_text b ++ (byte_text c ++ byte_text d)) small.0,
              fromhex-byte b (byte_text c ++ byte_text d) small.1,
              fromhex-byte c (byte_text d) small.2,
              fromhex-byte d [] small.3,
            )
            (unfold fromhex in refl)

      has_selector-answered : has_selector (data_of answered.revert_data) ≡ true
      unfolding has_selector starts_with
      has_selector-answered = ground arith

      revert_name-answered :
          revert_name (error_selectors keccak abis) answered ≡ ok name_of_selector
      unfolding revert_name
      revert_name-answered =
          rw
            (has_selector-answered, fromhex-selector, get-error_selectors (a ∷ b ∷ c ∷ d ∷ []) abis)
            refl

      -- A revert whose data is a selector and arguments is named after the last error of the ABIs
      -- with the selector, or else by the selector's digits; a transaction raises ChainRevert with
      -- that name, and so does a read of the owner, except that a token that does not exist is a
      -- KeyError.
      pub reverts-named :
          let errors = error_selectors keccak abis in
          (revert_name errors answered ≡ ok name_of_selector)
          × (receipt_of errors (reverts answered) ≡ raised (chain_revert name_of_selector))
          × (owner_of errors (reverts answered) ≡ (
              if name_of_selector == nonexistent
              then raised key_error
              else raised (chain_revert name_of_selector)))
      unfolding receipt_of owner_of as_chain_revert
      reverts-named = rw revert_name-answered (refl, refl, refl)
