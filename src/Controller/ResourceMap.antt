-- ===== src/Controller/ResourceMap.antt =====
-- controller/src/controller/resource_map.py: `load_resource_map`, from what PyYAML read of the file.
-- The keys and the values are texts there. The exception's message is left out.
pub mod Keys
pub mod Entries
pub mod Loads
use a2a_tokenized_provisioni.Base.{
  ℕ, Bool, true, false, Option, none, some, List, [], ◌∷◌, ◌+◌, ◌*◌, ◌==◌, ◌&&◌, ◌||◌, leb,
  if◌then◌else◌, nat_eq, text_eq,
}
use a2a_tokenized_provisioni.Base.Decimal.{Text, codes}
use a2a_tokenized_provisioni.Base.Hex.{hex_digit}
use a2a_tokenized_provisioni.Exec.{Result, ok, raised, key_error, value_error, and_then}
use a2a_tokenized_provisioni.Dict
use a2a_tokenized_provisioni.Dict.{Dict}
use a2a_tokenized_provisioni.Interfaces.{Bytes, Resolved, path, node}
use a2a_tokenized_provisioni.Interfaces.Patterns.{is_hex}

-- one entry of the file, by the keys that the loader reads
pub record Spec : Type 0 where
  pub kind : Option Text
  pub device : Option Text
  pub ingress_if : Option Text
  pub egress_if : Option Text

-- `text.removeprefix("0x")`
unfoldable pub remove_0x : Text → Text
remove_0x [] = []
remove_0x (c ∷ []) = c ∷ []
remove_0x (c ∷ d ∷ s) = if c == b'0' && d == b'x' then s else c ∷ d ∷ s

-- a character that `bytes.fromhex` skips before a byte
abbrev pub is_space : ℕ → Bool
is_space c = c == 32 || (leb 9 c && leb c 13)

abbrev pub byte_before : ℕ → Result Bytes → Result Bytes
byte_before b rest = and_then rest (λ bytes. ok (b ∷ bytes))

-- `bytes.fromhex`: two digits for each byte, with spaces between the bytes
unfoldable pub fromhex : Text → Result Bytes
unfolding hex_digit
fromhex [] = ok []
fromhex (c ∷ []) = if is_space c then ok [] else raised value_error
fromhex (c ∷ d ∷ s) =
    let after_space = fromhex (d ∷ s) in
    let after_byte = fromhex s in
    if is_space c
    then after_space
    else if is_hex c && is_hex d
    then byte_before (hex_digit c * 16 + hex_digit d) after_byte
    else raised value_error

-- `spec[key]`
abbrev pub required : Option Text → Result Text
required none = raised key_error
required (some value) = ok value

-- `kind == ...`
abbrev pub kind_is : Option Text → Text → Bool
kind_is none name = false
kind_is (some kind) name = kind == name

unfoldable pub resolve : Spec → Result Resolved
resolve spec =
    if kind_is spec.kind (codes "path")
    then (and_then (required spec.device) λ device.
        and_then (required spec.ingress_if) λ ingress_if.
          and_then (required spec.egress_if) λ egress_if. ok (path device ingress_if egress_if))
    else if kind_is spec.kind (codes "node")
    then and_then (required spec.device) (λ device. ok (node device))
    else raised value_error

-- the key and the value of an entry
unfoldable pub load_entry : Text × Spec → Result (Bytes × Resolved)
unfolding remove_0x fromhex resolve
load_entry (resource_hex, spec) =
    and_then (fromhex (remove_0x resource_hex))
      λ key. and_then (resolve spec) (λ resolved. ok (key, resolved))

-- the loop, from a map that has been filled so far
unfoldable pub load_from : Dict Bytes Resolved → List (Text × Spec) → Result (Dict Bytes Resolved)
unfolding load_entry
load_from resource_map [] = ok resource_map
load_from resource_map (entry ∷ entries) =
    and_then (load_entry entry) (λ e. load_from (Dict.put resource_map e.0 e.1) entries)

-- `yaml.safe_load(...) or {}`
unfoldable pub load_resource_map : Option (List (Text × Spec)) → Result (Dict Bytes Resolved)
unfolding load_from
load_resource_map none = ok []
load_resource_map (some entries) = load_from [] entries
