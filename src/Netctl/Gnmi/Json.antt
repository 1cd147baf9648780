-- ===== src/Netctl/Gnmi/Json.antt =====
-- provisioner.py: the JSON that a router answers, `_denamespace`, and what Python does when it
-- reads a key of it or runs over it. A dictionary's keys differ, and a write keeps a key's place.
pub mod Keys
use a2a_tokenized_provisioni.Base.{
  ℕ, Bool, true, false, Option, none, some, List, [], ◌∷◌, ◌==◌, if◌then◌else◌, text_eq, nat_eq,
}
use a2a_tokenized_provisioni.Base.Decimal.{Text}
use a2a_tokenized_provisioni.Exec.{Result, ok, raised, attribute_error, type_error, key_error}

mutual
  pub data Json : Type 0 where
    null : Json
    truth : Bool → Json
    number : ℕ → Json
    string : Text → Json
    array : Items → Json
    object : Members → Json

  pub data Items : Type 0 where
    nil : Items
    cons : Json → Items → Items

  pub data Members : Type 0 where
    end : Members
    member : Text → Json → Members → Members

-- `dict[key] = value`
unfoldable pub put_member : Text → Json → Members → Members
put_member key value end = member key value end
put_member key value (member k v rest) =
    let put = put_member key value rest in if k == key then member k value rest else member k v put

unfoldable pub find_member : Text → Members → Option Json
find_member key end = none
find_member key (member k v rest) =
    let found = find_member key rest in if k == key then some v else found

-- what stands behind the first colon
unfoldable pub after_colon : Text → Option Text
after_colon [] = none
after_colon (c ∷ s) = let later = after_colon s in if c == b':' then some s else later

abbrev pub or_whole : Option Text → Text → Text
or_whole none key = key
or_whole (some s) key = s

-- `key.split(":", 1)[-1]`
unfoldable pub local_name : Text → Text
unfolding after_colon
local_name key = or_whole (after_colon key) key

-- `_denamespace`; the dictionary is built key by key, so that a later key of the same name wins
unfoldable mutual
  pub denamespace : Json → Json
  denamespace null = null
  denamespace (truth b) = truth b
  denamespace (number n) = number n
  denamespace (string s) = string s
  denamespace (array items) = array (denamespace_items items)
  denamespace (object members) = object (denamespace_members members end)

  pub denamespace_items : Items → Items
  denamespace_items nil = nil
  denamespace_items (cons j items) = cons (denamespace j) (denamespace_items items)

  pub denamespace_members : Members → Members → Members
  denamespace_members end built = built
  denamespace_members (member k v rest) built =
      denamespace_members rest (put_member (local_name k) (denamespace v) built)

-- `value or {}`
unfoldable pub or_empty : Json → Json
or_empty null = object end
or_empty (truth false) = object end
or_empty (truth true) = truth true
or_empty (number n) = if n == 0 then object end else number n
or_empty (string []) = object end
or_empty (string (c ∷ s)) = string (c ∷ s)
or_empty (array nil) = object end
or_empty (array (cons j items)) = array (cons j items)
or_empty (object members) = object members

-- `node.get(key)`
unfoldable pub get : Text → Json → Result (Option Json)
unfolding find_member
get key (object members) = ok (find_member key members)
get key null = raised attribute_error
get key (truth b) = raised attribute_error
get key (number n) = raised attribute_error
get key (string s) = raised attribute_error
get key (array items) = raised attribute_error

-- the value of `node.get(key, otherwise)`
abbrev pub or_else : Option Json → Json → Json
or_else none otherwise = otherwise
or_else (some j) otherwise = j

-- `node[key]`
abbrev pub required : Option Json → Result Json
required none = raised key_error
required (some j) = ok j

unfoldable pub list_of : Items → List Json
list_of nil = []
list_of (cons j items) = j ∷ list_of items

unfoldable pub keys_of : Members → List Json
keys_of end = []
keys_of (member k v rest) = string k ∷ keys_of rest

unfoldable pub characters : Text → List Json
characters [] = []
characters (c ∷ s) = string (c ∷ []) ∷ characters s

-- `for x in value`
unfoldable pub iterate : Json → Result (List Json)
unfolding list_of keys_of characters
iterate (array items) = ok (list_of items)
iterate (object members) = ok (keys_of members)
iterate (string s) = ok (characters s)
iterate null = raised type_error
iterate (truth b) = raised type_error
iterate (number n) = raised type_error
