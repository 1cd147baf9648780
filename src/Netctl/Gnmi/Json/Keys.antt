-- ===== src/Netctl/Gnmi/Json/Keys.antt =====
-- provisioner.py: what a dictionary that `_denamespace` built holds under a key.
use a2a_tokenized_provisioni.Base.{
  ◌≡◌, refl, Option, none, some, ◌==◌, if◌then◌else◌, arith, text_eq, inl, inr, Bool-cases,
  Option-cases,
}
use a2a_tokenized_provisioni.Base.Decimal.{Text}
use a2a_tokenized_provisioni.Exec.{ok}
use a2a_tokenized_provisioni.Netctl.Gnmi.Json
use a2a_tokenized_provisioni.Netctl.Gnmi.Json.{
  Json, object, Members, end, member, put_member, find_member, local_name, denamespace,
  denamespace_members,
}

-- the later of two values, if there is one
abbrev pub later_or : (later earlier : Option Json) → Option Json
later_or none earlier = earlier
later_or (some j) earlier = some j

-- The value of the last member whose key is `key` behind any module.
unfoldable pub last_named : (key : Text) → Members → Option Json
last_named key end = none
last_named key (member k v rest) =
    later_or (last_named key rest) (if local_name k == key then some v else none)

-- the value without modules
abbrev pub plain : Option Json → Option Json
plain none = none
plain (some j) = some (denamespace j)

pub find_member-put_member :
    (key k : Text) (v : Json) (built : Members)
    → find_member key (put_member k v built) ≡ (if k == key then some v else find_member key built)
unfolding find_member put_member
find_member-put_member key k v end = refl
find_member-put_member key k v (member i w rest) = ground (
  arith,
  find_member-put_member key k v rest,
  text_eq.beq_iff i k,
  text_eq.beq_iff i key,
  text_eq.beq_iff k key,
)

pub find_member-denamespace_members :
    (key : Text) (members built : Members)
    → find_member key (denamespace_members members built)
      ≡ later_or (plain (last_named key members)) (find_member key built)
unfolding denamespace last_named
find_member-denamespace_members key end built = refl
find_member-denamespace_members key (member k v rest) built =
    let ih =
      find_member-denamespace_members key rest (put_member (local_name k) (denamespace v) built) in
    let put = find_member-put_member key (local_name k) (denamespace v) built in
    elim (Option-cases (last_named key rest)) [
      | inr (j, e) ↦ rw (ih, e) refl
      | inl e ↦ elim (Bool-cases (local_name k == key)) [
        | inl own ↦ rw (ih, e, put, own) refl
        | inr other ↦ rw (ih, e, put, other) refl
      ]
    ]

-- `node.get(key)` of a value without modules.
pub get-denamespace :
    (key : Text) (members : Members) (found : Option Json)
    → last_named key members ≡ found
    → Json.get key (denamespace (object members)) ≡ ok (plain found)
unfolding Json.get denamespace find_member
get-denamespace key members none e = rw (find_member-denamespace_members key members end, e) refl
get-denamespace key members (some j) e =
    rw (find_member-denamespace_members key members end, e) refl
