-- ===== src/Netctl/Gnmi/Reads.antt =====
-- provisioner.py: `_session_config_on` and `_session_telemetry_on`, over the JSON of the answers. An
-- answer is the list of the values of its updates. `shown` is what an f-string makes of a value
-- that is no text.
pub mod Shapes
pub mod Agree
use a2a_tokenized_provisioni.Base.{
  ℕ, Bool, true, false, Option, none, some, List, [], ◌∷◌, ◌++◌, ◌==◌, ◌&&◌, elem, if◌then◌else◌,
  text_eq, nat_eq, starts_with,
}
use a2a_tokenized_provisioni.Base.Decimal.{Text, codes}
use a2a_tokenized_provisioni.Exec.{
  Exec, Result, ok, raised, attribute_error, and_then, pure, lift, ◌>>=◌, ◌>>◌,
}
use a2a_tokenized_provisioni.Dict
use a2a_tokenized_provisioni.Dict.{Dict}
use a2a_tokenized_provisioni.Netctl.Gnmi.{
  Hands, Routers, path_text, policer_template, qos_interface, telemetry_destination,
  telemetry_tunnel, on_routers, client,
}
use a2a_tokenized_provisioni.Netctl.Gnmi.Json
use a2a_tokenized_provisioni.Netctl.Gnmi.Json.{
  Json, null, truth, number, string, array, object, Items, nil, Members, end, put_member,
  denamespace, or_empty, or_else, required, iterate,
}

abbrev pub qos_interfaces : Text
qos_interfaces = codes "/qos/interfaces"

abbrev pub qos_policer_templates : Text
qos_policer_templates = codes "/qos/policer-templates"

abbrev pub telemetry_destinations : Text
telemetry_destinations = codes "/system/grpc-tunnel"

-- `client.get(path=[...], datatype=...)` of pygnmi on a device
abbrev pub Getter : Type 0 → Type 0
Getter R = (device path datatype : Text) → Exec R (List Json)

-- `node.get(key, [])`, to run over
unfoldable pub entries : (key : Text) → Json → Result (List Json)
unfolding iterate
entries key node = and_then (Json.get key node) λ found. iterate (or_else found (array nil))

-- `_denamespace(update["val"] or {})`
unfoldable pub node_of : Json → Json
unfolding denamespace or_empty
node_of value = denamespace (or_empty value)

-- A loop whose body adds to a list, and may raise.
unfoldable pub gather {ℓ} : {A : Type ℓ} → (Json → Result (List A)) → List Json → Result (List A)
gather body [] = ok []
gather body (j ∷ js) =
    let rest = gather body js in and_then (body j) λ xs. and_then rest λ ys. ok (xs ++ ys)

-- `found == text`
abbrev pub is_text : Option Json → Text → Bool
is_text (some (string s)) name = s == name
is_text (some null) name = false
is_text (some (truth b)) name = false
is_text (some (number n)) name = false
is_text (some (array items)) name = false
is_text (some (object members)) name = false
is_text none name = false

module _ (shown : Json → Text) where
  -- a value in an f-string
  abbrev pub formatted : Json → Text
  formatted (string s) = s
  formatted null = shown null
  formatted (truth b) = shown (truth b)
  formatted (number n) = shown (number n)
  formatted (array items) = shown (array items)
  formatted (object members) = shown (object members)

  -- the body of the loop over the interfaces
  unfoldable pub attachment_of : (name : Text) → Json → Result (List Text)
  attachment_of name interface = and_then (Json.get (codes "input") interface) λ input.
      and_then (Json.get (codes "policer-templates") (or_else input (object end))) λ templates.
        and_then (Json.get (codes "policer-template") (or_else templates (object end))) λ found.
          if is_text found name
          then (and_then (Json.get (codes "interface-id") interface)
              λ id. and_then (required id) λ j. ok (path_text (qos_interface (formatted j)) ∷ []))
          else ok []

  unfoldable pub attachments_in : (name : Text) → List Json → Result (List Text)
  unfolding gather attachment_of entries node_of
  attachments_in name = gather λ value.
      and_then (entries (codes "interface") (node_of value))
        λ interfaces. gather (attachment_of name) interfaces

-- the target, once for each entry of the list under a key that has the name
unfoldable pub named_in : (key name target : Text) → Json → Result (List Text)
unfolding gather entries
named_in key name target node = and_then (entries key node) λ found.
    gather
      (λ j.
        and_then (Json.get (codes "name") j) λ n. ok (if is_text n name then target ∷ [] else []))
      found

unfoldable pub templates_in : (name : Text) → List Json → Result (List Text)
unfolding gather named_in node_of path_text
templates_in name = gather λ value.
    named_in (codes "policer-template") name (path_text (policer_template name)) (node_of value)

-- the two lists of `_session_telemetry_on`, tunnels and destinations, filled side by side
unfoldable pub telemetry_in : (name : Text) → List Json → Result (List Text × List Text)
unfolding named_in node_of path_text
telemetry_in name [] = ok ([], [])
telemetry_in name (value ∷ values) =
    let rest = telemetry_in name values in
    let node = node_of value in
    and_then (named_in (codes "tunnel") name (path_text (telemetry_tunnel name)) node) λ tunnels.
      and_then (named_in (codes "destination") name (path_text (telemetry_destination name)) node)
        λ destinations. and_then rest λ more. ok (tunnels ++ more.0, destinations ++ more.1)

module _ {R : Type 0} (shown : Json → Text) (getter : Getter R) where
  -- `_session_config_on` and `_session_telemetry_on`, one after the other
  unfoldable pub session_deletes_on : (device name : Text) → Exec (Hands R) (List Text)
  unfolding attachments_in templates_in telemetry_in
  session_deletes_on device name = do
    interfaces ← on_routers (getter device qos_interfaces (codes "config"))
    attached ← lift (attachments_in shown name interfaces)
    templates ← on_routers (getter device qos_policer_templates (codes "config"))
    held ← lift (templates_in name templates)
    telemetry ← on_routers (getter device telemetry_destinations (codes "config"))
    found ← lift (telemetry_in name telemetry)
    pure ((attached ++ held) ++ (found.0 ++ found.1))
