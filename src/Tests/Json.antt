-- ===== src/Tests/Json.antt =====
-- The JSON of a rack's answers: every key has a module before it, and the keys that the provisioner
-- writes and never reads stand beside those that it reads.
use a2a_tokenized_provisioni.Base.{
  ◌≡◌, refl, sym, ◌++◌, Option, none, some, List, [], ◌∷◌, ◌==◌, if◌then◌else◌, map, inr, text_eq,
  text_beq,
}
use mathlib.Core.List.{append-nil}
use a2a_tokenized_provisioni.Base.Decimal.{Text, codes}
use a2a_tokenized_provisioni.Exec.{ok}
use a2a_tokenized_provisioni.Netctl.Gnmi.Operations.{session_deletes}
use a2a_tokenized_provisioni.Netctl.Gnmi.Json.{
  Json, string, number, array, object, Items, nil, cons, end, member, after_colon, local_name,
}
use a2a_tokenized_provisioni.Netctl.Gnmi.Json.Keys.{last_named}
use a2a_tokenized_provisioni.Netctl.Gnmi.Reads.{
  Getter, qos_interfaces, qos_policer_templates, session_deletes_on,
}
use a2a_tokenized_provisioni.Netctl.Gnmi.Reads.Shapes.{
  IsInterface, bound, no_input, IsNamed, has_name, Each, no_item, an_item, no_value, holding,
}
use a2a_tokenized_provisioni.Netctl.Gnmi.Reads.Agree.{IsTelemetry, Tells, session_deletes_on-eq}
use a2a_tokenized_provisioni.Tests.Racks.{Rack, racks, busy, devices}

abbrev pub qos : Text → Text
qos key = codes "srl_nokia-qos:" ++ key

abbrev pub items_of : List Json → Items
items_of [] = nil
items_of (j ∷ js) = cons j (items_of js)

pub Each-items_of :
    {A : Type 0} (R : Json → A → Type 0) (f : A → Json)
    → ((a : A) → R (f a) a)
    → (l : List A) → Each R (items_of (map f l)) l
Each-items_of R f h [] = no_item
Each-items_of R f h (a ∷ l) = an_item (f a) a (items_of (map f l)) l (h a) (Each-items_of R f h l)

abbrev interface_ref : Text → Json
interface_ref id =
    object (member (codes "interface") (string id) (member (codes "subinterface") (number 0) end))

abbrev interface_json : Text × Option Text → Json
interface_json (id, none) = object (
    member (qos (codes "interface-id")) (string id)
      (member (codes "interface-ref") (interface_ref id) end))
interface_json (id, some t) = object (
    member (qos (codes "interface-id")) (string id) (
      member (codes "interface-ref") (interface_ref id) (
        member (codes "input")
          (object (
            member (qos (codes "policer-templates"))
              (object (member (codes "policer-template") (string t) end)) end))
          end)))

interface_json-IsInterface : (x : Text × Option Text) → IsInterface (interface_json x) x
unfolding last_named local_name after_colon text_beq
interface_json-IsInterface (id, none) = no_input _ id refl refl
interface_json-IsInterface (id, some t) = bound _ _ _ id t refl refl refl refl

abbrev template_json : Text → Json
template_json name = object (
    member (qos (codes "name")) (string name) (
      member (codes "policer")
        (array (cons (object (member (codes "sequence-id") (number 1) end)) nil)) end))

template_json-IsNamed : (name : Text) → IsNamed (template_json name) name
unfolding last_named local_name after_colon text_beq
template_json-IsNamed name = has_name _ name refl

-- a tunnel, with the destination that it dials
abbrev pub tunnel_json : Text → Json
tunnel_json name = object (
    member (codes "name") (string name) (
      member (codes "admin-state") (string (codes "enable")) (
        member (codes "destination")
          (array (cons (object (member (codes "name") (string name) end)) nil)) end)))

pub tunnel_json-IsNamed : (name : Text) → IsNamed (tunnel_json name) name
unfolding last_named local_name after_colon text_beq
tunnel_json-IsNamed name = has_name _ name refl

abbrev pub destination_json : Text → Json
destination_json name = object (
    member (codes "name") (string name) (
      member (qos (codes "address")) (string (codes "10.0.0.50")) (
        member (codes "port") (number 57000)
          (member (codes "network-instance") (string (codes "mgmt")) end))))

pub destination_json-IsNamed : (name : Text) → IsNamed (destination_json name) name
unfolding last_named local_name after_colon text_beq
destination_json-IsNamed name = has_name _ name refl

abbrev list_answer : (key : Text) → List Json → List Json
list_answer key js = object (member (qos key) (array (items_of js)) end) ∷ []

abbrev pub telemetry_answer : List Text × List Text → List Json
telemetry_answer (tunnels, destinations) =
    object (
      member (qos (codes "tunnel")) (array (items_of (map tunnel_json tunnels)))
        (member (codes "destination") (array (items_of (map destination_json destinations))) end))
    ∷ []

telemetry_answer-IsTelemetry :
    (tunnels destinations : List Text)
    → IsTelemetry (telemetry_answer (tunnels, destinations)) (tunnels, destinations)
unfolding last_named local_name after_colon text_beq
telemetry_answer-IsTelemetry tunnels destinations = (
  holding _ _ [] tunnels [] tunnels refl
      (Each-items_of IsNamed tunnel_json tunnel_json-IsNamed tunnels) no_value
      (sym (append-nil tunnels)),
  holding _ _ [] destinations [] destinations refl
      (Each-items_of IsNamed destination_json destination_json-IsNamed destinations) no_value
      (sym (append-nil destinations)),
)

abbrev getter : Getter Rack
getter device path datatype rack =
    if path == qos_interfaces
    then (ok (list_answer (codes "interface") (map interface_json (rack device).interfaces)), rack)
    else if path == qos_policer_templates
    then (
      ok (list_answer (codes "policer-template") (map template_json (rack device).templates)),
      rack,
    )
    else (ok (telemetry_answer ((rack device).tunnels, (rack device).destinations)), rack)

getter-Tells : Tells getter racks
unfolding last_named local_name after_colon text_beq
getter-Tells = record {
  interfaces = λ device rack.
      let found = (rack device).interfaces in
      (
        refl,
        inr (
          _,
          found,
          refl,
          refl,
          holding _ _ [] found [] found refl
              (Each-items_of IsInterface interface_json interface_json-IsInterface found) no_value
              (sym (append-nil found)),
        ),
      );
  templates = λ device rack.
      let found = (rack device).templates in
      (
        refl,
        inr (
          _,
          found,
          refl,
          refl,
          holding _ _ [] found [] found refl
              (Each-items_of IsNamed template_json template_json-IsNamed found) no_value
              (sym (append-nil found)),
        ),
      );
  telemetry = λ device rack.
      let c = rack device in
      (
        refl,
        inr (
          _,
          (c.tunnels, c.destinations),
          refl,
          refl,
          telemetry_answer-IsTelemetry c.tunnels c.destinations,
        ),
      );
}

abbrev shown : Json → Text
shown = λ j. codes "None"

session_deletes_on-eq_example :
    session_deletes_on shown getter (codes "srl1") (codes "a2a-ent7-a0") busy
    ≡ session_deletes racks devices (codes "srl1") (codes "a2a-ent7-a0") busy
session_deletes_on-eq_example =
    session_deletes_on-eq shown getter racks getter-Tells devices (codes "srl1")
      (codes "a2a-ent7-a0") busy
