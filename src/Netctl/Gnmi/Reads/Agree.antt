-- ===== src/Netctl/Gnmi/Reads/Agree.antt =====
-- provisioner.py: the delete-list that is read from the JSON of a router's answers is that of the
-- configuration which the answers say.
use a2a_tokenized_provisioni.Base.{◌≡◌, refl, ◌⊎◌, inl, inr, List, ◌++◌}
use mathlib.Core.List.{append_assoc}
use a2a_tokenized_provisioni.Base.Decimal.{Text, codes}
use a2a_tokenized_provisioni.Exec.{Exception, Result, ok, raised}
use a2a_tokenized_provisioni.Netctl.Gnmi.{
  Routers, Hands, path_text, policer_template, telemetry_tunnel, telemetry_destination, attached,
  named,
}
use a2a_tokenized_provisioni.Netctl.Gnmi.Operations.{session_deletes}
use a2a_tokenized_provisioni.Netctl.Gnmi.Json.{Json}
use a2a_tokenized_provisioni.Netctl.Gnmi.Reads.{
  Getter, qos_interfaces, qos_policer_templates, telemetry_destinations, templates_in, telemetry_in,
  session_deletes_on,
}
use a2a_tokenized_provisioni.Netctl.Gnmi.Reads.Shapes.{
  IsInterface, IsNamed, Lists, lacking, holding, no_value, attachments_in-Lists, gather-named_in,
  named_in-holding, named_in-lacking, named-append,
}

-- The tunnels and the destinations of an answer.
abbrev pub IsTelemetry : List Json → List Text × List Text → Type 0
IsTelemetry values (tunnels, destinations) =
    Lists IsNamed (codes "tunnel") values tunnels
    × Lists IsNamed (codes "destination") values destinations

-- A read of JSON and a read of the configuration leave the same and raise the same, or the JSON
-- says the configuration.
abbrev pub Agrees :
    {A R : Type 0} → (List Json → A → Type 0) → Result (List Json) × R → Result A × R → Type 0
Agrees {A} Says (j, r) (c, r') =
    (r ≡ r')
    × (((x : Exception) × (j ≡ raised x) × (c ≡ raised x))
        ⊎ ((values : List Json) × (a : A) × (j ≡ ok values) × (c ≡ ok a) × Says values a))

-- What pygnmi answers for the three paths says the configuration of the routers.
pub record Tells {R : Type 0} (getter : Getter R) (routers : Routers R) : Type 0 where
  pub interfaces :
      (device : Text) (r : R)
      → Agrees
          (Lists IsInterface (codes "interface"))
          (getter device qos_interfaces (codes "config") r)
          (routers.get_interfaces device r)
  pub templates :
      (device : Text) (r : R)
      → Agrees
          (Lists IsNamed (codes "policer-template"))
          (getter device qos_policer_templates (codes "config") r)
          (routers.get_templates device r)
  pub telemetry :
      (device : Text) (r : R)
      → Agrees IsTelemetry
          (getter device telemetry_destinations (codes "config") r)
          (routers.get_tunnels device r)

templates_in-Lists :
    (name : Text) (values : List Json) (found : List Text)
    → Lists IsNamed (codes "policer-template") values found
    → templates_in name values ≡ ok (named name (path_text (policer_template name)) found)
unfolding templates_in
templates_in-Lists name values found l =
    gather-named_in name (path_text (policer_template name)) (codes "policer-template") values found
      l

module _ (name : Text) where
  abbrev tunnel_path : Text
  tunnel_path = path_text (telemetry_tunnel name)

  abbrev destination_path : Text
  destination_path = path_text (telemetry_destination name)

  telemetry_in-IsTelemetry :
      (values : List Json) (tunnels destinations : List Text)
      → Lists IsNamed (codes "tunnel") values tunnels
      → Lists IsNamed (codes "destination") values destinations
      → telemetry_in name values
        ≡ ok (named name tunnel_path tunnels, named name destination_path destinations)
  unfolding telemetry_in
  telemetry_in-IsTelemetry values tunnels destinations no_value no_value = unfold named in refl
  telemetry_in-IsTelemetry values tunnels destinations (lacking members rest _ e l)
        (lacking _ _ _ e' l') =
      rw
        (
          named_in-lacking name tunnel_path (codes "tunnel") members e,
          named_in-lacking name destination_path (codes "destination") members e',
          telemetry_in-IsTelemetry rest tunnels destinations l l',
        )
        refl
  telemetry_in-IsTelemetry values tunnels destinations (lacking members rest _ e l)
        (holding _ items' _ here' more' _ e' each' l' join') =
      rw
        (
          named_in-lacking name tunnel_path (codes "tunnel") members e,
          named_in-holding name destination_path (codes "destination") members items' here' e'
              each',
          telemetry_in-IsTelemetry rest tunnels more' l l',
          join',
          named-append name destination_path here' more',
        )
        refl
  telemetry_in-IsTelemetry values tunnels destinations
        (holding members items rest here more _ e each l join) (lacking _ _ _ e' l') =
      rw
        (
          named_in-holding name tunnel_path (codes "tunnel") members items here e each,
          named_in-lacking name destination_path (codes "destination") members e',
          telemetry_in-IsTelemetry rest more destinations l l',
          join,
          named-append name tunnel_path here more,
        )
        refl
  telemetry_in-IsTelemetry values tunnels destinations
        (holding members items rest here more _ e each l join)
        (holding _ items' _ here' more' _ e' each' l' join') =
      rw
        (
          named_in-holding name tunnel_path (codes "tunnel") members items here e each,
          named_in-holding name destination_path (codes "destination") members items' here' e'
              each',
          telemetry_in-IsTelemetry rest more more' l l',
          join,
          join',
          named-append name tunnel_path here more,
          named-append name destination_path here' more',
        )
        refl

module _ {R : Type 0} (shown : Json → Text) (getter : Getter R) (routers : Routers R)
    (tells : Tells getter routers) (targets : List Text) where
  -- Where the answers say the configuration, with any modules before their keys and any other keys
  -- beside them, the delete-list that is read from them is that of the configuration, in the same
  -- order; where a read raises, both raise the same and leave the same.
  pub session_deletes_on-eq :
      (device name : Text) (h : Hands R)
      → session_deletes_on shown getter device name h
        ≡ session_deletes routers targets device name h
  unfolding session_deletes_on session_deletes
  session_deletes_on-eq device name h =
      let (same1, case1) = tells.interfaces device h.routers in
      elim case1 [
        | inl (x, j, c) ↦ rw (j, c, same1) refl
        | inr (values, found, j, c, says) ↦
            let r1 = (routers.get_interfaces device h.routers).1 in
            let (same2, case2) = tells.templates device r1 in
            let read1 = attachments_in-Lists shown name values found says in
            elim case2 [
              | inl (x, j2, c2) ↦ rw (j, c, same1, read1, j2, c2, same2) refl
              | inr (values2, found2, j2, c2, says2) ↦
                  let r2 = (routers.get_templates device r1).1 in
                  let (same3, case3) = tells.telemetry device r2 in
                  let read2 = templates_in-Lists name values2 found2 says2 in
                  elim case3 [
                    | inl (x, j3, c3) ↦
                        rw (j, c, same1, read1, j2, c2, same2, read2, j3, c3, same3) refl
                    | inr (values3, (tunnels, destinations), j3, c3, (says3, says4)) ↦
                        let read3 =
                          telemetry_in-IsTelemetry name values3 tunnels destinations says3 says4 in
                        rw (j, c, same1, read1, j2, c2, same2, read2, j3, c3, same3, read3)
                          (rw
                            (append_assoc (attached name found)
                              (named name (path_text (policer_template name)) found2)
                              (named name (tunnel_path name) tunnels
                                ++ named name (destination_path name) destinations))
                            refl)
                  ]
            ]
      ]
