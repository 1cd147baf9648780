-- ===== src/Netctl/Gnmi/Operations.antt =====
-- provisioner.py: the four operations of the port. What `health` adds to the cached connections is
-- left out, since the port's answer is a Boolean.
use a2a_tokenized_provisioni.Base.{ℕ, Bool, true, false, List, [], ◌∷◌, ◌++◌, text_eq, nat_eq}
use a2a_tokenized_provisioni.Base.Decimal.{Text, codes}
use a2a_tokenized_provisioni.Exec.{
  Exec, Result, ok, raised, attribute_error, pure, raise, lift, ◌>>=◌, ◌>>◌,
}
use a2a_tokenized_provisioni.Interfaces.{Resolved, path, node, ApplyResult}
use a2a_tokenized_provisioni.Interfaces.Ports.{NetworkProvisioner}
use a2a_tokenized_provisioni.Netctl.Gnmi.{
  policer_template, qos_interface, telemetry_destination, telemetry_tunnel, path_text, template,
  attachment, destination, tunnel, Routers, Hands, burst_bytes, tunnel_grpc_server, template_name,
  rate_of, rpartition, host_port, port_of, address_of, good, bad, on_routers, reported, attached,
  named, client,
}

module _ {R : Type 0} (routers : Routers R) (targets : List Text) where
  unfoldable pub apply_bandwidth :
      (session_id : Text) → Resolved → (capacity_bps qos_class : ℕ) → Exec (Hands R) ApplyResult
  unfolding client template_name rate_of path_text
  apply_bandwidth session_id (node device) capacity_bps qos_class = raise attribute_error
  apply_bandwidth session_id (path device ingress_if egress_if) capacity_bps qos_class =
      let name = template_name session_id in
      let subif = ingress_if ++ codes ".0" in
      reported (codes "policer " ++ (name ++ (codes " @ " ++ (device ++ (codes "/" ++ subif)))))
        (codes "gNMI Set failed")
        (do
          client routers targets device
          on_routers (
              routers.set_update device (
                (path_text (policer_template name), template (rate_of capacity_bps) burst_bytes)
                ∷ (path_text (qos_interface subif), attachment ingress_if name)
                ∷ [])))

  abbrev pub device_of : Resolved → Text
  device_of (path device ingress_if egress_if) = device
  device_of (node device) = device

  unfoldable pub apply_telemetry :
      (session_id : Text)
      → Resolved
      → (sensor_paths : List Text) (collector_endpoint : Text) (sample_interval_s : ℕ)
      → Exec (Hands R) ApplyResult
  unfolding client template_name rpartition port_of address_of path_text
  apply_telemetry session_id target sensor_paths collector_endpoint sample_interval_s =
      let name = template_name session_id in
      let (host, digits) = host_port (rpartition collector_endpoint) collector_endpoint in
      do
        port ← lift (port_of digits)
        reported
            (codes "telemetry export "
              ++ (name
                  ++ (codes " @ " ++ (device_of target ++ (codes " → " ++ collector_endpoint)))))
            (codes "gNMI Set failed")
            (do
              client routers targets (device_of target)
              on_routers (
                  routers.set_update (device_of target) (
                    (
                      path_text (telemetry_destination name),
                      destination (address_of host) port (codes "mgmt"),
                    )
                    ∷ (
                      path_text (telemetry_tunnel name),
                      tunnel name (device_of target) tunnel_grpc_server,
                    )
                    ∷ [])))

  -- `_session_config_on` and `_session_telemetry_on`: attachments before templates, tunnels before
  -- destinations
  unfoldable pub session_deletes : (device name : Text) → Exec (Hands R) (List Text)
  unfolding attached named path_text
  session_deletes device name = do
    interfaces ← on_routers (routers.get_interfaces device)
    templates ← on_routers (routers.get_templates device)
    tunnels ← on_routers (routers.get_tunnels device)
    pure (
        attached name interfaces
        ++ (named name (path_text (policer_template name)) templates
            ++ (named name (path_text (telemetry_tunnel name)) tunnels.0
                ++ named name (path_text (telemetry_destination name)) tunnels.1)))

  -- `if deletes:`, and whether there were any
  abbrev pub delete_all : (device : Text) → List Text → Exec (Hands R) Bool
  delete_all device [] = pure false
  delete_all device (d ∷ deletes) = do
    on_routers (routers.set_delete device (d ∷ deletes))
    pure true

  -- the body of the `try` in `teardown`, for one device
  unfoldable pub clear : (device name : Text) → Exec (Hands R) Bool
  unfolding client session_deletes
  clear device name = do
    client routers targets device
    deletes ← session_deletes device name
    delete_all device deletes

  abbrev pub joined : List Text → Text
  joined [] = []
  joined (d ∷ []) = d
  joined (d ∷ e ∷ removed) = d ++ (codes ", " ++ joined (e ∷ removed))

  abbrev pub summary : List Text → Text
  summary [] = codes "nothing to remove"
  summary (d ∷ removed) = codes "removed: " ++ joined (d ∷ removed)

  -- the turn of a device, by how its `try` ended; `rest` is the rest of the loop
  abbrev pub cleared :
      (device : Text) (removed : List Text)
      → Result Bool
      → (List Text → Exec (Hands R) ApplyResult)
      → Exec (Hands R) ApplyResult
  cleared device removed (ok true) rest = rest (removed ++ device ∷ [])
  cleared device removed (ok false) rest = rest removed
  cleared device removed (raised x) rest = pure (bad (codes "gNMI teardown failed on " ++ device))

  unfoldable pub clear_all :
      (devices : List Text) (name : Text) (removed : List Text) → Exec (Hands R) ApplyResult
  unfolding clear
  clear_all [] name removed h = (ok (good (summary removed)), h)
  clear_all (device ∷ devices) name removed h =
      let (r, h') = clear device name h in
      cleared device removed r (λ removed'. clear_all devices name removed') h'

  unfoldable pub teardown : (session_id : Text) → Exec (Hands R) ApplyResult
  unfolding clear_all template_name
  teardown session_id = clear_all targets (template_name session_id) []

  -- the loop of `health`, in its `try`
  unfoldable pub check_all : (devices : List Text) → Exec (Hands R) (Unit {0})
  unfolding client
  check_all [] = pure tt
  check_all (device ∷ devices) = do
    client routers targets device
    on_routers (routers.capabilities device)
    check_all devices

  abbrev pub healthy : Result (Unit {0}) → Bool
  healthy (ok done) = true
  healthy (raised x) = false

  unfoldable pub health : Hands R → Bool
  unfolding check_all
  health h = healthy (check_all targets h).0

  -- `close`; what it does to a connection is left out, and an error of it is swallowed
  unfoldable pub close : Hands R → Hands R
  close h = record h { clients = [] }

  abbrev pub gnmi : NetworkProvisioner (Hands R)
  gnmi = record {
    apply_bandwidth = apply_bandwidth;
    apply_telemetry = apply_telemetry;
    teardown = teardown;
    health = health;
  }
