-- ===== src/Netctl/Gnmi.antt =====
-- netctl/src/netctl/provisioner.py and paths.py: `GnmiProvisioner`. The routers are a parameter: a
-- call of pygnmi on a device may raise, and what it reads is taken after the JSON was parsed, which
-- Reads does. The text of an error is left out of a detail. Characters are of Latin-1.
pub mod Operations
pub mod Returns
pub mod Router
pub mod Clears
pub mod Removes
pub mod Json
pub mod Reads
pub mod Readout
use a2a_tokenized_provisioni.Base.{
  ℕ, ◌+◌, ◌-◌, ◌*◌, ◌/◌, Bool, true, false, not, Option, none, some, List, [], ◌∷◌, ◌++◌, ◌==◌,
  ◌&&◌, ◌||◌, elem, leb, ltb, if◌then◌else◌, text_eq, nat_eq,
}
use a2a_tokenized_provisioni.Base.Decimal.{Text, codes}
use a2a_tokenized_provisioni.Exec.{
  Exec, Result, ok, raised, key_error, attribute_error, value_error, pure, raise, lift, gets, ◌>>=◌,
  ◌>>◌,
}
use a2a_tokenized_provisioni.Interfaces.{Resolved, path, node, ApplyResult}
use a2a_tokenized_provisioni.Interfaces.Ports.{NetworkProvisioner}

-- a node of a router's configuration, as paths.py names it
pub data Node : Type 0 where
  policer_template qos_interface telemetry_destination telemetry_tunnel : (name : Text) → Node

-- the functions of paths.py
unfoldable pub path_text : Node → Text
path_text (policer_template name) =
    codes "/qos/policer-templates/policer-template[name=" ++ (name ++ codes "]")
path_text (qos_interface subinterface) =
    codes "/qos/interfaces/interface[interface-id=" ++ (subinterface ++ codes "]")
path_text (telemetry_destination name) =
    codes "/system/grpc-tunnel/destination[name=" ++ (name ++ codes "]")
path_text (telemetry_tunnel name) = codes "/system/grpc-tunnel/tunnel[name=" ++ (name ++ codes "]")

-- the values that a Set writes at a node
pub data Value : Type 0 where
  template : (rate_kbps burst_bytes : ℕ) → Value
  attachment : (interface policer_template : Text) → Value
  destination : (address : Text) (port : ℕ) (network_instance : Text) → Value
  tunnel : (destination device server : Text) → Value

-- pygnmi on each device: the connection, the three reads, a Set and the capabilities
pub record Routers (R : Type 0) : Type 0 where
  pub connect : (device : Text) → Exec R (Unit {0})
  pub get_interfaces : (device : Text) → Exec R (List (Text × Option Text))
  pub get_templates : (device : Text) → Exec R (List Text)
  pub get_tunnels : (device : Text) → Exec R (List Text × List Text)
  pub set_update : (device : Text) → List (Text × Value) → Exec R (Unit {0})
  pub set_delete : (device : Text) → List Text → Exec R (Unit {0})
  pub capabilities : (device : Text) → Exec R (Unit {0})

-- `_clients`, by the devices that have one, and the routers
pub record Hands (R : Type 0) : Type 0 where
  pub clients : List Text
  pub routers : R

abbrev pub burst_bytes : ℕ
burst_bytes = 125000

abbrev pub tunnel_grpc_server : Text
tunnel_grpc_server = codes "telemetry"

unfoldable pub template_name : Text → Text
template_name session_id = codes "a2a-" ++ session_id

-- `max(capacity_bps // 1000, 1)`
unfoldable pub rate_of : ℕ → ℕ
rate_of capacity_bps = let kbps = capacity_bps / 1000 in if ltb kbps 1 then 1 else kbps

-- `endpoint.rpartition(":")`, the host and the port
unfoldable pub rpartition : Text → Option (Text × Text)
rpartition [] = none
rpartition (c ∷ s) = elim (rpartition s) [
  | some p ↦ some (c ∷ p.0, p.1)
  | none ↦ if c == b':' then some ([], s) else none
]

abbrev pub host_port : Option (Text × Text) → Text → Text × Text
host_port none endpoint = ([], endpoint)
host_port (some p) endpoint = p

-- `str.isdigit` of a character: a decimal digit, or one of the superscripts two, three and one
abbrev pub is_digit : ℕ → Bool
is_digit c = (leb 48 c && leb c 57) || (c == 178 || (c == 179 || c == 185))

unfoldable pub all_digits : Text → Bool
all_digits [] = true
all_digits (c ∷ s) = is_digit c && all_digits s

abbrev pub isdigit : Text → Bool
isdigit [] = false
isdigit (c ∷ s) = all_digits (c ∷ s)

-- `int(text)` of digits, which knows the decimal ones alone
unfoldable pub int_from : ℕ → Text → Result ℕ
int_from acc [] = ok acc
int_from acc (c ∷ s) =
    let rest = int_from (acc * 10 + (c - 48)) s in if leb c 57 then rest else raised value_error

unfoldable pub port_of : Text → Result ℕ
unfolding int_from all_digits
port_of port = if isdigit port then int_from 0 port else ok 57400

-- `host or "0.0.0.0"`
unfoldable pub address_of : Text → Text
address_of [] = codes "0.0.0.0"
address_of (c ∷ host) = c ∷ host

abbrev pub good : Text → ApplyResult
good detail = record { ok = true; detail = detail }

abbrev pub bad : Text → ApplyResult
bad detail = record { ok = false; detail = detail }

abbrev pub report : {A : Type 0} → (success failure : Text) → Result A → ApplyResult
report success failure (ok a) = good success
report success failure (raised x) = bad failure

module _ {R : Type 0} where
  abbrev pub on_routers : {A : Type 0} → Exec R A → Exec (Hands R) A
  on_routers m h = let (r, routers) = m h.routers in (r, record h { routers = routers })

  -- `try: ... except Exception`, with what is reported in each case
  abbrev pub reported :
      {A : Type 0} → (success failure : Text) → Exec (Hands R) A → Exec (Hands R) ApplyResult
  reported success failure m h = let (r, h') = m h in (ok (report success failure r), h')

-- the deletes of the attachments, and of the nodes with the session's name, in a list that was read
unfoldable pub attached : (name : Text) → List (Text × Option Text) → List Text
attached name [] = []
attached name ((id, none) ∷ interfaces) = attached name interfaces
attached name ((id, some t) ∷ interfaces) =
    let rest = attached name interfaces in
    if t == name then path_text (qos_interface id) ∷ rest else rest

unfoldable pub named : (name : Text) (target : Text) → List Text → List Text
named name target [] = []
named name target (n ∷ names) =
    let rest = named name target names in if n == name then target ∷ rest else rest

module _ {R : Type 0} (routers : Routers R) (targets : List Text) where
  -- `_client`
  unfoldable pub client : (device : Text) → Exec (Hands R) (Unit {0})
  client device h =
      if not (elem device targets)
      then (raised key_error, h)
      else if elem device h.clients
      then (ok tt, h)
      else (do
        on_routers (routers.connect device)
        λ h'. (ok tt, record h' { clients = device ∷ h'.clients }))
          h
