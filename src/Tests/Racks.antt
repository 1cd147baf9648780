-- ===== src/Tests/Racks.antt =====
-- An instance of the theorem on the routers: one device that keeps its configuration.
use a2a_tokenized_provisioni.Base.{
  ◌≡◌, ◌≢◌, refl, true, some, List, [], ◌∷◌, All, ◌==◌, if◌then◌else◌, arith, text_eq, text_beq,
  text_beq_iff, beq_refl,
}
use a2a_tokenized_provisioni.Base.Decimal.{Text, codes}
use a2a_tokenized_provisioni.Exec.{ok}
use a2a_tokenized_provisioni.Interfaces.{ApplyResult}
use a2a_tokenized_provisioni.Netctl.Gnmi.{Routers, Hands, template_name}
use a2a_tokenized_provisioni.Netctl.Gnmi.Operations.{teardown}
use a2a_tokenized_provisioni.Netctl.Gnmi.Router.{Config, without, Documented}
use a2a_tokenized_provisioni.Netctl.Gnmi.Clears.{Free}
use a2a_tokenized_provisioni.Netctl.Gnmi.Removes.{teardown-Free}

-- the configuration of each device
abbrev pub Rack : Type 0
Rack = Text → Config

abbrev pub delete_on : (device : Text) (paths : List Text) → Rack → Rack
delete_on device paths rack e = if device == e then without paths (rack e) else rack e

abbrev pub racks : Routers Rack
racks = record {
  connect = λ device rack. (ok tt, rack);
  get_interfaces = λ device rack. (ok (rack device).interfaces, rack);
  get_templates = λ device rack. (ok (rack device).templates, rack);
  get_tunnels = λ device rack. (ok ((rack device).tunnels, (rack device).destinations), rack);
  set_update = λ device values rack. (ok tt, rack);
  set_delete = λ device paths rack. (ok tt, delete_on device paths rack);
  capabilities = λ device rack. (ok tt, rack);
}

found-eq {ℓ} : {A : Type ℓ} (a found : A) → ok a ≡ ok found → found ≡ a
found-eq a found h = cc

delete_on_self :
    (device : Text) (paths : List Text) (rack : Rack)
    → delete_on device paths rack device ≡ without paths (rack device)
delete_on_self device paths rack = rw (beq_refl device)

delete_on_other :
    (device e : Text) (paths : List Text) (rack : Rack)
    → device ≢ e
    → delete_on device paths rack e ≡ rack e
delete_on_other device e paths rack n = ground (arith, n, text_beq_iff device e)

racks-Documented : Documented racks
racks-Documented = record {
  config = λ rack. rack;
  connect_keeps = λ d e r. refl;
  interfaces_keep = λ d e r. refl;
  templates_keep = λ d e r. refl;
  tunnels_keep = λ d e r. refl;
  read_interfaces = λ d r found h. found-eq (r d).interfaces found h;
  read_templates = λ d r found h. found-eq (r d).templates found h;
  read_tunnels = λ d r found h. found-eq ((r d).tunnels, (r d).destinations) found h;
  deleted = λ d r paths h. delete_on_self d paths r;
  elsewhere = λ d e r paths n. delete_on_other d e paths r n;
}

-- a policer of ent7-a0 on every device
abbrev pub busy : Hands Rack
busy = record {
  clients = [];
  routers = λ device. record {
    interfaces = (codes "ethernet-1/1.0", some (codes "a2a-ent7-a0")) ∷ [];
    templates = codes "a2a-ent7-a0" ∷ codes "a2a-ent8-a1" ∷ [];
    tunnels = [];
    destinations = [];
  };
}

abbrev pub devices : List Text
devices = codes "srl1" ∷ codes "srl2" ∷ []

abbrev removed : ApplyResult
removed = record { ok = true; detail = codes "removed: srl1, srl2" }

torn_down : (teardown racks devices (codes "ent7-a0") busy).0 ≡ ok removed
unfolding teardown text_beq
torn_down = refl

teardown-Free_example :
    All
      (λ device.
        Free
          (template_name (codes "ent7-a0"))
          ((teardown racks devices (codes "ent7-a0") busy).1.routers device))
      devices
unfolding racks-Documented
teardown-Free_example =
    teardown-Free racks racks-Documented devices (codes "ent7-a0") busy removed torn_down refl
