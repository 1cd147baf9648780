-- ===== src/Netctl/Gnmi/Router.antt =====
-- provisioner.py: what SR Linux documents of its configuration, as laws of the routers. A device's
-- configuration is read back as it stands, a Set deletes the nodes that it names and no others, or
-- raises, and a call on one device leaves the others as they are.
use a2a_tokenized_provisioni.Base.{◌≡◌, ◌≢◌, Option, List, [], ◌∷◌, elem, if◌then◌else◌, text_eq}
use a2a_tokenized_provisioni.Base.Decimal.{Text}
use a2a_tokenized_provisioni.Exec.{ok}
use a2a_tokenized_provisioni.Netctl.Gnmi.{
  Node, policer_template, qos_interface, telemetry_destination, telemetry_tunnel, path_text,
  Routers,
}

-- the nodes of a device that the product writes: an attachment with its template, and the names
pub record Config : Type 0 where
  pub interfaces : List (Text × Option Text)
  pub templates : List Text
  pub tunnels : List Text
  pub destinations : List Text

-- the entries of a list whose paths are not among those that a Set deletes
abbrev pub kept {ℓ} : {A : Type ℓ} → (A → Node) → (paths : List Text) → List A → List A
kept node_of paths [] = []
kept node_of paths (a ∷ entries) =
    let rest = kept node_of paths entries in
    if elem (path_text (node_of a)) paths then rest else a ∷ rest

abbrev pub without : (paths : List Text) → Config → Config
without paths c = record {
  interfaces = kept (λ i. qos_interface i.0) paths c.interfaces;
  templates = kept (λ n. policer_template n) paths c.templates;
  tunnels = kept (λ n. telemetry_tunnel n) paths c.tunnels;
  destinations = kept (λ n. telemetry_destination n) paths c.destinations;
}

module _ {R : Type 0} (routers : Routers R) where
  pub record Documented : Type 0 where
    pub config : R → (device : Text) → Config
    pub connect_keeps : (d e : Text) (r : R) → config (routers.connect d r).1 e ≡ config r e
    pub interfaces_keep :
        (d e : Text) (r : R) → config (routers.get_interfaces d r).1 e ≡ config r e
    pub templates_keep : (d e : Text) (r : R) → config (routers.get_templates d r).1 e ≡ config r e
    pub tunnels_keep : (d e : Text) (r : R) → config (routers.get_tunnels d r).1 e ≡ config r e
    pub read_interfaces :
        (d : Text) (r : R) (found : List (Text × Option Text))
        → (routers.get_interfaces d r).0 ≡ ok found
        → found ≡ (config r d).interfaces
    pub read_templates :
        (d : Text) (r : R) (found : List Text)
        → (routers.get_templates d r).0 ≡ ok found
        → found ≡ (config r d).templates
    pub read_tunnels :
        (d : Text) (r : R) (found : List Text × List Text)
        → (routers.get_tunnels d r).0 ≡ ok found
        → found ≡ ((config r d).tunnels, (config r d).destinations)
    pub deleted :
        (d : Text) (r : R) (paths : List Text)
        → (routers.set_delete d paths r).0 ≡ ok tt
        → config (routers.set_delete d paths r).1 d ≡ without paths (config r d)
    pub elsewhere :
        (d e : Text) (r : R) (paths : List Text)
        → d ≢ e
        → config (routers.set_delete d paths r).1 e ≡ config r e
