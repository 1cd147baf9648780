-- ===== src/Netctl/Gnmi/Clears.antt =====
-- provisioner.py: a teardown that reports success has left nothing of its session on any device.
use a2a_tokenized_provisioni.Base.{
  ◌≡◌, ◌≢◌, true, Option, none, some, List, [], ◌∷◌, ◌++◌, ◌==◌, elem, inl, inr, Bool-cases, All,
  arith, text_eq, text_beq_iff, beq_refl,
}
use a2a_tokenized_provisioni.Base.Decimal.{Text}
use a2a_tokenized_provisioni.Netctl.Gnmi.{
  Node, policer_template, qos_interface, telemetry_destination, telemetry_tunnel, path_text,
  attached, named,
}
use a2a_tokenized_provisioni.Netctl.Gnmi.Router.{Config, kept, without}

-- No attachment to the template `name`, and no node of that name.
pub record Free (name : Text) (c : Config) : Type 0 where
  pub no_attachment : All (λ (i : Text × Option Text). i.1 ≢ some name) c.interfaces
  pub no_template : All (λ n. n ≢ name) c.templates
  pub no_tunnel : All (λ n. n ≢ name) c.tunnels
  pub no_destination : All (λ n. n ≢ name) c.destinations

-- every path of the first list is in the second
abbrev Within : List Text → List Text → Type 0
Within few paths = (p : Text) → elem p few ≡ true → elem p paths ≡ true

Within-head : (p : Text) (few paths : List Text) → Within (p ∷ few) paths → elem p paths ≡ true
Within-head p few paths w = w p (rw (beq_refl p))

Within-tail : (p : Text) (few paths : List Text) → Within (p ∷ few) paths → Within few paths
Within-tail p few paths w q h = w q (ground (arith, h))

-- An entry that is not among the deletes stays in front.
kept-cons {ℓ} :
    {A : Type ℓ} (Good : A → Type 0) (node_of : A → Node) (paths : List Text) (a : A)
    (entries : List A)
    → Good a
    → All Good (kept node_of paths entries)
    → All Good (kept node_of paths (a ∷ entries))
kept-cons Good node_of paths a entries g h =
    elim (Bool-cases (elem (path_text (node_of a)) paths)) [
      | inl gone ↦ rw gone h
      | inr here ↦ rw here (g, h)
    ]

kept-attached :
    (name : Text) (paths : List Text) (interfaces : List (Text × Option Text))
    → Within (attached name interfaces) paths
    → All
        (λ (i : Text × Option Text). i.1 ≢ some name)
        (kept (λ i. qos_interface i.0) paths interfaces)
unfolding attached
kept-attached name paths [] w = tt
kept-attached name paths ((id, none) ∷ interfaces) w =
    kept-cons (λ (i : Text × Option Text). i.1 ≢ some name) (λ i. qos_interface i.0) paths
      (id, none) interfaces (λ e. cc) (kept-attached name paths interfaces w)
kept-attached name paths ((id, some t) ∷ interfaces) w = elim (Bool-cases (t == name)) [
  | inl same ↦
      let w' : Within (path_text (qos_interface id) ∷ attached name interfaces) paths =
        rw same at w in
      let gone = Within-head (path_text (qos_interface id)) (attached name interfaces) paths w' in
      rw gone (
        kept-attached name paths interfaces
          (Within-tail (path_text (qos_interface id)) (attached name interfaces) paths w'))
  | inr other ↦
      kept-cons (λ (i : Text × Option Text). i.1 ≢ some name) (λ i. qos_interface i.0) paths
        (id, some t) interfaces (λ e. ground (arith, e, other, text_beq_iff t name))
        (kept-attached name paths interfaces (rw other at w))
]

kept-named :
    (name : Text) (node_of : Text → Node) (paths names : List Text)
    → Within (named name (path_text (node_of name)) names) paths
    → All (λ n. n ≢ name) (kept node_of paths names)
unfolding named
kept-named name node_of paths [] w = tt
kept-named name node_of paths (n ∷ names) w = elim (Bool-cases (n == name)) [
  | inl same ↦
      let target = path_text (node_of name) in
      let rest = named name target names in
      let w' : Within (target ∷ rest) paths = rw same at w in
      let gone : elem (path_text (node_of n)) paths ≡ true =
        rw ((text_beq_iff n name).0 same) (Within-head target rest paths w') in
      rw gone (kept-named name node_of paths names (Within-tail target rest paths w'))
  | inr other ↦
      kept-cons (λ m. m ≢ name) node_of paths n names
        (λ e. ground (arith, e, other, text_beq_iff n name))
        (kept-named name node_of paths names (rw other at w))
]

-- the deletes of a session on a device with this configuration
abbrev pub deletes_of : (name : Text) → Config → List Text
deletes_of name c =
    attached name c.interfaces
    ++ (named name (path_text (policer_template name)) c.templates
        ++ (named name (path_text (telemetry_tunnel name)) c.tunnels
            ++ named name (path_text (telemetry_destination name)) c.destinations))

elem-append_left :
    (p : Text) (few more : List Text) → elem p few ≡ true → elem p (few ++ more) ≡ true
elem-append_left p [] more h = cc
elem-append_left p (q ∷ few) more h = ground (arith, h, elem-append_left p few more)

elem-append_right :
    (p : Text) (few more : List Text) → elem p more ≡ true → elem p (few ++ more) ≡ true
elem-append_right p [] more h = h
elem-append_right p (q ∷ few) more h = ground (arith, h, elem-append_right p few more)

-- Deleting them frees the configuration of the session.
pub without-Free : (name : Text) (c : Config) → Free name (without (deletes_of name c) c)
without-Free name c =
    let a = attached name c.interfaces in
    let b = named name (path_text (policer_template name)) c.templates in
    let d = named name (path_text (telemetry_tunnel name)) c.tunnels in
    let e = named name (path_text (telemetry_destination name)) c.destinations in
    record {
      no_attachment =
          kept-attached name (deletes_of name c) c.interfaces
            (λ p h. elem-append_left p a (b ++ (d ++ e)) h);
      no_template =
          kept-named name (λ n. policer_template n) (deletes_of name c) c.templates
            (λ p h. elem-append_right p a (b ++ (d ++ e)) (elem-append_left p b (d ++ e) h));
      no_tunnel =
          kept-named name (λ n. telemetry_tunnel n) (deletes_of name c) c.tunnels
            (λ p h.
              elem-append_right p a (b ++ (d ++ e))
                (elem-append_right p b (d ++ e) (elem-append_left p d e h)));
      no_destination =
          kept-named name (λ n. telemetry_destination n) (deletes_of name c) c.destinations
            (λ p h.
              elem-append_right p a (b ++ (d ++ e))
                (elem-append_right p b (d ++ e) (elem-append_right p d e h)));
    }
