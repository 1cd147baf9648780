-- ===== src/Netctl/Gnmi/Removes.antt =====
-- provisioner.py: a teardown that reports success has left nothing of its session on any device.
use a2a_tokenized_provisioni.Base.{
  ◌≡◌, ◌≢◌, refl, sym, ap, ◌∙◌, subst, Bool, true, Option, List, [], ◌∷◌, ◌++◌, ◌==◌, elem, inl,
  inr, Bool-cases, All, arith, text_eq, text_beq_iff,
}
use a2a_tokenized_provisioni.Base.Decimal.{Text}
use a2a_tokenized_provisioni.Exec.{ok, Result-cases, raised-ne-ok}
use a2a_tokenized_provisioni.Interfaces.{ApplyResult}
use a2a_tokenized_provisioni.Netctl.Gnmi.{
  Node, policer_template, qos_interface, telemetry_destination, telemetry_tunnel, path_text,
  Routers, Hands, template_name, attached, named, client,
}
use a2a_tokenized_provisioni.Netctl.Gnmi.Operations.{session_deletes, delete_all, clear, teardown}
use a2a_tokenized_provisioni.Netctl.Gnmi.Router.{Config, kept, without, Documented}
use a2a_tokenized_provisioni.Netctl.Gnmi.Clears.{Free, deletes_of, without-Free}
use a2a_tokenized_provisioni.Netctl.Gnmi.Returns.{Sweep, finished, clean, broken, teardown_lem}

kept-nil {ℓ} :
    {A : Type ℓ} (node_of : A → Node) (entries : List A) → kept node_of [] entries ≡ entries
kept-nil node_of [] = refl
kept-nil node_of (a ∷ entries) = ap (λ l. a ∷ l) (kept-nil node_of entries)

without-nil : (c : Config) → without [] c ≡ c
without-nil c = rw (
  kept-nil (λ (i : Text × Option Text). qos_interface i.0) c.interfaces,
  kept-nil (λ n. policer_template n) c.templates,
  kept-nil (λ n. telemetry_tunnel n) c.tunnels,
  kept-nil (λ n. telemetry_destination n) c.destinations,
)

ok-flag : {a b : ApplyResult} → ok a ≡ ok b → a.ok ≡ b.ok
ok-flag h = cc

-- What was read makes up the deletes of the configuration.
deletes_from :
    (name : Text) {k : Config} {found : List Text} (a : List (Text × Option Text)) (b : List Text)
    (c : List Text × List Text)
    → ok (
        attached name a
        ++ (named name (path_text (policer_template name)) b
            ++ (named name (path_text (telemetry_tunnel name)) c.0
                ++ named name (path_text (telemetry_destination name)) c.1)))
      ≡ ok found
    → a ≡ k.interfaces
    → b ≡ k.templates
    → c ≡ (k.tunnels, k.destinations)
    → found ≡ deletes_of name k
deletes_from name a b (t, d) q e f g = cc

module _ {R : Type 0} (routers : Routers R) (doc : Documented routers) (targets : List Text) where
  open doc use {config}

  client-config :
      (device e : Text) (h : Hands R)
      → config (client routers targets device h).1.routers e ≡ config h.routers e
  unfolding client
  client-config device e h = elim (Bool-cases (elem device targets)) [
    | inr unknown ↦ rw unknown
    | inl known ↦ elim (Bool-cases (elem device h.clients)) [
      | inl cached ↦ rw (known, cached)
      | inr new ↦ elim (Result-cases (routers.connect device h.routers).0) [
        | inl (r, p) ↦ rw (known, new, p) (doc.connect_keeps device e h.routers)
        | inr (x, p) ↦ rw (known, new, p) (doc.connect_keeps device e h.routers)
      ]
    ]
  ]

  -- Reading the session's nodes writes nothing, and finds the deletes of the configuration.
  session_deletes-eq :
      (device name : Text) (h : Hands R) (found : List Text)
      → (session_deletes routers targets device name h).0 ≡ ok found
      → (found ≡ deletes_of name (config h.routers device))
        × ((e : Text)
            → config (session_deletes routers targets device name h).1.routers e
              ≡ config h.routers e)
  unfolding session_deletes
  session_deletes-eq device name h found q =
      let r1 = (routers.get_interfaces device h.routers).1 in
      let r2 = (routers.get_templates device r1).1 in
      let r3 = (routers.get_tunnels device r2).1 in
      elim (Result-cases (routers.get_interfaces device h.routers).0) [
        | inr (x, p) ↦ absurd (raised-ne-ok (rw p at q))
        | inl (a, p) ↦ elim (Result-cases (routers.get_templates device r1).0) [
          | inr (x, p2) ↦ absurd (raised-ne-ok (rw (p, p2) at q))
          | inl (b, p2) ↦ elim (Result-cases (routers.get_tunnels device r2).0) [
            | inr (x, p3) ↦ absurd (raised-ne-ok (rw (p, p2, p3) at q))
            | inl (c, p3) ↦
                let on1 = doc.interfaces_keep device device h.routers in
                let on2 = doc.templates_keep device device r1 ∙ on1 in
                rw (p, p2, p3)
                  (
                    deletes_from name a b c (rw (p, p2, p3) at q)
                        (doc.read_interfaces device h.routers a p)
                        (doc.read_templates device r1 b p2 ∙ ap (λ (x : Config). x.templates) on1)
                        (doc.read_tunnels device r2 c p3
                          ∙ ap (λ (x : Config). (x.tunnels, x.destinations)) on2),
                    λ e.
                        doc.tunnels_keep device e r2
                        ∙ doc.templates_keep device e r1
                        ∙ doc.interfaces_keep device e h.routers,
                  )
          ]
        ]
      ]

  -- After the deletes the configuration is without them, and other devices are as they were.
  delete_all-config :
      (device : Text) (deletes : List Text) (h : Hands R) (done : Bool)
      → (delete_all routers targets device deletes h).0 ≡ ok done
      → let h' = (delete_all routers targets device deletes h).1 in
        (config h'.routers device ≡ without deletes (config h.routers device))
        × ((e : Text) → device ≢ e → config h'.routers e ≡ config h.routers e)
  delete_all-config device [] h done q = (sym (without-nil (config h.routers device)), λ e n. refl)
  delete_all-config device (d ∷ deletes) h done q =
      elim (Result-cases (routers.set_delete device (d ∷ deletes) h.routers).0) [
        | inr (x, p) ↦ absurd (raised-ne-ok (rw p at q))
        | inl (u, p) ↦ rw p (
          doc.deleted device h.routers (d ∷ deletes) p,
          λ e n. doc.elsewhere device e h.routers (d ∷ deletes) n,
        )
      ]

  -- A device that was cleared holds nothing of the session, and the others are as they were.
  clear-Free :
      (device name : Text) (h : Hands R) (found : Bool)
      → (clear routers targets device name h).0 ≡ ok found
      → let h' = (clear routers targets device name h).1 in
        Free name (config h'.routers device)
        × ((e : Text) → device ≢ e → config h'.routers e ≡ config h.routers e)
  unfolding clear
  clear-Free device name h found q =
      let h1 = (client routers targets device h).1 in
      let h2 = (session_deletes routers targets device name h1).1 in
      elim (Result-cases (client routers targets device h).0) [
        | inr (x, p) ↦ absurd (raised-ne-ok (rw p at q))
        | inl (u, p) ↦ elim (Result-cases (session_deletes routers targets device name h1).0) [
          | inr (x, p2) ↦ absurd (raised-ne-ok (rw (p, p2) at q))
          | inl (deletes, p2) ↦
              let (same, keeps) = session_deletes-eq device name h1 deletes p2 in
              let (gone, others) = delete_all-config device deletes h2 found (rw (p, p2) at q) in
              rw (p, p2)
                (
                  rw (gone, keeps device, same) (without-Free name (config h1.routers device)),
                  λ e n. others e n ∙ keeps e ∙ client-config device e h,
                )
        ]
      ]

  -- Clearing one device takes nothing back on another.
  clear-keeps_Free :
      (device name e : Text) (h : Hands R) (found : Bool)
      → (clear routers targets device name h).0 ≡ ok found
      → Free name (config h.routers e)
      → Free name (config (clear routers targets device name h).1.routers e)
  clear-keeps_Free device name e h found q f =
      let (there, others) = clear-Free device name h found q in
      elim (Bool-cases (device == e)) [
        | inl same ↦
            subst (λ x. Free name (config (clear routers targets device name h).1.routers x))
              ((text_beq_iff device e).0 same) there
        | inr other ↦ rw (others e (λ s. ground (arith, s, other, text_beq_iff device e))) f
      ]

  Sweep-keeps_Free :
      (name e : Text) {devices : List Text} {h h' : Hands R} {through : Bool}
      → Sweep routers targets name devices h through h'
      → through ≡ true
      → Free name (config h.routers e)
      → Free name (config h'.routers e)
  Sweep-keeps_Free name e (finished h) t f = f
  Sweep-keeps_Free name e (clean device devices h h' found through p s) t f =
      Sweep-keeps_Free name e s t (clear-keeps_Free device name e h found p f)
  Sweep-keeps_Free name e (broken device devices h x p) t f = cc

  Sweep-Free :
      (name : Text) {devices : List Text} {h h' : Hands R} {through : Bool}
      → Sweep routers targets name devices h through h'
      → through ≡ true
      → All (λ device. Free name (config h'.routers device)) devices
  Sweep-Free name (finished h) t = tt
  Sweep-Free name (clean device devices h h' found through p s) t =
      (Sweep-keeps_Free name device s t (clear-Free device name h found p).0, Sweep-Free name s t)
  Sweep-Free name (broken device devices h x p) t = cc

  -- Where the routers do what is documented of them, a teardown that reports success leaves on
  -- every device that is known no attachment to the session's template and no template, tunnel or
  -- destination of its name, whatever was there before and whoever put it there.
  pub teardown-Free :
      (session_id : Text) (h : Hands R) (a : ApplyResult)
      → (teardown routers targets session_id h).0 ≡ ok a
      → a.ok ≡ true
      → All
          (λ device.
            Free
              (template_name session_id)
              (config (teardown routers targets session_id h).1.routers device))
          targets
  teardown-Free session_id h a q good =
      let (b, e, s) = teardown_lem routers targets session_id h in
      Sweep-Free (template_name session_id) s (ok-flag (sym e ∙ q) ∙ good)
