-- ===== src/Controller/ResourceMap/Entries.antt =====
-- resource_map.py: what an entry of the file says, apart from how the loader reads it.
use a2a_tokenized_provisioni.Base.{
  ◌≡◌, ◌≢◌, refl, ap, sym, ◌∙◌, ◌==◌, ◌⊎◌, true, false, Option, none, some, inl, inr, Bool-cases,
  Option-cases, text_eq, nat_eq,
}
use a2a_tokenized_provisioni.Base.Decimal.{Text, codes}
use a2a_tokenized_provisioni.Exec.{
  Exception, Result, ok, raised, raised-ne-ok, key_error, value_error, Result-cases,
}
use a2a_tokenized_provisioni.Interfaces.{Bytes, Resolved, path, node}
use a2a_tokenized_provisioni.Controller.ResourceMap.{
  Spec, fromhex, remove_0x, resolve, load_entry, kind_is,
}
use a2a_tokenized_provisioni.Controller.ResourceMap.Keys.{
  Key, fromhex-Writes, Writes-fromhex, fromhex-raised, Key-remove_0x, remove_0x-Key,
}

-- What a specification resolves to.
pub data Names (spec : Spec) : Resolved → Type 0 where
  a_path :
      (device ingress_if egress_if : Text)
      → spec.kind ≡ some (codes "path")
      → spec.device ≡ some device
      → spec.ingress_if ≡ some ingress_if
      → spec.egress_if ≡ some egress_if
      → Names spec (path device ingress_if egress_if)
  a_node :
      (device : Text)
      → spec.kind ≡ some (codes "node")
      → spec.device ≡ some device
      → Names spec (node device)

-- Why it does not resolve.
pub data Nameless (spec : Spec) : Exception → Type 0 where
  unknown :
      spec.kind ≢ some (codes "path") → spec.kind ≢ some (codes "node") → Nameless spec value_error
  path_lacks :
      spec.kind ≡ some (codes "path")
      → (spec.device ≡ none) ⊎ ((spec.ingress_if ≡ none) ⊎ (spec.egress_if ≡ none))
      → Nameless spec key_error
  node_lacks : spec.kind ≡ some (codes "node") → spec.device ≡ none → Nameless spec key_error

-- What becomes of an entry: its key and what it resolves to, or why it is refused.
pub data Entry : Text × Spec → Result (Bytes × Resolved) → Type 0 where
  entry_read :
      (text : Text) (spec : Spec) (bytes : Bytes) (resolved : Resolved)
      → Key text bytes
      → Names spec resolved
      → Entry (text, spec) (ok (bytes, resolved))
  bad_key :
      (text : Text) (spec : Spec)
      → ((bytes : Bytes) → ¬ Key text bytes)
      → Entry (text, spec) (raised value_error)
  bad_spec :
      (text : Text) (spec : Spec) (bytes : Bytes) (x : Exception)
      → Key text bytes
      → Nameless spec x
      → Entry (text, spec) (raised x)

kind_is-some : (kind : Option Text) (name : Text) → kind_is kind name ≡ true → kind ≡ some name
kind_is-some none name h = absurd (cc)
kind_is-some (some kind) name h = ap some ((text_eq.beq_iff kind name).0 h)

kind_is-other : (kind : Option Text) (name : Text) → kind_is kind name ≡ false → kind ≢ some name
kind_is-other none name h e = cc
kind_is-other (some kind) name h e =
    let same : kind ≡ name = cc in
    let yes : (kind == name) ≡ true = (text_eq.beq_iff kind name).1 same in cc

-- What `resolve` makes of a specification.
abbrev Resolves : Spec → Result Resolved → Type 0
Resolves spec (ok resolved) = Names spec resolved
Resolves spec (raised x) = Nameless spec x

Resolves-at : (spec : Spec) (r r' : Result Resolved) → r ≡ r' → Resolves spec r' → Resolves spec r
Resolves-at spec r r' e h = rw e h

resolve-Resolves : (spec : Spec) → Resolves spec (resolve spec)
unfolding resolve
resolve-Resolves spec = elim (Bool-cases (kind_is spec.kind (codes "path"))) [
  | inl p ↦
      let kind = kind_is-some spec.kind (codes "path") p in
      elim (Option-cases spec.device) [
        | inl d ↦
            Resolves-at spec (resolve spec) (raised key_error) (rw (p, d) refl)
              (path_lacks kind (inl d))
        | inr (device, d) ↦ elim (Option-cases spec.ingress_if) [
          | inl i ↦
              Resolves-at spec (resolve spec) (raised key_error) (rw (p, d, i) refl)
                (path_lacks kind (inr (inl i)))
          | inr (ingress_if, i) ↦ elim (Option-cases spec.egress_if) [
            | inl e ↦
                Resolves-at spec (resolve spec) (raised key_error) (rw (p, d, i, e) refl)
                  (path_lacks kind (inr (inr e)))
            | inr (egress_if, e) ↦
                Resolves-at spec (resolve spec) (ok (path device ingress_if egress_if))
                  (rw (p, d, i, e) refl) (a_path device ingress_if egress_if kind d i e)
          ]
        ]
      ]
  | inr p ↦ elim (Bool-cases (kind_is spec.kind (codes "node"))) [
    | inl n ↦
        let kind = kind_is-some spec.kind (codes "node") n in
        elim (Option-cases spec.device) [
          | inl d ↦
              Resolves-at spec (resolve spec) (raised key_error) (rw (p, n, d) refl)
                (node_lacks kind d)
          | inr (device, d) ↦
              Resolves-at spec (resolve spec) (ok (node device)) (rw (p, n, d) refl)
                (a_node device kind d)
        ]
    | inr n ↦ Resolves-at spec (resolve spec) (raised value_error) (rw (p, n) refl) (
        unknown (kind_is-other spec.kind (codes "path") p)
          (kind_is-other spec.kind (codes "node") n))
  ]
]

pub load_entry-Entry : (text : Text) (spec : Spec) → Entry (text, spec) (load_entry (text, spec))
unfolding load_entry
load_entry-Entry text spec = elim (Result-cases (fromhex (remove_0x text))) [
  | inr (x, e) ↦
      let f = fromhex-raised (remove_0x text) x e in
      rw (e, f)
        (bad_key text spec (λ bytes w.
          raised-ne-ok
            (sym e ∙ Writes-fromhex (remove_0x text) bytes (remove_0x-Key text bytes w))))
  | inl (bytes, e) ↦
      let key = Key-remove_0x text bytes (fromhex-Writes (remove_0x text) bytes e) in
      elim (Result-cases (resolve spec)) [
        | inl (resolved, r) ↦
            rw (e, r) (entry_read text spec bytes resolved key (rw r at (resolve-Resolves spec)))
        | inr (x, r) ↦ rw (e, r) (bad_spec text spec bytes x key (rw r at (resolve-Resolves spec)))
      ]
]
