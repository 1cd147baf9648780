-- ===== src/Tests/Routes.antt =====
-- An instance of the theorem on the gNMI provisioner, and ports of collectors.
use a2a_tokenized_provisioni.Base.{ℕ, ◌+◌, ◌≡◌, refl, some, [], ◌∷◌}
use a2a_tokenized_provisioni.Base.Decimal.{codes}
use a2a_tokenized_provisioni.Exec.{ok, raised, value_error}
use a2a_tokenized_provisioni.Netctl.Gnmi.{Routers, Hands, port_of, int_from, all_digits}

-- one router with a policer for ent7-a0, which counts its Sets
abbrev routers : Routers ℕ
routers = record {
  connect = λ device n. (ok tt, n);
  get_interfaces = λ device n. (ok ((codes "ethernet-1/1.0", some (codes "a2a-ent7-a0")) ∷ []), n);
  get_templates = λ device n. (ok (codes "a2a-ent7-a0" ∷ []), n);
  get_tunnels = λ device n. (ok ([], []), n);
  set_update = λ device values n. (ok tt, n + 1);
  set_delete = λ device paths n. (ok tt, n + 1);
  capabilities = λ device n. (ok tt, n);
}

abbrev hands : Hands ℕ
hands = record { clients = []; routers = 0 }

port_57000 : port_of (codes "57000") ≡ ok 57000
unfolding port_of int_from all_digits
port_57000 = refl

-- the superscript two is a digit that `int` does not read
port_superscript : port_of (178 ∷ []) ≡ raised value_error
unfolding port_of int_from all_digits
port_superscript = refl
