-- ===== src/Lease/Config/Restart.antt =====
-- `Init` of the configuration: the restart counter in the table, the one in proposal numbers, and
-- the choice of multicast.
use mathlib.Core.Path.{subst}
use network_etc.Base.{
  ℕ, ◌+◌, ◌<◌, ◌≡◌, ◌↔◌, ◌%◌, refl, Bool, true, Option, some, List, [], ◌∷◌, Bytes, length, u64,
  arith, append-nil, ==_refl, sym,
}
use network_etc.Text.{decimal, strntouint64}
use network_etc.Text.Decimal.{strntouint64-decimal}
use network_etc.Lease.Config.{
  Address, ReplicatedConfig, static_config, same_ports, init_restart_counter, init, next_highest,
}

-- A start of the program replaces the printed counter k in the table by k + 1, where that is below
-- 2 ^ 64.
pub init_restart_counter-suc :
    (k : ℕ)
    → k + 1 < u64
    → init_restart_counter (some (some (decimal k))) ≡ some (some (decimal (k + 1)))
unfolding init_restart_counter
init_restart_counter-suc k h =
    let e : strntouint64 (decimal k) ≡ (k, length (decimal k)) =
      rw append-nil at (strntouint64-decimal k [] (omega arith) tt) in
    let fits : (k + 1) % u64 ≡ k + 1 = omega arith in
    rw (e, ==_refl (length (decimal k)), fits) refl

-- After two successful runs of `Init` from the static configuration, with the same node id and
-- addresses and whatever the table holds, the same proposal number follows each number.
pub init-reuses :
    (node_id p : ℕ) (addresses : List Address) (replicated replicated' : Bool)
    (table table' out out' : Option (Option Bytes)) (c c' : ReplicatedConfig)
    → init static_config node_id addresses replicated table ≡ some (c, out)
    → init static_config node_id addresses replicated' table' ≡ some (c', out')
    → next_highest c p ≡ next_highest c' p
unfolding init
init-reuses node_id p addresses r r' t t' out out' c c' h h' = ground arith

-- All addresses have the port `p`.
abbrev pub SamePort : ℕ → List Address → Type 0
SamePort p [] = Unit
SamePort p (a ∷ rest) = (a.port ≡ p) × SamePort p rest

-- The comparison of neighbours decides whether all ports are that of the first address.
pub same_ports_iff :
    (a : Address) (rest : List Address) → (same_ports (a ∷ rest) ≡ true) ↔ SamePort a.port rest
unfolding same_ports
same_ports_iff a [] = (λ _. tt, λ _. refl)
same_ports_iff a (b ∷ rest) = (
  λ h.
      let e : b.port ≡ a.port = ground arith in
      (e, subst (λ p. SamePort p rest) e ((same_ports_iff b rest).0 (ground arith))),
  λ (e, all).
      let later : same_ports (b ∷ rest) ≡ true =
        (same_ports_iff b rest).1 (subst (λ p. SamePort p rest) (sym e) all) in
      ground arith,
)
