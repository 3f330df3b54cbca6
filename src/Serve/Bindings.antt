-- ===== src/Serve/Bindings.antt =====
-- crates/mai-probe/src/serve.rs: what holds of the panes' bindings after every step of the server.
use multi_ai.Base.{
  ◌<◌, ◌≡◌, ap, sym, ◌∙◌, inl, inr, Bool, true, false, none, some, arith, is_some, ◌==◌, list_eq,
  nat_eq, option_eq, Bool-cases,
}
use multi_ai.Map
use multi_ai.Map.{Map, get-insert, get-insert_cases, get-remove, get-retain_keys}
use multi_ai.Protocol.{PaneRef}
use multi_ai.Protocol.Equal.{pane_ref_eq}
use multi_ai.Serve.{Binding}
use multi_ai.Serve.Scraping.{misses_to_exit}

abbrev Bindings : Type 0
Bindings = Map PaneRef Binding

abbrev Holds : Type 0
Holds = Map PaneRef (Unit {0})

-- A binding has missed fewer scrapes than it takes to exit, and a pane that is held back after an exit is
-- bound to no agent.
pub record Sound (agents : Bindings) (hold : Holds) : Type 0 where
  pub few_misses :
      (p : PaneRef) (b : Binding) → Map.get p agents ≡ some b → b.misses < misses_to_exit
  pub held_free : (p : PaneRef) → is_some (Map.get p hold) ≡ true → Map.get p agents ≡ none

pub bound_free :
    (agents : Bindings) (hold : Holds) (p : PaneRef) (b : Binding)
    → Sound agents hold
    → Map.get p agents ≡ some b
    → is_some (Map.get p hold) ≡ false
bound_free agents hold p b v g = elim (Bool-cases (is_some (Map.get p hold))) [
  | inl y ↦ let n = v.held_free p y in ground (arith, n, g)
  | inr n ↦ n
]

pub put-Sound :
    (agents : Bindings) (hold : Holds) (p : PaneRef) (b : Binding)
    → b.misses < misses_to_exit
    → is_some (Map.get p hold) ≡ false
    → Sound agents hold
    → Sound (Map.insert p b agents) hold
put-Sound agents hold p b m h v = record {
  few_misses = λ q c g. elim (get-insert_cases p q b agents g) [
    | inl e ↦ ground (arith, e.1, m)
    | inr old ↦ v.few_misses q c old
  ];
  held_free = λ q g. elim (Bool-cases (p == q)) [
    | inl y ↦
        let e : p ≡ q = (pane_ref_eq.beq_iff p q).0 y in
        let f : is_some (Map.get q hold) ≡ false = ap (λ k. is_some (Map.get k hold)) (sym e) ∙ h in
        ground (arith, f, g)
    | inr n ↦ ground (arith, get-insert p q b agents, n, v.held_free q g)
  ];
}

pub drop-Sound :
    (agents : Bindings) (hold : Holds) (p : PaneRef)
    → Sound agents hold
    → Sound (Map.remove p agents) hold
drop-Sound agents hold p v = record {
  few_misses = λ q c g. ground (arith, get-remove p q agents, v.few_misses q c);
  held_free = λ q g. ground (arith, get-remove p q agents, v.held_free q g);
}

pub release-Sound :
    (agents : Bindings) (hold : Holds) (p : PaneRef)
    → Sound agents hold
    → Sound agents (Map.remove p hold)
release-Sound agents hold p v = record {
  few_misses = v.few_misses;
  held_free = λ q g. v.held_free q (ground (arith, get-remove p q hold, g));
}

pub exit-Sound :
    (agents : Bindings) (hold : Holds) (p : PaneRef)
    → Sound agents hold
    → Sound (Map.remove p agents) (Map.insert p tt hold)
exit-Sound agents hold p v = record {
  few_misses = (drop-Sound agents hold p v).few_misses;
  held_free = λ q g. elim (Bool-cases (p == q)) [
    | inl y ↦ ground (arith, get-remove p q agents, y)
    | inr n ↦ ground (
      arith,
      get-remove p q agents,
      n,
      v.held_free q (ground (arith, get-insert p q tt hold, n, g)),
    )
  ];
}

pub retain-Sound :
    (agents : Bindings) (hold : Holds) (k : PaneRef → Bool)
    → Sound agents hold
    → Sound (Map.retain_keys k agents) (Map.retain_keys k hold)
retain-Sound agents hold k v = record {
  few_misses = λ q c g. ground (arith, get-retain_keys k q agents, v.few_misses q c);
  held_free = λ q g. elim (Bool-cases (k q)) [
    | inl y ↦ ground (
      arith,
      get-retain_keys k q agents,
      y,
      v.held_free q (ground (arith, get-retain_keys k q hold, y, g)),
    )
    | inr n ↦ ground (arith, get-retain_keys k q agents, n)
  ];
}
