-- ===== src/Scrape/Observing.antt =====
-- crates/mai-probe/src/scrape.rs: what a state that is reported says of the screens seen before.
use mathlib.Core.List.{append_assoc, append-nil}
use multi_ai.Base.{
  ℕ, ◌-◌, ◌≤◌, ◌≡◌, ◌≢◌, subst, refl, ap, sym, ◌∙◌, true, Option, none, some, List, [], ◌∷◌, ◌++◌,
  arith, Text, ltb, nat_beq, nat_beq_iff, All, ◌==◌, nat_eq, option_eq, if◌then◌else◌, Bool-cases,
  inl, inr,
}
use multi_ai.Map
use multi_ai.Protocol.{AgentState, working, needs_input, done, PaneRef}
use multi_ai.Protocol.Equal.{pane_ref_eq, state_eq}
use multi_ai.Scrape.{
  Engine, PaneScrape, ScrapeTracker, CompiledRule, any_match, clean, rule, tell, observe_known,
  observe,
}

module _ (e : Engine) (hash_screen : Text → ℕ) where
  -- What `tell` leaves of a pane's history.
  tell-get :
      (t : ScrapeTracker) (pane : PaneRef) (p : PaneScrape) (next : AgentState)
      → (em : Option AgentState) × (Map.get pane (tell e hash_screen t pane p next).0
          ≡ some (record p { emitted = em }))
  unfolding tell
  tell-get t pane p next = elim (Bool-cases (p.emitted == some next)) [
    | inl y ↦ (p.emitted, rw y (Map.get-insert_self pane p t))
    | inr n ↦ (some next, rw n (Map.get-insert_self pane (record p { emitted = some next }) t))
  ]

  -- The time since which the screen is the same.
  abbrev since_after : ℕ → PaneScrape → ℕ → ℕ
  since_after h p now = if nat_beq p.hash h then p.stable_since_ms else now

  observe_same-get :
      (r : CompiledRule e) (t : ScrapeTracker) (pane : PaneRef) (p : PaneScrape) (seen : Text)
      (now : ℕ)
      → Map.get pane t ≡ some p
      → nat_beq p.hash (hash_screen seen) ≡ true
      → (em : Option AgentState) × (Map.get pane (observe_known e hash_screen r t pane p seen now).0
          ≡ some (record p { emitted = em }))
  unfolding observe_known
  observe_same-get r t pane p seen now g y =
      elim (Bool-cases (ltb (now - p.stable_since_ms) r.stable_ms)) [
        | inl l ↦ (p.emitted, rw (y, l) g)
        | inr m ↦ elim (Bool-cases (any_match e r.needs_input_res seen)) [
          | inl w ↦ rw (y, m, w) (tell-get t pane p needs_input)
          | inr x ↦ elim (Bool-cases (any_match e r.done_res seen)) [
            | inl f ↦ rw (y, m, x, f) (tell-get t pane p done)
            | inr z ↦
                (none, rw (y, m, x, z) (Map.get-insert_self pane (record p { emitted = none }) t))
          ]
        ]
      ]

  observe_known-get :
      (r : CompiledRule e) (t : ScrapeTracker) (pane : PaneRef) (p : PaneScrape) (seen : Text)
      (now : ℕ)
      → Map.get pane t ≡ some p
      → (em : Option AgentState) × (Map.get pane (observe_known e hash_screen r t pane p seen now).0
          ≡ some (record {
            hash = hash_screen seen;
            stable_since_ms = since_after (hash_screen seen) p now;
            emitted = em;
          }))
  unfolding observe_known
  observe_known-get r t pane p seen now g = elim (Bool-cases (nat_beq p.hash (hash_screen seen))) [
    | inr n ↦
        rw n (tell-get t pane (record p { hash = hash_screen seen; stable_since_ms = now }) working)
    | inl y ↦
        let (em, q) = observe_same-get r t pane p seen now g y in
        (em, unfold observe_known in q ∙ ground (arith, y))
  ]

  tell_said :
      (t : ScrapeTracker) (pane : PaneRef) (p : PaneScrape) (next st : AgentState)
      → (tell e hash_screen t pane p next).1 ≡ some st
      → st ≡ next
  unfolding tell
  tell_said t pane p next st h = elim (Bool-cases (p.emitted == some next)) [
    | inl y ↦ ground (arith, y)
    | inr n ↦ ground (arith, n)
  ]

  -- A pane waits or has finished only on a screen that has been the same for long enough.
  observe_known-stable :
      (r : CompiledRule e) (t : ScrapeTracker) (pane : PaneRef) (p : PaneScrape) (seen : Text)
      (now : ℕ) (st : AgentState)
      → (observe_known e hash_screen r t pane p seen now).1 ≡ some st
      → st ≢ working
      → (nat_beq p.hash (hash_screen seen) ≡ true) × (r.stable_ms ≤ now - p.stable_since_ms)
  unfolding observe_known
  observe_known-stable r t pane p seen now st h ne =
      elim (Bool-cases (nat_beq p.hash (hash_screen seen))) [
        | inr n ↦ absurd (
            ne (
              tell_said t pane (record p { hash = hash_screen seen; stable_since_ms = now }) working
                st (rw n at h)))
        | inl y ↦ elim (Bool-cases (ltb (now - p.stable_since_ms) r.stable_ms)) [
          | inl l ↦ cc (rw (y, l) at h)
          | inr m ↦ (y, ground (arith, m))
        ]
      ]

  -- Observations of one pane, each a screen and a time.
  abbrev pub Observed : Type 0
  Observed = List (Text × ℕ)

  module _ (rules : List (CompiledRule e)) (agent : Text) (pane : PaneRef) where
    unfoldable pub watch : ScrapeTracker → Observed → ScrapeTracker
    watch t [] = t
    watch t ((s, now) ∷ os) = watch (observe e hash_screen t rules agent pane s now).0 os

    module _ (r : CompiledRule e) where
      -- The screens that were seen from `since` on have hash `h`.
      abbrev HasHash : ℕ → Text × ℕ → Type 0
      HasHash h o = hash_screen (clean e r o.0) ≡ h

      pub record Steady (h since : ℕ) (past : Observed) : Type 0 where
        pub before : Observed
        pub screen : Text
        pub after : Observed
        pub whole : past ≡ before ++ (screen, since) ∷ after
        pub same : All (HasHash h) ((screen, since) ∷ after)

      All-snoc :
          (h : ℕ) (os : Observed) (o : Text × ℕ)
          → All (HasHash h) os
          → HasHash h o
          → All (HasHash h) (os ++ o ∷ [])
      All-snoc h [] o a b = (b, tt)
      All-snoc h (x ∷ os) o a b = (a.0, All-snoc h os o a.1 b)

      -- One more observation.
      Steady-snoc :
          (p : PaneScrape) (past : Observed) (s : Text) (now : ℕ)
          → Steady p.hash p.stable_since_ms past
          → let h : ℕ = hash_screen (clean e r s) in
            Steady h (since_after h p now) (past ++ (s, now) ∷ [])
      Steady-snoc p past s now v =
          let h : ℕ = hash_screen (clean e r s) in
          elim (Bool-cases (nat_beq p.hash h)) [
            | inl y ↦
                let q : p.hash ≡ h = (nat_beq_iff p.hash h).0 y in
                rw y (record {
                  before = v.before;
                  screen = v.screen;
                  after = v.after ++ (s, now) ∷ [];
                  whole =
                      ap (λ l. l ++ (s, now) ∷ []) v.whole
                      ∙ append_assoc v.before ((v.screen, p.stable_since_ms) ∷ v.after)
                          ((s, now) ∷ []);
                  same =
                      subst
                        (λ k.
                          All (HasHash k)
                            ((v.screen, p.stable_since_ms) ∷ (v.after ++ (s, now) ∷ [])))
                        q (v.same.0, All-snoc p.hash v.after (s, now) v.same.1 (sym q));
                })
            | inr n ↦
                rw n (record {
                  before = past;
                  screen = s;
                  after = [];
                  whole = refl;
                  same = (refl, tt);
                })
          ]

      observe-known :
          (t : ScrapeTracker) (p : PaneScrape) (s : Text) (now : ℕ)
          → rule e rules agent ≡ some r
          → Map.get pane t ≡ some p
          → observe e hash_screen t rules agent pane s now
            ≡ observe_known e hash_screen r t pane p (clean e r s) now
      unfolding observe
      observe-known t p s now k g = ground (arith, k, g)

      observe_first :
          (t : ScrapeTracker) (s : Text) (now : ℕ)
          → rule e rules agent ≡ some r
          → Map.get pane t ≡ none
          → let p : PaneScrape = record {
            hash = hash_screen (clean e r s);
            stable_since_ms = now;
            emitted = none;
          } in
            observe e hash_screen t rules agent pane s now ≡ (Map.insert pane p t, none)
      unfolding observe
      observe_first t s now k g = ground (arith, k, g)

      -- The history that the tracker keeps of the pane is that of the screens it was shown.
      abbrev Kept : ScrapeTracker → Observed → Type 0
      Kept t past =
          (p : PaneScrape) × (Map.get pane t ≡ some p) × Steady p.hash p.stable_since_ms past

      observe-Kept :
          (t : ScrapeTracker) (past : Observed) (s : Text) (now : ℕ)
          → rule e rules agent ≡ some r
          → Kept t past
          → Kept (observe e hash_screen t rules agent pane s now).0 (past ++ (s, now) ∷ [])
      observe-Kept t past s now k (p, g, v) =
          let (em, q) = observe_known-get r t pane p (clean e r s) now g in
          rw (observe-known t p s now k g) (_, q, Steady-snoc p past s now v)

      watch-Kept :
          (t : ScrapeTracker) (past os : Observed)
          → rule e rules agent ≡ some r
          → Kept t past
          → Kept (watch t os) (past ++ os)
      unfolding watch
      watch-Kept t past [] k v = rw append-nil v
      watch-Kept t past ((s, now) ∷ os) k v =
          subst (Kept (watch (observe e hash_screen t rules agent pane s now).0 os))
            (append_assoc past ((s, now) ∷ []) os)
            (watch-Kept (observe e hash_screen t rules agent pane s now).0 (past ++ (s, now) ∷ [])
              os k (observe-Kept t past s now k v))

      first-Kept :
          (t : ScrapeTracker) (s : Text) (now : ℕ)
          → rule e rules agent ≡ some r
          → Map.get pane t ≡ none
          → Kept (observe e hash_screen t rules agent pane s now).0 ((s, now) ∷ [])
      first-Kept t s now k g = rw (observe_first t s now k g) (
        record { hash = hash_screen (clean e r s); stable_since_ms = now; emitted = none },
        Map.get-insert_self pane _ t,
        record { before = []; screen = s; after = []; whole = refl; same = (refl, tt) },
      )

      -- Watching a pane from the first screen on: a state other than working is reported only when
      -- the last screens, from one seen at least `stable_ms` ago up to this one, had all the same
      -- hash once the ignored parts were taken out.
      pub reported_stable :
          (t : ScrapeTracker) (past : Observed) (s : Text) (now : ℕ) (st : AgentState)
          → rule e rules agent ≡ some r
          → Map.get pane t ≡ none
          → (observe e hash_screen (watch t past) rules agent pane s now).1 ≡ some st
          → st ≢ working
          → (since : ℕ) × Steady (hash_screen (clean e r s)) since past
            × (r.stable_ms ≤ now - since)
      reported_stable t [] s now st k g h ne = unfold watch in cc (h, observe_first t s now k g)
      reported_stable t ((s0, t0) ∷ os) s now st k g h ne =
          let t1 : ScrapeTracker = (observe e hash_screen t rules agent pane s0 t0).0 in
          let (p, got, v) = watch-Kept t1 ((s0, t0) ∷ []) os k (first-Kept t s0 t0 k g) in
          let h' : (observe e hash_screen (watch t1 os) rules agent pane s now).1 ≡ some st =
            unfold watch in h in
          let (y, m) =
            observe_known-stable r (watch t1 os) pane p (clean e r s) now st
              (sym (ap (λ x. x.1) (observe-known (watch t1 os) p s now k got)) ∙ h') ne in
          let same : p.hash ≡ hash_screen (clean e r s) =
            (nat_beq_iff p.hash (hash_screen (clean e r s))).0 y in
          (p.stable_since_ms, subst (λ q. Steady q p.stable_since_ms ((s0, t0) ∷ os)) same v, m)
