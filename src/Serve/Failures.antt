-- ===== src/Serve/Failures.antt =====
-- crates/mai-probe/src/serve.rs: a failure that lasts is reported once, and what a poll forgets.
use multi_ai.Base.{
  ℕ, ◌≡◌, refl, ap, inl, inr, Bool, true, false, not, ◌&&◌, Option, none, some, List, [], ◌∷◌, ◌++◌,
  ◌⊎◌, PartialEq, Text, text, arith, is_some, is_some_and, any, nat_beq, ok, err, Bool-cases, ◌==◌,
  list_eq, nat_eq, list_beq_iff,
}
use multi_ai.Map
use multi_ai.Map.{get-insert_self, get-retain_keys}
use multi_ai.Protocol.{PaneRef, SessionInfo, PaneInfo, ProbeMsg}
use multi_ai.Protocol.Equal.{pane_ref_eq, pane_ref_beq_iff}
use multi_ai.Scrape.{Engine, ScrapeTracker, forget}
use multi_ai.Serve.{sessions_scope, panes_scope, dump_scope, scope_eq, Server, error}
use multi_ai.Serve.Polling.{
  View, Panes, report, pane_exists, forget_pane, forget_panes, forget_gone, scope_lives,
  poll_sessions, poll_panes,
}

-- Polls that follow each other, and what they send.
abbrev pub poll_all : (e : Engine) → List View → Server e → Server e × List ProbeMsg
poll_all e [] s = (s, [])
poll_all e (z ∷ zs) s =
    let (t, out) = poll_panes e z s in let (u, more) = poll_all e zs t in (u, out ++ more)

abbrev pub AllFail : List View → Type 0
AllFail [] = Unit
AllFail (z ∷ zs) = ((x : Text) × (z.sessions ≡ err x)) × AllFail zs

poll_known :
    (e : Engine) (z : View) (s : Server e) (x : Text)
    → z.sessions ≡ err x
    → is_some (Map.get sessions_scope s.failing) ≡ true
    → poll_panes e z s ≡ (s, [])
unfolding poll_panes report
poll_known e z s x h k = rw (h, k) refl

poll_new :
    (e : Engine) (z : View) (s : Server e) (x : Text)
    → z.sessions ≡ err x
    → is_some (Map.get sessions_scope s.failing) ≡ false
    → poll_panes e z s ≡ (
      record s { failing = Map.insert sessions_scope tt s.failing },
      error (text "zellij") x ∷ [],
    )
unfolding poll_panes report
poll_new e z s x h k = rw (h, k) refl

silent :
    (e : Engine) (zs : List View) (s : Server e)
    → is_some (Map.get sessions_scope s.failing) ≡ true
    → AllFail zs
    → (poll_all e zs s).1 ≡ []
silent e [] s h a = refl
silent e (z ∷ zs) s h a = rw (poll_known e z s a.0.0 a.0.1 h) (silent e zs s h a.1)

-- While zellij does not tell its sessions, however many polls fail in a row, the first failure is
-- reported, and no other.
pub reported_once :
    (e : Engine) (z : View) (zs : List View) (s : Server e) (x : Text)
    → z.sessions ≡ err x
    → AllFail zs
    → is_some (Map.get sessions_scope s.failing) ≡ false
    → (poll_all e (z ∷ zs) s).1 ≡ error (text "zellij") x ∷ []
reported_once e z zs s x h a n =
    let s' : Server e = record s { failing = Map.insert sessions_scope tt s.failing } in
    let k : is_some (Map.get sessions_scope s'.failing) ≡ true =
      ap is_some (get-insert_self sessions_scope tt s.failing) in
    rw (poll_new e z s x h n) (ap (λ out. error (text "zellij") x ∷ out) (silent e zs s' k a))

-- The pane is among those that were found.
abbrev pub Has : List PaneInfo → ℕ → Type 0
Has [] id = ⊥
Has (q ∷ qs) id = (q.id ≡ id) ⊎ Has qs id

abbrev pub Listed : Panes → PaneRef → Type 0
Listed panes p = (ps : List PaneInfo) × ((Map.get p.session panes ≡ some ps) × Has ps p.pane_id)

any-Has : (qs : List PaneInfo) (id : ℕ) → any (λ q. nat_beq q.id id) qs ≡ true → Has qs id
any-Has [] id h = cc
any-Has (q ∷ qs) id h = ground (arith, any-Has qs id, h)

Has-any : (qs : List PaneInfo) (id : ℕ) → Has qs id → any (λ q. nat_beq q.id id) qs ≡ true
Has-any [] id h = elim h [ ]
Has-any (q ∷ qs) id (inl h) = ground (arith, h)
Has-any (q ∷ qs) id (inr h) = ground (arith, Has-any qs id h)

exists_by :
    (o : Option (List PaneInfo)) (id : ℕ)
    → is_some_and o (λ ps. any (λ q. nat_beq q.id id) ps) ≡ true
    → (ps : List PaneInfo) × ((o ≡ some ps) × Has ps id)
exists_by none id h = cc
exists_by (some ps) id h = (ps, (refl, any-Has ps id h))

pane_exists-Listed : (panes : Panes) (p : PaneRef) → pane_exists panes p ≡ true → Listed panes p
unfolding pane_exists
pane_exists-Listed panes p h = exists_by (Map.get p.session panes) p.pane_id h

-- A screen that is not remembered stays so.
module _ (fresh : Panes) (p : PaneRef) where
  forget_pane-none :
      (name : Text) (q : PaneInfo) (t : ScrapeTracker)
      → Map.get p t ≡ none
      → Map.get p (forget_pane fresh name q t) ≡ none
  unfolding forget
  forget_pane-none name q t h =
      ground (arith, h, Map.get-remove (record { session = name; pane_id = q.id }) p t)

  forget_panes-none :
      (name : Text) (qs : List PaneInfo) (t : ScrapeTracker)
      → Map.get p t ≡ none
      → Map.get p (forget_panes fresh name qs t) ≡ none
  unfolding forget_panes
  forget_panes-none name [] t h = h
  forget_panes-none name (q ∷ qs) t h =
      forget_panes-none name qs (forget_pane fresh name q t) (forget_pane-none name q t h)

  forget_gone-none :
      (old : Panes) (t : ScrapeTracker)
      → Map.get p t ≡ none
      → Map.get p (forget_gone fresh old t) ≡ none
  unfolding forget_gone
  forget_gone-none [] t h = h
  forget_gone-none ((name, qs) ∷ old) t h =
      forget_gone-none old (forget_panes fresh name qs t) (forget_panes-none name qs t h)

  -- The screen of a pane that was found before and is not any more is forgotten.
  module _ (gone : pane_exists fresh p ≡ false) where
    forget_pane_hit :
        (q : PaneInfo) (t : ScrapeTracker)
        → q.id ≡ p.pane_id
        → Map.get p (forget_pane fresh p.session q t) ≡ none
    unfolding forget
    forget_pane_hit q t h =
        let same : PaneRef = record { session = p.session; pane_id = q.id } in
        let e : same ≡ p = ap (λ i. record { session = p.session; pane_id = i }) h in
        rw e (rw gone (ground (arith, Map.get-remove p p t, pane_ref_beq_iff p p)))

    forget_panes_hit :
        (qs : List PaneInfo) (t : ScrapeTracker)
        → Has qs p.pane_id
        → Map.get p (forget_panes fresh p.session qs t) ≡ none
    unfolding forget_panes
    forget_panes_hit [] t h = elim h [ ]
    forget_panes_hit (q ∷ qs) t (inl h) =
        forget_panes-none p.session qs (forget_pane fresh p.session q t) (forget_pane_hit q t h)
    forget_panes_hit (q ∷ qs) t (inr h) = forget_panes_hit qs (forget_pane fresh p.session q t) h

    forget_gone_hit :
        (old : Panes) (qs : List PaneInfo) (t : ScrapeTracker)
        → Map.get p.session old ≡ some qs
        → Has qs p.pane_id
        → Map.get p (forget_gone fresh old t) ≡ none
    unfolding forget_gone Map.get
    forget_gone_hit [] qs t g h = cc
    forget_gone_hit ((name, rs) ∷ old) qs t g h = elim (Bool-cases (name == p.session)) [
      | inl y ↦
          let same : name ≡ p.session = (list_beq_iff name p.session).0 y in
          let found : rs ≡ qs = ground (arith, y, g) in
          forget_gone-none old (forget_panes fresh name rs t)
            (rw (same, found) (forget_panes_hit qs t h))
      | inr n ↦ forget_gone_hit old qs (forget_panes fresh name rs t) (ground (arith, n, g)) h
    ]

-- What the server remembers of a pane: a binding, a hold after an exit, the screens seen of it, or that its
-- screen could not be read.
abbrev pub Remembered : (e : Engine) → PaneRef → Server e → Type 0
Remembered e p s =
    (is_some (Map.get p s.agents) ≡ true)
    ⊎ ((is_some (Map.get p s.exit_hold) ≡ true)
        ⊎ ((is_some (Map.get p s.scrape) ≡ true)
            ⊎ (is_some (Map.get (dump_scope p) s.failing) ≡ true)))

-- Zellij tells the session as running.
abbrev pub Running : Text → List SessionInfo → Type 0
Running name [] = ⊥
Running name (s ∷ ss) = ((s.exited ≡ false) × (s.name ≡ name)) ⊎ Running name ss

any-Running :
    (name : Text) (ss : List SessionInfo)
    → any (λ l. not l.exited && (l.name == name)) ss ≡ true
    → Running name ss
any-Running name [] h = cc
any-Running name (s ∷ ss) h = ground (arith, h, any-Running name ss, list_beq_iff s.name name)

retained :
    {K V : Type 0} ⦃same : PartialEq K⦄ (keep : K → Bool) (k : K) (m : Map.Map K V)
    → is_some (Map.get k (Map.retain_keys keep m)) ≡ true
    → keep k ≡ true
retained keep k m h = ground (arith, get-retain_keys keep k m)

poll_tells :
    (e : Engine) (z : View) (s : Server e) (ss : List SessionInfo)
    → z.sessions ≡ ok ss
    → poll_panes e z s ≡ poll_sessions e z ss s
unfolding poll_panes
poll_tells e z s ss h = rw h refl

-- The screens that the server has seen are of panes that it had found.
abbrev pub SeenListed : (e : Engine) → Server e → Type 0
SeenListed e s = (p : PaneRef) → is_some (Map.get p s.scrape) ≡ true → Listed s.panes p

screens_forget :
    (fresh old : Panes) (p : PaneRef) (t : ScrapeTracker)
    → (is_some (Map.get p t) ≡ true → Listed old p)
    → is_some (Map.get p (forget_gone fresh old t)) ≡ true
    → pane_exists fresh p ≡ true
screens_forget fresh old p t seen h = elim (Bool-cases (pane_exists fresh p)) [
  | inl y ↦ y
  | inr n ↦ elim (Bool-cases (is_some (Map.get p t))) [
    | inl y ↦
        let (qs, (g, has)) = seen y in cc (ap is_some (forget_gone_hit fresh p n old qs t g has), h)
    | inr m ↦
        let none_before : Map.get p t ≡ none = ground (arith, m) in
        cc (ap is_some (forget_gone-none fresh p old t none_before), h)
  ]
]

sessions_forget :
    (e : Engine) (z : View) (ss : List SessionInfo) (s : Server e) (p : PaneRef)
    → SeenListed e s
    → Remembered e p (poll_sessions e z ss s).0
    → pane_exists (poll_sessions e z ss s).0.panes p ≡ true
unfolding poll_sessions scope_lives
sessions_forget e z ss s p seen (inl a) = retained _ p s.agents a
sessions_forget e z ss s p seen (inr (inl a)) = retained _ p s.exit_hold a
sessions_forget e z ss s p seen (inr (inr (inl a))) =
    screens_forget (poll_sessions e z ss s).0.panes s.panes p s.scrape (seen p) a
sessions_forget e z ss s p seen (inr (inr (inr a))) =
    let s' : Server e = (poll_sessions e z ss s).0 in
    retained (scope_lives s'.panes ss) (dump_scope p) _ a

scopes_forget :
    (e : Engine) (z : View) (ss : List SessionInfo) (s : Server e) (name : Text)
    → is_some (Map.get (panes_scope name) (poll_sessions e z ss s).0.failing) ≡ true
    → Running name ss
unfolding poll_sessions scope_lives
scopes_forget e z ss s name h =
    let s' : Server e = (poll_sessions e z ss s).0 in
    any-Running name ss (retained (scope_lives s'.panes ss) (panes_scope name) _ h)

-- If the screens that the server has seen are of panes that it had found: after a poll in which zellij told its
-- sessions, each binding, hold, screen seen and failure to read a screen that the server remembers is of a
-- pane that is among those found now, and each failure to list panes is of a session that runs.
pub poll_forgets :
    (e : Engine) (z : View) (s : Server e) (ss : List SessionInfo)
    → z.sessions ≡ ok ss
    → SeenListed e s
    → let s' : Server e = (poll_panes e z s).0 in
      ((p : PaneRef) → Remembered e p s' → Listed s'.panes p)
      × ((name : Text) → is_some (Map.get (panes_scope name) s'.failing) ≡ true → Running name ss)
poll_forgets e z s ss h seen = rw (poll_tells e z s ss h) (
  λ p r. pane_exists-Listed (poll_sessions e z ss s).0.panes p (sessions_forget e z ss s p seen r),
  λ name f. scopes_forget e z ss s name f,
)
