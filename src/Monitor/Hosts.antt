-- ===== src/Monitor/Hosts.antt =====
-- crates/mai-core/src/monitor.rs: what is known and shown of a host.
use multi_ai.Base.{
  ℕ, ◌≡◌, refl, ap, ◌∙◌, Option, none, some, List, [], ◌∷◌, Text, nat_eq, list_eq, unwrap_or,
}
use multi_ai.Map
use multi_ai.Protocol.{ProbeMsg, agent_event}
use multi_ai.Host.{HostEvent, ConnState, connecting, host_state, msg, probe, term}
use multi_ai.Monitor.{host, Monitor, HostView, apply, apply_msg, set_view, view_of}

unfoldable pub run_events : Monitor → Text → List (HostEvent × ℕ) → Monitor
run_events m id [] = m
run_events m id ((ev, now) ∷ evs) = run_events (apply m id ev now).0 id evs

-- The last states that the host's tasks reported.
abbrev pub last_probe : Option ConnState → List (HostEvent × ℕ) → Option ConnState
last_probe p [] = p
last_probe p ((probe c, now) ∷ evs) = last_probe (some c) evs
last_probe p (_ ∷ evs) = last_probe p evs

abbrev pub last_term : Option ConnState → List (HostEvent × ℕ) → Option ConnState
last_term t [] = t
last_term t ((term c, now) ∷ evs) = last_term c evs
last_term t (_ ∷ evs) = last_term t evs

view-set_view : (m : Monitor) (id : Text) (v : HostView) → view_of (set_view m id v) id ≡ v
view-set_view m id v = rw Map.get-insert_self

-- The connections of a view.
abbrev conns : HostView → Option ConnState × Option ConnState
conns v = (v.probe, v.term)

msg-conns :
    (m : Monitor) (id : Text) (x : ProbeMsg) (now : ℕ)
    → conns (view_of (apply_msg m id x now).0 id) ≡ conns (view_of m id)
unfolding apply_msg
msg-conns m id (agent_event ev) now = ap conns (view-set_view m id _)
msg-conns m id _ now = ap conns (view-set_view m id _)

apply-conns :
    (m : Monitor) (id : Text) (ev : HostEvent) (now : ℕ)
    → conns (view_of (apply m id ev now).0 id) ≡ (
      last_probe (view_of m id).probe ((ev, now) ∷ []),
      last_term (view_of m id).term ((ev, now) ∷ []),
    )
unfolding apply
apply-conns m id (msg x) now =
    msg-conns (set_view m id (view_of m id)) id x now ∙ ap conns (view-set_view m id (view_of m id))
apply-conns m id _ now = ap conns (view-set_view m id _)

last_probe_cons :
    (p : Option ConnState) (e : HostEvent × ℕ) (evs : List (HostEvent × ℕ))
    → last_probe (last_probe p (e ∷ [])) evs ≡ last_probe p (e ∷ evs)
last_probe_cons p (probe c, now) evs = refl
last_probe_cons p (_, now) evs = refl

last_term_cons :
    (t : Option ConnState) (e : HostEvent × ℕ) (evs : List (HostEvent × ℕ))
    → last_term (last_term t (e ∷ [])) evs ≡ last_term t (e ∷ evs)
last_term_cons t (term c, now) evs = refl
last_term_cons t (_, now) evs = refl

run-conns :
    (m : Monitor) (id : Text) (evs : List (HostEvent × ℕ))
    → conns (view_of (run_events m id evs) id)
      ≡ (last_probe (view_of m id).probe evs, last_term (view_of m id).term evs)
unfolding run_events
run-conns m id [] = refl
run-conns m id ((ev, now) ∷ evs) = cc (
  run-conns (apply m id ev now).0 id evs,
  apply-conns m id ev now,
  last_probe_cons (view_of m id).probe (ev, now) evs,
  last_term_cons (view_of m id).term (ev, now) evs,
)

-- After any events of a host that was not known, an event of its probe connection shows the state of
-- that connection with the last one reported for its terminals, and an event of the terminals shows
-- theirs with the last one reported for the probe, or connecting if there was none.
pub shown_state :
    (m : Monitor) (id : Text) (evs : List (HostEvent × ℕ)) (now : ℕ)
    → Map.get id m.hosts ≡ none
    → let m' : Monitor = run_events m id evs in
      let p : ConnState = unwrap_or (last_probe none evs) connecting in
      let t : Option ConnState = last_term none evs in
      ((c : ConnState) → (apply m' id (probe c) now).1 ≡ host id (host_state c t) c t ∷ [])
      × ((c : Option ConnState) → (apply m' id (term c) now).1 ≡ host id (host_state p c) p c ∷ [])
unfolding apply
shown_state m id evs now new =
    let before : conns (view_of m id) ≡ (none, none) = rw new refl in
    let q = run-conns m id evs in
    let at_probe = ap (λ x. x.0) q ∙ ap (λ x. last_probe x.0 evs) before in
    let at_term = ap (λ x. x.1) q ∙ ap (λ x. last_term x.1 evs) before in
    (λ c. rw at_term refl, λ c. rw at_probe refl)
