-- ===== src/RuntimeLink/Machine/Invariant.antt =====
-- What holds of every supervisor of a runtime child.
use agentware.Prelude.{
  ℕ, zero, suc, ◌≤◌, ◌≡◌, ◌⊎◌, inl, inr, refl, sym, arith, Bool, Option, none, some, List, [], ◌∷◌,
  ◌++◌, length, length-append, drop, ltb, if◌then◌else◌, if_ind, Bool-cases, ◌==◌,
}
use agentware.RuntimeLink.{
  LinkState, disabled, starting, connected, degraded, reconnecting, terminal, stopped, FailureClass,
  LifecycleEventName, link_started, link_connected, link_degraded, link_reconnecting, link_terminal,
  link_stopped, RuntimeIdentity, BeatOutcome, ok_beat, unauthorized, unreachable, timeout, error,
  backpressure, rejected, installation_unauthorized, runtime_crashloop, contract_mismatch,
  config_invalid, runtime_unavailable,
}
use agentware.RuntimeLink.Machine.{
  LinkEvent, Link, put_event, emit_lifecycle_event, transition, event_name, event_buffer_size,
  crashloop_threshold, handle_identity, is_starting, is_connected, is_recovering, is_terminal,
  beat_failed, by_outcome, classify_beat_outcome, push_crash, is_crashloop, transient_error,
  handle_child_exit, begin_round, stop_link, with_reason, handle_beat, handle_terminal,
  terminal_class,
}
use agentware.RuntimeLink.Machine.Supervisor.{
  Phase, idle, passive, spawning, finished, halted, Supervisor, after, Step, start, start_disabled,
  back_off, begin, spawn_failed, spawned, identified, beaten, ending, refused, unresponsive, killed,
  exited, watch_failed, taken, stop, Reached, new, more,
}

-- The newest event in the ring, if there is one, is of this state.
abbrev pub IsNewest : LinkState → List LinkEvent → Type 0
IsNewest state [] = Unit
IsNewest state (e ∷ []) = e.state ≡ state
IsNewest state (e ∷ f ∷ es) = IsNewest state (f ∷ es)

abbrev pub IsSized : Link → Type 0
IsSized l = (length l.events ≤ 64) × (length l.crash_times ≤ 5)

abbrev pub IsSound : Link → Type 0
IsSound l = IsSized l × IsNewest l.state l.events

-- The state that fits a phase.
abbrev pub Fits : Phase → LinkState → Type 0
Fits idle state = state ≡ disabled
Fits passive state = state ≡ disabled
Fits spawning state = state ≡ starting
Fits finished state = state ≡ terminal
Fits halted state = (state ≡ terminal) ⊎ (state ≡ stopped)
Fits _ state = Unit

abbrev pub IsConsistent : Supervisor → Type 0
IsConsistent (p, l) = IsSound l × Fits p l.state

IsNewest-append :
    (state : LinkState) (e : LinkEvent) (es : List LinkEvent)
    → e.state ≡ state
    → IsNewest state (es ++ e ∷ [])
IsNewest-append state e [] h = h
IsNewest-append state e (f ∷ []) h = h
IsNewest-append state e (f ∷ g ∷ es) h = IsNewest-append state e (g ∷ es) h

IsNewest-drop :
    (state : LinkState) (es : List LinkEvent) → IsNewest state es → IsNewest state (drop 1 es)
IsNewest-drop state [] h = h
IsNewest-drop state (e ∷ []) h = tt
IsNewest-drop state (e ∷ f ∷ es) h = h

length-drop : {A : Type 0} (xs : List A) → length (drop 1 xs) ≤ length xs
length-drop [] = omega arith
length-drop (x ∷ xs) = omega arith

put_event_sound :
    (state : LinkState) (e : LinkEvent) (es : List LinkEvent)
    → e.state ≡ state
    → length es ≤ 64
    → (length (put_event e es) ≤ 64) × IsNewest state (put_event e es)
unfolding put_event
put_event_sound state e es h b =
    if_ind (λ out. (length out ≤ 64) × IsNewest state out) (ltb (length es) event_buffer_size)
      (λ k. (ground (arith, length-append es (e ∷ [])), IsNewest-append state e es h))
      (λ k. (
        omega (arith, length-append (drop 1 es) (e ∷ []), full es b (ground arith)),
        IsNewest-append state e (drop 1 es) h,
      ))
  where
    full : (es : List LinkEvent) → length es ≤ 64 → 1 ≤ length es → suc (length (drop 1 es)) ≤ 64
    full [] b k = absurd (omega (arith, k))
    full (e ∷ es) b k = b

transition-IsSound :
    (now : ℕ) (state : LinkState) (reason : Option FailureClass) (l : Link)
    (name : LifecycleEventName)
    → event_name state ≡ some name
    → IsSized l
    → IsSound (transition now state reason l) × ((transition now state reason l).state ≡ state)
unfolding transition emit_lifecycle_event
transition-IsSound now state reason l name e (b, c) =
    rw (e, transition)
      ((
        (let (events, newest) = put_event_sound state _ l.events refl b in ((events, c), newest)),
        refl,
      ))

-- A link that a handler gives: sound, with no demand on its state.
identity-IsSound :
    (now : ℕ) (identity : RuntimeIdentity) (dropped : ℕ) (l : Link)
    → IsSized l
    → IsSound (handle_identity now identity dropped l)
unfolding handle_identity
identity-IsSound now identity dropped l h =
    let known : Link = record l {
      identity = some identity;
      run_id = identity.run_id;
      fails = dropped;
    } in
    elim (Bool-cases (is_starting l.state)) [
      | inl e ↦
          rw (e, handle_identity)
            (transition-IsSound now connected none known link_connected refl h).0
      | inr e ↦
          rw (e, handle_identity)
            (transition-IsSound now degraded none known link_degraded refl h).0
    ]

failed-IsSound :
    (now : ℕ) (outcome : BeatOutcome) (l : Link) → IsSound l → IsSound (beat_failed now outcome l)
failed-IsSound now outcome l h =
    if_ind IsSound (is_connected l.state)
      (λ _.
        (transition-IsSound now degraded (some (classify_beat_outcome outcome))
          (record l { fails = suc l.fails }) link_degraded refl h.0).0)
      (λ _. h)

beat-IsSound :
    (now seen_at : ℕ) (outcome : BeatOutcome) (l : Link)
    → IsSound l
    → IsSound (by_outcome now seen_at outcome l)
beat-IsSound now seen_at ok_beat l h =
    if_ind IsSound (is_recovering l.state)
      (λ _.
        (transition-IsSound now connected none (record l { last_ok = some seen_at; fails = 0 })
          link_connected refl h.0).0)
      (λ _. h)
beat-IsSound now seen_at unauthorized l h =
    (transition-IsSound now terminal (some installation_unauthorized) l link_terminal refl h.0).0
beat-IsSound now seen_at unreachable l h = failed-IsSound now unreachable l h
beat-IsSound now seen_at timeout l h = failed-IsSound now timeout l h
beat-IsSound now seen_at error l h = failed-IsSound now error l h
beat-IsSound now seen_at backpressure l h = failed-IsSound now backpressure l h
beat-IsSound now seen_at rejected l h = failed-IsSound now rejected l h

push_crash-le : (now : ℕ) (times : List ℕ) → length times ≤ 5 → length (push_crash now times) ≤ 5
push_crash-le now times b =
    if_ind (λ (out : List ℕ). length out ≤ 5) (ltb crashloop_threshold (length (times ++ now ∷ [])))
      (λ k. shorter (times ++ now ∷ []) (omega (arith, b, length-append times (now ∷ []))))
      (λ k. ground arith)
  where
    shorter : (xs : List ℕ) → length xs ≤ 6 → length (drop 1 xs) ≤ 5
    shorter [] b = omega arith
    shorter (x ∷ xs) b = omega (arith, b)

transient-IsConsistent :
    (now : ℕ) (l : Link) → IsSized l → IsConsistent (after (transient_error now l))
unfolding transient_error
transient-IsConsistent now l (b, c) =
    let times = push_crash now l.crash_times in
    let failing : Link = record l { restarts = suc l.restarts; crash_times = times } in
    let sized : IsSized failing = (b, push_crash-le now l.crash_times c) in
    if_ind (λ out. IsConsistent (after out)) (is_crashloop times)
      (λ _.
        transition-IsSound now terminal (some runtime_crashloop) failing link_terminal refl sized)
      (λ _. ((transition-IsSound now reconnecting none failing link_reconnecting refl sized).0, tt))

exit-IsConsistent :
    (now : ℕ) (code : Option ℕ) (l : Link)
    → IsSound l
    → IsConsistent (after (handle_child_exit now code l))
unfolding handle_child_exit
exit-IsConsistent now none l h = (h, tt)
exit-IsConsistent now (some zero) l h = (h, tt)
exit-IsConsistent now (some (suc zero)) l h = (h, tt)
exit-IsConsistent now (some (suc (suc zero))) l h =
    transition-IsSound now terminal (some contract_mismatch) l link_terminal refl h.0
exit-IsConsistent now (some (suc (suc (suc zero)))) l h =
    transition-IsSound now terminal (some installation_unauthorized) l link_terminal refl h.0
exit-IsConsistent now (some (suc (suc (suc (suc n))))) l h =
    transition-IsSound now terminal (some config_invalid) l link_terminal refl h.0

begin-IsSound : (now : ℕ) (l : Link) → IsSound l → IsSound (begin_round now l)
unfolding begin_round
begin-IsSound now l h =
    if_ind IsSound (ltb 0 l.restarts)
      (λ _. (transition-IsSound now reconnecting none l link_reconnecting refl h.0).0) (λ _. h)

stop-IsConsistent : (now : ℕ) (l : Link) → IsSound l → IsConsistent (halted, stop_link now l)
unfolding stop_link
stop-IsConsistent now l h = go l.state refl
  where
    go :
        (state : LinkState)
        → l.state ≡ state
        → IsConsistent (halted, if is_terminal state then l else transition now stopped none l)
    go terminal e = (h, inl e)
    go _ e =
        let (sound, k) = transition-IsSound now stopped none l link_stopped refl h.0 in
        (sound, inr k)

-- A link keeps its soundness when the reader takes an event.
taken-IsSound : (l : Link) → IsSound l → IsSound (record l { events = drop 1 l.events })
taken-IsSound l ((b, c), newest) =
    ((omega (arith, length-drop l.events, b), c), IsNewest-drop l.state l.events newest)

step-IsConsistent :
    (enabled : Bool) (s t : Supervisor) → Step enabled s t → IsConsistent s → IsConsistent t
unfolding handle_beat handle_terminal
step-IsConsistent enabled s t (start l e) (h, k) = (h, tt)
step-IsConsistent enabled s t (start_disabled l e) (h, k) = (h, k)
step-IsConsistent enabled s t (back_off l now) (h, k) = (begin-IsSound now l h, tt)
step-IsConsistent enabled s t (begin l now) (h, k) =
    transition-IsSound now starting none l link_started refl h.0
step-IsConsistent enabled s t (spawn_failed l now) (h, k) =
    transient-IsConsistent now (with_reason runtime_unavailable l) h.0
step-IsConsistent enabled s t (spawned l now) (h, k) =
    let (events, newest) = put_event_sound l.state _ l.events (sym k) h.0.0 in
    (((events, h.0.1), newest), tt)
step-IsConsistent enabled s t (identified l now identity dropped) (h, k) =
    (identity-IsSound now identity dropped l h.0, tt)
step-IsConsistent enabled s t (beaten l now seen_at beat) (h, k) = (
  beat-IsSound now seen_at beat.outcome
      (record l {
        last_beat = some seen_at;
        run_id = if beat.run_id == "" then l.run_id else beat.run_id;
      })
      h,
  tt,
)
step-IsConsistent enabled s t (ending l now event) (h, k) = (
  (transition-IsSound now terminal (some (terminal_class event.reason)) l link_terminal refl h.0).0,
  tt,
)
step-IsConsistent enabled s t (refused l) (h, k) = (h, tt)
step-IsConsistent enabled s t (unresponsive l) (h, k) = (h, tt)
step-IsConsistent enabled s t (killed l now) (h, k) = exit-IsConsistent now none l h
step-IsConsistent enabled s t (exited l now code) (h, k) = exit-IsConsistent now code l h
step-IsConsistent enabled s t (watch_failed l now) (h, k) = transient-IsConsistent now l h.0
step-IsConsistent enabled s t (taken p l) (h, k) = (taken-IsSound l h, k)
step-IsConsistent enabled s t (stop p l now started) (h, k) = stop-IsConsistent now l h

-- Whatever the child does, and in whatever order the clock, the caller and the reader of the events
-- come in, the ring holds at most 64 events, the newest of which is of the present state, and at
-- most 5 crash times are kept. A supervisor that returned by itself is in the state `terminal`, one
-- that was stopped in `terminal` or `stopped`, and one that was not started in `disabled`.
pub Reached-IsConsistent : (enabled : Bool) (s : Supervisor) → Reached enabled s → IsConsistent s
Reached-IsConsistent enabled s new = (((omega arith, omega arith), tt), refl)
Reached-IsConsistent enabled s (more r t reached step) =
    step-IsConsistent enabled r t step (Reached-IsConsistent enabled r reached)
