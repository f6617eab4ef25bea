-- ===== src/Bundle/Lifecycle/FailClosed.antt =====
-- Calls are denied until a valid bundle is in force.
use agentware.Prelude.{
  ℕ, String, ◌≡◌, ◌≢◌, ◌⊎◌, inl, inr, refl, Bool, true, false, Option, none, some, List, [], ◌∷◌,
  is_some, subst, ltb, ◌-◌, arith, if_ind, Bool-cases, if◌then◌else◌,
}
use agentware.Prelude.Value.{Value}
use agentware.Prelude.Python.{Python}
use agentware.Prelude.Exec.{Result, ok, raise, bundle_fetch_error}
use agentware.Types.{deny, Args, CallerContext}
use agentware.Bundle.{PolicyBundleData, is_expired, evaluate_bundle}
use agentware.Bundle.Wire.{from_wire}
use agentware.Bundle.Lifecycle.{
  is_bundle_error, returned, min_refresh_interval, evaluate_with, local_decision,
  no_bundle_decision, Environment, CacheFile, absent, unreadable, document, Lifecycle, Outside,
  new_lifecycle, load_bundle_from_disk, do_fetch, activate, start_fetch, start, refresh_fetch,
  refresh, evaluate,
}

-- One call of the lifecycle, with what it meets outside.
pub data Op : Type 0 where
  start_op refresh_op : Outside → Op

-- the outside world of a call
abbrev pub outside : Op → Outside
outside (start_op o) = o
outside (refresh_op o) = o

module _ (py : Python) where
  unfoldable pub step : Lifecycle → Op → Lifecycle
  step s (start_op o) = (start py s o).1
  step s (refresh_op o) = (refresh py s o).1

  unfoldable pub run : Lifecycle → List Op → Lifecycle
  run s [] = s
  run s (op ∷ ops) = run (step s op) ops

  -- The bundle has passed the parser.
  abbrev pub IsParsed : PolicyBundleData → Type 0
  IsParsed b = (now : ℕ) × (raw : Value) × (from_wire py now raw ≡ ok b)

  pub record IsSound (s : Lifecycle) : Type 0 where
    pub parsed : (b : PolicyBundleData) → s.bundle ≡ some b → IsParsed b
    pub loaded : s.loaded ≡ true → (s.local_only ≡ true) ⊎ (is_some s.bundle ≡ true)

  -- An operation leaves a sound state, whether it returns or raises.
  abbrev LeavesSound : {A : Type 0} → Result A × Lifecycle → Type 0
  LeavesSound r = IsSound r.1

  new-IsSound :
      (url token : Option String) (env : Environment) (cache : CacheFile)
      → IsSound (new_lifecycle url token env cache)
  unfolding new_lifecycle
  new-IsSound url token env cache = record { parsed = λ b e. cc; loaded = λ e. cc }

  do_fetch-IsParsed :
      (s : Lifecycle) (o : Outside) (b : PolicyBundleData) → do_fetch py s o ≡ ok b → IsParsed b
  unfolding do_fetch
  do_fetch-IsParsed s o b h = from_fetched o.fetched (ground arith)
    where
      from_fetched :
          (r : Result Value)
          → (elim r [
            | raise _ ↦ raise (bundle_fetch_error "Fetch failed")
            | ok raw ↦ from_wire py o.now raw
          ])
            ≡ ok b
          → IsParsed b
      from_fetched (ok raw) e = (o.now, raw, e)
      from_fetched (raise x) e = cc

  load-IsParsed :
      (now : ℕ) (c : CacheFile) (b : PolicyBundleData)
      → load_bundle_from_disk py now c ≡ ok (some b)
      → IsParsed b
  unfolding load_bundle_from_disk
  load-IsParsed now absent b h = cc
  load-IsParsed now unreadable b h = cc
  load-IsParsed now (document v) b h = (now, v, ground arith)

  activate-IsSound :
      (s : Lifecycle) (o : Outside) (b : PolicyBundleData)
      → IsParsed b
      → IsSound (activate py s o b).1
  unfolding activate
  activate-IsSound s o b p = elim (Bool-cases o.writable) [
    | inl e ↦ rw e (record { parsed = λ c h. subst IsParsed (cc h) p; loaded = λ _. inr refl })
    | inr e ↦ rw e (record { parsed = λ c h. subst IsParsed (cc h) p; loaded = λ _. inr refl })
  ]

  start_fetch-IsSound : (s : Lifecycle) (o : Outside) → IsSound s → IsSound (start_fetch py s o).1
  unfolding start_fetch
  start_fetch-IsSound s o h = go (do_fetch py s o) (do_fetch-IsParsed s o)
    where
      go :
          (r : Result PolicyBundleData)
          → ((b : PolicyBundleData) → r ≡ ok b → IsParsed b)
          → IsSound
              (elim r as (λ _. Result (Unit {0}) × Lifecycle) [
                | ok b ↦ activate py s o b
                | raise e ↦
                    if is_bundle_error e
                    then (if is_some s.bundle
                        then (ok tt, record s { loaded = true })
                        else (ok tt, s))
                    else (raise e, s)
              ]).1
      go (ok b) p = activate-IsSound s o b (p b refl)
      go (raise e) p =
          if_ind LeavesSound (is_bundle_error e)
            (λ _.
              if_ind LeavesSound (is_some s.bundle)
                (λ full. record { parsed = h.parsed; loaded = λ _. inr full }) (λ _. h))
            (λ _. h)

  start-IsSound : (s : Lifecycle) (o : Outside) → IsSound s → IsSound (start py s o).1
  unfolding start
  start-IsSound s o h =
      if_ind LeavesSound s.local_only (λ e. record { parsed = h.parsed; loaded = λ _. inl e })
        (λ e. go (load_bundle_from_disk py o.now s.cache) (load-IsParsed o.now s.cache))
    where
      go :
          (r : Result (Option PolicyBundleData))
          → ((b : PolicyBundleData) → r ≡ ok (some b) → IsParsed b)
          → IsSound
              (elim r as (λ _. Result (Unit {0}) × Lifecycle) [
                | raise e ↦ (raise e, s)
                | ok none ↦ start_fetch py s o
                | ok (some cached) ↦ start_fetch py (record s { bundle = some cached }) o
              ]).1
      go (raise e) p = h
      go (ok none) p = start_fetch-IsSound s o h
      go (ok (some b)) p =
          start_fetch-IsSound (record s { bundle = some b }) o
            (record { parsed = λ c e. subst IsParsed (cc e) (p b refl); loaded = λ _. inr refl })

  refresh_fetch-IsSound :
      (s : Lifecycle) (o : Outside) → IsSound s → IsSound (refresh_fetch py s o).1
  unfolding refresh_fetch
  refresh_fetch-IsSound s o h = go (do_fetch py s o) (do_fetch-IsParsed s o)
    where
      go :
          (r : Result PolicyBundleData)
          → ((b : PolicyBundleData) → r ≡ ok b → IsParsed b)
          → IsSound
              (elim r as (λ _. Result (Option PolicyBundleData) × Lifecycle) [
                | ok b ↦ let (done, s') = activate py s o b in (returned py b done, s')
                | raise e ↦ if is_bundle_error e then (ok none, s) else (raise e, s)
              ]).1
      go (ok b) p = activate-IsSound s o b (p b refl)
      go (raise e) p = if_ind LeavesSound (is_bundle_error e) (λ _. h) (λ _. h)

  refresh-IsSound : (s : Lifecycle) (o : Outside) → IsSound s → IsSound (refresh py s o).1
  unfolding refresh
  refresh-IsSound s o h =
      if_ind LeavesSound s.local_only (λ _. h)
        λ _.
          if_ind LeavesSound (ltb (o.monotonic - s.last_refresh_attempt) min_refresh_interval)
            (λ _. h)
            λ _.
              refresh_fetch-IsSound (record s { last_refresh_attempt = o.monotonic }) o
                (record { parsed = h.parsed; loaded = h.loaded })

  pub run-IsSound : (s : Lifecycle) (ops : List Op) → IsSound s → IsSound (run s ops)
  unfolding run step
  run-IsSound s [] h = h
  run-IsSound s (start_op o ∷ ops) h = run-IsSound (start py s o).1 ops (start-IsSound s o h)
  run-IsSound s (refresh_op o ∷ ops) h = run-IsSound (refresh py s o).1 ops (refresh-IsSound s o h)

  -- What is in force when a call is not denied.
  pub data Permitted (s : Lifecycle) (tool : String) (args : Args) (caller : CallerContext)
      (now : ℕ) : Type 0 where
    unmanaged : s.local_only ≡ true → Permitted s tool args caller now
    by_bundle :
        (b : PolicyBundleData)
        → s.bundle ≡ some b
        → IsParsed b
        → is_expired b now ≡ false
        → (evaluate_bundle py b tool args caller now).action ≢ deny
        → Permitted s tool args caller now

  -- After any starts and refreshes of a new lifecycle, whatever they meet and however they fail, a
  -- call that is not denied is either made in local-only mode or let through by the bundle in force,
  -- which came out of the parser and has not expired.
  pub evaluate-Permitted :
      (url token : Option String) (env : Environment) (cache : CacheFile) (ops : List Op)
      (tool : String) (args : Args) (caller : CallerContext) (now : ℕ)
      → (evaluate py (run (new_lifecycle url token env cache) ops) tool args caller now).action
        ≢ deny
      → Permitted (run (new_lifecycle url token env cache) ops) tool args caller now
  unfolding evaluate
  evaluate-Permitted url token env cache ops tool args caller now =
      go (run (new_lifecycle url token env cache) ops)
        (run-IsSound _ ops (new-IsSound url token env cache))
    where
      local :
          (s : Lifecycle)
          → (if s.local_only then local_decision py now else no_bundle_decision py now).action
            ≢ deny
          → Permitted s tool args caller now
      local s n = unmanaged (ground arith)

      with_bundle :
          (s : Lifecycle) (o : Option PolicyBundleData) (l : Bool)
          → IsSound s
          → s.bundle ≡ o
          → (evaluate_with py s o l tool args caller now).action ≢ deny
          → Permitted s tool args caller now
      with_bundle s none l h e n = local s n
      with_bundle s (some b) false h e n = local s n
      with_bundle s (some b) true h e n = by_bundle b e (h.parsed b e) (ground arith) (ground arith)

      go :
          (s : Lifecycle)
          → IsSound s
          → (evaluate py s tool args caller now).action ≢ deny
          → Permitted s tool args caller now
      go s h n = with_bundle s s.bundle s.loaded h refl n
