-- ===== src/Bundle/Lifecycle/Refresh.antt =====
-- What failed and successful fetches do to the bundle in force, across a restart too.
use agentware.Prelude.{
  ℕ, ◌-◌, String, ◌≡◌, ◌≢◌, refl, true, false, not, ◌||◌, Option, none, some, List, [], ◌∷◌,
  is_some, subst, sym, ltb, ◌∙◌, eq_iff, arith, if_ind, Bool-cases, inl, inr,
}
use agentware.Prelude.Value.{Value, str, object, array, truthy}
use agentware.Prelude.Python.{Python, IsPython}
use agentware.Prelude.Exec.{Error, Result, ok, raise, bundle_fetch_error, attribute_error}
use agentware.Types.{deny, Args, CallerContext}
use agentware.Bundle.{PolicyBundleData}
use agentware.Bundle.Wire.{from_wire, to_dict, fields_of}
use agentware.Bundle.Wire.RoundTrip.{IsBundle, from_wire-to_dict}
use agentware.Bundle.Lifecycle.{
  present, CacheFile, absent, unreadable, document, Lifecycle, Outside, load_bundle_from_disk,
  do_fetch, start_fetch, start, refresh_fetch, refresh, evaluate, min_refresh_interval,
}
use agentware.Bundle.Lifecycle.FailClosed.{Op, start_op, refresh_op, step, run, outside}

module _ (py : Python) where
  -- Two lifecycles that decide alike, and keep the same file.
  pub record SameForce (s t : Lifecycle) : Type 0 where
    pub bundle : t.bundle ≡ s.bundle
    pub loaded : t.loaded ≡ s.loaded
    pub local_only : t.local_only ≡ s.local_only
    pub cache : t.cache ≡ s.cache

  do_fetch_failed :
      (s : Lifecycle) (o : Outside) (e : Error)
      → o.fetched ≡ raise e
      → (m : String) × (do_fetch py s o ≡ raise (bundle_fetch_error m))
  unfolding do_fetch
  do_fetch_failed s o e h =
      elim (Bool-cases
        (not (is_some (present s.resolved_url)) || not (is_some (present s.resolved_token)))) [
          | inl k ↦ ("Control-plane credentials not resolved", rw k)
          | inr k ↦ ("Fetch failed", rw (k, h))
        ]

  abbrev Refreshed : Lifecycle → Result (Option PolicyBundleData) × Lifecycle → Type 0
  Refreshed s r = SameForce s r.1 × ((b : Option PolicyBundleData) × (r.0 ≡ ok b))

  -- A refresh whose fetch raises returns no error, and leaves the bundle, the loaded flag and the
  -- cached file as they were.
  pub refresh_failed :
      (s : Lifecycle) (o : Outside) (e : Error)
      → o.fetched ≡ raise e
      → SameForce s (refresh py s o).1
        × ((b : Option PolicyBundleData) × ((refresh py s o).0 ≡ ok b))
  unfolding refresh refresh_fetch
  refresh_failed s o e h =
      let kept : SameForce s s = record {
        bundle = refl;
        loaded = refl;
        local_only = refl;
        cache = refl;
      } in
      let tried = record s { last_refresh_attempt = o.monotonic } in
      let (m, failed) = do_fetch_failed tried o e h in
      if_ind (Refreshed s) s.local_only (λ _. (kept, (none, refl)))
        λ _.
          if_ind (Refreshed s) (ltb (o.monotonic - s.last_refresh_attempt) min_refresh_interval)
            (λ _. (kept, (s.bundle, refl)))
            λ _.
              rw (failed, refresh_fetch)
                (
                  record { bundle = refl; loaded = refl; local_only = refl; cache = refl },
                  (none, refl),
                )

  -- A file that shows nothing to a start.
  abbrev pub IsEmptyCache : CacheFile → Type 0
  IsEmptyCache absent = Unit
  IsEmptyCache unreadable = Unit
  IsEmptyCache (document v) = ⊥

  pub record IsBare (s : Lifecycle) : Type 0 where
    pub managed : s.local_only ≡ false
    pub bundle : s.bundle ≡ none
    pub cache : IsEmptyCache s.cache

  load_empty : (now : ℕ) (c : CacheFile) → IsEmptyCache c → load_bundle_from_disk py now c ≡ ok none
  unfolding load_bundle_from_disk
  load_empty now absent h = refl
  load_empty now unreadable h = refl
  load_empty now (document v) h = absurd h

  abbrev Stays : Lifecycle → Result (Unit {0}) × Lifecycle → Type 0
  Stays s r = r ≡ (ok tt, s)

  start_bare :
      (s : Lifecycle) (o : Outside) (e : Error)
      → o.fetched ≡ raise e
      → IsBare s
      → Stays s (start py s o)
  unfolding start start_fetch
  start_bare s o e h b =
      let (m, failed) = do_fetch_failed s o e h in
      if_ind (Stays s) s.local_only (λ k. cc (k, b.managed))
        λ _. rw (load_empty o.now s.cache b.cache) (
          rw (failed, start_fetch)
            (if_ind (Stays s) (is_some s.bundle) (λ k. ground (arith, b.bundle)) (λ _. refl)))

  step-IsBare :
      (s : Lifecycle) (op : Op) (e : Error)
      → (outside op).fetched ≡ raise e
      → IsBare s
      → IsBare (step py s op)
  unfolding step
  step-IsBare s (start_op o) e h b =
      subst (λ (r : Result (Unit {0}) × Lifecycle). IsBare r.1) (sym (start_bare s o e h b)) b
  step-IsBare s (refresh_op o) e h b =
      let f = (refresh_failed s o e h).0 in
      record {
        managed = f.local_only ∙ b.managed;
        bundle = f.bundle ∙ b.bundle;
        cache = rw f.cache b.cache;
      }

  -- every fetch raises
  abbrev pub IsOffline : List Op → Type 0
  IsOffline [] = Unit
  IsOffline (op ∷ ops) = ((e : Error) × ((outside op).fetched ≡ raise e)) × IsOffline ops

  run-IsBare : (s : Lifecycle) (ops : List Op) → IsOffline ops → IsBare s → IsBare (run py s ops)
  unfolding run
  run-IsBare s [] h b = b
  run-IsBare s (op ∷ ops) ((e, h), hs) b = run-IsBare (step py s op) ops hs (step-IsBare s op e h b)

  -- A managed lifecycle without a bundle and without a readable cached file denies every call after
  -- any starts and refreshes whose fetches all raise.
  pub evaluate_offline :
      (s : Lifecycle) (ops : List Op) (tool : String) (args : Args) (caller : CallerContext)
      (now : ℕ)
      → IsBare s
      → IsOffline ops
      → (evaluate py (run py s ops) tool args caller now).action ≡ deny
  unfolding evaluate
  evaluate_offline s ops tool args caller now b h =
      let bare = run-IsBare s ops h b in simp (bare.bundle, bare.managed)

  load_written :
      (now : ℕ) (b : PolicyBundleData)
      → IsPython py
      → IsBundle b
      → load_bundle_from_disk py now (document (to_dict py b))
        ≡ ok (some (record b { fetched_at = now }))
  unfolding load_bundle_from_disk from_wire to_dict
  load_written now b lawful good = rw (from_wire-to_dict lawful now b good)

  -- With the laws of `Python`, and after a bundle with a version, named rules, conditions on some
  -- field and positive limits has been written to disk, a start of a managed lifecycle whose fetch
  -- raises brings back the same bundle, but for its fetch time, and puts it in force.
  pub start_from_cache :
      (s : Lifecycle) (o : Outside) (e : Error) (b : PolicyBundleData)
      → IsPython py
      → IsBundle b
      → s.local_only ≡ false
      → s.cache ≡ document (to_dict py b)
      → o.fetched ≡ raise e
      → start py s o
        ≡ (ok tt, record s { bundle = some (record b { fetched_at = o.now }); loaded = true })
  unfolding start
  start_from_cache s o e b lawful good managed cached h =
      let fresh = record b { fetched_at = o.now } in
      let (m, failed) = do_fetch_failed (record s { bundle = some fresh }) o e h in
      let read : load_bundle_from_disk py o.now s.cache ≡ ok (some fresh) =
        rw cached (load_written o.now b lawful good) in
      if_ind
        (λ (r : Result (Unit {0}) × Lifecycle).
          r ≡ (ok tt, record s { bundle = some fresh; loaded = true }))
        s.local_only (λ k. cc (k, managed)) (λ _. rw read (rw (failed, start_fetch)))

  -- A document with a version, whose rules begin with a value that is no object.
  abbrev pub headless : String → Value → List Value → Value
  headless version v vs = object (("version", str version) ∷ ("rules", array (v ∷ vs)) ∷ [])

  -- A cached document that has a version, but begins its rules with a value that is no object, is
  -- not passed over as corrupt: the start of a managed lifecycle raises the parser's
  -- `AttributeError` and leaves the state as it was.
  pub start-headless :
      (s : Lifecycle) (o : Outside) (version : String) (v : Value) (vs : List Value)
      → s.local_only ≡ false
      → version ≢ ""
      → fields_of v ≡ raise (attribute_error "object has no attribute 'get'")
      → s.cache ≡ document (headless version v vs)
      → start py s o ≡ (raise (attribute_error "object has no attribute 'get'"), s)
  unfolding start load_bundle_from_disk from_wire
  start-headless s o version v vs managed h bad cached =
      let versioned : truthy (str version) ≡ true = ground (arith, eq_iff version "") in
      simp (managed, cached) (rw (versioned, bad))
