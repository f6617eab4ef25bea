-- ===== src/RuntimeLink/Config/Normal.antt =====
-- What a normalized configuration promises.
use agentware.Prelude.{
  ltb, not, ◌||◌, ℕ, ◌*◌, ◌^◌, ◌≤◌, ◌<◌, ◌≡◌, refl, subst, arith, true, leb, if◌then◌else◌, if_ind,
}
use agentware.Prelude.Checks.{Check, ◌>>◌, then-ok, require-ok}
use agentware.Prelude.Exec.{ok, raise}
use agentware.RuntimeLink.Config.{
  Backoff, RuntimeLinkConfig, Matches, clamp_interval, between, min_of, check_enabled,
  check_declared, check_binary, check_durations, normalize_config, cap_ms, delay_ms,
}

-- The bounds of a normalized configuration, in milliseconds.
abbrev pub IsNormal : RuntimeLinkConfig → Type 0
IsNormal cfg =
    (15000 ≤ cfg.interval)
    × (cfg.interval ≤ 300000)
    × (0 < cfg.beat_timeout)
    × (2 * cfg.beat_timeout < cfg.interval)
    × (cfg.grace ≤ 300000)
    × (1000 ≤ cfg.restart.min)
    × (cfg.restart.min ≤ cfg.restart.max)
    × (cfg.restart.max ≤ 3600000)
    × (1000 ≤ cfg.restart.stable_reset)
    × (cfg.restart.stable_reset ≤ 3600000)
    × (1000 ≤ cfg.stop_timeout)
    × (cfg.stop_timeout ≤ 60000)
    × (cfg.log_count ≤ 100)

clamp-bounds : (n : ℕ) → (15000 ≤ clamp_interval n) × (clamp_interval n ≤ 300000)
clamp-bounds n = ground arith

clamp-clamp_interval : (n : ℕ) → clamp_interval (clamp_interval n) ≡ clamp_interval n
clamp-clamp_interval n = let (a, b) = clamp-bounds n in ground arith

beat-bounds :
    (beat interval : ℕ)
    → not (leb beat 0 || leb interval (2 * beat)) ≡ true
    → (0 < beat) × (2 * beat < interval)
beat-bounds beat interval h = ground arith

restart-bounds :
    (r : Backoff)
    → not (ltb r.min 1000 || ltb 3600000 r.max || ltb r.max r.min) ≡ true
    → (1000 ≤ r.min) × (r.min ≤ r.max) × (r.max ≤ 3600000)
restart-bounds r h = ground arith

durations-IsNormal :
    (cfg : RuntimeLinkConfig) (interval : ℕ)
    → 15000 ≤ interval
    → interval ≤ 300000
    → check_durations interval cfg ≡ ok tt
    → IsNormal (record cfg { interval = interval })
unfolding check_durations
durations-IsNormal cfg interval lo hi h =
    let (h₁, log) = then-ok _ _ tt h in
    let (h₂, stop) = then-ok _ _ tt h₁ in
    let (h₃, stable) = then-ok _ _ tt h₂ in
    let (h₄, restart) = then-ok _ _ tt h₃ in
    let (beat, grace) = then-ok _ _ tt h₄ in
    let (positive, short) = beat-bounds cfg.beat_timeout interval (require-ok _ _ beat) in
    let (least, ordered, most) = restart-bounds cfg.restart (require-ok _ _ restart) in
    let graced = require-ok _ _ grace in
    let logged = require-ok _ _ log in
    (
      lo,
      hi,
      positive,
      short,
      ground arith,
      least,
      ordered,
      most,
      (in-bounds 1000 3600000 cfg.restart.stable_reset (require-ok _ _ stable)).0,
      (in-bounds 1000 3600000 cfg.restart.stable_reset (require-ok _ _ stable)).1,
      (in-bounds 1000 60000 cfg.stop_timeout (require-ok _ _ stop)).0,
      (in-bounds 1000 60000 cfg.stop_timeout (require-ok _ _ stop)).1,
      ground arith,
    )
  where
    in-bounds : (lo hi n : ℕ) → between lo hi n ≡ true → (lo ≤ n) × (n ≤ hi)
    in-bounds lo hi n h = ground arith

delay-le :
    (b : Backoff) (floor_times : ℕ → ℕ) (attempt : ℕ)
    → ((cap : ℕ) → floor_times cap ≤ cap)
    → delay_ms floor_times b attempt ≤ b.max
unfolding delay_ms
delay-le b floor_times attempt h =
    if_ind (λ (cap : ℕ). cap ≤ b.max → floor_times cap ≤ b.max)
      (leb b.max (b.min * 2 ^ min_of attempt 30)) (λ _ k. h b.max) (λ e k. omega (arith, h _, k))
      (cap-le b attempt)
  where
    cap-le : (b : Backoff) (attempt : ℕ) → cap_ms b attempt ≤ b.max
    cap-le b attempt = below b.max (b.min * 2 ^ min_of attempt 30)
      where
        below : (n k : ℕ) → min_of n k ≤ n
        below n k = ground arith

-- The checks of a configuration do not read its interval.
module _ (m : Matches) (cfg : RuntimeLinkConfig) (interval : ℕ) where
  declared-same : check_declared m (record cfg { interval = interval }) ≡ check_declared m cfg
  unfolding check_declared
  declared-same = refl

  enabled-same : check_enabled m (record cfg { interval = interval }) ≡ check_enabled m cfg
  unfolding check_enabled
  enabled-same = refl

  binary-same : check_binary m (record cfg { interval = interval }) ≡ check_binary m cfg
  unfolding check_binary
  binary-same = refl

  durations-same :
      (n : ℕ) → check_durations n (record cfg { interval = interval }) ≡ check_durations n cfg
  unfolding check_durations
  durations-same n = refl

chain-ok :
    {A : Type 0} (a b c d : Check) (x y : A)
    → (a >> b >> c >> d >> ok x) ≡ ok y
    → (a ≡ ok tt) × (b ≡ ok tt) × (c ≡ ok tt) × (d ≡ ok tt) × (x ≡ y)
chain-ok (ok _) (ok _) (ok _) (ok _) x y h = (refl, refl, refl, refl, cc h)
chain-ok (raise e) b c d x y h = cc h
chain-ok (ok _) (raise e) c d x y h = cc h
chain-ok (ok _) (ok _) (raise e) d x y h = cc h
chain-ok (ok _) (ok _) (ok _) (raise e) x y h = cc h

-- A configuration, of durations in whole milliseconds, that normalization returns has its interval,
-- beat timeout, grace, restart delays, stable reset, stop timeout and log count within their bounds,
-- the beat timeout below half the interval, is its own normalization, and every restart delay, with any jitter below 1, is at most an hour.
pub normalize_config-IsNormal :
    (m : Matches) (cfg normal : RuntimeLinkConfig)
    → normalize_config m cfg ≡ ok normal
    → IsNormal normal
      × (normalize_config m normal ≡ ok normal)
      × ((floor_times : ℕ → ℕ) (attempt : ℕ)
          → ((cap : ℕ) → floor_times cap ≤ cap)
          → delay_ms floor_times normal.restart attempt ≤ 3600000)
unfolding normalize_config
normalize_config-IsNormal m cfg normal h =
    let interval = clamp_interval cfg.interval in
    let clamped : RuntimeLinkConfig = record cfg { interval = interval } in
    let (declared, enabled, binary, durations, e) =
      chain-ok (check_declared m cfg) (if cfg.enabled then check_enabled m cfg else ok tt)
        (check_binary m cfg) (check_durations interval cfg) clamped normal h in
    let (lo, hi) = clamp-bounds cfg.interval in
    let normal! = durations-IsNormal cfg interval lo hi durations in
    subst
      (λ normal.
        IsNormal normal
        × (normalize_config m normal ≡ ok normal)
        × ((floor_times : ℕ → ℕ) (attempt : ℕ)
            → ((cap : ℕ) → floor_times cap ≤ cap)
            → delay_ms floor_times normal.restart attempt ≤ 3600000))
      e
      (
        normal!,
        rw
            (
              clamp-clamp_interval cfg.interval,
              declared-same m cfg interval,
              enabled-same m cfg interval,
              binary-same m cfg interval,
              durations-same m cfg interval,
              declared,
              enabled,
              binary,
              durations,
            )
            refl,
        λ floor_times attempt k.
            omega (arith, delay-le cfg.restart floor_times attempt k, restart-most clamped normal!),
      )
  where
    restart-most : (cfg : RuntimeLinkConfig) → IsNormal cfg → cfg.restart.max ≤ 3600000
    restart-most cfg (_, _, _, _, _, _, _, most, _, _, _, _, _) = most
