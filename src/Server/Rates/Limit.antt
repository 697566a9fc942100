-- ===== src/Server/Rates/Limit.antt =====
-- How many requests of one minute the rate limit admits.
use Prim.Native.Nat.{min}
use vessica_knowledge_server.Base.{
  leb, ap, ◌∙◌, ℕ, ◌+◌, ◌-◌, ◌<◌, String, Bool, true, false, ◌≡◌, refl, List, [], ◌∷◌, ◌&&◌, ◌==◌,
  eq_iff, eq_refl, All, arith, Bool-cases, inl, inr, if◌then◌else◌,
}
use vessica_knowledge_server.Server.Rates.{
  RateWindow, Rates, window, set_window, current_window, allow, minute,
}

window-set_window :
    (key k : String) (v : RateWindow) (r : Rates)
    → window key (set_window k v r) ≡ (if k == key then v else window key r)
unfolding window set_window
window-set_window key k v [] = ground arith
window-set_window key k v ((j, w) ∷ r) =
    ground (arith, window-set_window key k v r, eq_iff j k, eq_iff k key, eq_iff j key)

-- A call: the key and the time.
abbrev pub Call : Type 0
Call = String × ℕ

one_when : Bool → ℕ
one_when true = 1
one_when false = 0

-- How many calls are made with a key.
unfoldable pub asked : String → List Call → ℕ
unfolding one_when
asked key [] = 0
asked key ((k, now) ∷ cs) = one_when (k == key) + asked key cs

-- How many of the calls with a key are admitted.
unfoldable pub admitted : String → List Call → Rates → ℕ
unfolding one_when
admitted key [] rates = 0
admitted key ((k, now) ∷ cs) rates =
    let (fine, rates') = allow k now rates in one_when (k == key && fine) + admitted key cs rates'

-- The calls of a minute that begins at `start`.
abbrev pub WithinMinute : ℕ → List Call → Type 0
WithinMinute start cs = All (λ c. c.1 < start + minute) cs

module _ (key : String) (now : ℕ) (rates : Rates) where
  current_window-same :
      (v : RateWindow) → 0 < v.started → now < v.started + minute → current_window now v ≡ v
  unfolding current_window
  current_window-same v real within = ground (arith, real, within)

  -- A call with the key counts in its window.
  allow-own :
      (start : ℕ)
      → 0 < start
      → (window key rates).started ≡ start
      → now < start + minute
      → let v = window key rates in
        ((allow key now rates).0 ≡ leb (v.count + 1) 600)
        × (window key (allow key now rates).1 ≡ record v { count = v.count + 1 })
  unfolding allow
  allow-own start real began within =
      let same =
        current_window-same (window key rates) (omega (arith, real, began))
          (omega (arith, within, began)) in
      rw same (refl, rw (window-set_window key key _ rates, eq_refl key) refl)

  -- A call with another key does not.
  allow-other :
      (k : String) → k == key ≡ false → window key (allow k now rates).1 ≡ window key rates
  unfolding allow
  allow-other k other = rw (window-set_window key k _ rates, other) refl

one_more : (c a : ℕ) → one_when (leb (c + 1) 600) + min (600 - (c + 1)) a ≡ min (600 - c) (1 + a)
unfolding one_when
one_more c a = ground arith

-- If the window of a key began at a time `start` other than the zero time, and calls with any keys
-- follow within a minute of it, then of those with the key as many are admitted as are left of 600 in
-- the window, or all of them if they are fewer.
pub admitted_in_window :
    (key : String) (start : ℕ) (cs : List Call) (rates : Rates)
    → 0 < start
    → (window key rates).started ≡ start
    → WithinMinute start cs
    → admitted key cs rates ≡ min (600 - (window key rates).count) (asked key cs)
unfolding admitted asked one_when
admitted_in_window key start [] rates real began within = omega arith
admitted_in_window key start ((k, now) ∷ cs) rates real began within =
    elim (Bool-cases (k == key)) [
      | inl own ↦
          let same : k ≡ key = (eq_iff k key).0 own in
          let (verdict, counted) = allow-own key now rates start real began within.0 in
          let rest =
            admitted_in_window key start cs (allow key now rates).1 real
              (ap (λ v. v.started) counted ∙ began) within.1 in
          rw (same, eq_refl key, verdict, rest, counted)
            (one_more (window key rates).count (asked key cs))
      | inr other ↦
          let kept = allow-other key now rates k other in
          let rest =
            admitted_in_window key start cs (allow k now rates).1 real
              (ap (λ v. v.started) kept ∙ began) within.1 in
          rw (other, rest, kept) (omega arith)
    ]
