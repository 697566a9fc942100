-- ===== src/Server/Rates.antt =====
-- The rate limit of server/http.go: `allow`.
pub mod Limit
use vessica_knowledge_server.Base.{
  ℕ, ◌+◌, ◌-◌, String, Bool, List, [], ◌∷◌, ◌||◌, ◌==◌, ltb, leb, nat_eq, if◌then◌else◌,
}

-- `rateWindow`; a time is in nanoseconds, 0 for the zero time.
pub record RateWindow : Type 0 where
  pub started : ℕ
  pub count : ℕ

-- The map `rate`
abbrev pub Rates : Type 0
Rates = List (String × RateWindow)

abbrev pub no_window : RateWindow
no_window = record { started = 0; count = 0 }

-- A missing key reads as the zero value.
unfoldable pub window : String → Rates → RateWindow
window key [] = no_window
window key ((k, w) ∷ r) = if k == key then w else window key r

unfoldable pub set_window : String → RateWindow → Rates → Rates
set_window key v [] = (key, v) ∷ []
set_window key v ((k, w) ∷ r) = if k == key then (k, v) ∷ r else (k, w) ∷ set_window key v r

-- One minute in nanoseconds
abbrev pub minute : ℕ
minute = 60_000_000_000

-- `now.Sub(v.Started)` is below zero, so below a minute, where the subtraction of ℕ stops at 0.
unfoldable pub current_window : ℕ → RateWindow → RateWindow
current_window now v =
    if nat_eq v.started 0 || leb minute (now - v.started)
    then record { started = now; count = 0 }
    else v

-- The request is admitted, and the map after it.
unfoldable pub allow : String → ℕ → Rates → Bool × Rates
unfolding window set_window current_window
allow key now rates =
    let v = current_window now (window key rates) in
    let counted : RateWindow = record v { count = v.count + 1 } in
    (leb counted.count 600, set_window key counted rates)
