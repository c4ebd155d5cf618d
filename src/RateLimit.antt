-- ===== src/RateLimit.antt =====
-- internal/store/store.go, `RateLimit`, `RateLimitPeek` and `RateLimitReset`: a sliding window for
-- each key. Times and durations are nanoseconds.
pub mod Window
mod Tests
use vole.Prelude.{
  ℕ, suc, ◌+◌, ◌-◌, ◌/◌, Bool, true, false, not, List, [], ◌∷◌, ◌++◌, Option, some, none, length,
  ltb, if◌then◌else◌,
}
use vole.Prelude.Text.{Text}
use vole.Prelude.Int.{ℤ, pos, negsuc, ltb_ℤ, ◌+ℤ◌, ◌-ℤ◌}
use vole.Prelude.Limit.{keep}
use vole.Prelude.Map.{Map, lookup, put, delete, has}
use vole.Keys.{Keys, touch}

pub record RateLimiter : Type 0 where
  pub window : ℤ
  pub max : ℤ
  pub requests : List ℤ

-- the part of `Store` that the rate limiters use
pub record Limiters : Type 0 where
  pub rate_limiters : Map RateLimiter
  pub keys : Keys

pub record Decision : Type 0 where
  pub allowed : Bool
  pub remaining : ℤ
  pub retry_after_ms : ℤ
  pub reset_at_ms : ℤ

-- `UnixMilli`, which rounds down
unfoldable pub unix_milli : ℤ → ℤ
unix_milli (pos n) = pos (n / 1000000)
unix_milli (negsuc n) = negsuc (n / 1000000)

-- `Milliseconds` of a duration, which rounds to zero; no negative one gets here
unfoldable pub milliseconds : ℤ → ℤ
milliseconds (pos n) = pos (n / 1000000)
milliseconds (negsuc n) = pos 0 -ℤ pos (suc n / 1000000)

-- `t.After(cutoff)`
abbrev pub after : ℤ → ℤ → Bool
after cutoff t = ltb_ℤ cutoff t

-- the requests inside the window
abbrev pub valid_requests : ℤ → ℤ → List ℤ → List ℤ
valid_requests now window requests = keep (after (now -ℤ window)) requests

-- `resetAtMs`
unfoldable pub reset_at : ℤ → ℤ → List ℤ → ℤ
unfolding unix_milli
reset_at now window [] = unix_milli (now +ℤ window)
reset_at now window (t ∷ ts) = unix_milli (t +ℤ window)

-- the answer when the window is full; `none` is the panic of `rl.Requests[0]` when there is none
unfoldable pub refuse : ℤ → ℤ → List ℤ → Option Decision
unfolding reset_at milliseconds
refuse now window [] = none
refuse now window (t ∷ ts) =
    let wait = t +ℤ window -ℤ now in
    let retry_after = if ltb_ℤ wait (pos 0) then pos 0 else wait in
    some (record {
      allowed = false;
      remaining = pos 0;
      retry_after_ms = milliseconds retry_after;
      reset_at_ms = reset_at now window (t ∷ ts);
    })

-- `RateLimit` on the requests of its limiter: the requests afterwards, and the answer
unfoldable pub decide : ℤ → ℤ → ℤ → List ℤ → Option (List ℤ × Decision)
unfolding refuse reset_at
decide max window now requests =
    let valid = valid_requests now window requests in
    if not (ltb_ℤ (pos (length valid)) max)
    then elim (refuse now window valid) [ none ↦ none | some d ↦ some (valid, d) ]
    else let granted = valid ++ now ∷ [] in
      some (
        granted,
        record {
          allowed = true;
          remaining = max -ℤ pos (length granted);
          retry_after_ms = pos 0;
          reset_at_ms = reset_at now window valid;
        },
      )

abbrev pub requests_of : Text → Limiters → List ℤ
requests_of key s = elim (lookup key s.rate_limiters) [ none ↦ [] | some rl ↦ rl.requests ]

-- `RateLimit`
unfoldable pub rate_limit : Text → ℤ → ℤ → ℤ → ℕ → Limiters → Option (Limiters × Decision)
unfolding decide
rate_limit key max window now touch_time s = elim (decide max window now (requests_of key s)) [
  | none ↦ none
  | some (requests, d) ↦ some (
    record s {
      rate_limiters =
          put key (record { window = window; max = max; requests = requests }) s.rate_limiters;
      keys = (if d.allowed then touch (key ∷ []) touch_time s.keys else s.keys);
    },
    d,
  )
]

-- the reset time of `RateLimitPeek`: of the first request that is stored
unfoldable pub peek_reset : ℤ → List ℤ → ℤ
unfolding unix_milli
peek_reset window [] = pos 0
peek_reset window (t ∷ ts) = unix_milli (t +ℤ window)

-- `RateLimitPeek`
unfoldable pub rate_limit_peek : Text → ℤ → Limiters → ℤ × ℤ
unfolding peek_reset
rate_limit_peek key now s = elim (lookup key s.rate_limiters) [
  | none ↦ (negsuc 0, pos 0)
  | some rl ↦ (
    rl.max -ℤ pos (length (valid_requests now rl.window rl.requests)),
    peek_reset rl.window rl.requests,
  )
]

-- `RateLimitReset`
unfoldable pub rate_limit_reset : Text → Limiters → Limiters × Bool
rate_limit_reset key s =
    if has key s.rate_limiters
    then (record s { rate_limiters = delete key s.rate_limiters }, true)
    else (s, false)
