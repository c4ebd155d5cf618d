-- ===== src/Keyspace/Expiry.antt =====
-- internal/store/store.go, `Expire` to `Persist`, `sampleExpired` and `purgeExpiredLocked`: the
-- deadlines of keys.
use vole.Prelude.{
  ◌-◌, ◌^◌, ◌/◌, Bool, true, false, not, ◌&&◌, List, [], ◌∷◌, Option, some, none, take,
  if◌then◌else◌,
}
use vole.Prelude.Text.{Text}
use vole.Prelude.Int.{ℤ, pos, negsuc, ltb_ℤ, ◌+ℤ◌, ◌-ℤ◌}
use vole.Prelude.Map.{Map, lookup, put, delete, has}
use vole.Keys.{send_event}
use vole.RateLimit.{RateLimiter, milliseconds, unix_milli}
use vole.Keyspace.{
  Store, zero_time, is_zero, touch_keys, is_expired, exists_read, delete_key, expired_key, exists,
}

-- `s.expires[key]`, the zero time when there is none
unfoldable pub or_zero_time : Option ℤ → ℤ
or_zero_time none = zero_time
or_zero_time (some t) = t

-- `time.Until`, which stops at the ends of `time.Duration`
unfoldable pub until : ℤ → ℤ → ℤ
until now t =
    let d = t -ℤ now in
    if ltb_ℤ (pos (2 ^ 63 - 1)) d
    then pos (2 ^ 63 - 1)
    else (if ltb_ℤ d (negsuc (2 ^ 63 - 1)) then negsuc (2 ^ 63 - 1) else d)

-- `Unix`, which rounds down
unfoldable pub unix : ℤ → ℤ
unix (pos n) = pos (n / 1000000000)
unix (negsuc n) = negsuc (n / 1000000000)

abbrev pub expired_event : Text
expired_event = b'e' ∷ b'x' ∷ b'p' ∷ b'i' ∷ b'r' ∷ b'e' ∷ b'd' ∷ []

-- `now.Sub(newest) > rl.Window*2`, for the requests of a limiter
unfoldable pub is_stale : ℤ → ℤ → List ℤ → Bool
is_stale now window [] = true
is_stale now window (t ∷ []) = ltb_ℤ (window +ℤ window) (now -ℤ t)
is_stale now window (t ∷ u ∷ ts) = is_stale now window (u ∷ ts)

-- the loop over the rate limiters
unfoldable pub drop_stale : ℤ → Map RateLimiter → Map RateLimiter
drop_stale now [] = []
drop_stale now ((key, l) ∷ m) =
    let rest = drop_stale now m in
    if is_stale now l.window l.requests then rest else (key, l) ∷ rest

-- the loop over `notBefore`
unfoldable pub drop_begun : ℤ → Map ℤ → Map ℤ
drop_begun now [] = []
drop_begun now ((key, t) ∷ m) =
    let rest = drop_begun now m in if ltb_ℤ t now then rest else (key, t) ∷ rest

module _ {F J : Type 0} where
  -- `if s.expiredKeyLocked(key, now) || !s.existsLocked(key) { return false }`
  unfoldable pub is_held : Text → ℤ → Store F J → Bool × Store F J
  is_held key now s =
      let (expired, s₁) = expired_key key now s in
      if expired then (false, s₁) else exists key now s₁

  -- `Expire`
  unfoldable pub expire : Text → ℤ → ℤ → Store F J → Bool × Store F J
  expire key ttl now s =
      let (held, s₁) = is_held key now s in
      if held
      then (
        true,
        touch_keys (key ∷ []) now (record s₁ { expires = put key (now +ℤ ttl) s₁.expires }),
      )
      else (false, s₁)

  -- `ExpireAt`
  unfoldable pub expire_at : Text → ℤ → ℤ → Store F J → Bool × Store F J
  expire_at key time now s =
      let (held, s₁) = is_held key now s in
      if held
      then (
        true,
        touch_keys (key ∷ []) now (record s₁ {
          expires = (if is_zero time then delete key s₁.expires else put key time s₁.expires);
        }),
      )
      else (false, s₁)

  -- `Persist`
  unfoldable pub persist : Text → ℤ → Store F J → Bool × Store F J
  persist key now s =
      let (held, s₁) = is_held key now s in
      if held
      then (let s₂ = record s₁ { expires = delete key s₁.expires } in
          if has key s₁.expires then (true, touch_keys (key ∷ []) now s₂) else (false, s₂))
      else (false, s₁)

  -- the four commands that read a deadline: -2 for no key, -1 for no deadline
  unfoldable pub read_deadline : (ℤ → ℤ) → Text → ℤ → Store F J → ℤ
  read_deadline measure key now s =
      if is_expired key now s
      then negsuc 1
      else (if exists_read key now s
          then (let t = or_zero_time (lookup key s.expires) in
              if is_zero t then negsuc 0 else measure t)
          else negsuc 1)

  -- `TTL`; `to_seconds` is `int64(d.Seconds())`, which goes through a `float64`
  unfoldable pub ttl : (ℤ → ℤ) → Text → ℤ → Store F J → ℤ
  ttl to_seconds key now s = read_deadline (λ t. to_seconds (until now t)) key now s

  -- `PTTL`
  unfoldable pub pttl : Text → ℤ → Store F J → ℤ
  pttl key now s = read_deadline (λ t. milliseconds (until now t)) key now s

  -- `ExpireTime`
  unfoldable pub expire_time : Text → ℤ → Store F J → ℤ
  expire_time key now s = read_deadline unix key now s

  -- `PExpireTime`
  unfoldable pub pexpire_time : Text → ℤ → Store F J → ℤ
  pexpire_time key now s = read_deadline unix_milli key now s

  -- `purgeExpiredLocked`, for the order in which Go goes round `s.expires`
  unfoldable pub purge_expired : List Text → ℤ → Store F J → Store F J
  purge_expired [] now s = s
  purge_expired (key ∷ ks) now s = purge_expired ks now (expired_key key now s).1

  -- one turn of the loop of `sampleExpired`
  unfoldable pub sample_one : Text → ℤ → Option ℤ → Store F J → Store F J
  sample_one key now none s = s
  sample_one key now (some t) s =
      if not (is_zero t) && ltb_ℤ t now
      then delete_key key now (record s {
        keys = record (s.keys) {
          events =
              (if s.keys.on_change
                then send_event expired_event key s.keys.events
                else s.keys.events);
        };
      })
      else s

  -- the loop of `sampleExpired` on the keys that it takes
  unfoldable pub sample_loop : List Text → ℤ → Store F J → Store F J
  sample_loop [] now s = s
  sample_loop (key ∷ ks) now s = sample_loop ks now (sample_one key now (lookup key s.expires) s)

  -- the loop over the tags: those of the keys that do not exist go, and `existsLocked` deletes the
  -- keys that are past their deadline
  unfoldable pub drop_tags : List Text → ℤ → Store F J → Store F J
  drop_tags [] now s = s
  drop_tags (key ∷ ks) now s =
      let (found, s₁) = exists key now s in
      drop_tags ks now (if found then s₁ else record s₁ { tags = delete key s₁.tags })

  -- `sampleExpired`, for the orders in which Go goes round `s.expires` and `s.tags`
  unfoldable pub sample_expired : List Text → List Text → ℤ → Store F J → Store F J
  sample_expired order tag_order now s =
      let s₁ = sample_loop (take 100 order) now s in
      drop_tags tag_order now (record s₁ {
        rate_limiters = drop_stale now s₁.rate_limiters;
        not_before = drop_begun now s₁.not_before;
      })
