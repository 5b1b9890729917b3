-- ===== src/CacheManager/Remembered.antt =====
-- What a function whose results are cached answers the second time.
use headwater.Prelude.{
  ◌≡◌, ◌∙◌, refl, ap, ℕ, suc, ◌+◌, ◌<◌, ◌⊎◌, true, false, Option, some, Text, if◌then◌else◌,
}
use headwater.Exec.{Exec, ok, ◌>>=◌, bind-returns}
use headwater.Redis.{is_available}
use headwater.Redis.Client.{Server}
use headwater.CacheManager.{Config, Caches, get, set}
use headwater.CacheManager.Values.{Types, Value, Codec, null}
use headwater.CacheManager.Envelope.{serialize}
use headwater.CacheManager.Restored.{IsFaithful, IsClear, restored}
use headwater.CacheManager.Keys.{generate_key}
use headwater.CacheManager.Reads.{IsStoring, Accepts, get-set_kept}
use headwater.CacheManager.Calls.{
  is_none, Raised, fetched, fetch, stored, store_result, get_or_fetch, cached,
}

module _ {srv : Server} {T : Types} {W E : Type 0} (C : Codec T) (cfg : Config)
    (func : Exec W E (Value T)) (key : Text) (ns : Option Text) (t now later again : ℕ) where
  abbrev call : (now later : ℕ) → Exec (Caches srv T × W) (Raised E) (Value T)
  call now later = get_or_fetch C cfg func key ns (some t) now later

  abbrev read : (now : ℕ) → Caches srv T → Value T × Caches srv T
  read now s = get C cfg key ns null now s

  missed :
      (s : Caches srv T) (w : W)
      → is_none (read now s).0 ≡ true
      → call now later (s, w)
        ≡ (fetch func >>= store_result C cfg key ns (some t) later) ((read now s).1, w)
  unfolding get_or_fetch
  missed s w e = rw e refl

  hit :
      (v : Value T) (s : Caches srv T) (w : W)
      → (read again s).0 ≡ v
      → is_none v ≡ false
      → call again later (s, w) ≡ (ok v, ((read again s).1, w))
  unfolding get_or_fetch
  hit v s w e n =
      ap
        (λ x.
          if is_none x
          then (fetch func >>= store_result C cfg key ns (some t) later) ((read again s).1, w)
          else (ok x, ((read again s).1, w)))
        e
      ∙ rw n refl

  cached-enabled :
      (now later : ℕ) (p : Caches srv T × W)
      → cfg.enabled ≡ true
      → cached C cfg func key ns (some t) now later p ≡ call now later p
  unfolding cached
  cached-enabled now later p on = ap (λ b. (if b then call now later else fetch func) p) on

  first_call :
      (v : Value T) (s : Caches srv T) (w w' : W)
      → is_none (read now s).0 ≡ true
      → func w ≡ (ok v, w')
      → (set C cfg key v (some t) ns later (read now s).1).0 ≡ ok true
      → call now later (s, w) ≡ (ok v, ((set C cfg key v (some t) ns later (read now s).1).1, w'))
  unfolding fetch store_result
  first_call v s w w' m e k =
      let s' = (read now s).1 in
      missed s w m
      ∙ bind-returns (fetch func) (store_result C cfg key ns (some t) later) (s', w) (s', w') v
          (ap (λ r. fetched r s') e)
      ∙ ap (λ r. stored v (r, (set C cfg key v (some t) ns later s').1) w') k

module _ {srv : Server} {T : Types} {W E : Type 0} (C : Codec T) (cfg : Config)
    (func : Exec W E (Value T)) (key raw : Text) (ns : Option Text) (t now later again : ℕ)
    (v : Value T) (s : Caches srv T) (w w' : W) where
  -- The wrapper calls a function whose result is not remembered, and answers the result; the next
  -- call with the same key, before the time to live is over, answers the result as it is read back,
  -- and does not call the function. The cache is enabled, the read finds nothing or `None`, the
  -- function returns a value that can be serialized and read back and that is not `None`, and there
  -- is no Redis, or Redis accepts the value and answers what was stored.
  pub cached-twice :
      IsFaithful C
      → IsStoring srv
      → cfg.enabled ≡ true
      → is_none (get C cfg key ns null now s).0 ≡ true
      → func w ≡ (ok v, w')
      → serialize C v ≡ some raw
      → IsClear C v
      → is_none (restored v) ≡ false
      → (is_available srv (get C cfg key ns null now s).1.redis ≡ false)
        ⊎ Accepts (generate_key key ns) raw (suc t) (get C cfg key ns null now s).1
      → again < later + suc t
      → let first = cached C cfg func key ns (some (suc t)) now later (s, w) in
        let second = cached C cfg func key ns (some (suc t)) again later first.1 in
        (first.0 ≡ ok v) × (first.1.1 ≡ w') × (second.0 ≡ ok (restored v)) × (second.1.1 ≡ w')
  cached-twice faithful storing on m e written clear n where' l =
      let s' = (get C cfg key ns null now s).1 in
      let s'' = (set C cfg key v (some (suc t)) ns later s').1 in
      let (k, r) =
        get-set_kept C faithful cfg key raw v null ns t later again s' on written clear storing
          where' l in
      let opens = cached-enabled C cfg func key ns (suc t) now later again in
      let one =
        opens now later (s, w) on
        ∙ first_call C cfg func key ns (suc t) now later again v s w w' m e k in
      let two =
        opens again later (s'', w') on
        ∙ hit C cfg func key ns (suc t) now later again (restored v) s'' w' r n in
      rw (one, two) (refl, refl, refl, refl)
