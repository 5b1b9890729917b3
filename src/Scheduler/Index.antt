-- ===== src/Scheduler/Index.antt =====
-- The owner index, as the handlers' writes change it.
use headwater.RecordStore.Keys.{key_of-injective}
use headwater.Prelude.{
  sym, text_eq_iff, ℕ, ◌+◌, ◌*◌, ◌≤◌, ◌≡◌, ◌⊎◌, refl, ◌∙◌, ap, false, some, List, [], ◌∷◌, Text,
  text_eq, text_eq_refl, All, Bool-cases, inl, inr, arith, if◌then◌else◌,
}
use headwater.Dict.{Dict, lookup}
use headwater.Exec.{ok}
use headwater.RateLimiter.Info.{second}
use headwater.Redis.{is_available}
use headwater.Redis.Client.{Server}
use headwater.RecordStore
use headwater.RecordStore.{StoredRecord, RecordStore, key_of}
use headwater.Prelude.{NoColon}
use headwater.RecordStore.Memory.{IsOwned, put_local, lookup-put_local, put-All_local, written}
use headwater.Webhooks.{Http}
use headwater.Monitors.{Monitor}
use headwater.Scheduler.{Env, Service, Seen, failing, under, on_monitors, index_owner}
use headwater.Scheduler.Calls.{Times, remember_owner}

pub All_imp :
    {A : Type 0} (P Q : A → Type 0) (xs : List A) → ((x : A) → P x → Q x) → All P xs → All Q xs
All_imp P Q [] f h = tt
All_imp P Q (x ∷ xs) f h = (f x h.0, All_imp P Q xs f h.1)

-- The index has the owner, by its name, until this time at least.
abbrev pub IsNoted : (namespace : Text) → Dict (ℕ × StoredRecord Seen) → (owner : Text) → ℕ → Type 0
IsNoted namespace memory owner x =
    (y : ℕ) × (q : StoredRecord Seen) × (lookup (key_of namespace index_owner owner) memory
      ≡ some (y, q))
    × (q.content.owner ≡ owner)
    × (x ≤ y)

module _ {srv : Server} {http : Http} {V : Type 0} where
  -- A monitor's entry that expires at most a time to live after `now`, and not before the index
  -- forgets its owner
  abbrev pub IsCovered :
      (now : ℕ) (s : Service srv http V) → Text × (ℕ × StoredRecord (Monitor V)) → Type 0
  IsCovered now s (k, (x, r)) =
      (x ≤ now + s.owners.ttl_seconds * second)
      × IsNoted s.owners.namespace s.owners.memory r.owner x

  -- With no connection to Redis, all monitors are covered, in well-formed stores.
  pub record IsIndexed (now : ℕ) (s : Service srv http V) : Type 0 where
    pub local : is_available srv s.manager ≡ false
    pub monitors_owned : IsOwned srv s.monitors
    pub owners_owned : IsOwned srv s.owners
    pub same_ttl : s.monitors.ttl_seconds ≡ s.owners.ttl_seconds
    pub covered : All (IsCovered now s) s.monitors.memory

pub under-IsOwned :
    {srv : Server} {D : Type 0} (m : headwater.Redis.Manager srv) (s : RecordStore srv D)
    → IsOwned srv s
    → IsOwned srv (under m s)
under-IsOwned m s h = record { filed = h.filed; distinct = h.distinct }

pub index_owner-NoColon : NoColon index_owner
index_owner-NoColon = (
  refl,
  (
    refl,
    (
      refl,
      (
        refl,
        (
          refl,
          (
            refl,
            (
              refl,
              (
                refl,
                (
                  refl,
                  (
                    refl,
                    (refl, (refl, (refl, (refl, (refl, (refl, (refl, (refl, (refl, tt))))))))),
                  ),
                ),
              ),
            ),
          ),
        ),
      ),
    ),
  ),
)

module _ {srv : Server} {http : Http} {V : Type 0} (env : Env V) where
  -- Between the write of a monitor and the one of the index
  abbrev pub IsHalf :
      (owner : Text) (now : ℕ) (s : Service srv http V)
      → Text × (ℕ × StoredRecord (Monitor V))
      → Type 0
  IsHalf owner now s (k, (x, r)) =
      (x ≤ now + s.owners.ttl_seconds * second)
      × ((r.owner ≡ owner) ⊎ IsNoted s.owners.namespace s.owners.memory r.owner x)

  module _ (owner id : Text) (m : Monitor V) (t : Times) (s : Service srv http V) where
    abbrev pub store_after : RecordStore srv (Monitor V)
    store_after =
        (RecordStore.put srv env.monitor_codec.to_json env.monitor_codec.from_json owner id m
          t.stored t.reread (under s.manager s.monitors)).1

    -- The state after the write of the monitor
    abbrev pub stored_state : Service srv http V
    stored_state = record s { monitors = store_after; manager = store_after.manager }

    pub put_ok :
        is_available srv s.manager ≡ false
        → on_monitors
            (RecordStore.put srv env.monitor_codec.to_json env.monitor_codec.from_json owner id m
              t.stored t.reread)
            s
          ≡ (
            ok (
                written srv env.monitor_codec.to_json env.monitor_codec.from_json owner id m
                  t.stored t.reread
                  (under s.manager s.monitors)),
            stored_state,
          )
    put_ok l =
        ap (λ x. (failing x.0, stored_state))
          (put_local srv env.monitor_codec.to_json env.monitor_codec.from_json owner id m t.stored
            t.reread (under s.manager s.monitors) l)

    pub stored-IsHalf :
        (now : ℕ)
        → IsIndexed now s
        → now ≤ t.stored
        → All (IsHalf owner t.stored s) store_after.memory
    stored-IsHalf now h order =
        put-All_local srv env.monitor_codec.to_json env.monitor_codec.from_json
          (IsHalf owner t.stored s) owner id m t.stored t.reread (under s.manager s.monitors)
          h.local (let e = h.same_ttl in rw e (omega arith, inl refl))
          (All_imp (IsCovered now s) (IsHalf owner t.stored s) s.monitors.memory
            (λ e c. (omega (arith, c.0, order), inr c.1)) h.covered)

  module _ (owner : Text) (t : Times) (s : Service srv http V) where
    abbrev pub index_after : RecordStore srv Seen
    index_after =
        (RecordStore.put srv env.owner_codec.to_json env.owner_codec.from_json index_owner owner
          (record { owner = owner; seen_at = t.seen_at }) t.noted t.renoted
          (under s.manager s.owners)).1

    -- The state after the write of the index
    abbrev pub noted_state : Service srv http V
    noted_state = record s { owners = index_after; manager = index_after.manager }

    pub remember_ok :
        is_available srv s.manager ≡ false
        → remember_owner env owner t s ≡ (
          ok (
              written srv env.owner_codec.to_json env.owner_codec.from_json index_owner owner
                (record { owner = owner; seen_at = t.seen_at })
                t.noted
                t.renoted
                (under s.manager s.owners)),
          noted_state,
        )
    unfolding remember_owner
    remember_ok l =
        ap (λ x. (failing x.0, noted_state))
          (put_local srv env.owner_codec.to_json env.owner_codec.from_json index_owner owner
            (record { owner = owner; seen_at = t.seen_at }) t.noted t.renoted
            (under s.manager s.owners) l)

    abbrev index_entry : StoredRecord Seen
    index_entry =
        written srv env.owner_codec.to_json env.owner_codec.from_json index_owner owner
          (record { owner = owner; seen_at = t.seen_at }) t.noted t.renoted
          (under s.manager s.owners)

    noted_lookup :
        (other : Text)
        → is_available srv s.manager ≡ false
        → IsOwned srv s.owners
        → lookup (key_of s.owners.namespace index_owner other) index_after.memory ≡ (
            if text_eq
              (key_of s.owners.namespace index_owner owner)
              (key_of s.owners.namespace index_owner other)
            then some (t.noted + s.owners.ttl_seconds * second, index_entry)
            else lookup (key_of s.owners.namespace index_owner other) s.owners.memory)
    noted_lookup other l h =
        lookup-put_local srv env.owner_codec.to_json env.owner_codec.from_json index_owner owner
          (key_of s.owners.namespace index_owner other)
          (record { owner = owner; seen_at = t.seen_at }) t.noted t.renoted
          (under s.manager s.owners) h.distinct l

    -- A half-written monitor is covered once the index is written.
    pub half-IsNoted :
        (other : Text) (x : ℕ)
        → is_available srv s.manager ≡ false
        → IsOwned srv s.owners
        → x ≤ t.noted + s.owners.ttl_seconds * second
        → (other ≡ owner) ⊎ IsNoted s.owners.namespace s.owners.memory other x
        → IsNoted s.owners.namespace index_after.memory other x
    half-IsNoted other x l h past (inl e) = (
      t.noted + s.owners.ttl_seconds * second,
      index_entry,
      noted_lookup other l h
          ∙ rw (e, text_eq_refl (key_of s.owners.namespace index_owner owner)) refl,
      sym e,
      past,
    )
    half-IsNoted other x l h past (inr (y, q, e, name, le)) =
        elim (Bool-cases (
          text_eq (key_of s.owners.namespace index_owner owner)
            (key_of s.owners.namespace index_owner other))) [
              | inl same ↦ (
                t.noted + s.owners.ttl_seconds * second,
                index_entry,
                noted_lookup other l h ∙ rw same refl,
                (key_of-injective s.owners.namespace index_owner index_owner owner other
                    index_owner-NoColon index_owner-NoColon
                    ((text_eq_iff (key_of s.owners.namespace index_owner owner)
                        (key_of s.owners.namespace index_owner other)).0
                      same)).1,
                past,
              )
              | inr apart ↦ (y, q, noted_lookup other l h ∙ rw apart e, name, le)
            ]
