-- ===== src/Scheduler/Calls.antt =====
-- The calls on monitors in app/services/google_maps_monitors.py, and the scheduler's tick.
use headwater.Prelude.{
  ℕ, Bool, true, false, not, ◌&&◌, Option, none, some, List, [], ◌∷◌, Text, is_empty, if◌then◌else◌,
}
use headwater.Exec.{Exec, Result, ok, raise, pure, throw, ◌>>=◌, ◌>>◌}
use headwater.Redis.Client.{Server}
use headwater.RecordStore
use headwater.RecordStore.{StoredRecord, RecordStore}
use headwater.UrlGuard.{UrlNotAllowed, ValidatedUrl, validate_outbound_url}
use headwater.Webhooks.{Http}
use headwater.Webhooks.Targets.{validate_webhook_target}
use headwater.Webhooks.Attempts.{Tally}
use headwater.Dict.{Dict}
use headwater.Monitors.{
  Monitor, Fetched, Changes, checked, created, diff, snapshot, tracked, is_failed,
}
use headwater.Scheduler.{
  Env, Problem, Service, Seen, value_error, monitor_not_found, invalid_target, on_monitors,
  on_owners, on_wire, index_owner, maps_allowed_hosts,
}
use headwater.Scheduler.Fire.{fire_monitor_webhooks}

-- The readings of the clock in one call, in this order: of a first read or listing, the call's own,
-- the two of `put`, then those of the owner index, and of the listing of webhooks.
pub record Times : Type 0 where
  pub read : ℕ
  pub now : ℕ
  pub stored : ℕ
  pub reread : ℕ
  pub seen_at : ℕ
  pub noted : ℕ
  pub renoted : ℕ
  pub listed : ℕ

-- What `check_monitor` returns
pub record Checked (V : Type 0) : Type 0 where
  pub monitor_id : Text
  pub checked : Bool
  pub changes : Changes V
  pub error : Option Text
  pub deliveries : List Tally

abbrev or_blank : Option Text → Text
or_blank none = []
or_blank (some t) = t

abbrev permitted : Result UrlNotAllowed ValidatedUrl → Result Problem Unit
permitted (ok v) = ok tt
permitted (raise e) = raise (invalid_target e.public_message)

abbrev pub permitted_hook : Result Text ValidatedUrl → Result Problem Unit
permitted_hook (ok v) = ok tt
permitted_hook (raise message) = raise (invalid_target message)

abbrev guard : {S : Type 0} → Result Problem Unit → Exec S Problem Unit
guard r s = (r, s)

-- Whether `create_monitor` may go on
unfoldable pub check_request :
    {V : Type 0} (env : Env V) (place_id url webhook_url : Option Text) → Result Problem Unit
check_request env place_id url webhook_url =
    if is_empty (or_blank place_id) && is_empty (or_blank url)
    then raise value_error
    else elim (if is_empty (or_blank url)
        then ok tt
        else permitted
            (validate_outbound_url env.net (or_blank url) maps_allowed_hosts false true)) [
              | raise p ↦ raise p
              | ok u ↦
                  if is_empty (or_blank webhook_url)
                  then ok tt
                  else permitted_hook
                      (validate_webhook_target env.net env.allowed (or_blank webhook_url) true)
            ]

module _ {srv : Server} {http : Http} {V : Type 0} (env : Env V) where
  -- `_remember_owner`
  unfoldable pub remember_owner :
      (owner : Text) → Times → Exec (Service srv http V) Problem (StoredRecord Seen)
  remember_owner owner t = on_owners (
      RecordStore.put srv env.owner_codec.to_json env.owner_codec.from_json index_owner owner
        (record { owner = owner; seen_at = t.seen_at }) t.noted t.renoted)

  unfoldable pub create_monitor :
      (owner monitor_id : Text) (place_id url webhook_url : Option Text) (hours : ℕ)
      (track_fields : List Text) (t : Times)
      → Exec (Service srv http V) Problem (StoredRecord (Monitor V))
  create_monitor owner monitor_id place_id url webhook_url hours track_fields t = do
    guard (check_request env place_id url webhook_url)
    r ← on_monitors (
        RecordStore.put srv env.monitor_codec.to_json env.monitor_codec.from_json owner monitor_id
          (created place_id url webhook_url hours track_fields t.now) t.stored t.reread)
    remember_owner owner t
    pure r

  -- `_forget_owner_if_empty`
  unfoldable pub forget_owner_if_empty :
      (owner : Text) → Times → Exec (Service srv http V) Problem Unit
  forget_owner_if_empty owner t = do
    remaining ← on_monitors (
        RecordStore.list_for_owner srv env.monitor_codec.from_json owner 1 0 (λ r. true)
          (λ r. r.created_at) true t.listed)
    if is_empty remaining
        then on_owners (RecordStore.delete srv index_owner owner) >> pure tt
        else pure tt

  unfoldable pub delete_monitor :
      (owner monitor_id : Text) → Times → Exec (Service srv http V) Problem Unit
  delete_monitor owner monitor_id t = do
    there ← on_monitors (RecordStore.delete srv owner monitor_id)
    if there then forget_owner_if_empty owner t else throw monitor_not_found

  -- The webhooks of a check, if it found changes
  abbrev pub fire_if :
      (changes : Changes V) (owner monitor_id : Text) (m : Monitor V) (snap : Dict V)
      → Times
      → Exec (Service srv http V) Problem (List Tally)
  fire_if [] owner monitor_id m snap t = pure []
  fire_if (c ∷ changes) owner monitor_id m snap t = on_wire (
      fire_monitor_webhooks srv http env owner
        (record {
          monitor_id = monitor_id;
          place_id = m.place_id;
          url = m.url;
          changes = c ∷ changes;
          snapshot = snap;
        })
        m.webhook_url t.listed)

  -- The last part of `check_monitor`, from the data that was read and the result of the scrape
  unfoldable pub conclude :
      (owner monitor_id : Text) (m : Monitor V) (result : Fetched V)
      → Times
      → Exec (Service srv http V) Problem (Checked V)
  conclude owner monitor_id m result t =
      let after = checked env.same t.now result m in
      let snap = snapshot result.place (tracked env.same m.track_fields) in
      let changes : Changes V =
        if is_failed env.same result then [] else diff env.same m.last_snapshot snap in
      (do
        on_monitors (
            RecordStore.put srv env.monitor_codec.to_json env.monitor_codec.from_json owner
              monitor_id after t.stored t.reread)
        remember_owner owner t
        deliveries ← fire_if changes owner monitor_id after snap t
        pure (record {
          monitor_id = monitor_id;
          checked = not (is_failed env.same result);
          changes = changes;
          error = after.last_error;
          deliveries = deliveries;
        }))

  unfoldable pub check_monitor :
      (owner monitor_id : Text) (fetch : Monitor V → Fetched V)
      → Times
      → Exec (Service srv http V) Problem (Checked V)
  check_monitor owner monitor_id fetch t = do
    found ← on_monitors (
        RecordStore.get srv env.monitor_codec.to_json env.monitor_codec.from_json owner monitor_id
          t.read)
    elim found [
      | none ↦ throw monitor_not_found
      | some r ↦ conclude owner monitor_id r.content (fetch r.content) t
    ]
