-- ===== src/Webhooks/Targets.antt =====
-- Which targets of webhooks are permitted: _webhook_allowed_hosts and validate_webhook_target of
-- app/services/google_maps_monitors.py.
use headwater.Prelude.{
  Bool, false, not, Option, none, some, List, [], ◌∷◌, Text, codes, strip, split, lower, is_empty,
  keep, if◌then◌else◌,
}
use headwater.Exec.{Result, ok, raise}
use headwater.UrlGuard.{Net, ValidatedUrl, UrlNotAllowed, validate_outbound_url}

abbrev cleaned : List Text → List Text
cleaned [] = []
cleaned (h ∷ hs) = lower (strip h) ∷ cleaned hs

-- `_webhook_allowed_hosts`, from the configured text; no entry at all is as good as no list.
unfoldable pub webhook_allowed_hosts : Option Text → Option (List Text)
webhook_allowed_hosts none = none
webhook_allowed_hosts (some raw) = elim (keep (λ h. not (is_empty h)) (cleaned (split b',' raw))) [
  | [] ↦ none
  | h ∷ hs ↦ some (h ∷ hs)
]

abbrev pub invalid_message : Text
invalid_message = codes "The webhook URL is not permitted."

abbrev with_message : Result UrlNotAllowed ValidatedUrl → Result Text ValidatedUrl
with_message (ok v) = ok v
with_message (raise e) = raise e.public_message

-- `(urlsplit(url.strip()).hostname or "").lower()`; one that raises is refused like one that is
-- empty.
unfoldable pub caller_host : Net → Text → Text
caller_host net url = elim (net.urlsplit (strip url)) [
  | none ↦ []
  | some parts ↦ elim parts.hostname [ some (some host) ↦ lower host | _ ↦ [] ]
]

module _ (net : Net) where
  -- `allowed` is what `_webhook_allowed_hosts` returns.
  unfoldable pub validate_webhook_target :
      (allowed : Option (List Text)) (url : Text) (resolve_dns : Bool) → Result Text ValidatedUrl
  validate_webhook_target allowed url resolve_dns =
      let guarded : List Text → Result Text ValidatedUrl =
        λ hosts. with_message (validate_outbound_url net url hosts false resolve_dns) in
      if is_empty (strip url) then raise invalid_message else elim allowed [
        | some hosts ↦ guarded hosts
        | none ↦ elim (caller_host net url) [
          | [] ↦ raise invalid_message
          | c ∷ host ↦ guarded ((c ∷ host) ∷ [])
        ]
      ]
