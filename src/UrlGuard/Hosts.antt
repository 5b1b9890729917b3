-- ===== src/UrlGuard/Hosts.antt =====
-- Which hosts an allow-list admits: `_host_allowed`, against a description of it without loops.
use headwater.Prelude.{
  starts_with_append, starts_with-split, ◌≡◌, ◌∙◌, sym, ap, ◌⊎◌, ◌↔◌, true, false, List, [], ◌∷◌,
  ◌++◌, Text, codes, if_iff, if_true_iff, starts_with, ends_with, text_eq_iff, lower, arith,
}
use mathlib.Core.List.{reverse, reverse-append, reverse-reverse}
use headwater.UrlGuard.{host_allowed}

-- A text ends with another exactly when it is something followed by it.
pub ends_with_iff : (t s : Text) → (ends_with t s ≡ true) ↔ ((p : Text) × (t ≡ p ++ s))
unfolding ends_with
ends_with_iff t s = (
  λ h.
      let (r, e) = starts_with-split (reverse t) (reverse s) h in
      let q : t ≡ reverse r ++ s =
        sym (reverse-reverse t)
        ∙ ap reverse e
        ∙ reverse-append (reverse s) r
        ∙ ap (λ z. reverse r ++ z) (reverse-reverse s) in
      (reverse r, q),
  λ w.
      let e : reverse t ≡ reverse s ++ reverse w.0 = ap reverse w.1 ∙ reverse-append w.0 s in
      rw e (starts_with_append (reverse s) (reverse w.0)),
)

-- An entry with a leading dot admits the hosts that end with it, any other one the host itself.
abbrev pub IsMatch : (host entry : Text) → Type 0
IsMatch host entry =
    ((starts_with (lower entry) (codes ".") ≡ true) × ((p : Text) × (host ≡ p ++ lower entry)))
    ⊎ ((starts_with (lower entry) (codes ".") ≡ false) × (host ≡ lower entry))

-- Some entry of the list admits the host.
abbrev pub IsAllowed : (host : Text) → List Text → Type 0
IsAllowed host [] = ⊥
IsAllowed host (entry ∷ es) = IsMatch host entry ⊎ IsAllowed host es

-- A host passes the allow-list exactly if some entry, in lower case, is the host or, where it
-- begins with a dot, is the end of it.
pub host_allowed_iff :
    (host : Text) (allowed : List Text)
    → (host_allowed host allowed ≡ true) ↔ IsAllowed host allowed
unfolding host_allowed
host_allowed_iff host [] = (λ h. absurd (ground (arith, h)), λ h. absurd h)
host_allowed_iff host (e ∷ es) =
    if_true_iff _ _
      (if_iff (starts_with (lower e) (codes ".")) _ _ (ends_with_iff host (lower e))
        (text_eq_iff host (lower e)))
      (host_allowed_iff host es)
