-- ===== src/RecordStore/Keys.antt =====
-- The layout of the store's keys: with owners that contain no colon, a key tells its owner and its
-- record, and a key has an owner's prefix only if it is that owner's.
use headwater.Prelude.{
  NoColon, append-cancel, split_at_colon, starts_with-append, starts_at_colon, own_prefix, ◌≡◌, ◌∙◌,
  sym, true, [], ◌∷◌, ◌++◌, Text, starts_with,
}
use headwater.RecordStore.{key_of, prefix_of}

pub key_of-injective :
    (ns o o' i i' : Text)
    → NoColon o
    → NoColon o'
    → key_of ns o i ≡ key_of ns o' i'
    → (o ≡ o') × (i ≡ i')
unfolding key_of
key_of-injective ns o o' i i' n n' e =
    split_at_colon o o' i i' n n' (append-cancel (b':' ∷ []) _ _ (append-cancel ns _ _ e))

past_namespace :
    (ns o o' i : Text)
    → starts_with (key_of ns o i) (prefix_of ns o') ≡ starts_with (o ++ b':' ∷ i) (o' ++ b':' ∷ [])
unfolding key_of prefix_of
past_namespace ns o o' i =
    starts_with-append ns (b':' ∷ (o ++ b':' ∷ i)) (b':' ∷ (o' ++ b':' ∷ []))
    ∙ starts_with-append (b':' ∷ []) (o ++ b':' ∷ i) (o' ++ b':' ∷ [])

-- Only an owner's own keys have its prefix ...
pub owner_of_prefix :
    (ns o o' i : Text)
    → NoColon o
    → NoColon o'
    → starts_with (key_of ns o i) (prefix_of ns o') ≡ true
    → o ≡ o'
owner_of_prefix ns o o' i n n' e = starts_at_colon o o' i n n' (sym (past_namespace ns o o' i) ∙ e)

-- ... and all of them do.
pub prefix_of_owner : (ns o i : Text) → starts_with (key_of ns o i) (prefix_of ns o) ≡ true
prefix_of_owner ns o i = past_namespace ns o o i ∙ own_prefix o i
