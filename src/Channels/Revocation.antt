-- ===== src/Channels/Revocation.antt =====
-- A revoked credential stops every channel that uses it.
use wh_api_unified_service.Prelude.{
  Bool, Bool-cases, In, In-map, List, Option-cases, [], arith, inl, inr, map, some, subst, sym,
  true, ℕ, ◌∷◌, ◌≡◌,
}
use wh_api_unified_service.Channels.{
  Channel, ChannelSendContext, Connection, ConnectionStatus, find_send_context, first_channel,
  is_parent_of, mark_reauth_required, may_send, revoked_channel, send_context,
}

first_channel-In :
    (p : Channel → Bool) (cs : List Channel) (c : Channel)
    → first_channel p cs ≡ some c
    → In c cs × (p c ≡ true)
first_channel-In p [] c h = cc
first_channel-In p (x ∷ xs) c h = elim (Bool-cases (p x)) [
  | inl on ↦ let same : c ≡ x = ground arith in (inl same, subst (λ y. p y ≡ true) (sym same) on)
  | inr off ↦ let (i, on) = first_channel-In p xs c (ground arith) in (inr i, on)
]

-- Whatever the channels were, once a connection is marked for re-authentication no channel of that
-- connection and enterprise has a send context without the mark.
pub revoked_everywhere :
    (enterprise connection id : ℕ) (status : ConnectionStatus) (connections : List Connection)
    (channels : List Channel) (context : ChannelSendContext)
    → find_send_context enterprise id
        (mark_reauth_required enterprise connection status connections channels).1
      ≡ some context
    → context.provider_connection_id ≡ connection
    → context.reauth_required ≡ true
unfolding find_send_context mark_reauth_required
revoked_everywhere enterprise connection id status connections channels context found by =
    let revoke = revoked_channel enterprise connection in
    elim (Option-cases (first_channel (may_send enterprise id) (map revoke channels))) [
      | inl nothing ↦ ground arith
      | inr (c, there) ↦
          let (i, on) = first_channel-In (may_send enterprise id) (map revoke channels) c there in
          let (a, j, same) = In-map revoke channels c i in
          let parent = first_channel (is_parent_of c) (map revoke channels) in
          let context_is : context ≡ send_context c parent = ground arith in ground arith
    ]
