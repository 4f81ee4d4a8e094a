-- ===== src/Auth/Calls.antt =====
-- Each call of the manager in libsplinter/src/network/auth/mod.rs, and the peers that it authorizes.
use splinter.Prelude.{
  String, ◌≡◌, refl, true, false, List, [], ◌∷◌, string_eq, ℕ, any, Bool-cases, inl, inr, arith,
  nat_beq,
}
use splinter.Prelude.Map.{lookup}
use splinter.Auth.Model.{
  AuthorizationState, unknown, connecting, authorized, unauthorized, internal, AuthorizationAction,
  connect, trust_identifying, unauthorizing, peer_authorized, peer_unauthorized, asked, removed,
  updated, dropped, Network, ManagedAuthorizations, new_authorizations, remove_state, insert_state,
  record_event, drain_removals, drain, notify_callbacks, current, is_inproc_endpoint,
  start_connecting, after_removal, unauthorize, identify, transition, next_state, is_granted_state,
  is_authorized, register_callback, on_disconnect, Operation, transitioning, asking, registering,
  disconnecting, perform, perform_all,
}
use splinter.Auth.Grants.{
  is_granted, told_authorized, has_callback, current-insert_state, current-remove_state,
  not_granted, any-append, notify-IsNotified,
}

module _ (network : Network) (c : ℕ) (p : String) where
  -- what authorizes the peer now, and what the callback was told
  abbrev pub IsBacked : ManagedAuthorizations → Type 0
  IsBacked s =
      (has_callback c s ≡ true)
      × (is_granted_state (current p s) ≡ true
          → (is_granted network p s.events ≡ true) × (told_authorized c p s.events ≡ true))

  drain_removals-IsBacked :
      (ps : List String) (s : ManagedAuthorizations) → IsBacked s → IsBacked (drain_removals ps s)
  unfolding drain_removals record_event remove_state
  drain_removals-IsBacked [] s b = b
  drain_removals-IsBacked (q ∷ ps) s b =
      drain_removals-IsBacked ps (record_event (dropped q) (remove_state q s))
        (b.0, λ g. ground (arith, b.1, current-remove_state p s q))

  drain-IsBacked : (s : ManagedAuthorizations) → IsBacked s → IsBacked (drain s)
  unfolding drain
  drain-IsBacked s b = drain_removals-IsBacked s.disconnect_receiver _ b

  after_removal-IsBacked :
      (q : String) (rest : ManagedAuthorizations → ManagedAuthorizations)
      (s : ManagedAuthorizations)
      → IsBacked (rest (record_event (removed q true) s))
      → IsBacked (record_event (removed q false) s)
      → IsBacked (after_removal network q rest s).1
  unfolding after_removal
  after_removal-IsBacked q rest s done lost =
      elim (Bool-cases (network.remove_connection s.events q)) [
        | inl e ↦ rw e done
        | inr e ↦ rw e lost
      ]

  -- removing the connection of a peer that is not authorized
  removed-IsBacked :
      (q : String) (s : ManagedAuthorizations)
      → is_granted_state (current q s) ≡ false
      → IsBacked s
      → IsBacked (after_removal network q (λ s. s) s).1
  removed-IsBacked q s u b =
      after_removal-IsBacked q (λ s. s) s
        (unfold record_event in (b.0, λ g. ground (arith, b.1, not_granted p s q u)))
        (unfold record_event in b)

  unauthorize-IsBacked :
      (q : String) (s : ManagedAuthorizations) → IsBacked s → IsBacked (unauthorize network q s).1
  unfolding unauthorize record_event remove_state
  unauthorize-IsBacked q s b =
      let s₁ = remove_state q s in
      let s₂ = record_event (removed q true) s₁ in
      let n = notify-IsNotified network c p s.callbacks q peer_unauthorized s₂ in
      after_removal-IsBacked q (notify_callbacks q peer_unauthorized) s₁
        (
          rw n.same_callbacks b.0,
          λ g.
              ground
                (arith, b.1, n.same_current, n.same_granted, n.told, current-remove_state p s q),
        )
        (b.0, λ g. ground (arith, b.1, current-remove_state p s q))

  identify-IsBacked :
      (q new_peer : String) (s : ManagedAuthorizations)
      → IsBacked s
      → IsBacked (identify network q new_peer s).1
  unfolding identify record_event insert_state remove_state
  identify-IsBacked q new_peer s b =
      let s₀ = remove_state q s in
      let s₁ = record_event (updated q new_peer true) s₀ in
      let s₂ = insert_state new_peer authorized s₁ in
      let n = notify-IsNotified network c p s.callbacks new_peer peer_authorized s₂ in
      elim (Bool-cases (network.update_peer_id s.events q new_peer)) [
        | inl e ↦ rw e (
          rw n.same_callbacks b.0,
          λ g. ground (
            arith,
            b.1,
            b.0,
            n.same_current,
            n.same_granted,
            n.told,
            current-insert_state p s₁ new_peer authorized,
            current-remove_state p s q,
          ),
        )
        | inr e ↦ rw e (b.0, λ g. ground (arith, b.1, current-remove_state p s q))
      ]

  start_connecting-IsBacked :
      (q : String) (s : ManagedAuthorizations)
      → IsBacked s
      → IsBacked (start_connecting network q s).1
  unfolding start_connecting record_event insert_state
  start_connecting-IsBacked q s b =
      let endpoint = network.get_peer_endpoint s.events q in
      let s₂ = insert_state q internal (record_event (asked q endpoint) s) in
      let n = notify-IsNotified network c p s.callbacks q peer_authorized s₂ in
      elim (Bool-cases (is_inproc_endpoint network endpoint)) [
        | inl e ↦ rw e (
          rw n.same_callbacks b.0,
          λ g. ground (
            arith,
            b.1,
            n.same_current,
            n.same_granted,
            n.told,
            current-insert_state p s q internal,
          ),
        )
        | inr e ↦ rw e (b.0, λ g. ground (arith, b.1, current-insert_state p s q connecting))
      ]

  transition-IsBacked :
      (q : String) (state : AuthorizationState) (action : AuthorizationAction)
      (s : ManagedAuthorizations)
      → current q s ≡ state
      → IsBacked s
      → IsBacked (transition network q state action s).1
  transition-IsBacked q unknown connect s e b = start_connecting-IsBacked q s b
  transition-IsBacked q unknown unauthorizing s e b = removed-IsBacked q s (rw e refl) b
  transition-IsBacked q unknown (trust_identifying r) s e b = b
  transition-IsBacked q connecting connect s e b = b
  transition-IsBacked q connecting (trust_identifying r) s e b = identify-IsBacked q r s b
  transition-IsBacked q connecting unauthorizing s e b = unauthorize-IsBacked q s b
  transition-IsBacked q authorized unauthorizing s e b = unauthorize-IsBacked q s b
  transition-IsBacked q authorized connect s e b = b
  transition-IsBacked q authorized (trust_identifying r) s e b = b
  transition-IsBacked q unauthorized action s e b = b
  transition-IsBacked q internal action s e b = b

  perform-IsBacked :
      (o : Operation) (s : ManagedAuthorizations) → IsBacked s → IsBacked (perform network o s)
  unfolding next_state is_authorized register_callback on_disconnect
  perform-IsBacked (transitioning q action) s b =
      transition-IsBacked q (current q (drain s)) action (drain s) refl (drain-IsBacked s b)
  perform-IsBacked (asking q) s b = drain-IsBacked s b
  perform-IsBacked (registering d) s b =
      (ground (arith, any-append (λ x. nat_beq x c) s.callbacks (d ∷ []), b.0), b.1)
  perform-IsBacked (disconnecting q) s b = b

  perform_all-IsBacked :
      (os : List Operation) (s : ManagedAuthorizations)
      → IsBacked s
      → IsBacked (perform_all network os s)
  perform_all-IsBacked [] s b = b
  perform_all-IsBacked (o ∷ os) s b = perform_all-IsBacked os _ (perform-IsBacked o s b)

-- The manager after it registered the callback and then received the calls.
abbrev pub after_calls : Network → ℕ → List Operation → ManagedAuthorizations
after_calls network c os = perform_all network os (register_callback c new_authorizations)

-- After any calls of the manager, a peer that is found authorized has been granted that by the
-- network, and a callback that was registered before these calls was last told so.
pub perform_all-grants :
    (network : Network) (c : ℕ) (p : String) (os : List Operation)
    → (is_authorized p (after_calls network c os)).0 ≡ true
    → (is_granted network p (is_authorized p (after_calls network c os)).1.events ≡ true)
      × (told_authorized c p (is_authorized p (after_calls network c os)).1.events ≡ true)
unfolding is_authorized
perform_all-grants network c p os =
    let start : IsBacked network c p (register_callback c new_authorizations) =
      unfold register_callback lookup any in (ground arith, λ g. cc) in
    (drain-IsBacked network c p _ (perform_all-IsBacked network c p os _ start)).1
