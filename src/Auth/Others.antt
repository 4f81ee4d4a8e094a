-- ===== src/Auth/Others.antt =====
-- What a transition of one peer leaves of the others in libsplinter/src/network/auth/mod.rs.
use splinter.Prelude.{
  String, ◌≡◌, refl, Bool, true, false, ◌||◌, ◌==◌, string_eq, arith, Bool-cases, inl, inr,
}
use splinter.Auth.Model.{
  AuthorizationState, unknown, connecting, authorized, unauthorized, internal, AuthorizationAction,
  connect, trust_identifying, unauthorizing, peer_authorized, peer_unauthorized, asked, removed,
  updated, Network, ManagedAuthorizations, remove_state, insert_state, record_event, drain, current,
  is_inproc_endpoint, start_connecting, after_removal, unauthorize, identify, transition,
  next_state,
}
use splinter.Auth.Grants.{notify-IsNotified, current-insert_state, current-remove_state}

-- the peers that an action of the peer `q` is about
abbrev pub is_about : String → AuthorizationAction → String → Bool
is_about q connect p = q == p
is_about q unauthorizing p = q == p
is_about q (trust_identifying new_peer) p = q == p || new_peer == p

module _ (network : Network) (p q : String) (s : ManagedAuthorizations) where
  start_connecting-others :
      (q == p) ≡ false → current p (start_connecting network q s).1 ≡ current p s
  unfolding start_connecting record_event
  start_connecting-others ne =
      let endpoint = network.get_peer_endpoint s.events q in
      let s₁ = record_event (asked q endpoint) s in
      let n =
        notify-IsNotified network 0 p s.callbacks q peer_authorized (insert_state q internal s₁) in
      elim (Bool-cases (is_inproc_endpoint network endpoint)) [
        | inl e ↦ rw e (
            unfold insert_state in
            (ground (arith, n.same_current, current-insert_state p s₁ q internal, ne)))
        | inr e ↦ rw e (ground (arith, current-insert_state p s₁ q connecting, ne))
      ]

  unauthorize-others : (q == p) ≡ false → current p (unauthorize network q s).1 ≡ current p s
  unfolding unauthorize after_removal record_event remove_state
  unauthorize-others ne =
      let s₁ = remove_state q s in
      let n =
        notify-IsNotified network 0 p s.callbacks q peer_unauthorized
          (record_event (removed q true) s₁) in
      elim (Bool-cases (network.remove_connection s.events q)) [
        | inl e ↦ rw e (ground (arith, n.same_current, current-remove_state p s q, ne))
        | inr e ↦ rw e (ground (arith, current-remove_state p s q, ne))
      ]

  identify-others :
      (new_peer : String)
      → (q == p || new_peer == p) ≡ false
      → current p (identify network q new_peer s).1 ≡ current p s
  unfolding identify record_event insert_state remove_state
  identify-others new_peer ne =
      let s₁ = record_event (updated q new_peer true) (remove_state q s) in
      let n =
        notify-IsNotified network 0 p s.callbacks new_peer peer_authorized
          (insert_state new_peer authorized s₁) in
      elim (Bool-cases (network.update_peer_id s.events q new_peer)) [
        | inl e ↦ rw e (
            ground (
              arith,
              n.same_current,
              current-insert_state p s₁ new_peer authorized,
              current-remove_state p s q,
              ne,
            ))
        | inr e ↦ rw e (ground (arith, current-remove_state p s q, ne))
      ]

  removal-others : current p (after_removal network q (λ s. s) s).1 ≡ current p s
  unfolding after_removal record_event
  removal-others = elim (Bool-cases (network.remove_connection s.events q)) [
    | inl e ↦ rw e refl
    | inr e ↦ rw e refl
  ]

transition-others :
    (network : Network) (p q : String) (state : AuthorizationState) (action : AuthorizationAction)
    (s : ManagedAuthorizations)
    → is_about q action p ≡ false
    → current p (transition network q state action s).1 ≡ current p s
transition-others network p q unknown connect s ne = start_connecting-others network p q s ne
transition-others network p q unknown unauthorizing s ne = removal-others network p q s
transition-others network p q unknown (trust_identifying r) s ne = refl
transition-others network p q connecting connect s ne = refl
transition-others network p q connecting (trust_identifying r) s ne =
    identify-others network p q s r ne
transition-others network p q connecting unauthorizing s ne = unauthorize-others network p q s ne
transition-others network p q authorized unauthorizing s ne = unauthorize-others network p q s ne
transition-others network p q authorized connect s ne = refl
transition-others network p q authorized (trust_identifying r) s ne = refl
transition-others network p q unauthorized action s ne = refl
transition-others network p q internal action s ne = refl

-- A transition of a peer, whatever the network answers, leaves the state of every peer that it is
-- not about as the drained disconnections leave it.
pub next_state-others :
    (network : Network) (p q : String) (action : AuthorizationAction) (s : ManagedAuthorizations)
    → is_about q action p ≡ false
    → current p (next_state network q action s).1 ≡ current p (drain s)
unfolding next_state
next_state-others network p q action s ne =
    transition-others network p q (current q (drain s)) action (drain s) ne
