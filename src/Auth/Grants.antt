-- ===== src/Auth/Grants.antt =====
-- Who is authorized by libsplinter/src/network/auth/mod.rs, and what the callbacks were told.
use mathlib.Core.Path.{subst}
use text.Mathlib.TextEquality.{eq_iff}
use splinter.Prelude.{
  String, ◌≡◌, refl, Bool, true, false, List, [], ◌∷◌, ◌++◌, ◌==◌, string_eq, if◌then◌else◌, ◌||◌,
  ◌&&◌, ℕ, any, arith, nat_beq,
}
use splinter.Prelude.Map.{lookup-insert, lookup-remove}
use splinter.Auth.Model.{
  AuthorizationState, unknown, PeerAuthorizationState, peer_authorized, peer_unauthorized, Event,
  asked, removed, updated, called, dropped, Network, ManagedAuthorizations, remove_state,
  insert_state, record_event, notify, current, is_inproc_endpoint, is_granted_state,
}

-- The events, the newest first, leave the peer authorized: its endpoint is one in the process, or
-- the network gave it its identity, and it was not removed, renamed or disconnected since.
abbrev pub is_granted : Network → String → List Event → Bool
is_granted network p [] = false
is_granted network p (asked q endpoint ∷ es) =
    let rest = is_granted network p es in
    if q == p && is_inproc_endpoint network endpoint then true else rest
is_granted network p (removed q success ∷ es) =
    let rest = is_granted network p es in if success && (q == p) then false else rest
is_granted network p (updated old new_peer success ∷ es) =
    let rest = is_granted network p es in
    if success && (new_peer == p) then true else if success && (old == p) then false else rest
is_granted network p (called c q state ∷ es) = is_granted network p es
is_granted network p (dropped q ∷ es) =
    let rest = is_granted network p es in if q == p then false else rest

abbrev pub is_authorized_state : PeerAuthorizationState → Bool
is_authorized_state peer_authorized = true
is_authorized_state peer_unauthorized = false

-- the last that the callback `c` was told about the peer is that it is authorized
abbrev pub told_authorized : ℕ → String → List Event → Bool
told_authorized c p [] = false
told_authorized c p (called d q state ∷ es) =
    let rest = told_authorized c p es in
    if nat_beq d c && (q == p) then is_authorized_state state else rest
told_authorized c p (asked q endpoint ∷ es) = told_authorized c p es
told_authorized c p (removed q success ∷ es) = told_authorized c p es
told_authorized c p (updated old new_peer success ∷ es) = told_authorized c p es
told_authorized c p (dropped q ∷ es) = told_authorized c p es

abbrev pub has_callback : ℕ → ManagedAuthorizations → Bool
has_callback c s = any (λ d. nat_beq d c) s.callbacks

module _ (p : String) (s : ManagedAuthorizations) where
  pub current-insert_state :
      (q : String) (state : AuthorizationState)
      → current p (insert_state q state s) ≡ (if q == p then state else current p s)
  unfolding insert_state
  current-insert_state q state = rw (lookup-insert q p state s.states, current) (ground arith)

  pub current-remove_state :
      (q : String) → current p (remove_state q s) ≡ (if q == p then unknown else current p s)
  unfolding remove_state
  current-remove_state q = rw (lookup-remove q p s.states, current) (ground arith)

  pub not_granted :
      (q : String)
      → is_granted_state (current q s) ≡ false
      → (q == p) ≡ true
      → is_granted_state (current p s) ≡ false
  not_granted q u e = subst (λ x. is_granted_state (current x s) ≡ false) ((eq_iff q p).0 e) u

  pub current-record_event : (e : Event) → current p (record_event e s) ≡ current p s
  unfolding record_event
  current-record_event e = refl

pub any-append : (q : ℕ → Bool) (xs ys : List ℕ) → any q (xs ++ ys) ≡ (any q xs || any q ys)
unfolding any
any-append q [] ys = refl
any-append q (x ∷ xs) ys = ground (arith, any-append q xs ys)

-- What a round of callbacks leaves and adds.
pub record IsNotified (network : Network) (c : ℕ) (p : String) (cs : List ℕ) (q : String)
    (state : PeerAuthorizationState) (s s' : ManagedAuthorizations) : Type 0 where
  pub same_current : current p s' ≡ current p s
  pub same_callbacks : s'.callbacks ≡ s.callbacks
  pub same_granted : is_granted network p s'.events ≡ is_granted network p s.events
  pub told : told_authorized c p s'.events ≡ (
      if any (λ d. nat_beq d c) cs && (q == p)
      then is_authorized_state state
      else told_authorized c p s.events)

pub notify-IsNotified :
    (network : Network) (c : ℕ) (p : String) (cs : List ℕ) (q : String)
    (state : PeerAuthorizationState) (s : ManagedAuthorizations)
    → IsNotified network c p cs q state s (notify cs q state s)
unfolding notify record_event any
notify-IsNotified network c p [] q state s = record {
  same_current = refl;
  same_callbacks = refl;
  same_granted = refl;
  told = refl;
}
notify-IsNotified network c p (d ∷ cs) q state s =
    let rest = notify-IsNotified network c p cs q state (record_event (called d q state) s) in
    record {
      same_current = rest.same_current;
      same_callbacks = rest.same_callbacks;
      same_granted = rest.same_granted;
      told = ground (arith, rest.told);
    }
