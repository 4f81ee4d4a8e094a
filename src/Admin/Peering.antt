-- ===== src/Admin/Peering.antt =====
-- How payloads that wait for peers fare: `on_authorization_change` of
-- libsplinter/src/admin/service/shared.rs, over any sequence of changes.
use splinter.Prelude.{
  String, ◌≡◌, refl, sym, ◌∙◌, Bool, List, [], ◌∷◌, ◌++◌, ◌==◌, string_eq, any, keep, map, not, All,
  if◌then◌else◌, ℕ, ◌+◌, arith,
}
use splinter.Admin.Proto.{CircuitManagementPayload}
use splinter.Admin.Shared.{
  AdminServiceShared, on_authorization_change, other_than, change_entry, is_fully_peered, released,
}
use splinter.Auth.Model.{PeerAuthorizationState, peer_authorized, peer_unauthorized}

abbrev pub Change : Type 0
Change = String × PeerAuthorizationState

abbrev pub Entry : Type 0
Entry = List String × CircuitManagementPayload

abbrev pub run_changes : List Change → AdminServiceShared → AdminServiceShared
run_changes [] s = s
run_changes ((peer, state) ∷ changes) s = run_changes changes (on_authorization_change peer state s)

-- What becomes of a payload that waits for some peers: it still waits, it was sent, or dropped.
pub data Outcome : Type 0 where
  waiting : List String → Outcome
  sent dropped : Outcome

abbrev pub sent_or : Outcome → List String → Outcome
sent_or later [] = sent
sent_or later (p ∷ ps) = later

-- the peers other than the one given
abbrev pub without_peer : String → List String → List String
without_peer peer [] = []
without_peer peer (p ∷ ps) = let rest = without_peer peer ps in if p == peer then rest else p ∷ rest

-- An entry on its own: the first change that rejects an awaited peer drops it, and the change that
-- authorizes the last one sends it.
abbrev pub outcome : List Change → List String → Outcome
outcome [] peers = waiting peers
outcome ((peer, peer_authorized) ∷ changes) peers =
    sent_or (outcome changes (without_peer peer peers)) (without_peer peer peers)
outcome ((peer, peer_unauthorized) ∷ changes) peers =
    if any (λ id. id == peer) peers then dropped else outcome changes peers

abbrev pub keep_waiting : Outcome → CircuitManagementPayload → List Entry → List Entry
keep_waiting (waiting peers) payload es = (peers, payload) ∷ es
keep_waiting sent payload es = es
keep_waiting dropped payload es = es

abbrev pub still_waiting : List Change → List Entry → List Entry
still_waiting changes [] = []
still_waiting changes ((peers, payload) ∷ es) =
    keep_waiting (outcome changes peers) payload (still_waiting changes es)

abbrev pub add_sent :
    Outcome
    → CircuitManagementPayload
    → List CircuitManagementPayload
    → List CircuitManagementPayload
add_sent sent payload ps = payload ∷ ps
add_sent (waiting peers) payload ps = ps
add_sent dropped payload ps = ps

abbrev pub sent_of : List Change → List Entry → List CircuitManagementPayload
sent_of changes [] = []
sent_of changes ((peers, payload) ∷ es) =
    add_sent (outcome changes peers) payload (sent_of changes es)

abbrev pub count : (CircuitManagementPayload → Bool) → List CircuitManagementPayload → ℕ
count q [] = 0
count q (p ∷ ps) = if q p then 1 + count q ps else count q ps

-- an entry that waits for some peer
abbrev pub IsWaiting : Entry → Type 0
IsWaiting (peers, payload) = ¬ (peers ≡ [])

other_than-without_peer :
    (peer : String) (ps : List String) → other_than peer ps ≡ without_peer peer ps
unfolding keep
other_than-without_peer peer [] = refl
other_than-without_peer peer (p ∷ ps) = ground (arith, other_than-without_peer peer ps)

abbrev left : String → PeerAuthorizationState → List Entry → List Entry
left peer state es =
    keep (λ (e : Entry). not (is_fully_peered e)) (map (change_entry state peer) es)

abbrev full : String → PeerAuthorizationState → List Entry → List Entry
full peer state es = keep is_fully_peered (map (change_entry state peer) es)

left-IsWaiting :
    (es : List Entry) → All IsWaiting (keep (λ (e : Entry). not (is_fully_peered e)) es)
unfolding keep
left-IsWaiting [] = tt
left-IsWaiting (([], payload) ∷ es) = left-IsWaiting es
left-IsWaiting ((p ∷ ps, payload) ∷ es) = (λ e. ground (arith, e), left-IsWaiting es)

still_waiting-step :
    (peer : String) (state : PeerAuthorizationState) (changes : List Change) (es : List Entry)
    → All IsWaiting es
    → still_waiting ((peer, state) ∷ changes) es ≡ still_waiting changes (left peer state es)
unfolding keep
still_waiting-step peer state changes [] w = refl
still_waiting-step peer peer_authorized changes ((ps, payload) ∷ es) w =
    let rest = still_waiting-step peer peer_authorized changes es w.1 in
    ground (arith, rest, w.0, other_than-without_peer peer ps)
still_waiting-step peer peer_unauthorized changes ((ps, payload) ∷ es) w =
    let rest = still_waiting-step peer peer_unauthorized changes es w.1 in
    ground (arith, rest, w.0, other_than-without_peer peer ps)

count-append :
    (q : CircuitManagementPayload → Bool) (xs ys : List CircuitManagementPayload)
    → count q (xs ++ ys) ≡ count q xs + count q ys
count-append q [] ys = omega arith
count-append q (x ∷ xs) ys = ground (arith, count-append q xs ys)

sent_of-step :
    (q : CircuitManagementPayload → Bool) (peer : String) (state : PeerAuthorizationState)
    (changes : List Change) (es : List Entry)
    → All IsWaiting es
    → count q (sent_of ((peer, state) ∷ changes) es)
      ≡ count q (released state (full peer state es))
        + count q (sent_of changes (left peer state es))
unfolding keep
sent_of-step q peer peer_authorized changes [] w = refl
sent_of-step q peer peer_unauthorized changes [] w = refl
sent_of-step q peer peer_authorized changes ((ps, payload) ∷ es) w =
    let rest = sent_of-step q peer peer_authorized changes es w.1 in
    ground (arith, rest, w.0, other_than-without_peer peer ps)
sent_of-step q peer peer_unauthorized changes ((ps, payload) ∷ es) w =
    let rest = sent_of-step q peer peer_unauthorized changes es w.1 in
    ground (arith, rest, w.0, other_than-without_peer peer ps)

still_waiting-none : (es : List Entry) → still_waiting [] es ≡ es
still_waiting-none [] = refl
still_waiting-none ((ps, payload) ∷ es) = cc (still_waiting-none es)

sent_of-none : (es : List Entry) → sent_of [] es ≡ []
sent_of-none [] = refl
sent_of-none ((ps, payload) ∷ es) = sent_of-none es

-- Over any sequence of changes each waiting payload fares as it would alone, in the order of the
-- queue: those that still wait keep their place, and the consensus queue holds what it held and
-- exactly the payloads that were sent, each as often.
pub run_changes-settle :
    (changes : List Change) (s : AdminServiceShared)
    → All IsWaiting s.unpeered_payloads
    → ((run_changes changes s).unpeered_payloads ≡ still_waiting changes s.unpeered_payloads)
      × All IsWaiting (run_changes changes s).unpeered_payloads
      × ((q : CircuitManagementPayload → Bool)
          → count q (run_changes changes s).pending_circuit_payloads
            ≡ count q s.pending_circuit_payloads + count q (sent_of changes s.unpeered_payloads))
unfolding on_authorization_change
run_changes-settle [] s w = (
  sym (still_waiting-none s.unpeered_payloads),
  w,
  λ q. rw (sent_of-none s.unpeered_payloads) (omega arith),
)
run_changes-settle ((peer, state) ∷ changes) s w =
    let es = s.unpeered_payloads in
    let s₁ = on_authorization_change peer state s in
    let (same, still, counts) =
      run_changes-settle changes s₁ (left-IsWaiting (map (change_entry state peer) es)) in
    (
      same ∙ sym (still_waiting-step peer state changes es w),
      still,
      λ q. omega (
        arith,
        counts q,
        sent_of-step q peer state changes es w,
        count-append q s.pending_circuit_payloads (released state (full peer state es)),
      ),
    )
