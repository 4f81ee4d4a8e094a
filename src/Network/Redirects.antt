-- ===== src/Network/Redirects.antt =====
-- What an update of a peer's id does to the `PeerMap` of libsplinter/src/network/mod.rs.
use splinter.Prelude.{
  ℕ, String, ◌≡◌, refl, sym, ap, ◌∙◌, Bool, true, false, Option, none, some, List, [], ◌∷◌, ◌==◌,
  string_eq, nat_eq, map, if◌then◌else◌, Bool-cases, inl, inr, eq_self,
}
use splinter.Prelude.Exec.{ok}
use splinter.Prelude.Map
use splinter.Prelude.Map.{lookup, lookup-insert}
use splinter.Collections.BiHashMap.{BiHashMap, get_by_key, get_by_value, insert, remove_by_key}
use splinter.Collections.Bijection.{
  IsBijection, IsFree, insert-IsBijection, IsRemoval, remove-IsRemoval,
}
use splinter.Network.Peers.{
  PeerMap, update, update_to, get_mesh_id, get_peer_id, or_direct, followed, redirected,
  move_endpoint,
}

-- What an update of the id of the peer at a mesh id leaves.
pub record IsUpdated (old new : String) (mesh : ℕ) (p p' : PeerMap) : Type 0 where
  pub bijection : IsBijection p'.peers
  pub new_found : get_mesh_id new p' ≡ some mesh
  pub old_found : get_mesh_id old p' ≡ some mesh
  pub named : get_peer_id mesh p' ≡ some new
  pub earlier_found :
      (id : String) → lookup id p.redirects ≡ some old → get_mesh_id id p' ≡ some mesh
  pub others :
      (id : String)
      → lookup id p.redirects ≡ none
      → (old == id) ≡ false
      → (new == id) ≡ false
      → get_mesh_id id p' ≡ get_mesh_id id p

abbrev target_of : String → String → Option String → Option String
target_of old new none = none
target_of old new (some t) = some (if t == old then new else t)

lookup-redirected :
    (old new id : String) (rs : List (String × String))
    → lookup id (map (redirected old new) rs) ≡ target_of old new (lookup id rs)
unfolding lookup
lookup-redirected old new id [] = refl
lookup-redirected old new id (r ∷ rs) = elim (Bool-cases (r.0 == id)) [
  | inl e ↦ rw e refl
  | inr e ↦ rw e (lookup-redirected old new id rs)
]

both_none : (c : Bool) → ◌≡◌ {A = Option ℕ} (if c then none else none) none
both_none true = refl
both_none false = refl

both_some : (c : Bool) (x : String) → (if c then some x else some x) ≡ some x
both_some true x = refl
both_some false x = refl

module _ (old new : String) (mesh : ℕ) (p : PeerMap) (b : IsBijection p.peers)
    (bound : get_by_key old p.peers ≡ some mesh) (free : get_by_key new p.peers ≡ none)
    (direct : lookup new p.redirects ≡ none) where
  abbrev rest : BiHashMap String ℕ
  rest = (remove_by_key old p.peers).1

  removal : IsRemoval old mesh p.peers (remove_by_key old p.peers)
  removal = (remove-IsRemoval old mesh p.peers b bound).0

  abbrev after : PeerMap
  after = record {
    peers = (insert new mesh rest).1;
    redirects = Map.insert old new (map (redirected old new) p.redirects);
    endpoints = move_endpoint new (remove_by_key old p.endpoints);
  }

  rest-IsFree : IsFree new mesh rest
  rest-IsFree = (
    (λ k h.
        let gone : get_by_value mesh rest ≡ none =
          removal.by_values mesh ∙ rw (eq_self mesh) refl in
        cc (h, gone)),
    (λ v h.
        let gone : get_by_key new rest ≡ none =
          removal.by_keys new
          ∙ ap (λ o. if old == new then none else o) free
          ∙ both_none (old == new) in
        cc (h, gone)),
  )

  peers_after :
      (k : String)
      → get_by_key k after.peers
        ≡ (if new == k then some mesh else if old == k then none else get_by_key k p.peers)
  unfolding insert
  peers_after k =
      lookup-insert new k mesh rest.kv_hash_map
      ∙ ap (λ o. if new == k then some mesh else o) (removal.by_keys k)

  redirects_after :
      (id : String)
      → lookup id after.redirects
        ≡ (if old == id then some new else target_of old new (lookup id p.redirects))
  redirects_after id =
      lookup-insert old id new (map (redirected old new) p.redirects)
      ∙ ap (λ o. if old == id then some new else o) (lookup-redirected old new id p.redirects)

  new_peer : get_by_key new after.peers ≡ some mesh
  new_peer = peers_after new ∙ rw (eq_self new) refl

  -- an id that is redirected to the new one
  to_new : (id : String) → lookup id after.redirects ≡ some new → get_mesh_id id after ≡ some mesh
  unfolding get_mesh_id
  to_new id h =
      ap (λ o. or_direct (followed (λ k. get_by_key k after.peers) o) (get_by_key id after.peers)) h
      ∙ ap (λ o. or_direct o (get_by_key id after.peers)) new_peer

  -- an id that is not redirected
  not_redirected :
      (id : String)
      → lookup id after.redirects ≡ none
      → get_mesh_id id after ≡ get_by_key id after.peers
  unfolding get_mesh_id
  not_redirected id h =
      ap (λ o. or_direct (followed (λ k. get_by_key k after.peers) o) (get_by_key id after.peers)) h

  after-IsUpdated : IsUpdated old new mesh p after
  unfolding get_mesh_id
  after-IsUpdated = record {
    bijection = (insert-IsBijection new mesh rest removal.bijection).1 rest-IsFree;
    new_found = elim (Bool-cases (old == new)) [
      | inl e ↦ to_new new (redirects_after new ∙ rw e refl)
      | inr e ↦ not_redirected new (redirects_after new ∙ rw (e, direct) refl) ∙ new_peer
    ];
    old_found = to_new old (redirects_after old ∙ rw (eq_self old) refl);
    named =
        ((insert-IsBijection new mesh rest removal.bijection).1 rest-IsFree new mesh).0 new_peer;
    earlier_found = λ id h. to_new id (
        redirects_after id
        ∙ ap (λ o. if old == id then some new else target_of old new o) h
        ∙ rw (eq_self old) (both_some (old == id) new));
    others = λ id h e f.
        not_redirected id (redirects_after id ∙ rw (e, h) refl)
        ∙ peers_after id
        ∙ rw (f, e)
            (sym (
              ap (λ o. or_direct (followed (λ k. get_by_key k p.peers) o) (get_by_key id p.peers))
                h));
  }

-- Where the peers and the mesh ids are a bijection, and the new id has neither a mesh id nor a
-- redirect, the update of a peer's id succeeds: the peers stay a bijection, the mesh id is found under
-- the new id, the old one, and every id that was redirected to the old one, and is named by the new
-- id; ids without a redirect are found as before.
pub update-IsUpdated :
    (old new : String) (mesh : ℕ) (p : PeerMap)
    → IsBijection p.peers
    → get_by_key old p.peers ≡ some mesh
    → get_by_key new p.peers ≡ none
    → lookup new p.redirects ≡ none
    → (p' : PeerMap) × (update old new p ≡ (ok tt, p')) × IsUpdated old new mesh p p'
unfolding update
update-IsUpdated old new mesh p b bound free direct = (
  after old new mesh p b bound free direct,
  ap (λ o. update_to old new p (o, (remove_by_key old p.peers).1))
      (removal old new mesh p b bound free direct).returned,
  after-IsUpdated old new mesh p b bound free direct,
)
