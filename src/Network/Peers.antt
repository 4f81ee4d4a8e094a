-- ===== src/Network/Peers.antt =====
-- `PeerMap` of libsplinter/src/network/mod.rs: the mesh ids and the endpoints of the peers, and
-- the ids that were replaced.
use splinter.Prelude.{
  ℕ, String, not, Option, none, some, List, [], ◌==◌, string_eq, nat_eq, map, keep, if◌then◌else◌,
}
use splinter.Prelude.Exec.{Result, ok, err}
use splinter.Prelude.Map
use splinter.Prelude.Map.{lookup}
use splinter.Collections.BiHashMap.{
  BiHashMap, new_map, get_by_key, get_by_value, insert, remove_by_key,
}

pub record PeerMap : Type 0 where
  pub peers : BiHashMap String ℕ
  pub redirects : List (String × String)
  pub endpoints : BiHashMap String String

pub data PeerUpdateError : Type 0 where
  peer_update_error : PeerUpdateError

abbrev pub new_peers : PeerMap
new_peers = record { peers = new_map; redirects = []; endpoints = new_map }

unfoldable pub insert_peer : String → ℕ → String → PeerMap → PeerMap
insert_peer peer_id mesh_id endpoint p = record p {
  peers = (insert peer_id mesh_id p.peers).1;
  endpoints = (insert peer_id endpoint p.endpoints).1;
}

abbrev pub mesh_of : Option (String × ℕ) → Option ℕ
mesh_of none = none
mesh_of (some x) = some x.1

unfoldable pub remove_peer : String → PeerMap → Option ℕ × PeerMap
remove_peer peer_id p = (
  mesh_of (remove_by_key peer_id p.peers).0,
  record p {
    peers = (remove_by_key peer_id p.peers).1;
    redirects = keep (λ r. not (r.1 == peer_id)) p.redirects;
    endpoints = (remove_by_key peer_id p.endpoints).1;
  },
)

-- the endpoint of the old id, if there is one, becomes that of the new id
abbrev pub move_endpoint :
    String → Option (String × String) × BiHashMap String String → BiHashMap String String
move_endpoint new_peer_id (none, endpoints) = endpoints
move_endpoint new_peer_id (some x, endpoints) = (insert new_peer_id x.1 endpoints).1

-- a redirect to the old id is one to the new id
abbrev pub redirected : String → String → String × String → String × String
redirected old_peer_id new_peer_id r = (r.0, if r.1 == old_peer_id then new_peer_id else r.1)

abbrev pub update_to :
    String
    → String
    → PeerMap
    → Option (String × ℕ) × BiHashMap String ℕ
    → Result PeerUpdateError (Unit {0}) × PeerMap
update_to old_peer_id new_peer_id p (none, peers) =
    (err peer_update_error, record p { peers = peers })
update_to old_peer_id new_peer_id p (some x, peers) = (
  ok tt,
  record {
    peers = (insert new_peer_id x.1 peers).1;
    redirects =
        Map.insert old_peer_id new_peer_id (map (redirected old_peer_id new_peer_id) p.redirects);
    endpoints = move_endpoint new_peer_id (remove_by_key old_peer_id p.endpoints);
  },
)

unfoldable pub update : String → String → PeerMap → Result PeerUpdateError (Unit {0}) × PeerMap
update old_peer_id new_peer_id p =
    update_to old_peer_id new_peer_id p (remove_by_key old_peer_id p.peers)

-- `and_then` with the redirect, `or_else` with the id itself
abbrev pub or_direct : {V : Type 0} → Option V → Option V → Option V
or_direct none o = o
or_direct (some v) o = some v

abbrev pub followed : {V : Type 0} → (String → Option V) → Option String → Option V
followed f none = none
followed f (some target) = f target

unfoldable pub get_mesh_id : String → PeerMap → Option ℕ
get_mesh_id peer_id p =
    or_direct (followed (λ id. get_by_key id p.peers) (lookup peer_id p.redirects))
      (get_by_key peer_id p.peers)

abbrev pub get_peer_id : ℕ → PeerMap → Option String
get_peer_id mesh_id p = get_by_value mesh_id p.peers

unfoldable pub get_peer_endpoint : String → PeerMap → Option String
get_peer_endpoint peer_id p =
    or_direct (followed (λ id. get_by_key id p.endpoints) (lookup peer_id p.redirects))
      (get_by_key peer_id p.endpoints)

abbrev pub get_peer_by_endpoint : String → PeerMap → Option String
get_peer_by_endpoint endpoint p = get_by_value endpoint p.endpoints
