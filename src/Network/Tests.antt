-- ===== src/Network/Tests.antt =====
-- A peer with a temporary id is identified.
use splinter.Prelude.{ℕ, ◌≡◌, refl, String, [], ◌∷◌, string_eq, nat_eq}
use splinter.Prelude.Exec.{ok}
use splinter.Prelude.Map
use splinter.Prelude.Map.{lookup}
use splinter.Collections.BiHashMap.{new_map, insert}
use splinter.Collections.Bijection.{IsBijection, insert-IsBijection}
use splinter.Network.Peers.{PeerMap, update}
use splinter.Network.Redirects.{IsUpdated, update-IsUpdated}

abbrev temporary : PeerMap
temporary = record {
  peers = record { kv_hash_map = ("temp", 7) ∷ []; vk_hash_map = (7, "temp") ∷ [] };
  redirects = ("older", "temp") ∷ [];
  endpoints = record {
    kv_hash_map = ("temp", "tcp://beta") ∷ [];
    vk_hash_map = ("tcp://beta", "temp") ∷ [];
  };
}

empty-IsBijection : IsBijection {K = String} {V = ℕ} new_map
unfolding lookup
empty-IsBijection k v = ((λ h. cc h), (λ h. cc h))

temporary-IsBijection : IsBijection temporary.peers
unfolding insert Map.insert lookup
temporary-IsBijection =
    (insert-IsBijection "temp" 7 new_map empty-IsBijection).1 ((λ k h. cc h), (λ v h. cc h))

update-IsUpdated_example :
    (p' : PeerMap) × (update "temp" "beta" temporary ≡ (ok tt, p'))
    × IsUpdated "temp" "beta" 7 temporary p'
unfolding lookup
update-IsUpdated_example =
    update-IsUpdated "temp" "beta" 7 temporary temporary-IsBijection refl refl refl
