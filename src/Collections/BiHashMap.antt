-- ===== src/Collections/BiHashMap.antt =====
-- `BiHashMap` of libsplinter/src/collections/mod.rs: a map with its inverse. What concerns the
-- capacity and the iterators is left out.
use splinter.Prelude.{Option, none, some, List, [], Eq}
use splinter.Prelude.Map
use splinter.Prelude.Map.{lookup}

pub record BiHashMap {ℓ κ} (K : Type ℓ) (V : Type κ) : Type (ℓ ⊔ κ) where
  pub kv_hash_map : List (K × V)
  pub vk_hash_map : List (V × K)

module _ {K V : Type 0} where
  abbrev pub new_map : BiHashMap K V
  new_map = record { kv_hash_map = []; vk_hash_map = [] }

  -- also `clear`
  unfoldable pub clear : BiHashMap K V → BiHashMap K V
  clear m = new_map

module _ {K V : Type 0} ⦃eK : Eq K⦄ ⦃eV : Eq V⦄ where
  abbrev pub get_by_key : K → BiHashMap K V → Option V
  get_by_key key m = lookup key m.kv_hash_map

  abbrev pub get_by_value : V → BiHashMap K V → Option K
  get_by_value value m = lookup value m.vk_hash_map

  -- The values and keys that were overridden, and the map.
  unfoldable pub insert : K → V → BiHashMap K V → (Option K × Option V) × BiHashMap K V
  insert key value m = (
    (lookup value m.vk_hash_map, lookup key m.kv_hash_map),
    record {
      kv_hash_map = Map.insert key value m.kv_hash_map;
      vk_hash_map = Map.insert value key m.vk_hash_map;
    },
  )

  -- the second removal and what it returns
  abbrev pub removed_value : BiHashMap K V → Option V → Option (K × V) × BiHashMap K V
  removed_value m none = (none, m)
  removed_value m (some value) = (
    elim (lookup value m.vk_hash_map) [ none ↦ none | some key ↦ some (key, value) ],
    record m { vk_hash_map = Map.remove value m.vk_hash_map },
  )

  unfoldable pub remove_by_key : K → BiHashMap K V → Option (K × V) × BiHashMap K V
  remove_by_key key m =
      removed_value (record m { kv_hash_map = Map.remove key m.kv_hash_map })
        (lookup key m.kv_hash_map)

  abbrev pub removed_key : BiHashMap K V → Option K → Option (K × V) × BiHashMap K V
  removed_key m none = (none, m)
  removed_key m (some key) = (
    elim (lookup key m.kv_hash_map) [ none ↦ none | some value ↦ some (key, value) ],
    record m { kv_hash_map = Map.remove key m.kv_hash_map },
  )

  unfoldable pub remove_by_value : V → BiHashMap K V → Option (K × V) × BiHashMap K V
  remove_by_value value m =
      removed_key (record m { vk_hash_map = Map.remove value m.vk_hash_map })
        (lookup value m.vk_hash_map)
