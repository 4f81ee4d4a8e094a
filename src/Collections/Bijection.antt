-- ===== src/Collections/Bijection.antt =====
-- When the two maps of `BiHashMap` of libsplinter/src/collections/mod.rs are inverse to each other.
use splinter.Prelude.{◌≡◌, refl, ◌↔◌, Option, none, some, Eq, ◌==◌, arith, if◌then◌else◌}
use splinter.Prelude.Map
use splinter.Prelude.Map.{lookup, lookup-insert, lookup-remove}
use splinter.Collections.BiHashMap.{
  BiHashMap, get_by_key, get_by_value, insert, remove_by_key, remove_by_value,
}

module _ {K V : Type 0} ⦃eK : Eq K⦄ ⦃eV : Eq V⦄ where
  -- each map is the inverse of the other
  abbrev pub IsBijection : BiHashMap K V → Type 0
  IsBijection m = (k : K) (v : V) → (get_by_key k m ≡ some v) ↔ (get_by_value v m ≡ some k)

  -- neither the key nor the value is bound otherwise
  abbrev pub IsFree : K → V → BiHashMap K V → Type 0
  IsFree key value m =
      ((k : K) → get_by_value value m ≡ some k → k ≡ key)
      × ((v : V) → get_by_key key m ≡ some v → v ≡ value)

module _ {K V : Type 0} ⦃eK : Eq K⦄ ⦃eV : Eq V⦄ (key : K) (value : V) (m : BiHashMap K V)
    (b : IsBijection m) where
  insert-keeps : IsFree key value m → IsBijection (insert key value m).1
  unfolding insert
  insert-keeps f k v = (
    (λ h. ground (
      arith,
      b k v,
      f.0 k,
      f.1 v,
      eK.eqb_iff key k,
      eV.eqb_iff value v,
      lookup-insert key k value m.kv_hash_map,
      lookup-insert value v key m.vk_hash_map,
    )),
    (λ h. ground (
      arith,
      b k v,
      f.0 k,
      f.1 v,
      eK.eqb_iff key k,
      eV.eqb_iff value v,
      lookup-insert key k value m.kv_hash_map,
      lookup-insert value v key m.vk_hash_map,
    )),
  )

  insert-needs : IsBijection (insert key value m).1 → IsFree key value m
  unfolding insert
  insert-needs b' = (
    (λ k h. ground (
      arith,
      b k value,
      b' k value,
      eK.eqb_iff key k,
      eV.eqb_iff value value,
      lookup-insert key k value m.kv_hash_map,
      lookup-insert value value key m.vk_hash_map,
    )),
    (λ v h. ground (
      arith,
      b key v,
      b' key v,
      eK.eqb_iff key key,
      eV.eqb_iff value v,
      lookup-insert key key value m.kv_hash_map,
      lookup-insert value v key m.vk_hash_map,
    )),
  )

-- On a map that is a bijection, `insert` keeps it one exactly when the key is not bound to another
-- value and no other key is bound to the value.
pub insert-IsBijection :
    {K V : Type 0} ⦃eK : Eq K⦄ ⦃eV : Eq V⦄ (key : K) (value : V) (m : BiHashMap K V)
    → IsBijection m
    → IsBijection (insert key value m).1 ↔ IsFree key value m
insert-IsBijection key value m b = (insert-needs key value m b, insert-keeps key value m b)

-- The pair was returned and removed, and nothing else was.
pub record IsRemoval {K V : Type 0} ⦃eK : Eq K⦄ ⦃eV : Eq V⦄ (key : K) (value : V)
    (m : BiHashMap K V) (r : Option (K × V) × BiHashMap K V) : Type 0 where
  pub returned : r.0 ≡ some (key, value)
  pub by_keys : (k : K) → get_by_key k r.1 ≡ (if key == k then none else get_by_key k m)
  pub by_values : (v : V) → get_by_value v r.1 ≡ (if value == v then none else get_by_value v m)
  pub bijection : IsBijection r.1

module _ {K V : Type 0} ⦃eK : Eq K⦄ ⦃eV : Eq V⦄ (key : K) (value : V) (m : BiHashMap K V)
    (b : IsBijection m) (bound : get_by_key key m ≡ some value) where
  IsRemoval-both :
      (r : Option (K × V) × BiHashMap K V)
      → r.0 ≡ some (key, value)
      → r.1.kv_hash_map ≡ Map.remove key m.kv_hash_map
      → r.1.vk_hash_map ≡ Map.remove value m.vk_hash_map
      → IsRemoval key value m r
  IsRemoval-both r pair kv vk =
      let keys : (k : K) → get_by_key k r.1 ≡ (if key == k then none else get_by_key k m) =
        λ k. rw kv (lookup-remove key k m.kv_hash_map) in
      let values : (v : V) → get_by_value v r.1 ≡ (if value == v then none else get_by_value v m) =
        λ v. rw vk (lookup-remove value v m.vk_hash_map) in
      record {
        returned = pair;
        by_keys = keys;
        by_values = values;
        bijection = λ k v. (
          (λ h. ground (
            arith,
            keys k,
            values v,
            b k v,
            b k value,
            b key v,
            bound,
            eK.eqb_iff key k,
            eV.eqb_iff value v,
          )),
          (λ h. ground (
            arith,
            keys k,
            values v,
            b k v,
            b k value,
            b key v,
            bound,
            eK.eqb_iff key k,
            eV.eqb_iff value v,
          )),
        );
      }

  remove_by_key-IsRemoval : IsRemoval key value m (remove_by_key key m)
  unfolding remove_by_key
  remove_by_key-IsRemoval =
      rw bound (IsRemoval-both _ (ground (arith, (b key value).0 bound)) refl refl)

  remove_by_value-IsRemoval : IsRemoval key value m (remove_by_value value m)
  unfolding remove_by_value
  remove_by_value-IsRemoval =
      rw ((b key value).0 bound) (IsRemoval-both _ (ground (arith, bound)) refl refl)

-- On a map that is a bijection, removing a bound key and removing its value both return the pair
-- and remove it from both maps and nothing else, and the map stays a bijection.
pub remove-IsRemoval :
    {K V : Type 0} ⦃eK : Eq K⦄ ⦃eV : Eq V⦄ (key : K) (value : V) (m : BiHashMap K V)
    → IsBijection m
    → get_by_key key m ≡ some value
    → IsRemoval key value m (remove_by_key key m) × IsRemoval key value m (remove_by_value value m)
remove-IsRemoval key value m b bound =
    (remove_by_key-IsRemoval key value m b bound, remove_by_value-IsRemoval key value m b bound)
