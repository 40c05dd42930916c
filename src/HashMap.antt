-- ===== src/HashMap.antt =====
-- src/rtmessage/rtHashMap.c with string keys and the default load factor of 0.75. A bucket, there a
-- vector of nodes, is the list of its keys and values; the hash function, a callback, is a parameter
-- that gets the number of buckets. The tests of the load are exact, as the code's are on fewer than
-- 2^24 entries. A bucket that is NULL, where the hash is out of range, is dereferenced by a search
-- and a removal, which is the fault `none`; a node that is pushed there is lost.
pub mod Buckets
pub mod Resizing
pub mod Changing
pub mod Mapping
pub mod Runs
mod Tests
use rbus.Base.{
  ℕ, zero, suc, ◌+◌, ◌-◌, ◌*◌, ◌/◌, Bool, true, false, ◌&&◌, Option, none, some, List, [], ◌∷◌,
  ◌++◌, ltb, if◌then◌else◌, length, ◌>>=◌,
}
use rbus.Base.Names.{Name, same}

abbrev pub init_size : ℕ
init_size = 16

pub record HashMap {ℓ} (V : Type ℓ) : Type ℓ where
  pub buckets : List (List (Name × V))
  pub size : ℕ

module _ {ℓ} {V : Type ℓ} where
  -- rtVector_At on the buckets.
  unfoldable pub bucket_at : List (List (Name × V)) → ℕ → Option (List (Name × V))
  bucket_at [] i = none
  bucket_at (b ∷ bs) zero = some b
  bucket_at (b ∷ bs) (suc i) = bucket_at bs i

  unfoldable pub update_at :
      List (List (Name × V)) → ℕ → (List (Name × V) → List (Name × V)) → List (List (Name × V))
  update_at [] i f = []
  update_at (b ∷ bs) zero f = f b ∷ bs
  update_at (b ∷ bs) (suc i) f = b ∷ update_at bs i f

  -- rtVector_Find with rtHashMap_Compare_Node.
  unfoldable pub find : List (Name × V) → Name → Option V
  find [] k = none
  find ((k', v) ∷ es) k = let rest = find es k in if same k' k then some v else rest

  -- The node that rtVector_Find gives gets the new key and value.
  unfoldable pub overwrite : List (Name × V) → Name → V → List (Name × V)
  overwrite [] k v = []
  overwrite ((k', v') ∷ es) k v =
      let rest = overwrite es k v in if same k' k then (k, v) ∷ es else (k', v') ∷ rest

  -- rtVector_RemoveItemByCompare
  unfoldable pub remove_first : List (Name × V) → Name → List (Name × V)
  remove_first [] k = []
  remove_first ((k', v) ∷ es) k =
      let rest = remove_first es k in if same k' k then es else (k', v) ∷ rest

  unfoldable pub empty_buckets : ℕ → List (List (Name × V))
  empty_buckets zero = []
  empty_buckets (suc n) = [] ∷ empty_buckets n

  -- rtHashMap_CreateEx
  abbrev pub create : HashMap V
  create = record { buckets = empty_buckets init_size; size = 0 }

module _ {ℓ} {V : Type ℓ} (hash : ℕ → Name → ℕ) where
  -- rtHashMap_GetBucket
  abbrev pub get_bucket : List (List (Name × V)) → Name → Option (List (Name × V))
  get_bucket buckets k = bucket_at buckets (hash (length buckets) k)

  -- rtVector_PushBack on the bucket of the key.
  unfoldable pub push : List (List (Name × V)) → Name × V → List (List (Name × V))
  push buckets (k, v) = update_at buckets (hash (length buckets) k) (λ b. b ++ (k, v) ∷ [])

  unfoldable pub push_all : List (List (Name × V)) → List (Name × V) → List (List (Name × V))
  push_all buckets [] = buckets
  push_all buckets (e ∷ es) = push_all (push buckets e) es

  unfoldable pub push_buckets :
      List (List (Name × V)) → List (List (Name × V)) → List (List (Name × V))
  push_buckets buckets [] = buckets
  push_buckets buckets (b ∷ bs) = push_buckets (push_all buckets b) bs

  -- rtHashMap_Resize
  unfoldable pub resize : HashMap V → Bool → HashMap V
  resize m grow =
      let n = length m.buckets in
      record m { buckets = push_buckets (empty_buckets (if grow then n * 2 else n / 2)) m.buckets }

  -- Growth in front of an addition.
  unfoldable pub make_room : HashMap V → HashMap V
  make_room m = if ltb (3 * length m.buckets) (4 * (m.size + 1)) then resize m true else m

  set_in : HashMap V → Name → V → Option V → HashMap V
  set_in m k v (some old) = record m {
    buckets = update_at m.buckets (hash (length m.buckets) k) (λ b. overwrite b k v);
  }
  set_in m k v none =
      let m' = make_room m in record { buckets = push m'.buckets (k, v); size = m'.size + 1 }

  -- rtHashMap_Set
  unfoldable pub set : HashMap V → Name → V → Option (HashMap V)
  unfolding set_in
  set m k v = do b ← get_bucket m.buckets k; some (set_in m k v (find b k))

  -- rtHashMap_Get
  unfoldable pub get : HashMap V → Name → Option V
  get m k = do b ← get_bucket m.buckets k; find b k

  -- `hashmap->size / nbuckets/ 2.0f < hashmap->load_factor`, where the first quotient is a whole
  -- number.
  unfoldable pub give_room : HashMap V → HashMap V
  give_room m =
      let n = length m.buckets in
      if ltb init_size n && ltb (2 * (m.size / n)) 3 then resize m false else m

  remove_in : HashMap V → Name → Option V → Bool × HashMap V
  remove_in m k none = (false, m)
  remove_in m k (some v) = (
    true,
    give_room (record {
      buckets = update_at m.buckets (hash (length m.buckets) k) (λ b. remove_first b k);
      size = m.size - 1;
    }),
  )

  -- rtHashMap_Remove
  unfoldable pub remove : HashMap V → Name → Option (Bool × HashMap V)
  unfolding remove_in
  remove m k = do b ← get_bucket m.buckets k; some (remove_in m k (find b k))
