-- ===== src/Common/Hash.antt =====
-- crates/dtmpfs-common/src/hash.rs: rendezvous hashing of a block over the storage nodes. The hash
-- `xxh3_64_with_seed` of the crate xxhash-rust is a parameter. `sort_unstable_by` is a sort by
-- insertion: where two nodes have one score, the source does not fix their order.
pub mod Sorting
pub mod Ranking
pub mod Disruption
pub mod Choosing
pub mod Ordering
use dtmpfs.Prelude.{
  ℕ, ◌/◌, ◌%◌, ◌^◌, min, bit_xor, String, List, [], ◌∷◌, map, length, take, leb, if◌then◌else◌,
}
use dtmpfs.Common.Id.{NodeId, BlockKey, placement_key}
use Sorting.{Scored, sort_desc}

module _ (xxh3 : String → ℕ → ℕ) where
  -- The score of a node: the hash of its name under the low and the high half of the key.
  unfoldable pub score : ℕ → NodeId → ℕ
  score pk n = bit_xor (xxh3 n (pk % 2 ^ 64)) (xxh3 n (pk / 2 ^ 64))

  unfoldable pub scored : ℕ → List NodeId → List Scored
  unfolding score
  scored pk nodes = map (λ n. (score pk n, n)) nodes

  unfoldable pub pick_nodes : BlockKey → List NodeId → ℕ → List NodeId
  unfolding scored sort_desc placement_key
  pick_nodes key [] r = []
  pick_nodes key (n ∷ nodes) r =
      map (λ s. s.1)
        (take (min r (length (n ∷ nodes))) (sort_desc (scored (placement_key key) (n ∷ nodes))))
