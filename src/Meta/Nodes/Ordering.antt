-- ===== src/Meta/Nodes/Ordering.antt =====
-- `allocate_blocks` of crates/dtmpfs-meta/src/state.rs takes the nodes from a HashMap, whose order is
-- nowhere fixed.
use mathlib.Core.Logic.{∥∥₁_map}
use mathlib.Core.List.{Perm, Permᴰ}
use mathlib.Core.List.Perm
use mathlib.Core.List.Permᴰ
use dtmpfs.Prelude.{
  ℕ, String, ◌≡◌, refl, sym, ap, Bool, List, ◌∷◌, Bool-cases, inl, inr, keep_if, Dict,
}
use dtmpfs.Prelude.HashMap.{values}
use dtmpfs.Common.Id.{NodeId, InodeId, BlockIdx, BlockKey, placement_key}
use dtmpfs.Common.Hash.{score}
use dtmpfs.Common.Hash.Ordering.{Distinct, pick_nodes-perm}
use dtmpfs.Meta.State.{MetaState, NodeInfo, live_nodes, place, placement_of, is_up}

module _ {A : Type 0} (p : A → Bool) where
  keep_if-Permᴰ : {l m : List A} → Permᴰ l m → Permᴰ (keep_if p l) (keep_if p m)
  keep_if-Permᴰ Permᴰ.nil = Permᴰ.nil
  keep_if-Permᴰ (Permᴰ.cons {a = a} {b = b} e d) = elim (Bool-cases (p a)) [
    | inl k ↦ rw (sym e, k) (Permᴰ.cons refl (keep_if-Permᴰ d))
    | inr k ↦ rw (sym e, k) (keep_if-Permᴰ d)
  ]
  keep_if-Permᴰ (Permᴰ.swap {a = a} {b = b} {l = l} e g) = elim (Bool-cases (p a)) [
    | inl k ↦ elim (Bool-cases (p b)) [
      | inl j ↦ rw (sym e, sym g, k, j) (Permᴰ.swap refl refl)
      | inr j ↦ rw (sym e, sym g, k, j) (Permᴰ.refl (a ∷ keep_if p l))
    ]
    | inr k ↦ rw (sym e, sym g, k) (Permᴰ.refl _)
  ]
  keep_if-Permᴰ (Permᴰ.trans d f) = Permᴰ.trans (keep_if-Permᴰ d) (keep_if-Permᴰ f)

live_nodes-perm :
    (s : MetaState) (nodes : Dict NodeId NodeInfo)
    → Perm s.nodes nodes
    → Perm (live_nodes s) (live_nodes (record s { nodes = nodes }))
unfolding live_nodes
live_nodes-perm s nodes p =
    let listed : Perm (values s.nodes) (values nodes) =
      Perm.map (λ (e : NodeId × NodeInfo). e.1) p in
    Perm.map (λ (n : NodeInfo). n.node_id)
      (∥∥₁_map {B = Permᴰ (keep_if is_up (values s.nodes)) (keep_if is_up (values nodes))} listed
        (keep_if-Permᴰ is_up))

abbrev pub placed_key : InodeId → BlockIdx → BlockKey
placed_key ino idx = record { ino = ino; block_idx = idx; generation = 0 }

-- A server places a block on the same nodes, with the same one first, in whatever order its table
-- of nodes is listed, as long as for this block different nodes that it holds for up have
-- different scores.
pub place-perm :
    (xxh3 : String → ℕ → ℕ) (s : MetaState) (nodes : Dict NodeId NodeInfo) (ino : InodeId)
    (idx : BlockIdx)
    → Perm s.nodes nodes
    → Distinct (score xxh3 (placement_key (placed_key ino idx))) (live_nodes s)
    → place xxh3 s ino idx ≡ place xxh3 (record s { nodes = nodes }) ino idx
unfolding place
place-perm xxh3 s nodes ino idx p d = ap placement_of (
    pick_nodes-perm xxh3 (placed_key ino idx) (live_nodes s)
      (live_nodes (record s { nodes = nodes })) s.replication_factor d (live_nodes-perm s nodes p))
