-- ===== src/Cluster/Reading.antt =====
-- `fetch_block` of crates/dtmpfs-client/src/fs.rs where every node of the placement holds the block.
use dtmpfs.Prelude.{
  ◌≡◌, refl, ℕ, String, Bool, true, none, some, is_some, arith, nat_eq, string_eq, ◌||◌, Bool-cases,
  Dict, Option-cases, inl, inr, ◌⊎◌, List, [], ◌∷◌, is_empty,
}
use dtmpfs.Prelude.Ord.{nat_ord}
use dtmpfs.Prelude.HashMap
use dtmpfs.Prelude.BtreeMap
use text.Mathlib.TextEquality.{eq_iff}
use dtmpfs.Common.Id.{BlockIdx, BlockPlacement, NodeId}
use dtmpfs.Common.Error.{DtmpfsError, store_unavailable}
use dtmpfs.Store.{Bytes}
use dtmpfs.Store.Blocks.{answer}
use dtmpfs.Meta.Nodes.{list_nodes}
use dtmpfs.Client.{
  FsResult-cases, OpenFile, Fs, FsReply, returned, failed, pool_get, refresh_addrs, with_world,
  Channel,
}
use dtmpfs.Client.Fetch.{read_request, try_nodes, ensure_addrs, fetch_placed, fetch_block}
use dtmpfs.Client.{Env}
use dtmpfs.Cluster.{Caches, Cluster, cluster_env, store_read}
use dtmpfs.Cluster.Holding.{held, store_read-answer}
use dtmpfs.Cluster.Routes.{Routes, Listed, pool_get-Pools, refresh_addrs-Routes}
use dtmpfs.Cluster.Writing.{on_any}

-- The bytes, or an error.
abbrev pub Gets : {W : Type 0} → Bytes → FsReply W Bytes → Type 0
Gets b x = (x.0 ≡ returned b) ⊎ ((e : DtmpfsError) × (x.0 ≡ failed e))

-- The mount has a channel to the node, or its address.
abbrev pub knows : {W : Type 0} → Fs W → NodeId → Bool
knows s n = is_some (HashMap.get n s.clients) || is_some (HashMap.get n s.addrs)

get_nothing : (n : NodeId) → HashMap.get {V = String} n [] ≡ none
unfolding HashMap.get
get_nothing n = refl

module _ {C : Type 0} (addr_of : NodeId → String) (caches : Caches C) (xxh3 : String → ℕ → ℕ)
    (token : String) (block_size : ℕ) (o : OpenFile) (idx : BlockIdx) (b : Bytes) where
  abbrev env : Env (Cluster C)
  env = cluster_env caches xxh3 token

  -- Each of the nodes holds the block.
  abbrev pub AllHold : Cluster C → List NodeId → Type 0
  AllHold c ns = (url : String) → on_any addr_of ns url ≡ true → held c url o.ino idx ≡ some b

  pub read_back :
      (c : Cluster C) (url : String)
      → held c url o.ino idx ≡ some b
      → (store_read url (read_request o idx) c).0 ≡ answer (some b)
  read_back c url h = store_read-answer c url o.ino idx b h

  pub try_nodes-next :
      (n : NodeId) (ns : List NodeId) (e : DtmpfsError) (s : Fs (Cluster C)) (c : Channel)
      → (pool_get env n s).0 ≡ returned c
      → held (pool_get env n s).1.world c o.ino idx ≡ some b
      → (try_nodes env block_size o idx (n ∷ ns) e s).0 ≡ returned b
  unfolding try_nodes
  try_nodes-next n ns e s c h k = ground (arith, read_back (pool_get env n s).1.world c k)

  try_nodes-skip :
      (n : NodeId) (ns : List NodeId) (e x : DtmpfsError) (s : Fs (Cluster C))
      → (pool_get env n s).0 ≡ failed x
      → try_nodes env block_size o idx (n ∷ ns) e s
        ≡ try_nodes env block_size o idx ns x (pool_get env n s).1
  unfolding try_nodes
  try_nodes-skip n ns e x s h = ground arith

  try_nodes-Gets :
      (ns : List NodeId) (e : DtmpfsError) (s : Fs (Cluster C))
      → Routes addr_of s
      → AllHold s.world ns
      → Gets b (try_nodes env block_size o idx ns e s)
  unfolding try_nodes
  try_nodes-Gets [] e s r h = inr (e, refl)
  try_nodes-Gets (n ∷ ns) e s r h =
      let p = pool_get-Pools addr_of caches xxh3 token n s r in
      let s1 = (pool_get env n s).1 in
      elim (FsResult-cases (pool_get env n s).0) [
        | inl (c, f) ↦ inl (
            try_nodes-next n ns e s c f
              (ground (arith, p.world, p.channel c f, eq_iff (addr_of n) c, h c)))
        | inr (x, f) ↦
            rw (try_nodes-skip n ns e x s f)
              (try_nodes-Gets ns x s1 p.routes (λ url on. ground (arith, p.world, h url)))
      ]

  pub pool_get_known :
      (n : NodeId) (s : Fs (Cluster C))
      → Routes addr_of s
      → held s.world (addr_of n) o.ino idx ≡ some b
      → knows s n ≡ true
      → (pool_get env n s).0 ≡ returned (addr_of n)
  unfolding pool_get held
  pool_get_known n s r h k = elim (Option-cases (HashMap.get n s.clients)) [
    | inr (c, e) ↦ ground (arith, r.channels n c e)
    | inl e ↦ elim (Option-cases (HashMap.get n s.addrs)) [
      | inl f ↦ absurd (ground arith)
      | inr (a, f) ↦ ground (arith, r.addresses n a f)
    ]
  ]

  -- What looking at the addresses leaves.
  pub record Ensured (s s' : Fs (Cluster C)) : Type 0 where
    pub routes : Routes addr_of s'
    pub world : s'.world ≡ s.world
    pub known : (n : NodeId) → knows s n ≡ true → knows s' n ≡ true

  refreshed_world :
      (s : Fs (Cluster C))
      → (refresh_addrs (list_nodes s.world.meta) (with_world s s.world)).world ≡ s.world
  unfolding refresh_addrs
  refreshed_world s = refl

  known_channel :
      (s : Fs (Cluster C))
      → is_empty s.addrs ≡ true
      → (n : NodeId) → knows s n ≡ true
      → knows (refresh_addrs (list_nodes s.world.meta) (with_world s s.world)) n ≡ true
  unfolding refresh_addrs
  known_channel s e n k = elim (Option-cases (HashMap.get n s.clients)) [
    | inr (c, f) ↦ ground arith
    | inl f ↦ absurd (ground (arith, no_address s.addrs n e))
  ]
    where
      no_address :
          (d : Dict NodeId String) (n : NodeId) → is_empty d ≡ true → HashMap.get n d ≡ none
      no_address [] n e = get_nothing n
      no_address (x ∷ d) n e = cc

  pub ensure_addrs-Ensured :
      (s : Fs (Cluster C))
      → Routes addr_of s
      → Listed addr_of (list_nodes s.world.meta)
      → Ensured s (ensure_addrs env block_size s)
  unfolding ensure_addrs
  ensure_addrs-Ensured s r l = elim (Bool-cases (is_empty s.addrs)) [
    | inr e ↦ rw (e, ensure_addrs) (record { routes = r; world = refl; known = λ n k. k })
    | inl e ↦
        rw (e, ensure_addrs)
          (record {
            routes =
                refresh_addrs-Routes addr_of (list_nodes s.world.meta) (with_world s s.world) l
                  (record { channels = r.channels; addresses = r.addresses });
            world = refreshed_world s;
            known = known_channel s e;
          })
  ]

  abbrev pub missed : Fs (Cluster C) → Fs (Cluster C)
  missed s = ensure_addrs env block_size (
      with_world s
        (record (s.world) { caches = (caches.block_get o.ino o.generation idx s.world.caches).1 }))

  pub fetch_missed :
      (p : BlockPlacement) (s : Fs (Cluster C))
      → BtreeMap.get idx o.dirty ≡ none
      → BtreeMap.get idx o.block_map ≡ some p
      → (caches.block_get o.ino o.generation idx s.world.caches).0 ≡ none
      → fetch_block env block_size o idx s
        ≡ try_nodes env block_size o idx
            (p.primary ∷ p.replicas)
            (store_unavailable p.primary)
            (missed s)
  unfolding fetch_block fetch_placed
  fetch_missed p s clean placed e = ground arith

  -- A placed block that is neither written by the handle nor cached wrongly.
  pub fetch_block-Gets :
      (p : BlockPlacement) (s : Fs (Cluster C))
      → Routes addr_of s
      → Listed addr_of (list_nodes s.world.meta)
      → BtreeMap.get idx o.dirty ≡ none
      → BtreeMap.get idx o.block_map ≡ some p
      → ((c : Bytes) → (caches.block_get o.ino o.generation idx s.world.caches).0 ≡ some c → c ≡ b)
      → AllHold s.world (p.primary ∷ p.replicas)
      → Gets b (fetch_block env block_size o idx s)
        × (knows s p.primary ≡ true → (fetch_block env block_size o idx s).0 ≡ returned b)
  unfolding fetch_block held
  fetch_block-Gets p s r l clean placed cached h =
      elim (Option-cases (caches.block_get o.ino o.generation idx s.world.caches).0) [
        | inr (c, e) ↦ (inl (ground (arith, cached c e)), λ k. ground (arith, cached c e))
        | inl e ↦
            let en =
              ensure_addrs-Ensured
                (with_world s (record (s.world) {
                  caches = (caches.block_get o.ino o.generation idx s.world.caches).1;
                }))
                (record { channels = r.channels; addresses = r.addresses }) l in
            let there : AllHold (missed s).world (p.primary ∷ p.replicas) =
              λ url on. ground (arith, h url on, en.world) in
            let primary : held (missed s).world (addr_of p.primary) o.ino idx ≡ some b =
              there (addr_of p.primary)
                (ground (arith, eq_iff (addr_of p.primary) (addr_of p.primary))) in
            let pools = pool_get-Pools addr_of caches xxh3 token p.primary (missed s) en.routes in
            rw (fetch_missed p s clean placed e) (
              try_nodes-Gets (p.primary ∷ p.replicas) (store_unavailable p.primary) (missed s)
                  en.routes there,
              λ k.
                  try_nodes-next p.primary p.replicas (store_unavailable p.primary) (missed s)
                    (addr_of p.primary)
                    (pool_get_known p.primary (missed s) en.routes primary (en.known p.primary k))
                    (ground (arith, pools.world, primary)),
            )
      ]
