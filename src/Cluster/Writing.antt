-- ===== src/Cluster/Writing.antt =====
-- What `publish` with `all_replicas` of crates/dtmpfs-client/src/flush.rs leaves on the storage
-- nodes, where it succeeds.
use native.Mathlib.Decide.{ℕ_discrete}
use dtmpfs.Prelude.{
  ◌≡◌, ◌≢◌, refl, ap, ◌∙◌, ℕ, String, Bool, true, false, none, some, arith, nat_eq, string_eq,
  pair_eq, ◌==◌, ◌&&◌, if◌then◌else◌, Option-cases, inl, inr, List, [], ◌∷◌, Tree, ◌||◌,
}
use dtmpfs.Prelude.Ord.{nat_ord}
use dtmpfs.Prelude.BtreeMap
use dtmpfs.Common.Id.{NodeId, InodeId, BlockIdx, BlockPlacement, block_key_eq}
use dtmpfs.Common.Error.{Result-cases}
use dtmpfs.Store.{Bytes}
use dtmpfs.Client.{FsResult-cases, Fs, returned, failed, pool_get, Env}
use dtmpfs.Client.Publish.{
  all_replicas, write_request, write_one, write_all, write_replicas, write_placed, write_blocks,
}
use dtmpfs.Cluster.{Caches, Cluster, cluster_env, store_write}
use dtmpfs.Cluster.Holding.{held, key_of, held-write, store_write-meta}
use dtmpfs.Cluster.Routes.{Routes, pool_get-Pools}

abbrev pub on_any : (NodeId → String) → List NodeId → String → Bool
on_any addr_of [] url = false
on_any addr_of (n ∷ ns) url = addr_of n == url || on_any addr_of ns url

module _ {C : Type 0} (addr_of : NodeId → String) (ino : InodeId) where
  -- The block is written to the nodes listed, and nothing else has changed.
  pub record Writes (idx : BlockIdx) (b : Bytes) (ns : List NodeId) (s s' : Fs (Cluster C))
      : Type 0 where
    pub routes : Routes addr_of s'
    pub meta : s'.world.meta ≡ s.world.meta
    pub blocks :
        (url : String) (jno : InodeId) (jdx : BlockIdx)
        → held s'.world url jno jdx ≡ (
            if on_any addr_of ns url && key_of ino idx == key_of jno jdx
            then some b
            else held s.world url jno jdx)

  pub record Stores (bm : Tree BlockIdx BlockPlacement) (dirty : Tree BlockIdx Bytes)
      (s s' : Fs (Cluster C)) : Type 0 where
    pub routes : Routes addr_of s'
    pub meta : s'.world.meta ≡ s.world.meta
    pub blocks :
        (idx : BlockIdx) (b : Bytes)
        → BtreeMap.get idx dirty ≡ some b
        → (p : BlockPlacement) × (BtreeMap.get idx bm ≡ some p)
          × ((url : String)
              → on_any addr_of (p.primary ∷ p.replicas) url ≡ true
              → held s'.world url ino idx ≡ some b)
    pub others :
        (url : String) (jno : InodeId) (jdx : BlockIdx)
        → (jno ≡ ino → BtreeMap.get jdx dirty ≡ none)
        → held s'.world url jno jdx ≡ held s.world url jno jdx

  Stores-cons :
      (bm : Tree BlockIdx BlockPlacement) (idx : BlockIdx) (b : Bytes) (dirty : Tree BlockIdx Bytes)
      (p : BlockPlacement) (s s1 s2 : Fs (Cluster C))
      → BtreeMap.Before idx dirty
      → BtreeMap.get idx bm ≡ some p
      → Writes idx b (p.primary ∷ p.replicas) s s1
      → Stores bm dirty s1 s2
      → Stores bm ((idx, b) ∷ dirty) s s2
  unfolding BtreeMap.get
  Stores-cons bm idx b dirty p s s1 s2 before e w t = record {
    routes = t.routes;
    meta = t.meta ∙ w.meta;
    blocks = λ jdx c f. elim (ℕ_discrete jdx idx) [
      | yes same ↦ (
        p,
        ground arith,
        λ url on. ground (
          arith,
          t.others url ino jdx,
          BtreeMap.Before-missing idx dirty before,
          w.blocks url ino jdx,
        ),
      )
      | no other ↦ t.blocks jdx c (ground arith)
    ];
    others = λ url jno jdx k.
        ground
          (arith, t.others url jno jdx (λ same. ground (arith, k same)), w.blocks url jno jdx, k);
  }

  module _ (caches : Caches C) (xxh3 : String → ℕ → ℕ) (token : String) where
    abbrev env : Env (Cluster C)
    env = cluster_env caches xxh3 token

    write_one-Writes :
        (idx : BlockIdx) (b : Bytes) (n : NodeId) (s : Fs (Cluster C))
        → Routes addr_of s
        → (write_one env ino idx b n s).0 ≡ returned tt
        → Writes idx b (n ∷ []) s (write_one env ino idx b n s).1
    unfolding write_one
    write_one-Writes idx b n s r h =
        let p = pool_get-Pools addr_of caches xxh3 token n s r in
        let s1 = (pool_get env n s).1 in
        elim (FsResult-cases (pool_get env n s).0) [
          | inr (e, f) ↦ absurd (ground arith)
          | inl (c, f) ↦ elim (Result-cases (store_write c (write_request ino idx b) s1.world).0) [
            | inr (e, g) ↦ absurd (ground arith)
            | inl (k, g) ↦
                rw (f, g, write_one)
                  (record {
                    routes = record {
                      channels = p.routes.channels;
                      addresses = p.routes.addresses;
                    };
                    meta =
                        store_write-meta s1.world c (write_request ino idx b)
                        ∙ ap (λ (w : Cluster C). w.meta) p.world;
                    blocks = λ url jno jdx. ground (
                      arith,
                      held-write s1.world c ino idx b k url jno jdx g,
                      p.channel c f,
                      p.world,
                    );
                  })
          ]
        ]

    write_all-Writes :
        (idx : BlockIdx) (b : Bytes) (ns : List NodeId) (s : Fs (Cluster C))
        → Routes addr_of s
        → (write_all env ino idx b ns s).0 ≡ returned tt
        → Writes idx b ns s (write_all env ino idx b ns s).1
    unfolding write_all
    write_all-Writes idx b [] s r h = record {
      routes = r;
      meta = refl;
      blocks = λ url jno jdx. ground arith;
    }
    write_all-Writes idx b (n ∷ ns) s r h = elim (FsResult-cases (write_one env ino idx b n s).0) [
      | inr (e, f) ↦ absurd (ground arith)
      | inl (x, f) ↦
          let s1 = (write_one env ino idx b n s).1 in
          let w = write_one-Writes idx b n s r f in
          let ws = write_all-Writes idx b ns s1 w.routes (ground arith) in
          rw (f, write_all)
            (record {
              routes = ws.routes;
              meta = ws.meta ∙ w.meta;
              blocks = λ url jno jdx. ground (arith, w.blocks url jno jdx, ws.blocks url jno jdx);
            })
    ]

    write_placed-all :
        (idx : BlockIdx) (b : Bytes) (p : BlockPlacement) (s : Fs (Cluster C))
        → write_placed env all_replicas ino idx b p s
          ≡ write_all env ino idx b (p.primary ∷ p.replicas) s
    unfolding write_placed write_replicas write_all
    write_placed-all idx b p s = ground arith

    -- The blocks of a sorted map are written, and the blocks under other keys are as before.
    write_blocks-next :
        (bm : Tree BlockIdx BlockPlacement) (idx : BlockIdx) (b : Bytes)
        (dirty : Tree BlockIdx Bytes) (p : BlockPlacement) (s : Fs (Cluster C))
        → BtreeMap.get idx bm ≡ some p
        → write_blocks env all_replicas ino bm ((idx, b) ∷ dirty) s ≡ (
            let (answer, s1) = write_all env ino idx b (p.primary ∷ p.replicas) s in
            elim answer [
              | failed x ↦ (failed x, s1)
              | returned _ ↦ write_blocks env all_replicas ino bm dirty s1
            ])
    unfolding write_blocks
    write_blocks-next bm idx b dirty p s e = ground (arith, write_placed-all idx b p s)

    write_blocks-missing :
        (bm : Tree BlockIdx BlockPlacement) (idx : BlockIdx) (b : Bytes)
        (dirty : Tree BlockIdx Bytes) (s : Fs (Cluster C))
        → BtreeMap.get idx bm ≡ none
        → (write_blocks env all_replicas ino bm ((idx, b) ∷ dirty) s).0 ≢ returned tt
    unfolding write_blocks
    write_blocks-missing bm idx b dirty s e h = ground arith

    write_blocks-none :
        (bm : Tree BlockIdx BlockPlacement) (s : Fs (Cluster C))
        → write_blocks env all_replicas ino bm [] s ≡ (returned tt, s)
    unfolding write_blocks
    write_blocks-none bm s = refl

    pub write_blocks-Stores :
        (bm : Tree BlockIdx BlockPlacement) (dirty : Tree BlockIdx Bytes) (s : Fs (Cluster C))
        → BtreeMap.IsSorted dirty
        → Routes addr_of s
        → (write_blocks env all_replicas ino bm dirty s).0 ≡ returned tt
        → Stores bm dirty s (write_blocks env all_replicas ino bm dirty s).1
    unfolding BtreeMap.get
    write_blocks-Stores bm [] s sorted r h = rw (write_blocks-none bm s) (record {
      routes = r;
      meta = refl;
      blocks = λ idx b e. absurd (ground arith);
      others = λ url jno jdx k. refl;
    })
    write_blocks-Stores bm ((idx, b) ∷ dirty) s sorted r h =
        elim (Option-cases (BtreeMap.get idx bm)) [
          | inl e ↦ absurd (write_blocks-missing bm idx b dirty s e h)
          | inr (p, e) ↦
              let next = write_blocks-next bm idx b dirty p s e in
              let s1 = (write_all env ino idx b (p.primary ∷ p.replicas) s).1 in
              elim (FsResult-cases (write_all env ino idx b (p.primary ∷ p.replicas) s).0) [
                | inr (x, f) ↦ absurd (ground (arith, next))
                | inl (x, f) ↦
                    let w = write_all-Writes idx b (p.primary ∷ p.replicas) s r f in
                    let t =
                      write_blocks-Stores bm dirty s1 sorted.1 w.routes (ground (arith, next)) in
                    rw (next, f) (Stores-cons bm idx b dirty p s s1 _ sorted.0 e w t)
              ]
        ]
