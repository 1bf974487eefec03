-- ===== src/Cluster/Fetching.antt =====
-- `fetch_block`, `ensure_addrs` and `pool_get` of crates/dtmpfs-client in a state in which every block
-- of a file can be fetched.
use dtmpfs.Prelude.{
  ◌≡◌, refl, ◌∙◌, ap, ℕ, String, true, none, some, arith, nat_eq, string_eq, is_empty, Option-cases,
  Bool-cases, inl, inr, [], ◌∷◌,
}
use dtmpfs.Prelude.Ord.{nat_ord}
use dtmpfs.Prelude.HashMap
use dtmpfs.Prelude.BtreeMap
use text.Mathlib.TextEquality.{eq_iff}
use dtmpfs.Common.Id.{BlockIdx, BlockPlacement, NodeId}
use dtmpfs.Store.{Bytes, ReadBlockReq}
use dtmpfs.Meta.Nodes.{list_nodes}
use dtmpfs.Client.{OpenFile, Fs, returned, pool_get, connect_to, refresh_addrs, with_world}
use dtmpfs.Client.Fetch.{read_request, try_nodes, ensure_addrs, fetch_block}
use dtmpfs.Client.Read.Served.{Serves}
use dtmpfs.Client.{Env}
use dtmpfs.Common.Error.{store_unavailable}
use dtmpfs.Cluster.{Caches, Cluster, cluster_env, store_read}
use dtmpfs.Cluster.Holding.{held, store_read-held}
use dtmpfs.Cluster.Routes.{Routes, Listed, pool_get-Pools}
use dtmpfs.Cluster.Reading.{knows, read_back, fetch_missed, pool_get_known, ensure_addrs-Ensured}
use dtmpfs.Cluster.Serving.{IsCache, IsServing, reaches}

module _ {C : Type 0} (c : Cluster C) where
  store_read-meta : (url : String) (r : ReadBlockReq) → (store_read url r c).1.meta ≡ c.meta
  unfolding store_read
  store_read-meta url r = ground arith

  store_read-caches : (url : String) (r : ReadBlockReq) → (store_read url r c).1.caches ≡ c.caches
  unfolding store_read
  store_read-caches url r = ground arith

module _ {C : Type 0} (addr_of : NodeId → String) (caches : Caches C) (xxh3 : String → ℕ → ℕ)
    (token : String) (block_size : ℕ) where
  abbrev env : Env (Cluster C)
  env = cluster_env caches xxh3 token

  pool_get-knows :
      (n m : NodeId) (s : Fs (Cluster C)) → knows s m ≡ true → knows (pool_get env n s).1 m ≡ true
  unfolding pool_get connect_to
  pool_get-knows n m s k = elim (Option-cases (HashMap.get n s.clients)) [
    | inr (d, e) ↦ ground arith
    | inl e ↦ elim (Option-cases (HashMap.get n s.addrs)) [
      | inl f ↦ ground arith
      | inr (a, f) ↦ ground (arith, eq_iff n m, HashMap.get-insert n m a s.clients)
    ]
  ]

  module _ (o h : OpenFile) (idx : BlockIdx) (b : Bytes) (p : BlockPlacement)
      (laws : IsCache caches) (clean : h.dirty ≡ []) (there : BtreeMap.get idx o.dirty ≡ some b)
      (placed : BtreeMap.get idx h.block_map ≡ some p) where
    looked : Fs (Cluster C) → Fs (Cluster C)
    looked s =
        with_world s
          (record (s.world) { caches = (caches.block_get h.ino h.generation idx s.world.caches).1 })

    looked-reaches :
        (s : Fs (Cluster C)) (n : NodeId)
        → reaches addr_of caches xxh3 token block_size (looked s) n
          ≡ reaches addr_of caches xxh3 token block_size s n
    unfolding looked ensure_addrs refresh_addrs
    looked-reaches s n = elim (Bool-cases (is_empty s.addrs)) [
      | inl e ↦ ground (arith, e)
      | inr e ↦ ground (arith, e)
    ]

    looked-IsServing :
        (s : Fs (Cluster C))
        → IsServing addr_of caches xxh3 token block_size o h s
        → IsServing addr_of caches xxh3 token block_size o h (looked s)
    unfolding looked held
    looked-IsServing s g = record {
      routes = record { channels = g.routes.channels; addresses = g.routes.addresses };
      listed = g.listed;
      holds = g.holds;
      reached = λ jdx a q e f. looked-reaches s q.primary ∙ g.reached jdx a q e f;
      fresh = λ jdx a c e f. g.fresh jdx a c e (laws.got _ _ _ _ _ _ _ _ f);
    }

    -- The state behind an answer of the node.
    answered_by : Fs (Cluster C) → String → Fs (Cluster C)
    answered_by s url =
        with_world s (
          env.cache_insert h.ino h.generation idx b (store_read url (read_request h idx) s.world).1)

    answered_by-IsServing :
        (s s1 : Fs (Cluster C)) (url : String)
        → IsServing addr_of caches xxh3 token block_size o h s
        → Routes addr_of s1
        → s1.world ≡ s.world
        → ((n : NodeId)
            → reaches addr_of caches xxh3 token block_size s n ≡ true
            → knows s1 n ≡ true)
        → IsServing addr_of caches xxh3 token block_size o h (answered_by s1 url)
    unfolding answered_by held
    answered_by-IsServing s s1 url g routes world k =
        let m = store_read-meta s1.world url (read_request h idx) in
        let same : list_nodes (answered_by s1 url).world.meta ≡ list_nodes s.world.meta =
          ap list_nodes m ∙ ap (λ (w : Cluster C). list_nodes w.meta) world in
        let r : Routes addr_of (answered_by s1 url) = record {
          channels = routes.channels;
          addresses = routes.addresses;
        } in
        let l : Listed addr_of (list_nodes (answered_by s1 url).world.meta) = rw (same) g.listed in
        record {
          routes = r;
          listed = l;
          holds = λ jdx a q e f u on. ground (
            arith,
            store_read-held s1.world url (read_request h idx) u h.ino jdx,
            world,
            g.holds jdx a q e f u on,
          );
          reached = λ jdx a q e f.
              (ensure_addrs-Ensured addr_of caches xxh3 token block_size h idx b
                  (answered_by s1 url) r l).known
                q.primary (k q.primary (g.reached jdx a q e f));
          fresh = λ jdx a c e f.
              elim (laws.inserted h.ino h.ino h.generation h.generation jdx idx b a _ f) [
                | inl (i, v) ↦ ground (arith, there, e, i, v)
                | inr w ↦
                    g.fresh jdx a c e (
                      ground (arith, store_read-caches s1.world url (read_request h idx), world, w))
              ];
        }

    try_nodes-first :
        (s s1 : Fs (Cluster C)) (url : String)
        → pool_get env p.primary s ≡ (returned url, s1)
        → held s1.world url h.ino idx ≡ some b
        → try_nodes env block_size h idx (p.primary ∷ p.replicas) (store_unavailable p.primary) s
          ≡ (returned b, answered_by s1 url)
    unfolding try_nodes answered_by
    try_nodes-first s s1 url e k =
        ground (arith, e, read_back addr_of caches xxh3 token block_size h idx b s1.world url k)

    missed_step :
        (s : Fs (Cluster C))
        → IsServing addr_of caches xxh3 token block_size o h s
        → (caches.block_get h.ino h.generation idx s.world.caches).0 ≡ none
        → (url : String) × (s1 : Fs (Cluster C)) × (fetch_block env block_size h idx s
            ≡ (returned b, answered_by s1 url))
          × IsServing addr_of caches xxh3 token block_size o h (answered_by s1 url)
    unfolding looked BtreeMap.get
    missed_step s g e =
        let g0 = looked-IsServing s g in
        let en =
          ensure_addrs-Ensured addr_of caches xxh3 token block_size h idx b (looked s) g0.routes
            g0.listed in
        let s0 = ensure_addrs env block_size (looked s) in
        let n = p.primary in
        let pools = pool_get-Pools addr_of caches xxh3 token n s0 en.routes in
        let url = addr_of n in
        let hold = g0.holds idx b p there placed url (ground (arith, eq_iff url url)) in
        let hold0 : held s0.world url h.ino idx ≡ some b =
          ap (λ (w : Cluster C). held w url h.ino idx) en.world ∙ hold in
        let got =
          pool_get_known addr_of caches xxh3 token block_size h idx b n s0 en.routes hold0
            (g0.reached idx b p there placed) in
        let s1 = (pool_get env n s0).1 in
        (
          url,
          s1,
          fetch_missed addr_of caches xxh3 token block_size h idx b p s
                (ap (BtreeMap.get idx) clean) placed e
              ∙ try_nodes-first s0 s1 url (ap (λ x. (x, s1)) got)
                  (ap (λ (w : Cluster C). held w url h.ino idx) pools.world ∙ hold0),
          answered_by-IsServing (looked s) s1 url g0 pools.routes (pools.world ∙ en.world)
              (λ m k. pool_get-knows n m s0 k),
        )

    fetch_block-hit :
        (s : Fs (Cluster C)) (a : Bytes)
        → (caches.block_get h.ino h.generation idx s.world.caches).0 ≡ some a
        → fetch_block env block_size h idx s ≡ (returned a, looked s)
    unfolding fetch_block looked BtreeMap.get
    fetch_block-hit s a e = ground (arith, ap (BtreeMap.get idx) clean)

    abbrev Served : Fs (Cluster C) → Type 0
    Served s =
        ((fetch_block env block_size h idx s).0 ≡ returned b)
        × IsServing addr_of caches xxh3 token block_size o h (fetch_block env block_size h idx s).1

    pub fetch_block-Served :
        (s : Fs (Cluster C)) → IsServing addr_of caches xxh3 token block_size o h s → Served s
    fetch_block-Served s g =
        elim (Option-cases (caches.block_get h.ino h.generation idx s.world.caches).0) [
          | inr (a, e) ↦
              rw (fetch_block-hit s a e, g.fresh idx a b there e) (refl, looked-IsServing s g)
          | inl e ↦ let (url, s1, same, good) = missed_step s g e in rw same (refl, good)
        ]

  -- A handle that has written nothing and whose placements cover the blocks of `o`.
  pub IsServing-Serves :
      (o h : OpenFile)
      → IsCache caches
      → h.dirty ≡ []
      → ((idx : BlockIdx) (b : Bytes)
          → BtreeMap.get idx o.dirty ≡ some b
          → (p : BlockPlacement) × (BtreeMap.get idx h.block_map ≡ some p))
      → Serves env block_size o h (IsServing addr_of caches xxh3 token block_size o h)
  IsServing-Serves o h laws clean places = record {
    known = λ idx b e. ground (arith, (places idx b e).1);
    block = λ idx b s g e.
        let (p, k) = places idx b e in (fetch_block-Served o h idx b p laws clean e k s g).0;
    good = λ idx b s g e.
        let (p, k) = places idx b e in (fetch_block-Served o h idx b p laws clean e k s g).1;
  }
