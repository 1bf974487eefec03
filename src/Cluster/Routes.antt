-- ===== src/Cluster/Routes.antt =====
-- The addresses that a mount knows: a node has one address, and the channels of the pool lead there.
use dtmpfs.Prelude.{
  ◌≡◌, refl, ℕ, String, some, is_some, arith, nat_eq, string_eq, Bool-cases, Option-cases, inl, inr,
  List, [], ◌∷◌,
}
use dtmpfs.Prelude.HashMap
use text.Mathlib.TextEquality.{eq_iff}
use dtmpfs.Common.Id.{NodeId}
use dtmpfs.Meta.Messages.{ProtoNodeInfo, url_of}
use dtmpfs.Client.{Fs, FsReply, returned, Channel, pool_get, connect_to, addr_map, refresh_addrs}
use dtmpfs.Cluster.{Caches, Cluster, cluster_env}

module _ (addr_of : NodeId → String) where
  abbrev pub Listed : List ProtoNodeInfo → Type 0
  Listed [] = Unit {0}
  Listed (n ∷ ns) = (url_of n.addr ≡ addr_of n.node_id) × Listed ns

  addr_map-Routes :
      (l : List ProtoNodeInfo) (m : HashMap.Dict NodeId String)
      → Listed l
      → ((n : NodeId) (a : String) → HashMap.get n m ≡ some a → a ≡ addr_of n)
      → (n : NodeId) (a : String) → HashMap.get n (addr_map l m) ≡ some a
      → a ≡ addr_of n
  unfolding addr_map
  addr_map-Routes [] m h k n a e = k n a e
  addr_map-Routes (x ∷ l) m h k n a e =
      addr_map-Routes l (HashMap.insert x.node_id (url_of x.addr) m) h.1
        (λ j b f.
          ground (
            arith,
            eq_iff x.node_id j,
            HashMap.get-insert x.node_id j (url_of x.addr) m,
            k j b,
            h.0,
          ))
        n a e

module _ {C : Type 0} (addr_of : NodeId → String) where
  -- The pool and the table of addresses agree with the one address of each node.
  pub record Routes (s : Fs (Cluster C)) : Type 0 where
    pub channels : (n : NodeId) (c : String) → HashMap.get n s.clients ≡ some c → c ≡ addr_of n
    pub addresses : (n : NodeId) (a : String) → HashMap.get n s.addrs ≡ some a → a ≡ addr_of n

  pub refresh_addrs-Routes :
      (l : List ProtoNodeInfo) (s : Fs (Cluster C))
      → Listed addr_of l
      → Routes s
      → Routes (refresh_addrs l s)
  unfolding refresh_addrs HashMap.get
  refresh_addrs-Routes l s h r = record {
    channels = r.channels;
    addresses = addr_map-Routes addr_of l [] h (λ n a e. ground (arith));
  }

  -- What the pool answers for a node.
  pub record Pools (n : NodeId) (s : Fs (Cluster C)) (x : FsReply (Cluster C) Channel)
      : Type 0 where
    pub world : x.1.world ≡ s.world
    pub routes : Routes x.1
    pub channel : (c : Channel) → x.0 ≡ returned c → c ≡ addr_of n

  module _ (caches : Caches C) (xxh3 : String → ℕ → ℕ) (token : String) where
    connect_to-Pools :
        (n : NodeId) (s : Fs (Cluster C))
        → Routes s
        → Pools n s (connect_to (cluster_env caches xxh3 token) n (addr_of n) s)
    unfolding connect_to
    connect_to-Pools n s r = elim (Bool-cases (is_some (HashMap.get (addr_of n) s.world.stores))) [
      | inl e ↦ rw e (record {
        world = refl;
        routes = record {
          channels = λ j c f.
              ground
                (arith, eq_iff n j, HashMap.get-insert n j (addr_of n) s.clients, r.channels j c);
          addresses = r.addresses;
        };
        channel = λ c f. ground arith;
      })
      | inr e ↦ rw e (record {
        world = refl;
        routes = record { channels = r.channels; addresses = r.addresses };
        channel = λ c f. ground arith;
      })
    ]

    pub pool_get-Pools :
        (n : NodeId) (s : Fs (Cluster C))
        → Routes s
        → Pools n s (pool_get (cluster_env caches xxh3 token) n s)
    unfolding pool_get
    pool_get-Pools n s r = elim (Option-cases (HashMap.get n s.clients)) [
      | inr (c, e) ↦
          rw (e, pool_get)
            (record { world = refl; routes = r; channel = λ d f. ground (arith, r.channels n c e) })
      | inl e ↦ elim (Option-cases (HashMap.get n s.addrs)) [
        | inl f ↦
            rw (e, f, pool_get) (record { world = refl; routes = r; channel = λ d g. ground arith })
        | inr (a, f) ↦ rw (e, f, r.addresses n a f, pool_get) (connect_to-Pools n s r)
      ]
    ]
