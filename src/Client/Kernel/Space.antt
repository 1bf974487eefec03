-- ===== src/Client/Kernel/Space.antt =====
-- `statfs` of crates/dtmpfs-client/src/fs.rs.
pub mod Bounds
use dtmpfs.Prelude.{ℕ, ◌+◌, ◌-◌, ◌/◌, ◌%◌, ◌^◌, List, [], ◌∷◌}
use dtmpfs.Common.Id.{u64_mod, u32_mod}
use dtmpfs.Common.Error.{done, fail}
use dtmpfs.Meta.Messages.{ProtoNodeInfo}
use dtmpfs.Client.{Env, Fs, with_world}

pub record Statfs : Type 0 where
  pub blocks : ℕ
  pub bfree : ℕ
  pub bavail : ℕ
  pub files : ℕ
  pub ffree : ℕ
  pub bsize : ℕ
  pub namelen : ℕ
  pub frsize : ℕ

-- `iter().map(..).sum()` of a u64, which wraps as a release build does.
unfoldable pub sum_of : (ProtoNodeInfo → ℕ) → List ProtoNodeInfo → ℕ
sum_of f [] = 0
sum_of f (n ∷ ns) = (f n + sum_of f ns) % u64_mod

module _ (block_size : ℕ) where
  -- A block size of 0, by which the code cannot divide, is no configuration.
  unfoldable pub space : ℕ → ℕ → Statfs
  space total used = record {
    blocks = total / block_size;
    bfree = (total - used) / block_size;
    bavail = (total - used) / block_size;
    files = 0;
    ffree = 0;
    bsize = block_size % u32_mod;
    namelen = 255;
    frsize = 0;
  }

  abbrev pub no_space : Statfs
  no_space = record {
    blocks = 0;
    bfree = 0;
    bavail = 0;
    files = 0;
    ffree = 0;
    bsize = block_size % u32_mod;
    namelen = 255;
    frsize = 0;
  }

  unfoldable pub statfs : {W : Type 0} → Env W → Fs W → Statfs × Fs W
  unfolding sum_of space
  statfs env s =
      let (nodes, w) = env.list_nodes s.world in
      elim nodes [
        | fail e ↦ (no_space, with_world s w)
        | done l ↦ (
          space (sum_of (λ n. n.capacity_bytes) l) (sum_of (λ n. n.used_bytes) l),
          with_world s w,
        )
      ]
