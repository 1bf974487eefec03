-- ===== src/Client/Kernel/Space/Bounds.antt =====
-- What `statfs` tells of the space of the storage nodes.
use dtmpfs.Prelude.{ℕ, ◌+◌, ◌-◌, ◌*◌, ◌≤◌, ◌<◌, ◌≡◌, List, [], ◌∷◌}
use dtmpfs.Meta.Messages.{ProtoNodeInfo}
use dtmpfs.Client.Kernel.Space.{Statfs}

-- The sum without a bound.
abbrev pub total_of : (ProtoNodeInfo → ℕ) → List ProtoNodeInfo → ℕ
total_of f [] = 0
total_of f (n ∷ ns) = f n + total_of f ns

-- The whole blocks that fit into the budgets, and into what is left of them.
pub record Measures (block_size total used : ℕ) (f : Statfs) : Type 0 where
  pub at_most : f.blocks * block_size ≤ total
  pub below_next : total < (f.blocks + 1) * block_size
  pub free_at_most : f.bfree * block_size ≤ total - used
  pub free_below_next : total - used < (f.bfree + 1) * block_size
  pub free_blocks : f.bfree ≤ f.blocks
  pub available : f.bavail ≡ f.bfree
