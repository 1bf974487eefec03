-- ===== src/Client/Kernel/Filling/Runs.antt =====
-- The kernel's reading of a directory against a server in any state that requests can bring it to.
use dtmpfs.Prelude.{
  ℕ, ◌≡◌, ◌<◌, Bool, false, String, some, List, [], Tree, map, length, length-map, nat_eq, list_eq,
  arith,
}
use dtmpfs.Prelude.HashMap
use dtmpfs.Common.Id.{InodeId}
use dtmpfs.Meta.State.{SystemTime, Name, new}
use dtmpfs.Meta.Messages.{ReadDirReq}
use dtmpfs.Meta.Listing.{dir_entry, read_dir}
use dtmpfs.Meta.Steps.{Request, run}
use dtmpfs.Meta.Steps.Listings.{HaveNames}
use dtmpfs.Client.{Env, Fs}
use dtmpfs.Client.Readdir.Runs.{list_dir-run}
use dtmpfs.Client.Kernel.Filling.{Added}
use dtmpfs.Client.Kernel.Filling.Resuming.{kernel_reads, kernel_reads_all, all_added}

-- A server has served any requests whose new names are texts, none empty, and answers each page in
-- the state that they left. The kernel that calls readdir from offset 0 and then from the offset
-- of the last entry it was given, up to a call that gives none, is given every entry of the
-- directory once, in order and with its offset, however few entries fit into a call, as long as an
-- empty buffer has room for one, the calls may number more than the entries, and the loop over the
-- pages has fuel above their number.
pub kernel_reads-run :
    {W : Type 0} (env : Env W) (xxh3 : String → ℕ → ℕ) (token : String) (replication_factor : ℕ)
    (start : SystemTime) (rs : List Request) (ino : InodeId) (d : Tree Name InodeId)
    (fuel calls : ℕ) (fs : Fs W) (is_full : List Added → Added → Bool)
    → HaveNames rs
    → let s = run xxh3 token (new replication_factor start) rs in
      ((r : ReadDirReq) (w : W) → env.read_dir r w ≡ (read_dir s r, w))
      → HashMap.get ino s.dirs ≡ some d
      → length d < fuel
      → length d < calls
      → ((a : Added) → is_full [] a ≡ false)
      → kernel_reads is_full env fuel ino calls 0 fs ≡ all_added 0 (map (dir_entry s) d)
kernel_reads-run env xxh3 token replication_factor start rs ino d fuel calls fs is_full named
      answers there enough often room =
    let s = run xxh3 token (new replication_factor start) rs in
    kernel_reads_all is_full env fuel ino (map (dir_entry s) d)
      (λ t.
        list_dir-run env xxh3 token replication_factor start rs ino d fuel t named answers there
          enough)
      room calls 0 fs (omega (arith, length-map (dir_entry s) d))
