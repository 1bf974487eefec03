-- ===== src/Client/Readdir/Runs.antt =====
-- `readdir` against a server in any state that requests can bring it to.
use dtmpfs.Prelude.{ℕ, ◌≡◌, ◌<◌, String, some, List, Tree, map, length, nat_eq, list_eq}
use dtmpfs.Prelude.HashMap
use dtmpfs.Common.Id.{InodeId}
use dtmpfs.Meta.State.{SystemTime, Name, new}
use dtmpfs.Meta.Messages.{ReadDirReq}
use dtmpfs.Meta.Listing.{dir_entry, read_dir}
use dtmpfs.Meta.Steps.{Request, run}
use dtmpfs.Meta.Steps.Listings.{HaveNames, run-EachDir, new-EachDir}
use dtmpfs.Client.{Env, Fs, returned}
use dtmpfs.Client.Readdir.{list_dir}
use dtmpfs.Client.Readdir.Pages.{list_dir-all}

-- A server has served any requests whose new names are texts, none empty. Where it answers each
-- page in the state that they left, readdir of any of its directories collects every entry once,
-- in the order of the names, with any fuel above their number.
pub list_dir-run :
    {W : Type 0} (env : Env W) (xxh3 : String → ℕ → ℕ) (token : String) (replication_factor : ℕ)
    (start : SystemTime) (rs : List Request) (ino : InodeId) (d : Tree Name InodeId) (fuel : ℕ)
    (fs : Fs W)
    → HaveNames rs
    → let s = run xxh3 token (new replication_factor start) rs in
      ((r : ReadDirReq) (w : W) → env.read_dir r w ≡ (read_dir s r, w))
      → HashMap.get ino s.dirs ≡ some d
      → length d < fuel
      → list_dir env fuel ino fs ≡ (returned (map (dir_entry s) d), fs)
list_dir-run env xxh3 token replication_factor start rs ino d fuel fs named answers there enough =
    let s0 = new replication_factor start in
    let listing =
      run-EachDir xxh3 token s0 rs named (new-EachDir replication_factor start) ino d there in
    list_dir-all env (run xxh3 token s0 rs) ino d fuel fs answers there listing.0 listing.1 enough
