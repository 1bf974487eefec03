-- ===== src/Client/Readdir.antt =====
-- `readdir` of crates/dtmpfs-client/src/fs.rs: the loop over the pages of a directory, on fuel, of
-- which more than there are entries is enough.
pub mod Pages
pub mod Runs
use dtmpfs.Prelude.{ℕ, zero, suc, Bool, true, false, none, List, [], ◌++◌, if◌then◌else◌}
use dtmpfs.Common.Id.{InodeId}
use dtmpfs.Common.Error.{done, fail, from_status}
use dtmpfs.Meta.Messages.{DirEntry, ReadDirReq, ReadDirResp}
use dtmpfs.Client.{FsResult, returned, failed, Env, Fs, FsReply, with_world}

abbrev pub page_request : InodeId → List ℕ → ℕ → ReadDirReq
page_request ino cookie max = record { ino = ino; cookie = cookie; max_entries = max }

module _ {W : Type 0} (env : Env W) (max : ℕ) (ino : InodeId) where
  unfoldable pub list_pages : ℕ → List DirEntry → List ℕ → Fs W → FsReply W (List DirEntry)
  list_pages zero entries cookie s = (returned entries, s)
  list_pages (suc fuel) entries cookie s =
      let (answer, w) = env.read_dir (page_request ino cookie max) s.world in
      elim answer [
        | fail e ↦ (failed (from_status e none), with_world s w)
        | done resp ↦ elim resp.eof [
          | true ↦ (returned (entries ++ resp.entries), with_world s w)
          | false ↦ list_pages fuel (entries ++ resp.entries) resp.next_cookie (with_world s w)
        ]
      ]

-- The pages that `readdir` asks for have at most 256 entries.
unfoldable pub list_dir : {W : Type 0} → Env W → ℕ → InodeId → Fs W → FsReply W (List DirEntry)
unfolding list_pages
list_dir env fuel ino s = list_pages env 256 ino fuel [] [] s
