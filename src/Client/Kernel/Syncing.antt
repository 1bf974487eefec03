-- ===== src/Client/Kernel/Syncing.antt =====
-- What `flush`, `fsync` and `release` of crates/dtmpfs-client/src/fs.rs answer the kernel.
use dtmpfs.Prelude.{ℕ}
use dtmpfs.Common.Error.{errno}
use dtmpfs.Client.{FsResult, returned, failed, Env, Fs}
use dtmpfs.Client.Publish.{flush_path, fsync_path}
use dtmpfs.Client.Publish
use dtmpfs.Client.Kernel.{Answer, answered, refused}

unfoldable pub reply_of : FsResult (Unit {0}) → Answer (Unit {0})
unfolding errno
reply_of (returned _) = answered tt
reply_of (failed e) = refused (errno e)

module _ {W : Type 0} (env : Env W) where
  unfoldable pub flush : ℕ → Fs W → Answer (Unit {0}) × Fs W
  unfolding reply_of flush_path
  flush fh s = let (answer, s1) = flush_path env fh s in (reply_of answer, s1)

  unfoldable pub fsync : ℕ → Fs W → Answer (Unit {0}) × Fs W
  unfolding reply_of fsync_path
  fsync fh s = let (answer, s1) = fsync_path env fh s in (reply_of answer, s1)

  unfoldable pub release : ℕ → Fs W → Answer (Unit {0}) × Fs W
  unfolding reply_of Publish.release
  release fh s = let (answer, s1) = Publish.release env fh s in (reply_of answer, s1)
