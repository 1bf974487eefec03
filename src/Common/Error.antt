-- ===== src/Common/Error.antt =====
-- crates/dtmpfs-common/src/error.rs: the error type of the client, its errno, and the reading of a
-- gRPC status.
use dtmpfs.Prelude.{◌≡◌, refl, ◌⊎◌, inl, inr, String, Option, none, some}
use dtmpfs.Common.Id.{NodeId}

-- The codes of a gRPC status.
pub data Code : Type 0 where
  ok cancelled unknown invalid_argument deadline_exceeded not_found already_exists : Code
  permission_denied resource_exhausted failed_precondition aborted out_of_range : Code
  unimplemented internal unavailable data_loss unauthenticated : Code

pub record Status : Type 0 where
  pub code : Code
  pub message : String

pub data Result {ℓ} (A : Type ℓ) : Type ℓ where
  done : A → Result A
  fail : Status → Result A

pub data DtmpfsError : Type 0 where
  meta_unavailable : DtmpfsError
  store_unavailable : NodeId → DtmpfsError
  block_generation_mismatch : DtmpfsError
  missing : DtmpfsError
  exists_already : DtmpfsError
  not_a_directory : DtmpfsError
  is_a_directory : DtmpfsError
  not_empty : DtmpfsError
  denied : DtmpfsError
  exhausted : DtmpfsError
  bad_argument : DtmpfsError
  bad_token : DtmpfsError
  io : String → DtmpfsError
  rpc : Status → DtmpfsError

-- The constants of libc that the table names.
pub data Errno : Type 0 where
  enoent eexist enotdir eisdir enotempty eacces enospc einval eio eperm enosys : Errno

unfoldable pub errno : DtmpfsError → Errno
errno missing = enoent
errno exists_already = eexist
errno not_a_directory = enotdir
errno is_a_directory = eisdir
errno not_empty = enotempty
errno denied = eacces
errno bad_token = eacces
errno exhausted = enospc
errno bad_argument = einval
errno meta_unavailable = eio
errno (store_unavailable n) = eio
errno block_generation_mismatch = eio
errno (io e) = eio
errno (rpc s) = eio

abbrev unavailable_at : Option NodeId → DtmpfsError
unavailable_at none = meta_unavailable
unavailable_at (some n) = store_unavailable n

unfoldable pub from_code : Code → Status → Option NodeId → DtmpfsError
from_code invalid_argument s _ = bad_argument
from_code out_of_range s _ = bad_argument
from_code not_found s _ = missing
from_code already_exists s _ = exists_already
from_code permission_denied s _ = denied
from_code unauthenticated s _ = bad_token
from_code resource_exhausted s _ = exhausted
from_code failed_precondition s _ = block_generation_mismatch
from_code unavailable s n = unavailable_at n
from_code _ s _ = rpc s

unfoldable pub from_status : Status → Option NodeId → DtmpfsError
unfolding from_code
from_status s n = from_code s.code s n

pub Result-cases :
    {A : Type 0} (r : Result A) → ((a : A) × (r ≡ done a)) ⊎ ((x : Status) × (r ≡ fail x))
Result-cases (done a) = inl (a, refl)
Result-cases (fail x) = inr (x, refl)
