-- ===== src/Meta/Examples.antt =====
-- Runs of the metadata server, and its theorems at concrete inputs.
use dtmpfs.Prelude.{
  ℕ, ◌≡◌, ◌==◌, none, if◌then◌else◌, pos, refl, String, some, List, [], ◌∷◌, arith, nat_eq,
  string_eq, list_eq,
}
use dtmpfs.Prelude.HashMap
use dtmpfs.Prelude.BtreeMap
use dtmpfs.Prelude.Ord.{nat_ord, list_ord}
use dtmpfs.Common.Id.{InodeId}
use dtmpfs.Common.Error.{done}
use dtmpfs.Meta.State.{MetaState, Name, Inode, OpenHandleSt, new, build_attr, alloc_ino, alloc_fh}
use dtmpfs.Meta.Messages.{
  CreateReq, CreateResp, CloseReq, RenameReq, node_addrs, fire_delete_blocks,
}
use dtmpfs.Meta.Handles.{OpenReq, open_file, open_read, open_handle, close}
use dtmpfs.Meta.Handles.Closing.{inode_at, handle_at, open-close}
use dtmpfs.Meta.Namespace.{find_in, entry, create, mkdir, make_file, new_file}
use dtmpfs.Meta.Rename.{rename}
use dtmpfs.Meta.Rename.Itself.{onto, rename-onto_itself}
use dtmpfs.Meta.Rename.Outcomes.{Outcome, rename-Outcome}
use dtmpfs.Meta.Tree.{IsTree}
use dtmpfs.Meta.Steps.{Request, creates, mkdirs, renames, step, run}
use dtmpfs.Meta.Steps.Trees.{run-IsTree, new-IsTree}

abbrev hash : String → ℕ → ℕ
hash n seed = seed

abbrev name_a : Name
name_a = b'a' ∷ []

abbrev name_b : Name
name_b = b'b' ∷ []

abbrev in_root : Name → CreateReq
in_root n = record { parent_ino = 1; name = n; mode = 0o644; uid = 0; gid = 0 }

abbrev a_to_b : RenameReq
a_to_b = record { src_parent_ino = 1; src_name = name_a; dst_parent_ino = 1; dst_name = name_b }

abbrev history : List Request
history = creates 5 (in_root name_a) ∷ mkdirs 6 (in_root name_b) ∷ renames a_to_b ∷ []

start-counter : (new 1 0).next_ino ≡ 2
unfolding new
start-counter = refl

run-IsTree_example : IsTree (run hash "token" (new 1 0) history)
run-IsTree_example =
    run-IsTree hash "token" (new 1 0) history (new-IsTree 1 0) (omega (arith, start-counter))
      (tt, (tt, (refl, tt)))

abbrev two_names : MetaState
two_names = run hash "token" (new 1 0) (creates 5 (in_root name_a) ∷ mkdirs 6 (in_root name_b) ∷ [])

b_moved : entry (run hash "token" (new 1 0) history) 1 name_b ≡ some 2
unfolding run step new create mkdir rename find_in HashMap.get HashMap.insert HashMap.update
    BtreeMap.get BtreeMap.insert BtreeMap.remove HashMap.remove
b_moved = refl

two_names-IsTree : IsTree two_names
two_names-IsTree =
    run-IsTree hash "token" (new 1 0) _ (new-IsTree 1 0) (omega (arith, start-counter))
      (tt, (tt, tt))

rename-Outcome_example :
    Outcome two_names a_to_b (rename "token" two_names a_to_b).0 (rename "token" two_names a_to_b).1
rename-Outcome_example = rename-Outcome "token" two_names a_to_b two_names-IsTree refl

-- File 2 open twice, by its creation as 1 and again as 2.
abbrev one_file : MetaState
one_file = (create 5 (new 1 0) (in_root name_a)).1

abbrev open_2 : OpenReq
open_2 = record { ino = 2; flags = 2 }

abbrev opened_twice : MetaState
opened_twice = (open_file one_file open_2).1

abbrev closing : ℕ → List ℕ → CloseReq
closing fh idxs = record {
  fh = fh;
  ino = 2;
  expected_generation = 0;
  new_size = 3;
  written_block_idxs = idxs;
  mtime_s = pos 9;
  mtime_ns = 0;
}

abbrev first_close : MetaState
first_close = (close 9 opened_twice (closing 1 (0 ∷ []))).1

abbrev file_2 : Inode
file_2 = new_file 5 2 (in_root name_a)

abbrev handle_of : ℕ → ℕ → OpenHandleSt
handle_of fh flags = record { fh = fh; ino = 2; flags = flags; generation_at_open = 0 }

abbrev answer_2 : CreateResp
answer_2 = record { attr = some (build_attr file_2); fh = 2; block_map = [] }

open-close_example :
    ((close 9 opened_twice (closing 2 [])).0 ≡ done (some (build_attr file_2)))
    × ((n : InodeId) → inode_at (close 9 opened_twice (closing 2 [])).1 n ≡ inode_at one_file n)
    × ((h : ℕ)
        → handle_at (close 9 opened_twice (closing 2 [])).1 h
          ≡ (if 2 == h then none else handle_at one_file h))
    × ((close 9 opened_twice (closing 2 [])).1.dirs ≡ one_file.dirs)
unfolding new create make_file alloc_ino alloc_fh open_file open_read open_handle HashMap.get
    HashMap.insert HashMap.update HashMap.remove BtreeMap.get
open-close_example = open-close 9 one_file open_2 (closing 2 []) answer_2 refl refl refl

rename-onto_itself_example :
    let (answer, s', calls) = rename "token" one_file (onto 1 name_a) in
    (answer ≡ done tt)
    × (entry s' 1 name_a ≡ some 2)
    × (HashMap.get 2 s'.inodes ≡ none)
    × (calls ≡ fire_delete_blocks [] (node_addrs one_file) 2 "token")
unfolding new create make_file alloc_ino alloc_fh find_in HashMap.get HashMap.insert HashMap.update
    HashMap.remove BtreeMap.get BtreeMap.insert
rename-onto_itself_example = rename-onto_itself "token" one_file 1 name_a 2 file_2 refl refl refl
