-- ===== src/Managers/DiskManager/Tests.antt =====
-- Runs of disk_manager.rs on two files, the border of which lies in the second piece.
use fissure.Common.{
  ℕ, zero, suc, ◌+◌, ◌*◌, ◌<◌, ◌≤◌, ◌≡◌, ◌⊎◌, refl, true, some, List, [], ◌∷◌, replicate, get_elem?,
  arith,
}
use fissure.Common.Bits.Listed.{listed}
use fissure.Common.HashMap
use fissure.Common.HashMap.{nat_Eq}
use fissure.Managers.PieceManager.{Actor}
use fissure.Managers.PieceManager.Handle.{PieceRequestManager, Tasks}
use fissure.Common.{done}
use fissure.Common.Bytes.{wrap}
use fissure.Managers.DiskManager.{
  new, open_files, make_parent, DiskManagerActor, flush_piece_to_disk, get_data_with_length,
}
use fissure.Managers.DiskManager.Memory.{memory, healthy}
use fissure.Managers.DiskManager.Stream.{Tiled, byte_at}
use fissure.Managers.DiskManager.Pieces.{
  flush_piece_to_disk_lem, get_data_with_length-flush_piece_to_disk,
}

abbrev sha1 : List ℕ → List ℕ
sha1 bs = bs

abbrev disk : DiskManagerActor memory.File
disk = record {
  std_piece_len = 4;
  files = record { path = "a"; size = 6 } ∷ record { path = "b"; size = 3 } ∷ [];
  handles = (0, (replicate 6 0, 0)) ∷ (6, (replicate 3 0, 0)) ∷ [];
}

abbrev second_piece : PieceRequestManager
second_piece = record { index = 1; sha1_hash = []; piece_length = 4; send = 0 }

abbrev second_task : Actor listed sha1
second_task = record {
  in_flight_timers = [];
  last_piece_size = 4;
  downloaded_blocks = true ∷ [];
  blocks_in_flight = [];
  required_blocks = [];
  buffer = 1 ∷ 2 ∷ 3 ∷ 4 ∷ [];
  hash = [];
  block_request_timeout = 4;
}

abbrev tasks : Tasks listed sha1
tasks = (0, second_task) ∷ []

task_found : HashMap.get tasks 0 ≡ some second_task
unfolding HashMap.get
task_found = refl

flush_piece_to_disk_lem_example :
    (hs : List (ℕ × memory.File)) × (flush_piece_to_disk memory listed sha1
        (some disk)
        tasks
        second_piece
      ≡ (some (record disk { handles = hs }), true))
    × Tiled memory healthy disk.files 0 hs
    × ((j : ℕ)
        → j < 4
        → byte_at memory healthy disk.files hs (1 * 4 + j) ≡ get_elem? (1 ∷ 2 ∷ 3 ∷ 4 ∷ []) j)
    × ((j x : ℕ)
        → (j < 1 * 4) ⊎ (1 * 4 + 4 ≤ j)
        → byte_at memory healthy disk.files disk.handles j ≡ some x
        → byte_at memory healthy disk.files hs j ≡ some x)
flush_piece_to_disk_lem_example =
    flush_piece_to_disk_lem memory healthy listed sha1 disk tasks second_piece second_task
      task_found refl (refl, (refl, tt)) (omega arith) (omega arith)

disk_held :
    (j : ℕ)
    → j < 3
    → (x : ℕ) × (byte_at memory healthy disk.files disk.handles (1 * 4 + 1 + j) ≡ some x)
disk_held zero h = (0, refl)
disk_held (suc zero) h = (0, refl)
disk_held (suc (suc zero)) h = (0, refl)
disk_held (suc (suc (suc j))) h = absurd (omega arith)

get_data_with_length-flush_piece_to_disk_example :
    (get_data_with_length memory
      (flush_piece_to_disk memory listed sha1 (some disk) tasks second_piece).0
      1
      1
      2).1
    ≡ some (2 ∷ 3 ∷ [])
get_data_with_length-flush_piece_to_disk_example =
    get_data_with_length-flush_piece_to_disk memory healthy listed sha1 disk tasks second_piece
      second_task 1 2 task_found refl (refl, (refl, tt)) (omega arith) (omega arith) (omega arith)

abbrev opened_disk : DiskManagerActor memory.File
opened_disk = record {
  std_piece_len = 4;
  files = record { path = "a"; size = 6 } ∷ record { path = "b"; size = 3 } ∷ [];
  handles = (0, ([], 0)) ∷ (6, ([], 0)) ∷ [];
}

new-opened_disk : new memory opened_disk.files "/tmp" 4 ≡ done (some opened_disk)
unfolding new open_files make_parent wrap
new-opened_disk = refl
