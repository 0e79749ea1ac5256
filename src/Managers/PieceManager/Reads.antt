-- ===== src/Managers/PieceManager/Reads.antt =====
-- `GetData` through the handle: what the disk manager gets of a piece.
use fissure.Common.{ℕ, ◌≤◌, ◌≡◌, refl, ap, some, List, slice, length, leb, true, arith}
use fissure.Common.Bits.{BitVecLib}
use fissure.Common.HashMap
use fissure.Common.HashMap.{nat_Eq}
use fissure.Managers.PieceManager.{PieceRequestManagerActor, get_data, bytes, step, handle_get_data}
use fissure.Managers.PieceManager.Handle.{
  PieceRequestManager, Tasks, ask, bytes_or_none, get_data_with_offset,
}

module _ (L : BitVecLib) (sha1 : List ℕ → List ℕ) where
  open L use {BitVec}

  ask-get_data :
      (tasks : Tasks L sha1) (m : PieceRequestManager) (s : PieceRequestManagerActor BitVec)
      (start end : ℕ)
      → HashMap.get tasks m.send ≡ some s
      → start ≤ end
      → end ≤ length s.buffer
      → (ask L sha1 tasks m (get_data start end)).1 ≡ bytes (slice s.buffer start end)
  unfolding ask step handle_get_data
  ask-get_data tasks m s start end e low high =
      let fits : leb end (length s.buffer) ≡ true = ground arith in
      let ordered : leb start end ≡ true = ground arith in rw (ask, e) (rw (fits, ordered) refl)

  -- A running task answers with the bytes of its buffer, if there are so many.
  pub get_data_with_offset-slice :
      (tasks : Tasks L sha1) (m : PieceRequestManager) (s : PieceRequestManagerActor BitVec)
      (start end : ℕ)
      → HashMap.get tasks m.send ≡ some s
      → start ≤ end
      → end ≤ length s.buffer
      → get_data_with_offset L sha1 tasks m start end ≡ slice s.buffer start end
  unfolding get_data_with_offset
  get_data_with_offset-slice tasks m s start end e low high =
      ap (bytes_or_none L sha1) (ask-get_data tasks m s start end e low high)
