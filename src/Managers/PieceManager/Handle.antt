-- ===== src/Managers/PieceManager/Handle.antt =====
-- `PieceRequestManager` of piece_manager.rs: the shared handle through which peers and the disk
-- manager reach the task of a piece. `Arc` copies share one task, so a handle holds the number of
-- its task, and the running tasks are a map. A task that has ended is not in the map: what is sent
-- to it is lost, and the handle's methods return their fallback values.
use fissure.Common.{ℕ, Bool, true, false, done, panic, some, none, List, []}
use fissure.Common.Bits.{BitVecLib}
use fissure.Common.HashMap
use fissure.Common.HashMap.{nat_Eq}
use fissure.Managers.PieceManager.{
  PieceRequestManagerActor, Event, blocks_to_request, block_recived, get_data, get_data_with_len,
  Reply, blocks, piece_done, bytes, dropped, new, step,
}

pub record PieceRequestManager : Type 0 where
  pub index : ℕ
  pub sha1_hash : List ℕ
  pub piece_length : ℕ
  -- The task that receives from the channel of the field `send`.
  pub send : ℕ

module _ (L : BitVecLib) (sha1 : List ℕ → List ℕ) where
  open L use {BitVec}

  abbrev pub Tasks : Type 0
  Tasks = List (ℕ × PieceRequestManagerActor BitVec)

  -- `PieceRequestManager::new`, which spawns the task `task`.
  unfoldable pub spawn : Tasks → ℕ → ℕ → List ℕ → ℕ → ℕ → Tasks × PieceRequestManager
  spawn tasks task index sha1_hash p_len block_request_timeout = (
    HashMap.insert tasks task (new L sha1 p_len sha1_hash block_request_timeout),
    record { index = index; sha1_hash = sha1_hash; piece_length = p_len; send = task },
  )

  -- Sends a message and waits for the answer.
  unfoldable pub ask : Tasks → PieceRequestManager → Event → Tasks × Reply
  ask tasks m e = elim (HashMap.get tasks m.send) [
    | none ↦ (tasks, dropped)
    | some s ↦ elim (step L sha1 s e) [
      | done (s', r) ↦ (HashMap.insert tasks m.send s', r)
      | panic ↦ (HashMap.remove tasks m.send, dropped)
    ]
  ]

  is_done : Reply → Bool
  is_done piece_done = true
  is_done (blocks l) = false
  is_done _ = false

  unfoldable pub blocks_or_none : Reply → List (ℕ × ℕ)
  blocks_or_none (blocks l) = l
  blocks_or_none _ = []

  unfoldable pub bytes_or_none : Reply → List ℕ
  bytes_or_none (bytes l) = l
  bytes_or_none _ = []

  unfoldable pub block_recvied : Tasks → PieceRequestManager → ℕ → List ℕ → Tasks × Bool
  unfolding is_done
  block_recvied tasks m block_offset block =
      let (tasks', r) = ask tasks m (block_recived block_offset block) in (tasks', is_done r)

  unfoldable pub request_block : Tasks → PieceRequestManager → ℕ → ℕ → Tasks × List (ℕ × ℕ)
  unfolding blocks_or_none
  request_block tasks m number_of_blocks now =
      let (tasks', r) = ask tasks m (blocks_to_request number_of_blocks now) in
      (tasks', blocks_or_none r)

  -- These leave the task as it is.
  unfoldable pub get_data_with_offset : Tasks → PieceRequestManager → ℕ → ℕ → List ℕ
  unfolding bytes_or_none
  get_data_with_offset tasks m start end = bytes_or_none (ask tasks m (get_data start end)).1

  unfoldable pub get_data_by_len : Tasks → PieceRequestManager → ℕ → ℕ → List ℕ
  unfolding bytes_or_none
  get_data_by_len tasks m start l = bytes_or_none (ask tasks m (get_data_with_len start l)).1
