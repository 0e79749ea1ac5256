-- ===== src/Protocols/PeerProtocolStateMachine/Reader.antt =====
-- The reader of peer_protocol_state_machine.rs: what each message of the peer does, and how the
-- connection starts.
use Prim.Native.String.{String}
use fissure.Common.{
  ℕ, ◌-◌, Bool, true, false, Outcome, done, panic, some, none, List, [], if◌then◌else◌,
}
use fissure.Common.Bits.{BitVecLib}
use fissure.Common.HashMap
use fissure.Common.HashMap.{nat_Eq}
use fissure.Models.PeerMessages.{
  PeerMessage, keep_alive, choke, unchoke, interested, not_interested, have_piece, bitfield,
  request, piece, cancel, port,
}
use fissure.Managers.PieceManager.Handle.{PieceRequestManager, block_recvied}
use fissure.Managers.DiskManager.{FileSystem}
use fissure.Managers.TorrentManager.{Floats}
use fissure.Managers.TorrentManager.Handle.{
  Actor, add_new_peer, add_bitfield, has_useful_pieces, update_bitfield, piece_finish,
  get_piece_manager,
}
use fissure.Protocols.PeerHandshake.{PeerState}
use fissure.Protocols.PeerProtocolStateMachine.{PeerFsmNetworkState, Fsm, set_tasks, set_inflight}

abbrev new_network_state : PeerFsmNetworkState
new_network_state = record {
  pending_active_request_count = 0;
  inflight_messages = 0;
  active_requests = [];
  state_update = false;
  block_acked = false;
}

module _ (L : BitVecLib) (FS : FileSystem) (FL : Floats) (sha1 : List ℕ → List ℕ)
    (order : List ℕ → List ℕ) where
  open L use {BitVec, zeros}

  abbrev F : Type 0
  F = Fsm L FS FL sha1

  -- `notify_one` on each of the two.
  unfoldable pub notify_state : F → F
  notify_state s = record s { network_state = record s.network_state { state_update = true } }

  unfoldable pub notify_block : F → F
  notify_block s = record s { network_state = record s.network_state { block_acked = true } }

  -- A finished piece is taken out of the active ones, and its place is free if it was there.
  unfoldable pub free_slot : F → ℕ → F
  free_slot s piece_index = record s {
    network_state = record s.network_state {
      active_requests = HashMap.remove s.network_state.active_requests piece_index;
      pending_active_request_count =
          elim (HashMap.get s.network_state.active_requests piece_index) [
            | none ↦ s.network_state.pending_active_request_count
            | some m ↦ s.network_state.pending_active_request_count - 1
          ];
    };
  }

  -- A block for a piece of this connection, whose manager is `mgr`.
  unfoldable pub own_block : F → String → ℕ → ℕ → List ℕ → PieceRequestManager → F
  own_block s peer_id piece_index block_offset bytes mgr =
      let r = block_recvied L sha1 s.manager.state.tasks mgr block_offset bytes in
      let s' = set_tasks L FS FL sha1 s r.0 in
      if r.1
      then notify_state (
          free_slot
            (record s' { manager = piece_finish L FS FL sha1 order s'.manager peer_id piece_index })
            piece_index)
      else notify_block s'

  -- A block for a piece that this connection does not work on.
  unfoldable pub late_block : F → String → ℕ → ℕ → List ℕ → F
  late_block s peer_id piece_index block_offset bytes =
      elim (get_piece_manager L FS FL sha1 order s.manager piece_index) [
        | none ↦ notify_block s
        | some mgr ↦
            let r = block_recvied L sha1 s.manager.state.tasks mgr block_offset bytes in
            let s' = set_tasks L FS FL sha1 s r.0 in
            if r.1
            then notify_state (record s' {
              manager = piece_finish L FS FL sha1 order s'.manager peer_id piece_index;
            })
            else notify_block s'
      ]

  unfoldable pub read_piece : F → String → ℕ → ℕ → List ℕ → F
  read_piece s peer_id piece_index block_offset bytes =
      let s' = set_inflight L FS FL sha1 s (s.network_state.inflight_messages - 1) in
      elim (HashMap.get s'.network_state.active_requests piece_index) [
        | some mgr ↦ own_block s' peer_id piece_index block_offset bytes mgr
        | none ↦ late_block s' peer_id piece_index block_offset bytes
      ]

  -- The `match` on a message. The result is false where the reader's task panics.
  unfoldable pub read_message : F → String → PeerMessage BitVec → F × Bool
  read_message s peer_id keep_alive = (s, true)
  read_message s peer_id choke = (
    notify_state
        (set_inflight L FS FL sha1 (record s { peer = record s.peer { peer_choking = true } }) 0),
    true,
  )
  read_message s peer_id unchoke =
      (notify_state (record s { peer = record s.peer { peer_choking = false } }), true)
  read_message s peer_id interested =
      (notify_state (record s { peer = record s.peer { peer_interested = true } }), true)
  read_message s peer_id not_interested =
      (notify_state (record s { peer = record s.peer { peer_interested = false } }), true)
  read_message s peer_id (have_piece piece_index) = (
    record s { manager = update_bitfield L FS FL sha1 order s.manager peer_id piece_index },
    true,
  )
  read_message s peer_id (bitfield b) =
      let added = (add_bitfield L FS FL sha1 order s.manager peer_id b).0 in
      let r = has_useful_pieces L FS FL sha1 order added peer_id in
      elim r.1 [
        | panic ↦ (record s { manager = r.0 }, false)
        | done has_useful ↦ (
          notify_state
              (record s { manager = r.0; peer = record s.peer { has_useful_pieces = has_useful } }),
          true,
        )
      ]
  read_message s peer_id (request piece_index block_offset l) = (s, true)
  read_message s peer_id (piece piece_index block_offset bytes) =
      (read_piece s peer_id piece_index block_offset bytes, true)
  read_message s peer_id (cancel piece_index block_offset l) = (s, true)
  read_message s peer_id port = (s, true)

  -- The start of `state_machine`, up to where its tasks are spawned: the shared state, and the bits
  -- that the writer sends first. The peer's id is unwrapped.
  unfoldable pub start : Actor L FS FL sha1 → PeerState → Outcome (F × BitVec)
  start manager peer = elim peer.peer_id [
    | none ↦ panic
    | some res_peer_id ↦
        let r = add_new_peer L FS FL sha1 order manager (zeros 0) res_peer_id in
        done
          (record { network_state = new_network_state; peer = peer; manager = r.0; sent = [] }, r.1)
  ]
