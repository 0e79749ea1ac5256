-- ===== src/Protocols/PeerProtocolStateMachine/Messages.antt =====
-- What the messages of a peer lead to in peer_protocol_state_machine.rs.
use Prim.Native.String.{String}
use fissure.Common.{
  ℕ, suc, ◌-◌, ◌≡◌, refl, ap, ◌∙◌, Bool, true, false, ◌||◌, panic, some, none, List, Bool-cases,
  Option-cases, inl, inr,
}
use fissure.Common.Bits.{BitVecLib, BitVecLaws}
use fissure.Common.HashMap
use fissure.Common.HashMap.{nat_Eq, string_Eq}
use fissure.Models.PeerMessages.{choke, have_piece, bitfield, piece}
use fissure.Managers.PieceManager.Handle.{PieceRequestManager, block_recvied}
use fissure.Managers.DiskManager.{FileSystem}
use fissure.Managers.TorrentManager.{Floats}
use fissure.Managers.TorrentManager.Handle.{
  Actor, answer, deliver, get_piece_manager, send as send_message, has_useful_pieces, add_bitfield,
  update_bitfield,
}
use fissure.Managers.TorrentManager.Handlers.{
  handle, handle_update_bit_field, Message, add_bit_feild,
  has_useful_pieces as has_useful_pieces_message,
}
use fissure.Managers.TorrentManager.Invariant.{Inv}
use fissure.Managers.TorrentManager.Haves.{IsUnusable}
use fissure.Managers.TorrentManager.Bitfields.{handle_update_bit_field_panics_iff}
use fissure.Protocols.PeerProtocolStateMachine.{
  Env, Fsm, set_inflight, top_off_inflight_window, topoff_loop, run_window_topoff,
}
use fissure.Protocols.PeerProtocolStateMachine.Interleaving.{read_piece-inflight}
use fissure.Protocols.PeerProtocolStateMachine.Reader.{
  notify_state, notify_block, own_block, late_block, read_piece, read_message,
}

module _ (L : BitVecLib) (FS : FileSystem) (FL : Floats) (sha1 : List ℕ → List ℕ) where
  open L use {BitVec}

  abbrev F : Type 0
  F = Fsm L FS FL sha1

  -- The writer is woken: one of the two permits is there.
  abbrev pub IsWoken : F → Type 0
  IsWoken s = (s.network_state.state_update || s.network_state.block_acked) ≡ true

  or-true : (a : Bool) → (a || true) ≡ true
  or-true true = refl
  or-true false = refl

  module _ (env : Env BitVec) where
    notify_block-IsWoken : (s : F) → IsWoken (notify_block L FS FL sha1 env.order s)
    unfolding notify_block
    notify_block-IsWoken s = or-true s.network_state.state_update

    notify_state-IsWoken : (s : F) → IsWoken (notify_state L FS FL sha1 env.order s)
    unfolding notify_state
    notify_state-IsWoken s = refl

    own_block-IsWoken :
        (s : F) (id : String) (index offset : ℕ) (block : List ℕ) (m : PieceRequestManager)
        → IsWoken (own_block L FS FL sha1 env.order s id index offset block m)
    unfolding own_block
    own_block-IsWoken s id index offset block m =
        elim (Bool-cases (block_recvied L sha1 s.manager.state.tasks m offset block).1) [
          | inl t ↦ rw (own_block, t) (notify_state-IsWoken _)
          | inr f ↦ rw (own_block, f) (notify_block-IsWoken _)
        ]

    late_block-IsWoken :
        (s : F) (id : String) (index offset : ℕ) (block : List ℕ)
        → IsWoken (late_block L FS FL sha1 env.order s id index offset block)
    unfolding late_block
    late_block-IsWoken s id index offset block =
        elim (Option-cases (get_piece_manager L FS FL sha1 env.order s.manager index)) [
          | inl n ↦ rw (late_block, n) (notify_block-IsWoken s)
          | inr (m, e) ↦
              elim (Bool-cases (block_recvied L sha1 s.manager.state.tasks m offset block).1) [
                | inl t ↦ rw (late_block, e, t) (notify_state-IsWoken _)
                | inr f ↦ rw (late_block, e, f) (notify_block-IsWoken _)
              ]
        ]

    read_piece-IsWoken :
        (s : F) (id : String) (index offset : ℕ) (block : List ℕ)
        → IsWoken (read_piece L FS FL sha1 env.order s id index offset block)
    unfolding read_piece
    read_piece-IsWoken s id index offset block =
        let s' : F = set_inflight L FS FL sha1 s (s.network_state.inflight_messages - 1) in
        elim (Option-cases (HashMap.get s'.network_state.active_requests index)) [
          | inl n ↦ rw (read_piece, n) (late_block-IsWoken s' id index offset block)
          | inr (m, e) ↦ rw (read_piece, e) (own_block-IsWoken s' id index offset block m)
        ]

    -- Every block that comes in, for a piece of this connection or not, wanted or late, wakes the
    -- writer, and takes one request off the window if there is one: no block leaves the connection
    -- waiting with a window that it could fill.
    pub read_message-piece :
        (s : F) (id : String) (index offset : ℕ) (block : List ℕ)
        → IsWoken (read_message L FS FL sha1 env.order s id (piece index offset block)).0
          × ((read_message L FS FL sha1 env.order s id
                (piece index offset block)).0.network_state.inflight_messages
              ≡ s.network_state.inflight_messages - 1)
    unfolding read_message
    read_message-piece s id index offset block = (
      read_piece-IsWoken s id index offset block,
      read_piece-inflight L FS FL sha1 env id s id index offset block,
    )

    topoff_choked :
        (fuel : ℕ) (s : F) → topoff_loop L FS FL sha1 env (suc fuel) true s ≡ some (s, true)
    unfolding topoff_loop top_off_inflight_window
    topoff_choked fuel s = refl

    -- After a Choke the window is empty, the writer is woken, and until the peer unchokes the light
    -- pass asks for nothing: it ends at once and leaves the connection as it is.
    pub read_message-choke :
        (s : F) (id : String) (fuel : ℕ)
        → let s' = (read_message L FS FL sha1 env.order s id choke).0 in
          (s'.network_state.inflight_messages ≡ 0)
          × IsWoken s'
          × (run_window_topoff L FS FL sha1 env (suc fuel) s' ≡ some (s', true))
    unfolding read_message notify_state set_inflight run_window_topoff
    read_message-choke s id fuel = (refl, refl, topoff_choked fuel _)

module _ (L : BitVecLib) (W : BitVecLaws L) (FS : FileSystem) (FL : Floats) (sha1 : List ℕ → List ℕ)
    (order : List ℕ → List ℕ) where
  open L use {BitVec}

  dead_send :
      (a : Actor L FS FL sha1) (m : Message BitVec)
      → a.alive ≡ false
      → send_message L FS FL sha1 order a m ≡ (a, none)
  unfolding send_message deliver
  dead_send a m e = rw (send_message, e) refl

  dead_useful :
      (a : Actor L FS FL sha1) (id : String)
      → a.alive ≡ false
      → has_useful_pieces L FS FL sha1 order a id ≡ (a, panic)
  unfolding has_useful_pieces
  dead_useful a id e = rw (dead_send a (has_useful_pieces_message id) e) refl

  dead_added :
      (a : Actor L FS FL sha1) (id : String) (b : BitVec)
      → a.alive ≡ false
      → add_bitfield L FS FL sha1 order a id b ≡ (a, false)
  unfolding add_bitfield
  dead_added a id b e =
      rw (dead_send a (add_bit_feild id b) e)
        (rw (dead_send a (has_useful_pieces_message id) e) refl)

  dead_has_useful :
      (a : Actor L FS FL sha1) (id : String) (b : BitVec)
      → a.alive ≡ false
      → has_useful_pieces L FS FL sha1 order (add_bitfield L FS FL sha1 order a id b).0 id
        ≡ (a, panic)
  dead_has_useful a id b e =
      ap (λ (r : Actor L FS FL sha1 × Bool). has_useful_pieces L FS FL sha1 order r.0 id)
        (dead_added a id b e)
      ∙ dead_useful a id e

  update_bitfield-ends :
      (a : Actor L FS FL sha1) (id : String) (idx : ℕ)
      → a.alive ≡ true
      → Inv L W FS FL sha1 a.state
      → IsUnusable L W FS FL sha1 a.state.local_bitfield (HashMap.get a.state.peer_bitfields id) idx
      → (update_bitfield L FS FL sha1 order a id idx).alive ≡ false
  unfolding update_bitfield send_message deliver answer handle
  update_bitfield-ends a id idx al v bad =
      let e : handle_update_bit_field L FS FL sha1 a.state id idx ≡ panic =
        (handle_update_bit_field_panics_iff L W FS FL sha1 a.state id idx v).1 bad in
      rw (update_bitfield, send_message, al, e) refl

  reader_panics :
      (t : Fsm L FS FL sha1) (id : String) (b : BitVec)
      → t.manager.alive ≡ false
      → (read_message L FS FL sha1 order t id (bitfield b)).1 ≡ false
  unfolding read_message
  reader_panics t id b dead = rw (read_message, dead_has_useful t.manager id b dead) refl

  -- A Have that the peer's bitfield in the torrent manager cannot take, which is any Have before the
  -- peer's Bitfield, ends the torrent manager for all connections; and after that the reader of any
  -- connection `t` of the torrent, with a peer of any id, panics at a Bitfield. The
  -- manager is alive before and its state has its invariant, and `t` sends to that manager, so it
  -- is alive for `t` just if it is for the connection of the Have.
  pub read_message-have_ends_manager :
      (s t : Fsm L FS FL sha1) (id other_id : String) (idx : ℕ) (b : BitVec)
      → s.manager.alive ≡ true
      → Inv L W FS FL sha1 s.manager.state
      → IsUnusable L W FS FL sha1 s.manager.state.local_bitfield
          (HashMap.get s.manager.state.peer_bitfields id)
          idx
      → t.manager.alive ≡ (read_message L FS FL sha1 order s id (have_piece idx)).0.manager.alive
      → ((read_message L FS FL sha1 order s id (have_piece idx)).0.manager.alive ≡ false)
        × ((read_message L FS FL sha1 order t other_id (bitfield b)).1 ≡ false)
  unfolding read_message
  read_message-have_ends_manager s t id other_id idx b al v bad shared =
      let dead = update_bitfield-ends s.manager id idx al v bad in
      (dead, reader_panics t other_id b (shared ∙ dead))
