-- ===== src/Protocols/PeerProtocolStateMachine.antt =====
-- fissure_client/src/protocols/peer_protocol_state_machine.rs: one connection. Its three tasks share
-- a state; what one of them does between two waits for the others is a function of that state. Here
-- are the state and the request window; the tasks are in the child modules.
pub mod Writer
pub mod Reader
pub mod Window
pub mod Passes
pub mod Interleaving
pub mod Messages
pub mod Haves
mod Tests
use Prim.Native.String.{String}
use fissure.Common.{
  ℕ, zero, suc, ◌+◌, ◌-◌, Bool, true, false, Option, some, none, List, [], ◌∷◌, ◌++◌, leb,
  if◌then◌else◌,
}
use fissure.Common.Bits.{BitVecLib}
use fissure.Common.Bytes.{wrap, as_u32}
use fissure.Models.PeerSettings.{PeerOptions}
use fissure.Models.PeerMessages.{PeerMessage, request}
use fissure.Managers.PieceManager.Handle.{PieceRequestManager, Tasks, request_block}
use fissure.Managers.DiskManager.{FileSystem}
use fissure.Managers.TorrentManager.{Floats}
use fissure.Managers.TorrentManager.Handle.{Actor}
use fissure.Protocols.PeerHandshake.{PeerState}

-- `PeerFSMNetworkState`. A `Notify` is whether it holds a permit.
pub record PeerFsmNetworkState : Type 0 where
  pub pending_active_request_count : ℕ
  pub inflight_messages : ℕ
  pub active_requests : List (ℕ × PieceRequestManager)
  pub state_update : Bool
  pub block_acked : Bool

-- What a pass meets from outside: the clock, the order in which a `HashSet` is walked and that of
-- the shuffled candidates, and whether the socket takes one more message after those sent.
pub record Env (B : Type 0) : Type 0 where
  pub peer_options : PeerOptions
  pub now : ℕ
  pub order : List ℕ → List ℕ
  pub shuffle : List PieceRequestManager → List PieceRequestManager
  pub writable : List (PeerMessage B) → Bool

-- `values().cloned()`
unfoldable pub values : List (ℕ × PieceRequestManager) → List PieceRequestManager
values [] = []
values ((k, m) ∷ rest) = m ∷ values rest

module _ (L : BitVecLib) (FS : FileSystem) (FL : Floats) (sha1 : List ℕ → List ℕ) where
  open L use {BitVec}

  -- The shared state, the torrent manager that the tasks call, and what has been sent to the peer.
  pub record Fsm : Type 0 where
    pub network_state : PeerFsmNetworkState
    pub peer : PeerState
    pub manager : Actor L FS FL sha1
    pub sent : List (PeerMessage BitVec)

  unfoldable pub set_tasks : Fsm → Tasks L sha1 → Fsm
  set_tasks s ts = record s {
    manager = record s.manager { state = record s.manager.state { tasks = ts } };
  }

  unfoldable pub set_inflight : Fsm → ℕ → Fsm
  set_inflight s n = record s { network_state = record s.network_state { inflight_messages = n } }

  module _ (env : Env BitVec) where
    -- `framed_writer.send(msg)`, which fails where the socket does.
    unfoldable pub send : Fsm → PeerMessage BitVec → Option Fsm
    send s msg =
        if env.writable s.sent then some (record s { sent = s.sent ++ (msg ∷ []) }) else none

    -- The loop over `req_pieces`.
    unfoldable pub send_requests : ℕ → List (ℕ × ℕ) → Fsm → Fsm × Bool
    send_requests index [] s = (s, true)
    send_requests index (p ∷ req_pieces) s = elim (send s (request index p.0 p.1)) [
      | none ↦ (s, false)
      | some s' ↦
          send_requests index req_pieces
            (set_inflight s' (wrap (s'.network_state.inflight_messages + 1)))
    ]

    unfoldable pub progress_of : Fsm × Bool → Fsm × Option Bool
    progress_of (s, ok) = (s, if ok then some true else none)

    -- What is done with the blocks that one candidate hands out; `next` tries the later ones.
    unfoldable pub use_blocks : ℕ → List (ℕ × ℕ) → Fsm → Fsm × Option Bool → Fsm × Option Bool
    unfolding progress_of
    use_blocks index [] s next = next
    use_blocks index (p ∷ req_pieces) s next = progress_of (send_requests index (p ∷ req_pieces) s)

    -- The loop over the candidates.
    unfoldable pub try_candidates : List PieceRequestManager → ℕ → Fsm → Fsm × Option Bool
    try_candidates [] available_window s = (s, some false)
    try_candidates (c ∷ candidates) available_window s =
        let r = request_block L sha1 s.manager.state.tasks c (as_u32 available_window) env.now in
        let s' = set_tasks s r.0 in
        use_blocks c.index r.1 s' (try_candidates candidates available_window s')

    unfoldable pub top_off_inflight_window : Fsm → Bool → Fsm × Option Bool
    top_off_inflight_window s is_choked =
        let max_inflight = env.peer_options.per_peer_inflight_count in
        let inflight_count = s.network_state.inflight_messages in
        if is_choked
        then (s, some false)
        else if leb max_inflight inflight_count
        then (s, some false)
        else try_candidates (env.shuffle (values s.network_state.active_requests))
            (max_inflight - inflight_count) s

    -- The loop of `run_window_topoff`, with fuel.
    unfoldable pub topoff_loop : ℕ → Bool → Fsm → Option (Fsm × Bool)
    topoff_loop zero is_choked s = none
    topoff_loop (suc fuel) is_choked s =
        let r = top_off_inflight_window s is_choked in
        let again = topoff_loop fuel is_choked r.0 in
        elim r.1 [ none ↦ some (r.0, false) | some true ↦ again | some false ↦ some (r.0, true) ]

    unfoldable pub run_window_topoff : ℕ → Fsm → Option (Fsm × Bool)
    run_window_topoff fuel s = topoff_loop fuel s.peer.peer_choking s
