-- ===== src/Protocols/PeerProtocolStateMachine/Writer.antt =====
-- The writer and the watchdog of peer_protocol_state_machine.rs.
use Prim.Native.String.{String}
use fissure.Common.{
  ℕ, zero, suc, ◌+◌, Bool, true, false, not, ◌&&◌, ◌||◌, Outcome, done, panic, Option, some, none,
  List, [], ◌∷◌, ltb, ◌==◌, if◌then◌else◌, length,
}
use fissure.Common.Bits.{BitVecLib}
use fissure.Common.Bytes.{wrap}
use fissure.Common.HashMap
use fissure.Common.HashMap.{nat_Eq}
use fissure.Models.PeerMessages.{interested, have_piece}
use fissure.Managers.PieceManager.Handle.{PieceRequestManager}
use fissure.Managers.DiskManager.{FileSystem}
use fissure.Managers.TorrentManager.{Floats}
use fissure.Managers.TorrentManager.Handle.{
  request_piece, update_and_get_active_request_count, get_have_message_progress,
}
use fissure.Protocols.PeerProtocolStateMachine.{
  Env, Fsm, send, top_off_inflight_window, run_window_topoff,
}

-- How a round of the full pass goes on: with another round, or with the pass's result.
pub data Round : Type 0 where
  again : Round
  over : Bool → Round
  panicked : Round

-- `requests.retain(..)`
unfoldable pub is_active : List (ℕ × ℕ) → ℕ → Bool
is_active [] k = false
is_active ((t, time) ∷ still) k = if t == k then true else is_active still k

unfoldable pub retain_active :
    List (ℕ × ℕ) → List (ℕ × PieceRequestManager) → List (ℕ × PieceRequestManager)
retain_active still [] = []
retain_active still ((k, m) ∷ requests) =
    let rest = retain_active still requests in if is_active still k then (k, m) ∷ rest else rest

module _ (L : BitVecLib) (FS : FileSystem) (FL : Floats) (sha1 : List ℕ → List ℕ)
    (env : Env L.BitVec) where
  open L use {BitVec}

  abbrev F : Type 0
  F = Fsm L FS FL sha1

  -- A piece is taken into the active ones.
  unfoldable pub add_active : F → PieceRequestManager → F
  add_active s req = record s {
    network_state = record s.network_state {
      active_requests = HashMap.insert s.network_state.active_requests req.index req;
      pending_active_request_count = wrap (s.network_state.pending_active_request_count + 1);
    };
  }

  -- The end of a round: the window is topped off.
  unfoldable pub end_round : F → Bool → Bool → F × Round
  end_round s is_choked made_progress =
      let r = top_off_inflight_window L FS FL sha1 env s is_choked in
      (
        r.0,
        elim r.1 [
          | none ↦ over false
          | some progressed ↦ if made_progress || progressed then again else over true
        ],
      )

  -- The second part of a round: a new piece, if there is a place for it.
  unfoldable pub request_work : F → Bool → F × Round
  request_work s is_choked =
      if not is_choked
        && ltb s.network_state.pending_active_request_count
            env.peer_options.per_peer_active_request_count
      then elim s.peer.peer_id [
        | none ↦ (s, panicked)
        | some peer_id ↦
            let r = request_piece L FS FL sha1 env.order s.manager peer_id env.now in
            let s' = record s { manager = r.0 } in
            elim r.1 [
              | none ↦ end_round s' is_choked false
              | some req ↦ end_round (add_active s' req) is_choked true
            ]
      ]
      else end_round s is_choked false

  -- One round of the loop of `run_full_pass`.
  unfoldable pub full_round : F → F × Round
  full_round s =
      if s.peer.has_useful_pieces && not s.peer.am_interested
      then elim (send L FS FL sha1 env s interested) [
        | none ↦ (s, over false)
        | some s' ↦
            request_work (record s' { peer = record s'.peer { am_interested = true } })
              s.peer.peer_choking
      ]
      else request_work s s.peer.peer_choking

  -- The loop, with fuel. A result `panic` is a panic of the writer's task.
  unfoldable pub run_full_pass : ℕ → F → Option (F × Outcome Bool)
  run_full_pass zero s = none
  run_full_pass (suc fuel) s =
      let r = full_round s in
      let rest = run_full_pass fuel r.0 in
      elim r.1 [ again ↦ rest | over ok ↦ some (r.0, done ok) | panicked ↦ some (r.0, panic) ]

  -- The loop over `new_pieces`, until the socket fails.
  unfoldable pub send_haves : List ℕ → F → F × Bool
  send_haves [] s = (s, true)
  send_haves (piece_index ∷ new_pieces) s =
      elim (send L FS FL sha1 env s (have_piece piece_index)) [
        | none ↦ (s, false)
        | some s' ↦ send_haves new_pieces s'
      ]

  -- `Wake::Have`: the state, the result, and `last_seen` afterwards.
  unfoldable pub wake_have : F → ℕ → F × Outcome (Bool × ℕ)
  wake_have s last_seen =
      let current_len = s.manager.state.peer_notifier in
      let r = get_have_message_progress L FS FL sha1 env.order s.manager last_seen in
      let s' = record s { manager = r.0 } in
      elim r.1 [
        | none ↦ (s', panic)
        | some new_pieces ↦
            let sent = send_haves new_pieces s' in (sent.0, done (sent.1, current_len))
      ]

  -- `Wake::State`, `Wake::Tick` and `Wake::Block`. The first and the last take the permit.
  unfoldable pub wake_state : ℕ → F → Option (F × Outcome Bool)
  wake_state fuel s =
      run_full_pass fuel
        (record s { network_state = record s.network_state { state_update = false } })

  unfoldable pub wake_tick : ℕ → F → Option (F × Outcome Bool)
  wake_tick fuel s = run_full_pass fuel s

  unfoldable pub wake_block : ℕ → F → Option (F × Bool)
  wake_block fuel s =
      run_window_topoff L FS FL sha1 env fuel
        (record s { network_state = record s.network_state { block_acked = false } })

  -- One tick of the watchdog, and whether it goes on.
  unfoldable pub watchdog_tick : F → String → F × Bool
  watchdog_tick s peer_id_key =
      let r =
        update_and_get_active_request_count L FS FL sha1 env.order s.manager peer_id_key env.now in
      let s' = record s { manager = r.0 } in
      elim r.1 [
        | none ↦ (s', false)
        | some still_active_requests ↦
            let requests = retain_active still_active_requests s.network_state.active_requests in
            (
              record s' {
                network_state = record s.network_state {
                  pending_active_request_count = length still_active_requests;
                  active_requests = requests;
                  state_update =
                      if not (length requests == length s.network_state.active_requests)
                      then true
                      else s.network_state.state_update;
                };
              },
              true,
            )
      ]
