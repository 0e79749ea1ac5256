-- ===== src/Protocols/PeerProtocolStateMachine/Interleaving.antt =====
-- The tasks of one connection in peer_protocol_state_machine.rs, interleaved in any order between
-- the waits of the writer's top-off.
use Prim.Native.String.{String}
use mathlib.Core.Path.{subst}
use fissure.Common.{
  ℕ, suc, ◌+◌, ◌-◌, ◌^◌, ◌<◌, ◌≤◌, ◌≡◌, refl, sym, ap, some, List, [], ◌∷◌, ◌++◌, length, arith,
  Bool-cases, Option-cases, Outcome-cases, inl, inr,
}
use fissure.Common.Bits.{BitVecLib}
use fissure.Common.Bytes.{wrap, wrap_lt, as_u32}
use fissure.Common.HashMap
use fissure.Common.HashMap.{nat_Eq}
use fissure.Models.PeerMessages.{
  PeerMessage, keep_alive, choke, unchoke, interested, not_interested, have_piece, bitfield,
  request, piece, cancel, port,
}
use fissure.Managers.PieceManager.AtMost.{request_block-le}
use fissure.Managers.PieceManager.Handle.{PieceRequestManager, Tasks, request_block, block_recvied}
use fissure.Managers.DiskManager.{FileSystem}
use fissure.Managers.TorrentManager.{Floats}
use fissure.Managers.TorrentManager.Handle.{
  get_piece_manager, add_bitfield, has_useful_pieces, update_and_get_active_request_count,
}
use fissure.Protocols.PeerProtocolStateMachine.{Env, Fsm, set_tasks, set_inflight, send}
use fissure.Protocols.PeerProtocolStateMachine.Writer.{watchdog_tick}
use fissure.Protocols.PeerProtocolStateMachine.Reader.{
  notify_state, notify_block, free_slot, own_block, late_block, read_piece, read_message,
}

-- Where the writer is in `top_off_inflight_window`: outside of it, behind the read of the counter
-- with its window, or with these requests of a piece still to send.
pub data Pc : Type 0 where
  idle : Pc
  loaded : ℕ → Pc
  sending : ℕ → List (ℕ × ℕ) → Pc

-- How many requests the writer may still send before it reads the counter again.
abbrev pub room : Pc → ℕ
room idle = 0
room (loaded window) = window
room (sending index req_pieces) = length req_pieces

-- A candidate that hands out nothing is passed over.
abbrev pub asked : ℕ → ℕ → List (ℕ × ℕ) → Pc
asked window index [] = loaded window
asked window index (p ∷ req_pieces) = sending index (p ∷ req_pieces)

module _ (L : BitVecLib) (FS : FileSystem) (FL : Floats) (sha1 : List ℕ → List ℕ)
    (env : Env L.BitVec) (peer_id : String) where
  open L use {BitVec}

  abbrev F : Type 0
  F = Fsm L FS FL sha1

  abbrev inflight : F → ℕ
  inflight s = s.network_state.inflight_messages

  abbrev max_inflight : ℕ
  max_inflight = env.peer_options.per_peer_inflight_count

  pub record Point : Type 0 where
    pub fsm : F
    pub pc : Pc

  -- One step of one task. `read` and `watch` are the other two tasks, on any message of the peer.
  pub data Step (p : Point) : Point → Type 0 where
    load :
        p.pc ≡ idle
        → inflight p.fsm < max_inflight
        → Step p (record { fsm = p.fsm; pc = loaded (max_inflight - inflight p.fsm) })
    ask :
        (c : PieceRequestManager) (window now : ℕ) (r : Tasks L sha1 × List (ℕ × ℕ))
        → p.pc ≡ loaded window
        → request_block L sha1 p.fsm.manager.state.tasks c (as_u32 window) now ≡ r
        → Step p (record { fsm = set_tasks L FS FL sha1 p.fsm r.0; pc = asked window c.index r.1 })
    push :
        (index : ℕ) (q : ℕ × ℕ) (req_pieces : List (ℕ × ℕ)) (s : F)
        → p.pc ≡ sending index (q ∷ req_pieces)
        → send L FS FL sha1 env p.fsm (request index q.0 q.1) ≡ some s
        → Step p (record {
          fsm = set_inflight L FS FL sha1 s (wrap (s.network_state.inflight_messages + 1));
          pc = sending index req_pieces;
        })
    leave : Step p (record { fsm = p.fsm; pc = idle })
    read :
        (m : PeerMessage BitVec)
        → Step p
            (record { fsm = (read_message L FS FL sha1 env.order p.fsm peer_id m).0; pc = p.pc })
    watch : Step p (record { fsm = (watchdog_tick L FS FL sha1 env p.fsm peer_id).0; pc = p.pc })

  pub data Reach (p : Point) : Point → Type 0 where
    here : Reach p p
    next : {q r : Point} → Reach p q → Step q r → Reach p r

  abbrev pub IsWithin : Point → Type 0
  IsWithin p = inflight p.fsm + room p.pc ≤ max_inflight

  own_block-inflight :
      (s : F) (id : String) (index offset : ℕ) (bytes : List ℕ) (m : PieceRequestManager)
      → inflight (own_block L FS FL sha1 env.order s id index offset bytes m) ≡ inflight s
  unfolding own_block notify_state notify_block free_slot set_tasks
  own_block-inflight s id index offset bytes m =
      elim (Bool-cases (block_recvied L sha1 s.manager.state.tasks m offset bytes).1) [
        | inl t ↦ rw (own_block, t) refl
        | inr f ↦ rw (own_block, f) refl
      ]

  late_block-inflight :
      (s : F) (id : String) (index offset : ℕ) (bytes : List ℕ)
      → inflight (late_block L FS FL sha1 env.order s id index offset bytes) ≡ inflight s
  unfolding late_block notify_state notify_block set_tasks
  late_block-inflight s id index offset bytes =
      elim (Option-cases (get_piece_manager L FS FL sha1 env.order s.manager index)) [
        | inl n ↦ rw (late_block, n) refl
        | inr (m, e) ↦
            elim (Bool-cases (block_recvied L sha1 s.manager.state.tasks m offset bytes).1) [
              | inl t ↦ rw (late_block, e, t) refl
              | inr f ↦ rw (late_block, e, f) refl
            ]
      ]

  pub read_piece-inflight :
      (s : F) (id : String) (index offset : ℕ) (bytes : List ℕ)
      → inflight (read_piece L FS FL sha1 env.order s id index offset bytes) ≡ inflight s - 1
  unfolding read_piece set_inflight
  read_piece-inflight s id index offset bytes =
      let s' : F = set_inflight L FS FL sha1 s (inflight s - 1) in
      elim (Option-cases (HashMap.get s.network_state.active_requests index)) [
        | inl n ↦ rw (read_piece, n) (late_block-inflight s' id index offset bytes)
        | inr (m, e) ↦ rw (read_piece, e) (own_block-inflight s' id index offset bytes m)
      ]

  pub read_message-inflight :
      (s : F) (m : PeerMessage BitVec)
      → inflight (read_message L FS FL sha1 env.order s peer_id m).0 ≤ inflight s
  unfolding read_message notify_state set_inflight
  read_message-inflight s keep_alive = omega arith
  read_message-inflight s choke = omega arith
  read_message-inflight s unchoke = omega arith
  read_message-inflight s interested = omega arith
  read_message-inflight s not_interested = omega arith
  read_message-inflight s (have_piece index) = omega arith
  read_message-inflight s (bitfield b) =
      elim (Outcome-cases
        (has_useful_pieces L FS FL sha1 env.order
          (add_bitfield L FS FL sha1 env.order s.manager peer_id b).0 peer_id).1) [
            | inl n ↦ rw (read_message, n) (omega arith)
            | inr (u, e) ↦ rw (read_message, e) (omega arith)
          ]
  read_message-inflight s (request index offset l) = omega arith
  read_message-inflight s (piece index offset bytes) =
      omega (arith, read_piece-inflight s peer_id index offset bytes)
  read_message-inflight s (cancel index offset l) = omega arith
  read_message-inflight s port = omega arith

  watchdog_tick-inflight :
      (s : F) → inflight (watchdog_tick L FS FL sha1 env s peer_id).0 ≡ inflight s
  unfolding watchdog_tick
  watchdog_tick-inflight s =
      elim (Option-cases
        (update_and_get_active_request_count L FS FL sha1 env.order s.manager peer_id env.now).1) [
          | inl n ↦ rw (watchdog_tick, n) refl
          | inr (l, e) ↦ rw (watchdog_tick, e) refl
        ]

  send-inflight :
      (s s' : F) (m : PeerMessage BitVec)
      → send L FS FL sha1 env s m ≡ some s'
      → inflight s' ≡ inflight s
  unfolding send
  send-inflight s s' m e = elim (Bool-cases (env.writable s.sent)) [
    | inl t ↦
        let same : ◌≡◌ {A = F} (record s { sent = s.sent ++ (m ∷ []) }) s' =
          cc (rw (send, t) at e) in
        ap (λ (x : F). inflight x) (sym same)
    | inr f ↦ absurd (cc (rw (send, f) at e))
  ]

  asked-room :
      (window index : ℕ) (ps : List (ℕ × ℕ))
      → length ps ≤ window
      → room (asked window index ps) ≤ window
  asked-room window index [] h = omega arith
  asked-room window index (p ∷ ps) h = h

  Step-IsWithin : (p q : Point) → max_inflight < 2 ^ 64 → Step p q → IsWithin p → IsWithin q
  unfolding set_tasks set_inflight
  Step-IsWithin p q w (load e lt) h = omega arith
  Step-IsWithin p q w (ask c window now r e x) h =
      let at_most : length (request_block L sha1 p.fsm.manager.state.tasks c (as_u32 window) now).1
          ≤ as_u32 window =
        request_block-le L sha1 p.fsm.manager.state.tasks c (as_u32 window) now in
      let of_r : length r.1 ≤ as_u32 window =
        subst (λ (t : Tasks L sha1 × List (ℕ × ℕ)). length t.1 ≤ as_u32 window) x at_most in
      let few : length r.1 ≤ window = omega arith in
      let here : inflight p.fsm + window ≤ max_inflight = rw e at h in
      omega (arith, asked-room window c.index r.1 few)
  Step-IsWithin p q w (push index x ps s e sent) h =
      let here : inflight p.fsm + suc (length ps) ≤ max_inflight = rw e at h in
      let same = send-inflight p.fsm s (request index x.0 x.1) sent in
      let plus : wrap (inflight s + 1) ≡ inflight s + 1 = wrap_lt (inflight s + 1) (omega arith) in
      omega arith
  Step-IsWithin p q w leave h = omega arith
  Step-IsWithin p q w (read m) h = omega (arith, read_message-inflight p.fsm m)
  Step-IsWithin p q w watch h = omega (arith, watchdog_tick-inflight p.fsm)

  -- However the reader's messages and the watchdog's ticks fall between the steps of the writer's
  -- top-off, the number of requests in flight never passes the configured limit, which is a 64-bit
  -- number, and neither does it together with the requests that the writer is about to send. This
  -- holds from every point at which it holds, such as the start.
  pub Reach-IsWithin : (p q : Point) → max_inflight < 2 ^ 64 → IsWithin p → Reach p q → IsWithin q
  Reach-IsWithin p q w h here = h
  Reach-IsWithin p r w h (next {q} reach step) =
      Step-IsWithin q r w step (Reach-IsWithin p q w h reach)
