-- ===== src/Protocols/PeerProtocolStateMachine/Haves.antt =====
-- The Have messages that the writer of peer_protocol_state_machine.rs sends.
use fissure.Common.{
  ℕ, ◌≤◌, ◌≡◌, refl, ap, ◌∙◌, Bool, true, done, some, List, [], ◌∷◌, ◌++◌, map, length, drop,
  append_nil, append_assoc, le→ltb,
}
use fissure.Common.Bits.{BitVecLib}
use fissure.Models.PeerMessages.{PeerMessage, have_piece}
use fissure.Managers.DiskManager.{FileSystem}
use fissure.Managers.TorrentManager.{Floats}
use fissure.Managers.TorrentManager.Handle.{
  Actor, answer, deliver, send as send_message, get_have_message_progress,
}
use fissure.Managers.TorrentManager.Handlers.{handle, handle_have_progress}
use fissure.Protocols.PeerProtocolStateMachine.{Env, Fsm, send}
use fissure.Protocols.PeerProtocolStateMachine.Writer.{send_haves, wake_have}

module _ (L : BitVecLib) (FS : FileSystem) (FL : Floats) (sha1 : List ℕ → List ℕ)
    (env : Env L.BitVec) where
  open L use {BitVec}

  abbrev F : Type 0
  F = Fsm L FS FL sha1

  abbrev pub IsWritable : Type 0
  IsWritable = (l : List (PeerMessage BitVec)) → env.writable l ≡ true

  abbrev pub haves : List ℕ → List (PeerMessage BitVec)
  haves ps = map have_piece ps

  abbrev with_sent : F → List (PeerMessage BitVec) → F × Bool
  with_sent s l = (record s { sent = l }, true)

  send_haves_lem :
      (ps : List ℕ) (s : F)
      → IsWritable
      → send_haves L FS FL sha1 env ps s ≡ (record s { sent = s.sent ++ haves ps }, true)
  unfolding send_haves send
  send_haves_lem [] s w = ap (with_sent s) (append_nil s.sent)
  send_haves_lem (p ∷ ps) s w =
      let rest = send_haves_lem ps (record s { sent = s.sent ++ (have_piece p ∷ []) }) w in
      rw (send_haves, w s.sent)
        (rest ∙ ap (with_sent s) (append_assoc s.sent (have_piece p ∷ []) (haves ps)))

  progress_lem :
      (a : Actor L FS FL sha1) (since : ℕ)
      → a.alive ≡ true
      → since ≤ length a.state.downloaded_piece_index
      → get_have_message_progress L FS FL sha1 env.order a since ≡ (
        record { alive = true; state = a.state },
        some (drop since a.state.downloaded_piece_index),
      )
  unfolding get_have_message_progress send_message deliver answer handle handle_have_progress
  progress_lem a since al le =
      rw
        (
          get_have_message_progress,
          send_message,
          al,
          le→ltb (length a.state.downloaded_piece_index) since le,
        )
        refl

  -- A wake-up for finished pieces sends one Have for each piece in the log from `last_seen` on, in
  -- the order in which the pieces were finished, and then counts the pieces as seen that the
  -- notification told of. The torrent manager is alive, the socket takes all messages, and
  -- `last_seen` is no more than the pieces in the log.
  pub wake_have-sends :
      (s : F) (last_seen : ℕ)
      → s.manager.alive ≡ true
      → last_seen ≤ length s.manager.state.downloaded_piece_index
      → IsWritable
      → ((wake_have L FS FL sha1 env s last_seen).0.sent
          ≡ s.sent ++ haves (drop last_seen s.manager.state.downloaded_piece_index))
        × ((wake_have L FS FL sha1 env s last_seen).1 ≡ done (true, s.manager.state.peer_notifier))
  unfolding wake_have
  wake_have-sends s last_seen al le w =
      rw
        (
          wake_have,
          progress_lem s.manager last_seen al le,
          send_haves_lem (drop last_seen s.manager.state.downloaded_piece_index)
              (record s {
                manager = (get_have_message_progress L FS FL sha1 env.order s.manager last_seen).0;
              })
              w,
        )
        (refl, refl)
