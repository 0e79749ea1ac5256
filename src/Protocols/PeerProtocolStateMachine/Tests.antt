-- ===== src/Protocols/PeerProtocolStateMachine/Tests.antt =====
-- Runs of peer_protocol_state_machine.rs, and its theorems there.
use fissure.Common.{◌≡◌, refl, true, false, done, some, [], ◌∷◌, ◌++◌, arith, inl}
use fissure.Common.Bits.Listed.{listed, listed_laws}
use fissure.Common.HashMap
use fissure.Models.PeerSettings.{default}
use fissure.Models.PeerMessages.{choke, have_piece, bitfield}
use fissure.Managers.DiskManager.Memory.{memory}
use fissure.Managers.TorrentManager.Samples.{
  floats, sha1, walk, silent, silent-Inv, busy, manager, finished,
}
use fissure.Protocols.PeerHandshake.{PeerState}
use fissure.Protocols.PeerProtocolStateMachine.{Env, Fsm, run_window_topoff}
use fissure.Protocols.PeerProtocolStateMachine.Writer.{run_full_pass, wake_have}
use fissure.Protocols.PeerProtocolStateMachine.Reader.{read_message}
use fissure.Protocols.PeerProtocolStateMachine.Window.{
  HasEnded as TopoffHasEnded, run_window_topoff-HasEnded,
}
use fissure.Protocols.PeerProtocolStateMachine.Passes.{
  HasEnded as PassHasEnded, run_full_pass-HasEnded,
}
use fissure.Protocols.PeerProtocolStateMachine.Interleaving.{
  idle, loaded, Point, load, read, Reach, here, next, IsWithin, Reach-IsWithin,
}
use fissure.Protocols.PeerProtocolStateMachine.Messages.{read_message-have_ends_manager}
use fissure.Protocols.PeerProtocolStateMachine.Haves.{wake_have-sends}

abbrev env : Env listed.BitVec
env = record {
  peer_options = record default { per_peer_inflight_count = 2 };
  now = 9;
  order = walk;
  shuffle = λ cs. cs;
  writable = λ l. true;
}

abbrev state : PeerState
state = record {
  peer_id = some "a";
  am_choking = true;
  am_interested = true;
  peer_choking = false;
  peer_interested = false;
  keep_alive = 0;
  has_useful_pieces = true;
}

abbrev S : Type 0
S = Fsm listed memory floats sha1

-- The peer works on piece 0, which has one block, and no request is in flight.
abbrev working : S
working = record {
  network_state = record {
    pending_active_request_count = 1;
    inflight_messages = 0;
    active_requests = (0, manager) ∷ [];
    state_update = false;
    block_acked = false;
  };
  peer = state;
  manager = record { alive = true; state = busy };
  sent = [];
}

run_window_topoff-HasEnded_example :
    TopoffHasEnded listed memory floats sha1 env
      (run_window_topoff listed memory floats sha1 env 3 working)
run_window_topoff-HasEnded_example =
    run_window_topoff-HasEnded listed memory floats sha1 env 3 working (omega arith) (omega arith)
      (omega arith)

run_full_pass-HasEnded_example :
    PassHasEnded listed memory floats sha1 env
      (run_full_pass listed memory floats sha1 env 7 working)
run_full_pass-HasEnded_example =
    run_full_pass-HasEnded listed memory floats sha1 env 7 working (omega arith) (omega arith)
      (omega arith) (omega arith)

abbrev start : Point listed memory floats sha1 env "a"
start = record { fsm = working; pc = idle }

abbrev window_read : Point listed memory floats sha1 env "a"
window_read = record { fsm = working; pc = loaded 2 }

abbrev choked : Point listed memory floats sha1 env "a"
choked = record {
  fsm = (read_message listed memory floats sha1 walk working "a" choke).0;
  pc = loaded 2;
}

choked-Reach : Reach listed memory floats sha1 env "a" start choked
choked-Reach = next (next here (load refl (omega arith))) (read choke)

Reach-IsWithin_example : IsWithin listed memory floats sha1 env "a" choked
Reach-IsWithin_example =
    Reach-IsWithin listed memory floats sha1 env "a" start choked (omega arith) (omega arith)
      choked-Reach

abbrev joining : S
joining = record working { manager = record { alive = true; state = silent } }

-- Another connection of the same torrent, whose peer had sent its bitfield.
abbrev ended : S
ended = record working { manager = record { alive = false; state = silent } }

joining_ends :
    ended.manager.alive
    ≡ (read_message listed memory floats sha1 walk joining "a" (have_piece 0)).0.manager.alive
unfolding HashMap.get read_message fissure.Managers.TorrentManager.Handle.update_bitfield
    fissure.Managers.TorrentManager.Handle.send fissure.Managers.TorrentManager.Handle.deliver
    fissure.Managers.TorrentManager.Handle.answer fissure.Managers.TorrentManager.Handlers.handle
    fissure.Managers.TorrentManager.Handlers.handle_update_bit_field
    fissure.Managers.TorrentManager.Handlers.update_freq_have fissure.Common.Bits.get_or_false
    fissure.Common.Bits.set_bit
joining_ends = refl

read_message-have_ends_manager_example :
    ((read_message listed memory floats sha1 walk joining "a" (have_piece 0)).0.manager.alive
      ≡ false)
    × ((read_message listed memory floats sha1 walk ended "b" (bitfield (true ∷ []))).1 ≡ false)
unfolding HashMap.get
read_message-have_ends_manager_example =
    read_message-have_ends_manager listed listed_laws memory floats sha1 walk joining ended "a" "b"
      0 (true ∷ []) refl silent-Inv (inl (omega arith)) joining_ends

abbrev telling : S
telling = record working {
  manager = record {
    alive = true;
    state = record finished { downloaded_piece_index = 0 ∷ 1 ∷ []; peer_notifier = 2 };
  };
}

wake_have-sends_example :
    ((wake_have listed memory floats sha1 env telling 1).0.sent ≡ [] ++ (have_piece 1 ∷ []))
    × ((wake_have listed memory floats sha1 env telling 1).1 ≡ done (true, 2))
wake_have-sends_example =
    wake_have-sends listed memory floats sha1 env telling 1 refl (omega arith) (λ l. refl)
