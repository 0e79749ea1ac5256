-- ===== src/Managers/TorrentManager/Tests.antt =====
-- Runs of torrent_manager.rs on a torrent of two pieces, and its theorems there.
use fissure.Common.{
  ℕ, zero, suc, ◌+◌, ◌*◌, ◌<◌, ◌≤◌, ◌≡◌, ◌↔◌, ◌⊎◌, refl, inl, inr, Bool, true, false, not, ◌&&◌,
  ◌||◌, Outcome, done, panic, Option, some, none, List, [], ◌∷◌, ◌==◌, replicate, elem, length,
  arith,
}
use fissure.Common.Bits.{get_or_false}
use fissure.Common.Bits.Listed.{listed, listed_laws}
use fissure.Common.HashMap
use fissure.Common.HashMap.{nat_Eq, string_Eq}
use fissure.Models.PeerSettings.{default}
use fissure.Managers.PieceManager.{new as new_piece}
use fissure.Managers.PieceManager.Handle.{PieceRequestManager}
use fissure.Managers.DiskManager.Memory.{memory}
use fissure.Managers.TorrentManager.{Floats, State, ClientTorrentMetaInfo, new}
use fissure.Managers.TorrentManager.Handlers.{
  Message, Reply, add_peer, work, no_reply, is_assignable, handle_add_bit_feild,
  handle_update_bit_field, handle_request_work, handle_piece_finish, handle,
}
use fissure.Managers.TorrentManager.Rarity.{in_bucket}
use fissure.Managers.TorrentManager.Invariant.{Inv}
use fissure.Managers.TorrentManager.Bitfields.{
  HasStray, handle_add_bit_feild_panics_iff, handle_update_bit_field_panics_iff,
}
use fissure.Managers.TorrentManager.Haves.{IsUnusable}
use fissure.Managers.TorrentManager.Finish.{IsRetired, handle_piece_finish-IsRetired}
use fissure.Managers.TorrentManager.Assignment.{IsAssigned}
use fissure.Managers.TorrentManager.Work.{IsFit, handle_request_work-IsAssigned}
use fissure.Common.Bits.{index}
use fissure.Managers.TorrentManager.Handlers.{retain_work, run}
use fissure.Managers.TorrentManager.Reach.{new-Inv}
use fissure.Managers.TorrentManager.Runs.{IsPlaced, run-new-IsPlaced}
use fissure.Managers.TorrentManager.Samples.{
  floats, sha1, S, torrent, fresh, new-fresh, walk, walk-IsWalk, joined, silent, manager, busy,
  finished, handle-joined, joined-Inv,
}

-- A `Have` before the bitfield.
handle-silent :
    handle listed memory floats sha1 walk silent (Message.update_bit_field "a" 0) ≡ panic
unfolding handle handle_update_bit_field fissure.Managers.TorrentManager.Handlers.update_freq_have
    get_or_false HashMap.get fissure.Common.Bits.set_bit
handle-silent = refl

request_busy :
    handle_request_work listed memory floats sha1 walk joined "a" 7
    ≡ done (busy, work (some manager))
unfolding handle_request_work HashMap.get fissure.Managers.TorrentManager.Handlers.find
    fissure.Managers.TorrentManager.Handlers.candidates is_assignable get_or_false
    fissure.Managers.TorrentManager.works_on fissure.Managers.TorrentManager.Handlers.assign
    fissure.Managers.TorrentManager.Handlers.piece_manager_for
    fissure.Models.TorrentMeta.get_piece_hash fissure.Common.Bytes.wrap
    fissure.Models.TorrentMeta.get_piece_length fissure.Models.TorrentMeta.download_size
    fissure.Models.TorrentMeta.files fissure.Models.TorrentMeta.get_number_of_pieces HashMap.insert
    fissure.Managers.PieceManager.Handle.spawn fissure.Models.TorrentMeta.piece_length_at
    fissure.Models.TorrentMeta.add_lengths
request_busy = refl

request_idle :
    handle_request_work listed memory floats sha1 walk busy "a" 8 ≡ done (busy, work none)
unfolding handle_request_work HashMap.get fissure.Managers.TorrentManager.Handlers.find
    fissure.Managers.TorrentManager.Handlers.candidates is_assignable get_or_false
    fissure.Managers.TorrentManager.works_on
request_idle = refl

finish_joined : handle_piece_finish listed memory floats sha1 joined 0 ≡ done (finished, no_reply)
unfolding handle_piece_finish fissure.Common.Bits.index
    fissure.Managers.TorrentManager.Handlers.retire_piece fissure.Common.Bits.set_bit
    fissure.Managers.TorrentManager.Handlers.release_manager HashMap.get
    fissure.Managers.TorrentManager.set_remove fissure.Managers.TorrentManager.drop_piece_everywhere
    HashMap.remove fissure.Managers.TorrentManager.drop_piece
finish_joined = refl

-- The piece of a running piece manager is written to the file, and logged.
finish_busy :
    (s : S) × (handle_piece_finish listed memory floats sha1 busy 0 ≡ done (s, no_reply))
    × (s.downloaded_piece_index ≡ 0 ∷ [])
    × (s.peer_notifier ≡ 1)
unfolding handle_piece_finish fissure.Common.Bits.index
    fissure.Managers.TorrentManager.Handlers.retire_piece fissure.Common.Bits.set_bit
    fissure.Managers.TorrentManager.Handlers.release_manager HashMap.get
    fissure.Managers.TorrentManager.Handlers.persist_piece
    fissure.Managers.DiskManager.flush_piece_to_disk fissure.Managers.DiskManager.flush_piece
    fissure.Managers.DiskManager.flush_loop fissure.Common.Bytes.wrap
    fissure.Managers.DiskManager.write_part
finish_busy = (_, refl, refl, refl)

new-Inv_example : Inv listed listed_laws memory floats sha1 fresh
new-Inv_example =
    new-Inv listed listed_laws memory floats sha1 torrent "/tmp" default fresh new-fresh

run-joined :
    run listed memory floats sha1 walk fresh (add_peer "a" (true ∷ false ∷ []) ∷ []) ≡ done joined
unfolding run
run-joined = rw handle-joined refl

run-new-IsPlaced_example : IsPlaced listed listed_laws memory floats sha1 joined 0
run-new-IsPlaced_example =
    run-new-IsPlaced listed listed_laws memory floats sha1 walk torrent "/tmp" default fresh joined
      (add_peer "a" (true ∷ false ∷ []) ∷ []) 0 new-fresh run-joined

handle_add_bit_feild_panics_iff_example :
    (handle_add_bit_feild listed memory floats sha1 joined "a" (false ∷ false ∷ true ∷ []) ≡ panic)
    ↔ HasStray listed listed_laws memory floats sha1 joined "a" (false ∷ false ∷ true ∷ [])
handle_add_bit_feild_panics_iff_example =
    handle_add_bit_feild_panics_iff listed listed_laws memory floats sha1 joined "a"
      (false ∷ false ∷ true ∷ []) joined-Inv

handle_update_bit_field_panics_iff_example :
    (handle_update_bit_field listed memory floats sha1 joined "a" 2 ≡ panic)
    ↔ IsUnusable listed listed_laws memory floats sha1
        (false ∷ false ∷ [])
        (some (true ∷ false ∷ []))
        2
unfolding HashMap.get
handle_update_bit_field_panics_iff_example =
    handle_update_bit_field_panics_iff listed listed_laws memory floats sha1 joined "a" 2 joined-Inv

handle_piece_finish-IsRetired_example :
    IsRetired listed listed_laws memory floats sha1 finished 0
    × ((i : ℕ)
        → get_or_false listed (true ∷ false ∷ []) i
          ≡ (0 == i || get_or_false listed (false ∷ false ∷ []) i))
    × (handle_piece_finish listed memory floats sha1 finished 0 ≡ done (finished, no_reply))
    × Inv listed listed_laws memory floats sha1 finished
unfolding get_or_false
handle_piece_finish-IsRetired_example =
    handle_piece_finish-IsRetired listed listed_laws memory floats sha1 joined finished 0 no_reply
      joined-Inv refl finish_joined

handle_request_work-IsAssigned_example :
    (idx : ℕ) × IsFit listed listed_laws memory floats sha1 joined "a" (true ∷ false ∷ []) idx
    × ((f : ℕ) × (in_bucket joined.rarity_bucket f idx ≡ true)
        × ((g j : ℕ)
            → g < f
            → in_bucket joined.rarity_bucket g j ≡ true
            → is_assignable listed memory floats sha1 joined "a" (true ∷ false ∷ []) j ≡ false))
    × IsAssigned listed listed_laws memory floats sha1 joined busy "a" 7 idx manager
unfolding HashMap.get
handle_request_work-IsAssigned_example =
    handle_request_work-IsAssigned listed listed_laws memory floats sha1 walk joined busy "a" 7
      (true ∷ false ∷ []) manager walk-IsWalk refl request_busy

abbrev assigned : List (ℕ × ℕ)
assigned = (0, 0) ∷ (1, 20_000_000_000) ∷ (2, 0) ∷ []

retained :
    retain_work listed memory floats sha1
      (false ∷ false ∷ true ∷ [])
      30
      31_000_000_000
      assigned
      ((0, 2) ∷ (1, 1) ∷ [])
    ≡ done ((1, 20_000_000_000) ∷ [], (0, 1) ∷ (1, 1) ∷ [])
unfolding retain_work index HashMap.get HashMap.insert
retained = refl
