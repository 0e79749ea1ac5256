-- ===== src/Managers/TorrentManager/Counted.antt =====
-- Every message of torrent_manager.rs keeps the counts of pieces above what the peers have.
use Prim.Native.String.{String}
use fissure.Common.{
  ℕ, ◌<◌, ◌≤◌, min, ◌≡◌, inl, inr, true, false, Outcome, done, panic, ◌>>=◌, some, Option-cases,
  Outcome-cases, Bool-cases, List, ltb, ltb→lt, ltb→le, ◌==◌, set, get_elem?, arith,
}
use fissure.Common.Bits.{BitVecLib, BitVecLaws, get_or_false, index}
use fissure.Common.Bits.Flags.{get_or_false-set, set_bit_lem, set_bit_oob}
use fissure.Common.HashMap
use fissure.Common.HashMap.{nat_Eq, string_Eq}
use fissure.Models.TorrentMeta.{get_piece_hash, get_piece_length}
use fissure.Managers.PieceManager.Handle.{PieceRequestManager}
use fissure.Managers.DiskManager.{FileSystem, flush_piece_to_disk}
use fissure.Managers.TorrentManager.{Floats, State}
use fissure.Managers.TorrentManager.Handlers.{
  Message, add_peer, update_bit_field, add_bit_feild, remove_peer, piece_finish, request_work,
  get_torrent_stats, update_and_get_active_request_count, has_useful_pieces, get_active_peers,
  get_data, get_piece_manager, get_have_message_progress, Reply, find, candidates, is_assignable,
  piece_manager_for, handle_request_work, assign, retain_work, handle_update_active, retire_piece,
  persist_piece, release_manager, handle_piece_finish, handle_has_useful_pieces,
  handle_have_progress, handle,
}
use fissure.Managers.TorrentManager.Rarity.{frequency_of, frequency_of-set}
use fissure.Managers.TorrentManager.Holders.{holders, IfDone, some-lt}
use fissure.Managers.TorrentManager.Counting.{
  IsCounted, handle_add_peer-IsCounted, handle_add_bit_feild-IsCounted,
  handle_update_bit_field-IsCounted,
}

module _ (L : BitVecLib) (W : BitVecLaws L) (FS : FileSystem) (FL : Floats)
    (sha1 : List ℕ → List ℕ) where
  open L use {BitVec, len, set as set_at}

  -- What a handler returns has its counts, unless it panics.
  abbrev pub KeepsCounts : Outcome (State L FS FL sha1 × Reply BitVec) → Type 0
  KeepsCounts o =
      IfDone L FS FL sha1 (λ (r : State L FS FL sha1 × Reply BitVec). IsCounted L W FS FL sha1 r.0)
        o

  -- Code that only reads.
  reads :
      (s : State L FS FL sha1) (o : Outcome (Reply BitVec))
      → IsCounted L W FS FL sha1 s
      → KeepsCounts (o >>= λ r. done (s, r))
  reads s panic v = tt
  reads s (done r) v = v

  piece_manager_for-IsCounted :
      (s : State L FS FL sha1) (idx : ℕ)
      → IsCounted L W FS FL sha1 s
      → IfDone L FS FL sha1
          (λ (r : State L FS FL sha1 × PieceRequestManager). IsCounted L W FS FL sha1 r.0)
          (piece_manager_for L FS FL sha1 s idx)
  unfolding piece_manager_for
  piece_manager_for-IsCounted s idx v =
      let meta = s.client_torrent_meta.raw_torrent in
      elim (Option-cases (HashMap.get s.active_pieces_manager idx)) [
        | inr (m, found) ↦ rw (piece_manager_for, found) v
        | inl missing ↦ elim (Outcome-cases (get_piece_hash meta idx)) [
          | inl bad ↦ rw (piece_manager_for, missing) (rw bad tt)
          | inr (hash, e) ↦ elim (Outcome-cases (get_piece_length meta idx)) [
            | inl bad ↦ rw (piece_manager_for, missing) (rw e (rw bad tt))
            | inr (p_len, f) ↦ rw (piece_manager_for, missing) (rw e (rw f v))
          ]
        ]
      ]

  assign-KeepsCounts :
      (s : State L FS FL sha1) (peer : String) (now idx : ℕ)
      → IsCounted L W FS FL sha1 s
      → KeepsCounts (assign L FS FL sha1 s peer now idx)
  unfolding assign
  assign-KeepsCounts s peer now idx v =
      let kept = piece_manager_for-IsCounted s idx v in
      elim (Outcome-cases (piece_manager_for L FS FL sha1 s idx)) [
        | inl bad ↦ rw bad tt
        | inr ((t, m), good) ↦
            let w = rw good at kept in
            elim (Option-cases (HashMap.get t.piece_concurrency_counts idx)) [
              | inl bad ↦ rw good (rw bad tt)
              | inr (count, e) ↦ elim (Option-cases (HashMap.get t.peer_active_work peer)) [
                | inl bad ↦ rw good (rw e (rw bad tt))
                | inr (assigned, f) ↦ rw good (rw e (rw f w))
              ]
            ]
      ]

  persist_piece-IsCounted :
      (s : State L FS FL sha1) (idx : ℕ) (manager : PieceRequestManager)
      → IsCounted L W FS FL sha1 s
      → IfDone L FS FL sha1 (IsCounted L W FS FL sha1) (persist_piece L FS FL sha1 s idx manager)
  unfolding persist_piece
  persist_piece-IsCounted s idx manager v =
      elim (Bool-cases (flush_piece_to_disk FS L sha1 s.disk_manager s.tasks manager).1) [
        | inl flushed ↦ elim (Option-cases (FL.parse s.stats.downloaded)) [
          | inl bad ↦ rw (flushed, bad) tt
          | inr (x, good) ↦ rw (flushed, good) v
        ]
        | inr lost ↦ rw lost v
      ]

  release_manager-KeepsCounts :
      (s : State L FS FL sha1) (idx : ℕ)
      → IsCounted L W FS FL sha1 s
      → KeepsCounts (release_manager L FS FL sha1 s idx)
  unfolding release_manager
  release_manager-KeepsCounts s idx v =
      let u : State L FS FL sha1 = record s {
        active_pieces_manager = HashMap.remove s.active_pieces_manager idx;
      } in
      elim (Option-cases (HashMap.get s.active_pieces_manager idx)) [
        | inl missing ↦ rw (release_manager, missing) v
        | inr (manager, found) ↦
            let kept = persist_piece-IsCounted u idx manager v in
            elim (Outcome-cases (persist_piece L FS FL sha1 u idx manager)) [
              | inl bad ↦ rw (release_manager, found) (rw bad tt)
              | inr (w, good) ↦ rw (release_manager, found) (rw good (rw good at kept))
            ]
      ]

  -- A piece that this client has now need not be counted.
  retired-IsCounted :
      (s : State L FS FL sha1) (idx n : ℕ) (bucket : List ℕ)
      → idx < len s.local_bitfield
      → get_elem? s.pieces_frequency idx ≡ some n
      → IsCounted L W FS FL sha1 s
      → (i : ℕ) → get_or_false L (set_at s.local_bitfield idx true) i ≡ false
      → min (holders L s.peer_bitfields i) 255 ≤ frequency_of (set s.pieces_frequency idx 0) i
  retired-IsCounted s idx n bucket h e v i away =
      let lt = some-lt s.pieces_frequency idx n e in
      let bit = get_or_false-set L W s.local_bitfield idx true i h in
      let other : (idx == i) ≡ false = ground (arith, bit, away) in
      rw (frequency_of-set s.pieces_frequency idx 0 i lt, other)
        (v i (ground (arith, bit, away, other)))

  retire_piece-IsCounted :
      (s : State L FS FL sha1) (idx : ℕ)
      → IsCounted L W FS FL sha1 s
      → IfDone L FS FL sha1 (IsCounted L W FS FL sha1) (retire_piece L FS FL sha1 s idx)
  unfolding retire_piece
  retire_piece-IsCounted s idx v = elim (Bool-cases (ltb idx (len s.local_bitfield))) [
    | inr past ↦ rw (set_bit_oob L W s.local_bitfield idx true (ltb→le _ _ past)) tt
    | inl inside ↦
        let h = ltb→lt _ _ inside in
        let own = set_bit_lem L W s.local_bitfield idx true h in
        elim (Option-cases (get_elem? s.pieces_frequency idx)) [
          | inl e ↦ rw own (rw e tt)
          | inr (n, e) ↦ elim (Option-cases (get_elem? s.rarity_bucket (min n 255))) [
            | inl f ↦ rw own (rw e (rw f tt))
            | inr (bucket, f) ↦ rw own (rw e (rw f (retired-IsCounted s idx n bucket h e v)))
          ]
        ]
  ]

  piece_finish-KeepsCounts :
      (s : State L FS FL sha1) (idx : ℕ)
      → IsCounted L W FS FL sha1 s
      → KeepsCounts (handle_piece_finish L FS FL sha1 s idx)
  unfolding handle_piece_finish
  piece_finish-KeepsCounts s idx v =
      let kept = retire_piece-IsCounted s idx v in
      elim (Outcome-cases (index L s.local_bitfield idx)) [
        | inl bad ↦ rw bad tt
        | inr (true, e) ↦ rw e v
        | inr (false, e) ↦ elim (Outcome-cases (retire_piece L FS FL sha1 s idx)) [
          | inl bad ↦ rw e (rw bad tt)
          | inr (t, good) ↦ rw e (rw good (release_manager-KeepsCounts t idx (rw good at kept)))
        ]
      ]

  request_work-KeepsCounts :
      (order : List ℕ → List ℕ) (s : State L FS FL sha1) (peer : String) (now : ℕ)
      → IsCounted L W FS FL sha1 s
      → KeepsCounts (handle_request_work L FS FL sha1 order s peer now)
  unfolding handle_request_work
  request_work-KeepsCounts order s peer now v =
      elim (Option-cases (HashMap.get s.peer_bitfields peer)) [
        | inl unknown ↦ rw (handle_request_work, unknown) v
        | inr (b, known) ↦
            elim (Option-cases
              (find (is_assignable L FS FL sha1 s peer b) (candidates order s.rarity_bucket))) [
                | inl nothing ↦ rw (handle_request_work, known) (rw nothing v)
                | inr (idx, found) ↦
                    rw (handle_request_work, known) (rw found (assign-KeepsCounts s peer now idx v))
              ]
      ]

  update_active-KeepsCounts :
      (s : State L FS FL sha1) (peer : String) (now : ℕ)
      → IsCounted L W FS FL sha1 s
      → KeepsCounts (handle_update_active L FS FL sha1 s peer now)
  unfolding handle_update_active
  update_active-KeepsCounts s peer now v =
      elim (Option-cases (HashMap.get s.peer_active_work peer)) [
        | inl unknown ↦ rw (handle_update_active, unknown) v
        | inr (work, known) ↦
            elim (Outcome-cases (
              retain_work L FS FL sha1 s.local_bitfield s.peer_options.piece_request_timeout now
                work s.piece_concurrency_counts)) [
                  | inl bad ↦ rw (handle_update_active, known) (rw bad tt)
                  | inr (kept, good) ↦ rw (handle_update_active, known) (rw good v)
                ]
      ]

  -- One round of the loop of the torrent manager.
  pub handle-KeepsCounts :
      (order : List ℕ → List ℕ) (s : State L FS FL sha1) (m : Message BitVec)
      → IsCounted L W FS FL sha1 s
      → KeepsCounts (handle L FS FL sha1 order s m)
  unfolding handle
  handle-KeepsCounts order s (add_peer peer b) v =
      handle_add_peer-IsCounted L W FS FL sha1 s peer b v
  handle-KeepsCounts order s (update_bit_field peer idx) v =
      handle_update_bit_field-IsCounted L W FS FL sha1 s peer idx v
  handle-KeepsCounts order s (add_bit_feild peer b) v =
      handle_add_bit_feild-IsCounted L W FS FL sha1 s peer b v
  handle-KeepsCounts order s (remove_peer peer) v = v
  handle-KeepsCounts order s (piece_finish peer idx) v = piece_finish-KeepsCounts s idx v
  handle-KeepsCounts order s (request_work peer now) v = request_work-KeepsCounts order s peer now v
  handle-KeepsCounts order s get_torrent_stats v = v
  handle-KeepsCounts order s (update_and_get_active_request_count peer now) v =
      update_active-KeepsCounts s peer now v
  handle-KeepsCounts order s (has_useful_pieces peer) v =
      reads s (handle_has_useful_pieces L FS FL sha1 s peer) v
  handle-KeepsCounts order s get_active_peers v = v
  handle-KeepsCounts order s (get_data piece_index offset count) v = v
  handle-KeepsCounts order s (get_piece_manager piece_index) v = v
  handle-KeepsCounts order s (get_have_message_progress since) v =
      reads s (handle_have_progress L FS FL sha1 s since) v
