-- ===== src/Managers/TorrentManager/Reach.antt =====
-- Every message keeps the torrent manager's invariant, and the log of finished pieces.
use mathlib.Core.Path.{subst}
use Prim.Native.String.{String}
use fissure.Common.{
  ℕ, zero, suc, ◌%◌, ◌^◌, ◌≡◌, refl, ◌∙◌, sym, ◌⊎◌, inl, inr, false, Outcome, done, panic, ◌>>=◌,
  some, none, Option-cases, Outcome-cases, List, [], get_elem?, replicate, length-replicate,
  Bool-cases, arith,
}
use fissure.Common.Bits.{BitVecLib, BitVecLaws, get_or_false}
use fissure.Common.Bits.Flags.{get_or_false-lt_len, index_lem}
use fissure.Common.HashMap
use fissure.Common.HashMap.{nat_Eq, string_Eq}
use fissure.Models.PeerSettings.{PeerOptions}
use fissure.Models.TorrentMeta.{download_size, get_number_of_pieces}
use fissure.Managers.DiskManager.{FileSystem, get_data_with_length}
use fissure.Managers.TorrentManager.{Floats, State, ClientTorrentMetaInfo, new}
use fissure.Managers.TorrentManager.Handlers.{
  Message, add_peer, update_bit_field, add_bit_feild, remove_peer, piece_finish, request_work,
  get_torrent_stats, update_and_get_active_request_count, has_useful_pieces, get_active_peers,
  get_data, get_piece_manager, get_have_message_progress, Reply, work, find, candidates,
  is_assignable, handle_request_work, assign, retain_work, handle_update_active,
  handle_piece_finish, handle,
}
use fissure.Managers.TorrentManager.Rarity.{IsSorted, frequency_of, in_bucket}
use fissure.Managers.TorrentManager.Invariant.{Inv, SamePieces-Inv}
use fissure.Managers.TorrentManager.Bitfields.{
  handle_add_peer-Inv, handle_add_bit_feild-Inv, handle_update_bit_field-Inv,
}
use fissure.Managers.TorrentManager.Finish.{handle_piece_finish-IsRetired}
use fissure.Managers.TorrentManager.Assignment.{assign-IsAssigned}

get_elem?-replicate_or :
    {A : Type 0} (n i : ℕ) (a : A)
    → (get_elem? (replicate n a) i ≡ none) ⊎ (get_elem? (replicate n a) i ≡ some a)
get_elem?-replicate_or zero i a = inl refl
get_elem?-replicate_or (suc n) zero a = inr refl
get_elem?-replicate_or (suc n) (suc i) a = get_elem?-replicate_or n i a

in_bucket-replicate : (m f i : ℕ) → in_bucket (replicate m []) f i ≡ false
unfolding in_bucket
in_bucket-replicate zero f i = refl
in_bucket-replicate (suc m) zero i = refl
in_bucket-replicate (suc m) (suc f) i = in_bucket-replicate m f i

frequency_of-replicate : (n i : ℕ) → frequency_of (replicate n 0) i ≡ 0
unfolding frequency_of
frequency_of-replicate n i = elim (get_elem?-replicate_or {A = ℕ} n i 0) [
  | inl e ↦ rw e refl
  | inr e ↦ rw e refl
]

new_IsSorted : (n : ℕ) → IsSorted (replicate n 0) (replicate 256 [])
new_IsSorted n = record {
  buckets_len = length-replicate {A = List ℕ} 256 [];
  bounded = λ i. omega (arith, frequency_of-replicate n i);
  placed = λ f i. in_bucket-replicate 256 f i ∙ ground (arith, frequency_of-replicate n i);
}

module _ (L : BitVecLib) (W : BitVecLaws L) (FS : FileSystem) (FL : Floats)
    (sha1 : List ℕ → List ℕ) where
  open L use {BitVec, len, zeros}

  -- A new torrent manager has the invariant.
  pub new-Inv :
      (torrent : ClientTorrentMetaInfo) (download_path : String) (options : PeerOptions)
      (s : State L FS FL sha1)
      → new L FS FL sha1 torrent download_path options ≡ done s
      → Inv L W FS FL sha1 s
  unfolding new
  new-Inv torrent download_path options s e =
      elim (Outcome-cases (get_number_of_pieces torrent.raw_torrent)) [
        | inl bad ↦
            let lost : new L FS FL sha1 torrent download_path options ≡ panic = rw bad refl in cc
        | inr (n, counted) ↦ elim (Outcome-cases (download_size torrent.raw_torrent)) [
          | inl bad ↦
              let lost : new L FS FL sha1 torrent download_path options ≡ panic =
                rw counted (rw bad refl) in
              cc
          | inr (total, sized) ↦
              let e' = rw counted at e in
              let e'' = rw sized at e' in SamePieces-new n s (cc, cc, cc)
        ]
      ]
    where
      SamePieces-new :
          (n : ℕ) (s : State L FS FL sha1)
          → (s.local_bitfield ≡ zeros n)
            × (s.pieces_frequency ≡ replicate n 0)
            × (s.rarity_bucket ≡ replicate 256 [])
          → Inv L W FS FL sha1 s
      SamePieces-new n s (e, e', e'') = record {
        frequency_len = rw (e, e') (length-replicate n 0 ∙ sym (W.len-zeros n));
        sorted = rw (e', e'') (new_IsSorted n);
        retired = λ i l. rw e' (frequency_of-replicate n i);
      }

  same_state :
      (s s' : State L FS FL sha1) (r r' : Reply BitVec)
      → Inv L W FS FL sha1 s
      → ◌≡◌ {A = Outcome (State L FS FL sha1 × Reply BitVec)} (done (s, r')) (done (s', r))
      → Inv L W FS FL sha1 s'
  same_state s s' r r' v e = let same : s ≡ s' = cc in subst (Inv L W FS FL sha1) same v

  -- A message that only reads.
  reads :
      (s s' : State L FS FL sha1) (o : Outcome (Reply BitVec)) (r : Reply BitVec)
      → Inv L W FS FL sha1 s
      → ◌>>=◌ {B = State L FS FL sha1 × Reply BitVec} o (λ r'. done (s, r')) ≡ done (s', r)
      → Inv L W FS FL sha1 s'
  reads s s' (done r') r v e = same_state s s' r r' v e
  reads s s' panic r v e = cc

  request_work-Inv :
      (order : List ℕ → List ℕ) (s s' : State L FS FL sha1) (peer_id : String) (now : ℕ)
      (r : Reply BitVec)
      → Inv L W FS FL sha1 s
      → handle_request_work L FS FL sha1 order s peer_id now ≡ done (s', r)
      → Inv L W FS FL sha1 s'
  unfolding handle_request_work
  request_work-Inv order s s' peer_id now r v e =
      elim (Option-cases (HashMap.get s.peer_bitfields peer_id)) [
        | inl unknown ↦
            let idle : handle_request_work L FS FL sha1 order s peer_id now ≡ done (s, work none) =
              rw (handle_request_work, unknown) refl in
            let same : s ≡ s' = cc in subst (Inv L W FS FL sha1) same v
        | inr (b, known) ↦
            elim (Option-cases
              (find (is_assignable L FS FL sha1 s peer_id b) (candidates order s.rarity_bucket))) [
                | inl nothing ↦
                    let idle : handle_request_work L FS FL sha1 order s peer_id now
                        ≡ done (s, work none) =
                      rw (handle_request_work, known) (rw nothing refl) in
                    let same : s ≡ s' = cc in subst (Inv L W FS FL sha1) same v
                | inr (idx, found) ↦
                    let busy : handle_request_work L FS FL sha1 order s peer_id now
                        ≡ assign L FS FL sha1 s peer_id now idx =
                      rw (handle_request_work, known) (rw found refl) in
                    let (m, _, (_, _, _, _, _, _, _, pieces)) =
                      assign-IsAssigned L W FS FL sha1 s s' peer_id now idx r (sym busy ∙ e) in
                    SamePieces-Inv L W FS FL sha1 s s' pieces v
              ]
      ]

  update_active-Inv :
      (s s' : State L FS FL sha1) (peer_id : String) (now : ℕ) (r : Reply BitVec)
      → Inv L W FS FL sha1 s
      → handle_update_active L FS FL sha1 s peer_id now ≡ done (s', r)
      → Inv L W FS FL sha1 s'
  unfolding handle_update_active
  update_active-Inv s s' peer_id now r v e =
      elim (Option-cases (HashMap.get s.peer_active_work peer_id)) [
        | inl unknown ↦
            let idle : handle_update_active L FS FL sha1 s peer_id now
                ≡ done (s, Reply.active none) =
              rw (handle_update_active, unknown) refl in
            let same : s ≡ s' = cc in subst (Inv L W FS FL sha1) same v
        | inr (assigned, known) ↦
            elim (Outcome-cases (
              retain_work L FS FL sha1 s.local_bitfield s.peer_options.piece_request_timeout now
                assigned s.piece_concurrency_counts)) [
                  | inl bad ↦
                      let lost : handle_update_active L FS FL sha1 s peer_id now ≡ panic =
                        rw (handle_update_active, known) (rw bad refl) in
                      cc
                  | inr (kept, good) ↦
                      let t : State L FS FL sha1 = record s {
                        peer_active_work = HashMap.insert s.peer_active_work peer_id kept.0;
                        piece_concurrency_counts = kept.1;
                      } in
                      let busy : handle_update_active L FS FL sha1 s peer_id now
                          ≡ done (t, Reply.active (some kept.0)) =
                        rw (handle_update_active, known) (rw good refl) in
                      let same : t ≡ s' = cc in
                      subst (Inv L W FS FL sha1) same
                        (SamePieces-Inv L W FS FL sha1 s t (refl, refl, refl) v)
                ]
      ]

  piece_finish-Inv :
      (s s' : State L FS FL sha1) (idx : ℕ) (r : Reply BitVec)
      → Inv L W FS FL sha1 s
      → handle_piece_finish L FS FL sha1 s idx ≡ done (s', r)
      → Inv L W FS FL sha1 s'
  unfolding handle_piece_finish
  piece_finish-Inv s s' idx r v e = elim (Bool-cases (get_or_false L s.local_bitfield idx)) [
    | inl here ↦
        let kept : handle_piece_finish L FS FL sha1 s idx ≡ done (s, Reply.no_reply) =
          rw
            (index_lem L W s.local_bitfield idx (get_or_false-lt_len L W s.local_bitfield idx here))
            (rw here refl) in
        let same : s ≡ s' = cc in subst (Inv L W FS FL sha1) same v
    | inr away ↦
        let (_, _, _, w) = handle_piece_finish-IsRetired L W FS FL sha1 s s' idx r v away e in w
  ]

  -- Every message that is handled keeps the invariant: every piece has a count, a piece whose count
  -- is above 0 is in the bucket of its count and in no other, and the count of a piece that this
  -- client has is 0.
  pub handle-Inv :
      (order : List ℕ → List ℕ) (s s' : State L FS FL sha1) (m : Message BitVec) (r : Reply BitVec)
      → Inv L W FS FL sha1 s
      → handle L FS FL sha1 order s m ≡ done (s', r)
      → Inv L W FS FL sha1 s'
  unfolding handle
  handle-Inv order s s' (add_peer peer_id b) r v e =
      handle_add_peer-Inv L W FS FL sha1 s s' peer_id b r v e
  handle-Inv order s s' (update_bit_field peer_id idx) r v e =
      handle_update_bit_field-Inv L W FS FL sha1 s s' peer_id idx r v e
  handle-Inv order s s' (add_bit_feild peer_id b) r v e =
      handle_add_bit_feild-Inv L W FS FL sha1 s s' peer_id b r v e
  handle-Inv order s s' (remove_peer peer_id) r v e = same_state s s' r Reply.no_reply v e
  handle-Inv order s s' (piece_finish peer_id idx) r v e = piece_finish-Inv s s' idx r v e
  handle-Inv order s s' (request_work peer_id now) r v e =
      request_work-Inv order s s' peer_id now r v e
  handle-Inv order s s' get_torrent_stats r v e = same_state s s' r _ v e
  handle-Inv order s s' (update_and_get_active_request_count peer_id now) r v e =
      update_active-Inv s s' peer_id now r v e
  handle-Inv order s s' (has_useful_pieces peer_id) r v e = reads s s' _ r v e
  handle-Inv order s s' get_active_peers r v e = same_state s s' r _ v e
  handle-Inv order s s' (get_data piece_index offset count) r v e =
      let answer =
        get_data_with_length FS s.disk_manager (piece_index % 2 ^ 32) (offset % 2 ^ 32)
          (count % 2 ^ 32) in
      let t : State L FS FL sha1 = record s { disk_manager = answer.0 } in
      let same : t ≡ s' = cc in
      subst (Inv L W FS FL sha1) same (SamePieces-Inv L W FS FL sha1 s t (refl, refl, refl) v)
  handle-Inv order s s' (get_piece_manager piece_index) r v e = same_state s s' r _ v e
  handle-Inv order s s' (get_have_message_progress since) r v e = reads s s' _ r v e
