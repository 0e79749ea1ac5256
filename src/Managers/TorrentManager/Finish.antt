-- ===== src/Managers/TorrentManager/Finish.antt =====
-- `PieceFinish`: a piece that a peer's task has completed.
use mathlib.Core.Path.{subst}
use Prim.Native.String.{String}
use fissure.Common.{
  ℕ, ◌<◌, min, ◌≡◌, refl, ◌∙◌, sym, inl, inr, true, false, not, ◌&&◌, ◌||◌, done, panic, some, none,
  Option-cases, Outcome-cases, List, [], ◌∷◌, ltb, ◌==◌, length, set, get_elem?, get_elem?-lt,
  length-set, Bool-cases, ltb→lt, ltb→le, arith,
}
use fissure.Common.Bits.{BitVecLib, BitVecLaws, get_or_false, index}
use fissure.Common.Bits.Flags.{get_or_false-set, get_or_false-lt_len, set_bit_lem, index_lem}
use fissure.Common.HashMap
use fissure.Common.HashMap.{nat_Eq, string_Eq, get-remove, beq_refl}
use fissure.Managers.PieceManager.Handle.{PieceRequestManager}
use fissure.Managers.DiskManager.{FileSystem, flush_piece_to_disk}
use fissure.Managers.TorrentManager.{
  Floats, State, set_remove, drop_piece, drop_piece_everywhere, works_on,
}
use fissure.Managers.TorrentManager.Handlers.{
  Reply, no_reply, retire_piece, persist_piece, release_manager, handle_piece_finish,
}
use fissure.Managers.TorrentManager.Rarity.{
  frequency_of, in_bucket, take_out, frequency_of-set, get_elem?-frequency_of,
}
use fissure.Managers.TorrentManager.Invariant.{Inv, SamePieces-Inv}

works_on-drop_piece :
    (idx i : ℕ) (work : List (ℕ × ℕ))
    → works_on i (drop_piece idx work) ≡ (not (idx == i) && works_on i work)
unfolding works_on drop_piece
works_on-drop_piece idx i [] = ground arith
works_on-drop_piece idx i ((p, time) ∷ work) = ground (arith, works_on-drop_piece idx i work)

-- No peer works on piece `idx`.
abbrev pub IsDropped : ℕ → List (String × List (ℕ × ℕ)) → Type 0
IsDropped idx [] = Unit {0}
IsDropped idx ((peer, work) ∷ rest) = (works_on idx work ≡ false) × IsDropped idx rest

drop_piece_everywhere-IsDropped :
    (idx : ℕ) (work : List (String × List (ℕ × ℕ))) → IsDropped idx (drop_piece_everywhere idx work)
unfolding drop_piece_everywhere
drop_piece_everywhere-IsDropped idx [] = tt
drop_piece_everywhere-IsDropped idx ((peer, work) ∷ rest) =
    (ground (arith, works_on-drop_piece idx idx work), drop_piece_everywhere-IsDropped idx rest)

module _ (L : BitVecLib) (W : BitVecLaws L) (FS : FileSystem) (FL : Floats)
    (sha1 : List ℕ → List ℕ) where
  open L use {BitVec, len, set as set_at}

  -- The two states agree on all that says who works on what.
  abbrev SameWork : State L FS FL sha1 → State L FS FL sha1 → Type 0
  SameWork t u =
      (u.local_bitfield ≡ t.local_bitfield)
      × (u.pieces_frequency ≡ t.pieces_frequency)
      × (u.rarity_bucket ≡ t.rarity_bucket)
      × (u.piece_concurrency_counts ≡ t.piece_concurrency_counts)
      × (u.peer_active_work ≡ t.peer_active_work)
      × (u.active_pieces_manager ≡ t.active_pieces_manager)

  persist_piece-SameWork :
      (s t : State L FS FL sha1) (idx : ℕ) (manager : PieceRequestManager)
      → persist_piece L FS FL sha1 s idx manager ≡ done t
      → SameWork s t
  unfolding persist_piece
  persist_piece-SameWork s t idx manager e =
      elim (Bool-cases (flush_piece_to_disk FS L sha1 s.disk_manager s.tasks manager).1) [
        | inl flushed ↦ elim (Option-cases (FL.parse s.stats.downloaded)) [
          | inl bad ↦ let e' = rw (flushed, bad) at e in cc
          | inr (x, good) ↦ let e' = rw (flushed, good) at e in (cc, cc, cc, cc, cc, cc)
        ]
        | inr lost ↦ let e' = rw lost at e in (cc, cc, cc, cc, cc, cc)
      ]

  -- The state in which a piece is retired.
  abbrev retired_state : State L FS FL sha1 → ℕ → List ℕ → State L FS FL sha1
  retired_state s idx bucket = record s {
    local_bitfield = set_at s.local_bitfield idx true;
    rarity_bucket =
        set s.rarity_bucket (frequency_of s.pieces_frequency idx) (set_remove bucket idx);
    pieces_frequency = set s.pieces_frequency idx 0;
    piece_concurrency_counts = HashMap.remove s.piece_concurrency_counts idx;
    peer_active_work = drop_piece_everywhere idx s.peer_active_work;
  }

  retire_piece_eq :
      (s : State L FS FL sha1) (idx n : ℕ) (bucket : List ℕ)
      → idx < len s.local_bitfield
      → get_elem? s.pieces_frequency idx ≡ some n
      → min n 255 ≡ n
      → get_elem? s.rarity_bucket n ≡ some bucket
      → retire_piece L FS FL sha1 s idx
        ≡ done (record s {
          local_bitfield = set_at s.local_bitfield idx true;
          rarity_bucket = set s.rarity_bucket n (set_remove bucket idx);
          pieces_frequency = set s.pieces_frequency idx 0;
          piece_concurrency_counts = HashMap.remove s.piece_concurrency_counts idx;
          peer_active_work = drop_piece_everywhere idx s.peer_active_work;
        })
  unfolding retire_piece
  retire_piece_eq s idx n bucket h e low found =
      rw (set_bit_lem L W s.local_bitfield idx true h) (rw (e, low, found) refl)

  retire_piece_lem :
      (s : State L FS FL sha1) (idx : ℕ)
      → Inv L W FS FL sha1 s
      → idx < len s.local_bitfield
      → (bucket : List ℕ) × (retire_piece L FS FL sha1 s idx ≡ done (retired_state s idx bucket))
        × Inv L W FS FL sha1 (retired_state s idx bucket)
  retire_piece_lem s idx v h =
      let lt : idx < length s.pieces_frequency = omega (arith, v.frequency_len) in
      let n = frequency_of s.pieces_frequency idx in
      let (bucket, found) =
        get_elem?-lt s.rarity_bucket n
          (omega (arith, v.sorted.bounded idx, v.sorted.buckets_len)) in
      (
        bucket,
        retire_piece_eq s idx n bucket h (get_elem?-frequency_of s.pieces_frequency idx lt)
            (omega (arith, v.sorted.bounded idx)) found,
        record {
          frequency_len =
              length-set s.pieces_frequency idx 0
              ∙ v.frequency_len
              ∙ sym (W.len-set s.local_bitfield idx true h);
          sorted = take_out s.pieces_frequency s.rarity_bucket idx bucket v.sorted lt found;
          retired = λ i l. ground (
            arith,
            frequency_of-set s.pieces_frequency idx 0 i lt,
            get_or_false-set L W s.local_bitfield idx true i h,
            v.retired i,
          );
        },
      )

  -- Piece `idx` is this client's own: no bucket holds it, no peer works on it, and its counter
  -- and its piece manager are gone.
  abbrev pub IsRetired : State L FS FL sha1 → ℕ → Type 0
  IsRetired s idx =
      (get_or_false L s.local_bitfield idx ≡ true)
      × ((f : ℕ) → in_bucket s.rarity_bucket f idx ≡ false)
      × (HashMap.get s.piece_concurrency_counts idx ≡ none)
      × IsDropped idx s.peer_active_work
      × (HashMap.get s.active_pieces_manager idx ≡ none)

  in_bucket-retired :
      (s : State L FS FL sha1) (idx f : ℕ)
      → Inv L W FS FL sha1 s
      → get_or_false L s.local_bitfield idx ≡ true
      → in_bucket s.rarity_bucket f idx ≡ false
  in_bucket-retired s idx f v l = ground (arith, v.sorted.placed f idx, v.retired idx l)

  handled_inside :
      (s s' : State L FS FL sha1) (idx : ℕ) (r : Reply BitVec)
      → get_or_false L s.local_bitfield idx ≡ false
      → handle_piece_finish L FS FL sha1 s idx ≡ done (s', r)
      → idx < len s.local_bitfield
  unfolding handle_piece_finish index
  handled_inside s s' idx r away f = elim (Bool-cases (ltb idx (len s.local_bitfield))) [
    | inl inside ↦ ltb→lt _ _ inside
    | inr outside ↦
        let bad : handle_piece_finish L FS FL sha1 s idx ≡ panic =
          rw (W.get-ge s.local_bitfield idx (ltb→le _ _ outside)) refl in
        cc
  ]

  -- The retired state, with the piece manager taken out, is what the rest of the handler works on.
  abbrev without_manager : State L FS FL sha1 → ℕ → State L FS FL sha1
  without_manager t idx = record t {
    active_pieces_manager = HashMap.remove t.active_pieces_manager idx;
  }

  release_manager-SameWork :
      (t s' : State L FS FL sha1) (idx : ℕ) (r : Reply BitVec)
      → release_manager L FS FL sha1 t idx ≡ done (s', r)
      → SameWork (without_manager t idx) s'
  unfolding release_manager
  release_manager-SameWork t s' idx r e =
      let u = without_manager t idx in
      elim (Option-cases (HashMap.get t.active_pieces_manager idx)) [
        | inl no_manager ↦
            let good : release_manager L FS FL sha1 t idx ≡ done (u, no_reply) =
              rw (release_manager, no_manager) refl in
            let same : u ≡ s' = cc in subst (SameWork u) same (refl, refl, refl, refl, refl, refl)
        | inr (manager, found) ↦ elim (Outcome-cases (persist_piece L FS FL sha1 u idx manager)) [
          | inl lost ↦
              let bad : release_manager L FS FL sha1 t idx ≡ panic =
                rw (release_manager, found) (rw lost refl) in
              cc
          | inr (w, kept) ↦
              let good : release_manager L FS FL sha1 t idx ≡ done (w, no_reply) =
                rw (release_manager, found) (rw kept refl) in
              let same : w ≡ s' = cc in
              subst (SameWork u) same (persist_piece-SameWork u w idx manager kept)
        ]
      ]

  finish_step :
      (s t : State L FS FL sha1) (idx : ℕ)
      → idx < len s.local_bitfield
      → get_or_false L s.local_bitfield idx ≡ false
      → retire_piece L FS FL sha1 s idx ≡ done t
      → handle_piece_finish L FS FL sha1 s idx ≡ release_manager L FS FL sha1 t idx
  unfolding handle_piece_finish
  finish_step s t idx h away e = rw (index_lem L W s.local_bitfield idx h) (rw away (rw e refl))

  -- In a state with the invariant, a message `PieceFinish` for a piece that this client has not yet, if it is handled, makes the
  -- piece this client's own: no bucket holds it, no peer works on it, and its counter and its piece
  -- manager are gone. The other pieces are this client's own as before. A second message for it
  -- changes nothing.
  pub handle_piece_finish-IsRetired :
      (s s' : State L FS FL sha1) (idx : ℕ) (r : Reply BitVec)
      → Inv L W FS FL sha1 s
      → get_or_false L s.local_bitfield idx ≡ false
      → handle_piece_finish L FS FL sha1 s idx ≡ done (s', r)
      → IsRetired s' idx
        × ((i : ℕ)
            → get_or_false L s'.local_bitfield i ≡ (idx == i || get_or_false L s.local_bitfield i))
        × (handle_piece_finish L FS FL sha1 s' idx ≡ done (s', no_reply))
        × Inv L W FS FL sha1 s'
  unfolding handle_piece_finish index
  handle_piece_finish-IsRetired s s' idx r v away f =
      let h = handled_inside s s' idx r away f in
      let (bucket, e, w) = retire_piece_lem s idx v h in
      let t = retired_state s idx bucket in
      let (same_local, same_frequency, same_buckets, same_counts, same_active, same_managers) =
        release_manager-SameWork t s' idx r (sym (finish_step s t idx h away e) ∙ f) in
      let w' = SamePieces-Inv L W FS FL sha1 t s' (same_local, same_frequency, same_buckets) w in
      let here : get_or_false L s'.local_bitfield idx ≡ true =
        rw same_local (ground (arith, get_or_false-set L W s.local_bitfield idx true idx h)) in
      (
        (
          here,
          λ g. in_bucket-retired s' idx g w' here,
          rw same_counts (ground (arith, get-remove s.piece_concurrency_counts idx idx)),
          rw same_active (drop_piece_everywhere-IsDropped idx s.peer_active_work),
          rw same_managers (ground (arith, get-remove s.active_pieces_manager idx idx)),
        ),
        λ i. rw same_local (ground (arith, get_or_false-set L W s.local_bitfield idx true i h)),
        rw
            (index_lem L W s'.local_bitfield idx
              (get_or_false-lt_len L W s'.local_bitfield idx here))
            (rw here refl),
        w',
      )
