-- ===== src/Managers/TorrentManager/Assignment.antt =====
-- How `RequestWork` assigns a piece to a peer.
use mathlib.Core.Path.{subst}
use Prim.Native.String.{String}
use fissure.Common.{
  ℕ, ◌+◌, ◌≡◌, refl, ap, ◌∙◌, sym, inl, inr, done, panic, some, Option-cases, Outcome-cases, List,
  [], ◌∷◌, ◌++◌,
}
use fissure.Common.Bits.{BitVecLib, BitVecLaws}
use fissure.Common.HashMap
use fissure.Common.HashMap.{nat_Eq, string_Eq, get-insert, beq_refl}
use fissure.Models.TorrentMeta.{get_piece_hash, get_piece_length}
use fissure.Managers.PieceManager.Handle.{PieceRequestManager, spawn}
use fissure.Managers.DiskManager.{FileSystem}
use fissure.Managers.TorrentManager.{Floats, State}
use fissure.Managers.TorrentManager.Handlers.{Reply, work, piece_manager_for, assign}
use fissure.Managers.TorrentManager.Invariant.{SamePieces}

module _ (L : BitVecLib) (W : BitVecLaws L) (FS : FileSystem) (FL : Floats)
    (sha1 : List ℕ → List ℕ) where
  open L use {BitVec}

  -- What a peer is given piece `idx` by.
  abbrev Manages : State L FS FL sha1 → State L FS FL sha1 → ℕ → PieceRequestManager → Type 0
  Manages s t idx manager =
      (HashMap.get t.active_pieces_manager idx ≡ some manager)
      × (t.piece_concurrency_counts ≡ s.piece_concurrency_counts)
      × (t.peer_active_work ≡ s.peer_active_work)
      × SamePieces L W FS FL sha1 s t

  piece_manager_for-Manages :
      (s t : State L FS FL sha1) (idx : ℕ) (manager : PieceRequestManager)
      → piece_manager_for L FS FL sha1 s idx ≡ done (t, manager)
      → Manages s t idx manager
  unfolding piece_manager_for
  piece_manager_for-Manages s t idx manager e =
      let meta = s.client_torrent_meta.raw_torrent in
      elim (Option-cases (HashMap.get s.active_pieces_manager idx)) [
        | inr (m, found) ↦
            let good : piece_manager_for L FS FL sha1 s idx ≡ done (s, m) =
              rw (piece_manager_for, found) refl in
            let same : m ≡ manager = cc in
            let same_state : s ≡ t = cc in
            subst (λ (u : State L FS FL sha1). Manages s u idx manager) same_state
              (found ∙ ap some same, refl, refl, (refl, refl, refl))
        | inl missing ↦ elim (Outcome-cases (get_piece_hash meta idx)) [
          | inl bad ↦
              let lost : piece_manager_for L FS FL sha1 s idx ≡ panic =
                rw (piece_manager_for, missing) (rw bad refl) in
              cc
          | inr (hash, good_hash) ↦ elim (Outcome-cases (get_piece_length meta idx)) [
            | inl bad ↦
                let lost : piece_manager_for L FS FL sha1 s idx ≡ panic =
                  rw (piece_manager_for, missing) (rw good_hash (rw bad refl)) in
                cc
            | inr (p_len, good_len) ↦
                let spawned =
                  spawn L sha1 s.tasks s.next_task idx hash p_len
                    s.peer_options.block_request_timeout in
                let u : State L FS FL sha1 = record s {
                  tasks = spawned.0;
                  next_task = s.next_task + 1;
                  active_pieces_manager = HashMap.insert s.active_pieces_manager idx spawned.1;
                } in
                let good : piece_manager_for L FS FL sha1 s idx ≡ done (u, spawned.1) =
                  rw (piece_manager_for, missing) (rw good_hash (rw good_len refl)) in
                let same : spawned.1 ≡ manager = cc in
                let same_state : u ≡ t = cc in
                subst (λ (x : State L FS FL sha1). Manages s x idx manager) same_state
                  (
                    get-insert s.active_pieces_manager idx spawned.1 idx
                        ∙ rw (beq_refl idx) (ap some same),
                    refl,
                    refl,
                    (refl, refl, refl),
                  )
          ]
        ]
      ]

  -- The peer works on piece `idx` too from now on.
  abbrev pub IsAssigned :
      State L FS FL sha1 → State L FS FL sha1 → String → ℕ → ℕ → PieceRequestManager → Type 0
  IsAssigned s s' peer_id now idx manager =
      (count : ℕ) × (assigned : List (ℕ × ℕ)) × (HashMap.get s.piece_concurrency_counts idx
        ≡ some count)
      × (HashMap.get s.peer_active_work peer_id ≡ some assigned)
      × (s'.piece_concurrency_counts ≡ HashMap.insert s.piece_concurrency_counts idx (count + 1))
      × (s'.peer_active_work
          ≡ HashMap.insert s.peer_active_work peer_id (assigned ++ (idx, now) ∷ []))
      × (HashMap.get s'.active_pieces_manager idx ≡ some manager)
      × SamePieces L W FS FL sha1 s s'

  pub assign-IsAssigned :
      (s s' : State L FS FL sha1) (peer_id : String) (now idx : ℕ) (r : Reply BitVec)
      → assign L FS FL sha1 s peer_id now idx ≡ done (s', r)
      → (manager : PieceRequestManager) × (r ≡ work (some manager))
        × IsAssigned s s' peer_id now idx manager
  unfolding assign
  assign-IsAssigned s s' peer_id now idx r e =
      elim (Outcome-cases (piece_manager_for L FS FL sha1 s idx)) [
        | inl bad ↦ let lost : assign L FS FL sha1 s peer_id now idx ≡ panic = rw bad refl in cc
        | inr ((t, m), found) ↦ elim (Option-cases (HashMap.get t.piece_concurrency_counts idx)) [
          | inl bad ↦
              let lost : assign L FS FL sha1 s peer_id now idx ≡ panic = rw found (rw bad refl) in
              cc
          | inr (count, counted) ↦ elim (Option-cases (HashMap.get t.peer_active_work peer_id)) [
            | inl bad ↦
                let lost : assign L FS FL sha1 s peer_id now idx ≡ panic =
                  rw found (rw counted (rw bad refl)) in
                cc
            | inr (assigned, known) ↦
                let u : State L FS FL sha1 = record t {
                  piece_concurrency_counts =
                      HashMap.insert t.piece_concurrency_counts idx (count + 1);
                  peer_active_work =
                      HashMap.insert t.peer_active_work peer_id (assigned ++ (idx, now) ∷ []);
                } in
                let good : assign L FS FL sha1 s peer_id now idx ≡ done (u, work (some m)) =
                  rw found (rw counted (rw known refl)) in
                let reply : r ≡ work (some m) = cc in
                let same_state : u ≡ s' = cc in
                let (managed, counts, active_work, pieces) =
                  piece_manager_for-Manages s t idx m found in
                (
                  m,
                  reply,
                  subst (λ (x : State L FS FL sha1). IsAssigned s x peer_id now idx m) same_state
                      (
                        count,
                        assigned,
                        ap (λ (x : List (ℕ × ℕ)). HashMap.get x idx) (sym counts) ∙ counted,
                        ap (λ (x : List (String × List (ℕ × ℕ))). HashMap.get x peer_id)
                              (sym active_work)
                            ∙ known,
                        ap (λ (x : List (ℕ × ℕ)). HashMap.insert x idx (count + 1)) counts,
                        ap
                            (λ (x : List (String × List (ℕ × ℕ))).
                              HashMap.insert x peer_id (assigned ++ (idx, now) ∷ []))
                            active_work,
                        managed,
                        pieces,
                      ),
                )
          ]
        ]
      ]
