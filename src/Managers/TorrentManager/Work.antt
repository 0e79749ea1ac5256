-- ===== src/Managers/TorrentManager/Work.antt =====
-- `RequestWork`: which piece a peer gets to work on.
use mathlib.Core.Path.{subst}
use Prim.Native.String.{String}
use fissure.Common.{
  ℕ, ◌<◌, ◌≤◌, ◌≡◌, refl, ◌∙◌, sym, inl, inr, true, false, done, some, none, Option-cases, List,
  arith,
}
use fissure.Common.Bits.{BitVecLib, BitVecLaws, get_or_false}
use fissure.Common.HashMap
use fissure.Common.HashMap.{nat_Eq, string_Eq, get-insert, beq_refl}
use fissure.Managers.PieceManager.Handle.{PieceRequestManager}
use fissure.Managers.DiskManager.{FileSystem}
use fissure.Managers.TorrentManager.{Floats, State, works_on}
use fissure.Managers.TorrentManager.Handlers.{
  work, find, candidates, is_assignable, assign, handle_request_work,
}
use fissure.Managers.TorrentManager.Rarity.{in_bucket}
use fissure.Managers.TorrentManager.Find.{IsWalk, find-candidates, find-candidates-none}
use fissure.Managers.TorrentManager.Assignment.{IsAssigned, assign-IsAssigned}

module _ (L : BitVecLib) (W : BitVecLaws L) (FS : FileSystem) (FL : Floats)
    (sha1 : List ℕ → List ℕ) where
  open L use {BitVec}

  -- The peer has the piece, this client has not, at most as many peers as the options allow work
  -- on it, and this peer is not one of them.
  abbrev pub IsFit : State L FS FL sha1 → String → BitVec → ℕ → Type 0
  IsFit s peer_id bitfield idx =
      (get_or_false L bitfield idx ≡ true)
      × (get_or_false L s.local_bitfield idx ≡ false)
      × ((count : ℕ)
          → HashMap.get s.piece_concurrency_counts idx ≡ some count
          → count ≤ s.peer_options.per_piece_active_peer_count)
      × ((assigned : List (ℕ × ℕ))
          → HashMap.get s.peer_active_work peer_id ≡ some assigned
          → works_on idx assigned ≡ false)

  is_assignable-IsFit :
      (s : State L FS FL sha1) (peer_id : String) (bitfield : BitVec) (idx : ℕ)
      → is_assignable L FS FL sha1 s peer_id bitfield idx ≡ true
      → IsFit s peer_id bitfield idx
  unfolding is_assignable
  is_assignable-IsFit s peer_id bitfield idx e =
      (ground arith, ground arith, λ n h. ground arith, λ w h. ground arith)

  -- If a peer whose bitfield is known gets a piece to work on, then it has the piece, this client has not, at most
  -- `per_piece_active_peer_count` peers worked on it before and this peer did not. No bucket of
  -- fewer peers holds a piece that the peer could be given. The piece's counter rises by one, the
  -- piece is noted as this peer's work with the time, and the piece manager that it gets is the
  -- one kept for the piece. Sets may be walked in any order.
  pub handle_request_work-IsAssigned :
      (order : List ℕ → List ℕ) (s s' : State L FS FL sha1) (peer_id : String) (now : ℕ)
      (bitfield : BitVec) (manager : PieceRequestManager)
      → IsWalk order
      → HashMap.get s.peer_bitfields peer_id ≡ some bitfield
      → handle_request_work L FS FL sha1 order s peer_id now ≡ done (s', work (some manager))
      → (idx : ℕ) × IsFit s peer_id bitfield idx
        × ((f : ℕ) × (in_bucket s.rarity_bucket f idx ≡ true)
            × ((g j : ℕ)
                → g < f
                → in_bucket s.rarity_bucket g j ≡ true
                → is_assignable L FS FL sha1 s peer_id bitfield j ≡ false))
        × IsAssigned L W FS FL sha1 s s' peer_id now idx manager
  unfolding handle_request_work
  handle_request_work-IsAssigned order s s' peer_id now bitfield manager w known e =
      let test = is_assignable L FS FL sha1 s peer_id bitfield in
      elim (Option-cases (find test (candidates order s.rarity_bucket))) [
        | inl nothing ↦
            let idle : handle_request_work L FS FL sha1 order s peer_id now ≡ done (s, work none) =
              rw (handle_request_work, known) (rw nothing refl) in
            cc
        | inr (idx, found) ↦
            let busy : handle_request_work L FS FL sha1 order s peer_id now
                ≡ assign L FS FL sha1 s peer_id now idx =
              rw (handle_request_work, known) (rw found refl) in
            let (good, f, at, first) = find-candidates test order s.rarity_bucket idx w found in
            let (m, reply, assigned) =
              assign-IsAssigned L W FS FL sha1 s s' peer_id now idx (work (some manager))
                (sym busy ∙ e) in
            let same : m ≡ manager = cc in
            (
              idx,
              is_assignable-IsFit s peer_id bitfield idx good,
              (f, at, first),
              subst (IsAssigned L W FS FL sha1 s s' peer_id now idx) same assigned,
            )
      ]

  -- If a peer whose bitfield is known gets nothing to work on, then the state is as before, and no piece in any
  -- bucket could be given to the peer.
  pub handle_request_work-none :
      (order : List ℕ → List ℕ) (s s' : State L FS FL sha1) (peer_id : String) (now : ℕ)
      (bitfield : BitVec)
      → IsWalk order
      → HashMap.get s.peer_bitfields peer_id ≡ some bitfield
      → handle_request_work L FS FL sha1 order s peer_id now ≡ done (s', work none)
      → (s' ≡ s)
        × ((f idx : ℕ)
            → in_bucket s.rarity_bucket f idx ≡ true
            → is_assignable L FS FL sha1 s peer_id bitfield idx ≡ false)
  unfolding handle_request_work
  handle_request_work-none order s s' peer_id now bitfield w known e =
      let test = is_assignable L FS FL sha1 s peer_id bitfield in
      elim (Option-cases (find test (candidates order s.rarity_bucket))) [
        | inl nothing ↦
            let idle : handle_request_work L FS FL sha1 order s peer_id now ≡ done (s, work none) =
              rw (handle_request_work, known) (rw nothing refl) in
            (cc, λ f idx at. find-candidates-none test order s.rarity_bucket f idx w nothing at)
        | inr (idx, found) ↦
            let busy : handle_request_work L FS FL sha1 order s peer_id now
                ≡ assign L FS FL sha1 s peer_id now idx =
              rw (handle_request_work, known) (rw found refl) in
            let (m, reply, _) =
              assign-IsAssigned L W FS FL sha1 s s' peer_id now idx (work none) (sym busy ∙ e) in
            absurd cc
      ]
