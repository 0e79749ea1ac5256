-- ===== src/Managers/TorrentManager/Runs.antt =====
-- The states of the torrent manager that messages lead to.
use mathlib.Core.Path.{subst}
use Prim.Native.String.{String}
use fissure.Common.{
  ℕ, ◌<◌, ◌≤◌, min, ◌≡◌, inl, inr, true, false, done, Outcome-cases, List, [], ◌∷◌, ◌==◌, arith,
}
use fissure.Common.Bits.{BitVecLib, BitVecLaws, get_or_false}
use fissure.Models.PeerSettings.{PeerOptions}
use fissure.Models.TorrentMeta.{download_size, get_number_of_pieces}
use fissure.Managers.DiskManager.{FileSystem}
use fissure.Managers.TorrentManager.{Floats, State, ClientTorrentMetaInfo, new}
use fissure.Managers.TorrentManager.Handlers.{Message, handle, run}
use fissure.Managers.TorrentManager.Rarity.{frequency_of, in_bucket}
use fissure.Managers.TorrentManager.Invariant.{Inv}
use fissure.Managers.TorrentManager.Holders.{holders, IfDone}
use fissure.Managers.TorrentManager.Counting.{IsCounted}
use fissure.Managers.TorrentManager.Counted.{handle-KeepsCounts}
use fissure.Managers.TorrentManager.Reach.{new-Inv, handle-Inv}

module _ (L : BitVecLib) (W : BitVecLaws L) (FS : FileSystem) (FL : Floats)
    (sha1 : List ℕ → List ℕ) where
  open L use {BitVec}

  new-IsCounted :
      (torrent : ClientTorrentMetaInfo) (download_path : String) (options : PeerOptions)
      → IfDone L FS FL sha1
          (IsCounted L W FS FL sha1)
          (new L FS FL sha1 torrent download_path options)
  unfolding new holders
  new-IsCounted torrent download_path options =
      elim (Outcome-cases (get_number_of_pieces torrent.raw_torrent)) [
        | inl bad ↦ rw bad tt
        | inr (n, counted) ↦ elim (Outcome-cases (download_size torrent.raw_torrent)) [
          | inl bad ↦ rw counted (rw bad tt)
          | inr (total, sized) ↦ rw counted (rw sized (λ i away. omega arith))
        ]
      ]

  run-keeps :
      (order : List ℕ → List ℕ) (s s' : State L FS FL sha1) (messages : List (Message BitVec))
      → Inv L W FS FL sha1 s
      → IsCounted L W FS FL sha1 s
      → run L FS FL sha1 order s messages ≡ done s'
      → Inv L W FS FL sha1 s' × IsCounted L W FS FL sha1 s'
  unfolding run
  run-keeps order s s' [] v c e =
      let same : s ≡ s' = cc in
      subst (λ (x : State L FS FL sha1). Inv L W FS FL sha1 x × IsCounted L W FS FL sha1 x) same
        (v, c)
  run-keeps order s s' (m ∷ messages) v c e =
      let kept = handle-KeepsCounts L W FS FL sha1 order s m c in
      elim (Outcome-cases (handle L FS FL sha1 order s m)) [
        | inl bad ↦ absurd (cc (rw bad at e))
        | inr ((t, r), good) ↦
            run-keeps order t s' messages (handle-Inv L W FS FL sha1 order s t m r v good)
              (rw good at kept) (rw good at e)
      ]

  -- A piece that this client has is in no bucket. A piece that it has not and that peers have is in
  -- one bucket, and its number is at least that of the peers whose bitfields have the piece.
  abbrev pub IsPlaced : State L FS FL sha1 → ℕ → Type 0
  IsPlaced s i =
      (get_or_false L s.local_bitfield i ≡ true → (f : ℕ) → in_bucket s.rarity_bucket f i ≡ false)
      × (get_or_false L s.local_bitfield i ≡ false
          → 0 < holders L s.peer_bitfields i
          → (f : ℕ) × (min (holders L s.peer_bitfields i) 255 ≤ f)
            × ((g : ℕ) → in_bucket s.rarity_bucket g i ≡ (f == g)))

  placed :
      (s : State L FS FL sha1) (i : ℕ)
      → Inv L W FS FL sha1 s
      → IsCounted L W FS FL sha1 s
      → IsPlaced s i
  placed s i v c = (
    λ own f. ground (arith, v.sorted.placed f i, v.retired i own),
    λ away some_peer. (
      frequency_of s.pieces_frequency i,
      c i away,
      λ g. ground (arith, v.sorted.placed g i, c i away, some_peer),
    ),
  )

  -- Whatever messages a new torrent manager has handled, each piece is where rarest-first looks for
  -- it. A piece that this client has is in no bucket. A piece that it has not and that at least one
  -- peer has, by the bitfields that the manager keeps, is in exactly one bucket, and the number of
  -- that bucket is at least the number of those peers, or 255 where there are more.
  pub run-new-IsPlaced :
      (order : List ℕ → List ℕ) (torrent : ClientTorrentMetaInfo) (download_path : String)
      (options : PeerOptions) (s s' : State L FS FL sha1) (messages : List (Message BitVec)) (i : ℕ)
      → new L FS FL sha1 torrent download_path options ≡ done s
      → run L FS FL sha1 order s messages ≡ done s'
      → IsPlaced s' i
  run-new-IsPlaced order torrent download_path options s s' messages i e f =
      let counted = new-IsCounted torrent download_path options in
      let v = new-Inv L W FS FL sha1 torrent download_path options s e in
      let (v', c') = run-keeps order s s' messages v (rw e at counted) f in placed s' i v' c'
