-- ===== src/Managers/TorrentManager/Bitfields.antt =====
-- What peers say they have: `AddPeer`, `AddBitFeild` and `UpdateBitField`.
use mathlib.Core.Path.{subst}
use Prim.Native.String.{String}
use fissure.Common.{ℕ, ◌≡◌, refl, ◌⊎◌, ◌↔◌, inl, inr, true, done, panic, List, [], elem, arith}
use fissure.Common.Bits.{BitVecLib, BitVecLaws, get_or_false}
use fissure.Common.HashMap
use fissure.Common.HashMap.{string_Eq, get-insert, beq_refl}
use fissure.Managers.DiskManager.{FileSystem}
use fissure.Managers.TorrentManager.{Floats, State}
use fissure.Managers.TorrentManager.Handlers.{
  Reply, update_freq_bitfield, handle_add_peer, handle_add_bit_feild, handle_update_bit_field,
}
use fissure.Managers.TorrentManager.Invariant.{
  Inv, SamePieces-Inv, Recounts, IsStray, raise_all-Counted,
}
use fissure.Managers.TorrentManager.Haves.{IsUnusable, update_cases}

module _ (L : BitVecLib) (W : BitVecLaws L) (FS : FileSystem) (FL : Floats)
    (sha1 : List ℕ → List ℕ) where
  open L use {BitVec, len, set, iter_ones}

  -- The bitfield sets a bit that names no piece and that was not known of the peer.
  abbrev pub HasStray : State L FS FL sha1 → String → BitVec → Type 0
  HasStray s peer_id bitfield =
      (i : ℕ) × (get_or_false L bitfield i ≡ true)
      × IsStray L W FS FL sha1 (HashMap.get s.peer_bitfields peer_id) s.local_bitfield i

  elem-iter_ones :
      (b : BitVec) (i : ℕ) → (elem i (iter_ones b) ≡ true) ↔ (get_or_false L b i ≡ true)
  unfolding get_or_false
  elem-iter_ones b i = ground (arith, W.iter_ones-get b i)

  pub update_freq_bitfield_cases :
      (s : State L FS FL sha1) (bitfield : BitVec) (peer_id : String)
      → Inv L W FS FL sha1 s
      → (HasStray s peer_id bitfield
          × (update_freq_bitfield L FS FL sha1 s bitfield peer_id ≡ panic))
        ⊎ (¬ HasStray s peer_id bitfield
            × (s' : State L FS FL sha1) × (update_freq_bitfield L FS FL sha1 s bitfield peer_id
                ≡ done s')
            × Recounts L W FS FL sha1 s s')
  unfolding update_freq_bitfield
  update_freq_bitfield_cases s bitfield peer_id v =
      let existing = HashMap.get s.peer_bitfields peer_id in
      elim (raise_all-Counted L W FS FL sha1 existing (iter_ones bitfield) s v) [
        | inl ((i, e, stray), bad) ↦ inl ((i, (elem-iter_ones bitfield i).0 e, stray), bad)
        | inr (s', good, r, tame) ↦
            inr (λ (i, e, stray). tame i ((elem-iter_ones bitfield i).1 e) stray, s', good, r)
      ]

  -- In a state with the invariant, `AddBitFeild` ends the task of the torrent manager by a panic exactly if the bitfield sets a
  -- bit behind the last piece that was not known of this peer.
  pub handle_add_bit_feild_panics_iff :
      (s : State L FS FL sha1) (peer_id : String) (bitfield : BitVec)
      → Inv L W FS FL sha1 s
      → (handle_add_bit_feild L FS FL sha1 s peer_id bitfield ≡ panic) ↔ HasStray s peer_id bitfield
  unfolding handle_add_bit_feild
  handle_add_bit_feild_panics_iff s peer_id bitfield v =
      elim (update_freq_bitfield_cases s bitfield peer_id v) [
        | inl (stray, bad) ↦ (λ _. stray, λ _. rw bad refl)
        | inr (tame, s', good, _) ↦ (λ bad. cc (rw good at bad), λ stray. absurd (tame stray))
      ]

  -- In a state with the invariant, `UpdateBitField`, which a `Have` of a peer leads to, ends the task of the torrent manager by a
  -- panic exactly if the peer is not known, or its bitfield has no such bit (which is so for every
  -- `Have` that comes before the peer's bitfield), or no piece has the number and the bit is not set.
  pub handle_update_bit_field_panics_iff :
      (s : State L FS FL sha1) (peer_id : String) (idx : ℕ)
      → Inv L W FS FL sha1 s
      → (handle_update_bit_field L FS FL sha1 s peer_id idx ≡ panic)
        ↔ IsUnusable L W FS FL sha1 s.local_bitfield (HashMap.get s.peer_bitfields peer_id) idx
  handle_update_bit_field_panics_iff s peer_id idx v =
      elim (update_cases L W FS FL sha1 s peer_id idx _ refl v) [
        | inl (bad, e) ↦ (λ _. bad, λ _. e)
        | inr (tame, s', good, _) ↦ (λ e. cc, λ bad. absurd (tame bad))
      ]

  pub handle_update_bit_field-Inv :
      (s s' : State L FS FL sha1) (peer_id : String) (idx : ℕ) (r : Reply BitVec)
      → Inv L W FS FL sha1 s
      → handle_update_bit_field L FS FL sha1 s peer_id idx ≡ done (s', r)
      → Inv L W FS FL sha1 s'
  handle_update_bit_field-Inv s s' peer_id idx r v e =
      elim (update_cases L W FS FL sha1 s peer_id idx _ refl v) [
        | inl (_, bad) ↦ cc
        | inr (_, t, good, w) ↦ let same : t ≡ s' = cc in subst (Inv L W FS FL sha1) same w
      ]

  pub handle_add_peer-Inv :
      (s s' : State L FS FL sha1) (peer_id : String) (bitfield : BitVec) (r : Reply BitVec)
      → Inv L W FS FL sha1 s
      → handle_add_peer L FS FL sha1 s peer_id bitfield ≡ done (s', r)
      → Inv L W FS FL sha1 s'
  unfolding handle_add_peer
  handle_add_peer-Inv s s' peer_id bitfield r v e =
      elim (update_freq_bitfield_cases s bitfield peer_id v) [
        | inl (_, bad) ↦ let e' = rw bad at e in cc
        | inr (_, t, good, (_, _, _, w)) ↦
            let e' = rw good at e in
            let t' : State L FS FL sha1 = record t {
              peer_bitfields = HashMap.insert t.peer_bitfields peer_id bitfield;
              peer_active_work = HashMap.insert t.peer_active_work peer_id [];
            } in
            let same : t' ≡ s' = cc in
            subst (Inv L W FS FL sha1) same
              (SamePieces-Inv L W FS FL sha1 t t' (refl, refl, refl) w)
      ]

  pub handle_add_bit_feild-Inv :
      (s s' : State L FS FL sha1) (peer_id : String) (bitfield : BitVec) (r : Reply BitVec)
      → Inv L W FS FL sha1 s
      → handle_add_bit_feild L FS FL sha1 s peer_id bitfield ≡ done (s', r)
      → Inv L W FS FL sha1 s'
  unfolding handle_add_bit_feild
  handle_add_bit_feild-Inv s s' peer_id bitfield r v e =
      elim (update_freq_bitfield_cases s bitfield peer_id v) [
        | inl (_, bad) ↦ let e' = rw bad at e in cc
        | inr (_, t, good, (_, _, _, w)) ↦
            let e' = rw good at e in
            let t' : State L FS FL sha1 = record t {
              peer_bitfields = HashMap.insert t.peer_bitfields peer_id bitfield;
            } in
            let same : t' ≡ s' = cc in
            subst (Inv L W FS FL sha1) same
              (SamePieces-Inv L W FS FL sha1 t t' (refl, refl, refl) w)
      ]
