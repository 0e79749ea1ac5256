-- ===== src/Managers/TorrentManager/Haves.antt =====
-- The branches of `UpdateBitField`.
use Prim.Native.String.{String}
use fissure.Common.{
  ℕ, ◌<◌, ◌≤◌, ◌≡◌, refl, ap, ◌∙◌, ◌⊎◌, inl, inr, true, false, done, panic, Option, some, none,
  List, ltb, Bool-cases, ltb→lt, ltb→le, arith,
}
use fissure.Common.Bits.{BitVecLib, BitVecLaws, get_or_false}
use fissure.Common.Bits.Flags.{get_or_false-lt_len, set_bit_lem, set_bit_oob}
use fissure.Common.HashMap
use fissure.Common.HashMap.{string_Eq, get-insert, beq_refl}
use fissure.Managers.DiskManager.{FileSystem}
use fissure.Managers.TorrentManager.{Floats, State}
use fissure.Managers.TorrentManager.Handlers.{no_reply, update_freq_have, handle_update_bit_field}
use fissure.Managers.TorrentManager.Invariant.{
  Inv, SamePieces-Inv, raise_frequency_lem, raise_frequency-ge,
}

module _ (L : BitVecLib) (W : BitVecLaws L) (FS : FileSystem) (FL : Floats)
    (sha1 : List ℕ → List ℕ) where
  open L use {BitVec, len, set, iter_ones}

  -- The peer is not known, or its bitfield has no bit `idx`, or no piece has this number and the
  -- bit is not set.
  abbrev pub IsUnusable : BitVec → Option BitVec → ℕ → Type 0
  IsUnusable local_bitfield none idx = Unit {0}
  IsUnusable local_bitfield (some b) idx =
      (len b ≤ idx) ⊎ ((len local_bitfield ≤ idx) × (get_or_false L b idx ≡ false))

  -- The end of `UpdateBitField`, after the counts.
  module _ (s t : State L FS FL sha1) (peer_id : String) (idx : ℕ)
      (counted : update_freq_have L FS FL sha1 s peer_id idx ≡ done t) where
    mark_unknown :
        HashMap.get t.peer_bitfields peer_id ≡ none
        → handle_update_bit_field L FS FL sha1 s peer_id idx ≡ panic
    unfolding handle_update_bit_field
    mark_unknown e = rw counted (rw e refl)

    mark_outside :
        (b : BitVec)
        → HashMap.get t.peer_bitfields peer_id ≡ some b
        → len b ≤ idx
        → handle_update_bit_field L FS FL sha1 s peer_id idx ≡ panic
    unfolding handle_update_bit_field
    mark_outside b e h = rw counted (rw e (rw (set_bit_oob L W b idx true h) refl))

    mark_inside :
        (b : BitVec)
        → HashMap.get t.peer_bitfields peer_id ≡ some b
        → idx < len b
        → handle_update_bit_field L FS FL sha1 s peer_id idx
          ≡ done (
            record t { peer_bitfields = HashMap.insert t.peer_bitfields peer_id (set b idx true) },
            no_reply,
          )
    unfolding handle_update_bit_field
    mark_inside b e h = rw counted (rw e (rw (set_bit_lem L W b idx true h) refl))

  -- What `UpdateBitField` ends in.
  abbrev pub Updated : State L FS FL sha1 → String → ℕ → Option BitVec → Type 0
  Updated s peer_id idx known =
      (IsUnusable s.local_bitfield known idx
        × (handle_update_bit_field L FS FL sha1 s peer_id idx ≡ panic))
      ⊎ (¬ IsUnusable s.local_bitfield known idx
          × (s' : State L FS FL sha1) × (handle_update_bit_field L FS FL sha1 s peer_id idx
              ≡ done (s', no_reply))
          × Inv L W FS FL sha1 s')

  -- No count changes.
  Updated-same :
      (s : State L FS FL sha1) (peer_id : String) (idx : ℕ) (b : BitVec)
      → HashMap.get s.peer_bitfields peer_id ≡ some b
      → Inv L W FS FL sha1 s
      → (idx < len s.local_bitfield) ⊎ (get_or_false L b idx ≡ true)
      → update_freq_have L FS FL sha1 s peer_id idx ≡ done s
      → Updated s peer_id idx (some b)
  Updated-same s peer_id idx b e v tame same = elim (Bool-cases (ltb idx (len b))) [
    | inl inside ↦ inr (
      λ bad. ground arith,
      _,
      mark_inside s s peer_id idx same b e (ltb→lt _ _ inside),
      SamePieces-Inv L W FS FL sha1 s _ (refl, refl, refl) v,
    )
    | inr outside ↦
        let h = ltb→le _ _ outside in inl (inl h, mark_outside s s peer_id idx same b e h)
  ]

  -- The peer has a piece more, which is counted.
  Updated-fresh :
      (s : State L FS FL sha1) (peer_id : String) (idx : ℕ) (b : BitVec)
      → HashMap.get s.peer_bitfields peer_id ≡ some b
      → Inv L W FS FL sha1 s
      → get_or_false L s.local_bitfield idx ≡ false
      → get_or_false L b idx ≡ false
      → Updated s peer_id idx (some b)
  unfolding update_freq_have handle_update_bit_field
  Updated-fresh s peer_id idx b e v away fresh =
      let s1 : State L FS FL sha1 = record s {
        peer_bitfields = HashMap.insert s.peer_bitfields peer_id (set b idx true);
      } in
      let v1 = SamePieces-Inv L W FS FL sha1 s s1 (refl, refl, refl) v in
      elim (Bool-cases (ltb idx (len b))) [
        | inr outside ↦
            let h = ltb→le _ _ outside in
            inl (inl h, rw away (rw e (rw fresh (rw (set_bit_oob L W b idx true h) refl))))
        | inl inside ↦ elim (Bool-cases (ltb idx (len s.local_bitfield))) [
          | inr past ↦
              let h = ltb→le _ _ past in
              inl (
                inr (h, fresh),
                rw away (
                    rw e (
                      rw fresh (
                        rw (set_bit_lem L W b idx true (ltb→lt _ _ inside))
                          (rw (raise_frequency-ge L W FS FL sha1 s1 idx v1 h) refl)))),
              )
          | inl piece ↦
              let lt = ltb→lt _ _ inside in
              let (t, good, r) =
                raise_frequency_lem L W FS FL sha1 s1 idx v1 (ltb→lt _ _ piece) away in
              let (_, _, same, w) = r in
              let counted : update_freq_have L FS FL sha1 s peer_id idx ≡ done t =
                rw away (rw e (rw fresh (rw (set_bit_lem L W b idx true lt) good))) in
              let known : HashMap.get t.peer_bitfields peer_id ≡ some (set b idx true) =
                ap (λ (x : State L FS FL sha1). HashMap.get x.peer_bitfields peer_id) same
                ∙ get-insert s.peer_bitfields peer_id (set b idx true) peer_id
                ∙ rw (beq_refl peer_id) refl in
              inr (
                λ bad. ground (arith, piece, inside),
                _,
                mark_inside s t peer_id idx counted (set b idx true) known
                    (omega (arith, lt, W.len-set b idx true lt)),
                SamePieces-Inv L W FS FL sha1 t _ (refl, refl, refl) w,
              )
        ]
      ]

  pub update_cases :
      (s : State L FS FL sha1) (peer_id : String) (idx : ℕ) (known : Option BitVec)
      → HashMap.get s.peer_bitfields peer_id ≡ known
      → Inv L W FS FL sha1 s
      → Updated s peer_id idx known
  unfolding update_freq_have
  update_cases s peer_id idx none e v = inl (
    tt,
    elim (Bool-cases (get_or_false L s.local_bitfield idx)) [
      | inl here ↦ mark_unknown s s peer_id idx (rw here refl) e
      | inr away ↦ mark_unknown s s peer_id idx (rw away (rw e refl)) e
    ],
  )
  update_cases s peer_id idx (some b) e v =
      elim (Bool-cases (get_or_false L s.local_bitfield idx)) [
        | inl here ↦
            Updated-same s peer_id idx b e v
              (inl (get_or_false-lt_len L W s.local_bitfield idx here)) (rw here refl)
        | inr away ↦ elim (Bool-cases (get_or_false L b idx)) [
          | inl set_before ↦
              Updated-same s peer_id idx b e v (inr set_before)
                (rw away (rw e (rw set_before refl)))
          | inr fresh ↦ Updated-fresh s peer_id idx b e v away fresh
        ]
      ]
