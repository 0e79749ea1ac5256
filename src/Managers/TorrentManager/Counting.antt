-- ===== src/Managers/TorrentManager/Counting.antt =====
-- The counts of pieces against the bitfields of the peers: what each message keeps.
use Prim.Native.String.{String}
use fissure.Common.{
  ℕ, ◌+◌, ◌<◌, ◌≤◌, min, ◌≡◌, refl, ap, ◌∙◌, ◌⊎◌, inl, inr, true, false, not, ◌&&◌, done, ◌>>=◌,
  some, Option-cases, Outcome-cases, Bool-cases, List, [], ltb, ltb→lt, ltb→le, ◌==◌, ==→eq, elem,
  arith,
}
use fissure.Common.Bits.{BitVecLib, BitVecLaws, get_or_false, set_bit}
use fissure.Common.Bits.Flags.{get_or_false-set, set_bit_lem, set_bit_oob}
use fissure.Common.HashMap
use fissure.Common.HashMap.{string_Eq, get-insert, beq_refl}
use fissure.Managers.DiskManager.{FileSystem}
use fissure.Managers.TorrentManager.{Floats, State}
use fissure.Managers.TorrentManager.Handlers.{
  Reply, no_reply, raise_frequency, raise_all, update_freq_bitfield, update_freq_have,
  handle_add_peer, handle_add_bit_feild, handle_update_bit_field,
}
use fissure.Managers.TorrentManager.Rarity.{frequency_of}
use fissure.Managers.TorrentManager.Holders.{
  one_if, has_bit, holders, holders-insert, Raises, IfDone, adds, raise_all-Raises,
  raise_frequency-Raises,
}

module _ (L : BitVecLib) (W : BitVecLaws L) (FS : FileSystem) (FL : Floats)
    (sha1 : List ℕ → List ℕ) where
  open L use {BitVec, len, set, iter_ones}

  -- A piece that this client has not counts at least the peers whose bitfields have it, up to 255.
  abbrev pub IsCounted : State L FS FL sha1 → Type 0
  IsCounted s =
      (i : ℕ)
      → get_or_false L s.local_bitfield i ≡ false
      → min (holders L s.peer_bitfields i) 255 ≤ frequency_of s.pieces_frequency i

  -- The bitfield `b` takes the place of what was known of a peer, in counts that are raised enough.
  insert-IsCounted :
      (s u : State L FS FL sha1) (peer : String) (b : BitVec)
      → u.peer_bitfields ≡ HashMap.insert s.peer_bitfields peer b
      → u.local_bitfield ≡ s.local_bitfield
      → ((i : ℕ)
          → get_or_false L s.local_bitfield i ≡ false
          → min
              (frequency_of s.pieces_frequency i
                + one_if
                    (get_or_false L b i && not (has_bit L (HashMap.get s.peer_bitfields peer) i)))
              255
            ≤ frequency_of u.pieces_frequency i)
      → IsCounted s
      → IsCounted u
  insert-IsCounted s u peer b e f le v i away =
      let there : get_or_false L s.local_bitfield i ≡ false = rw f at away in
      rw e (ground (arith, holders-insert L s.peer_bitfields peer b i, le i there, v i there))

  elem-iter_ones : (b : BitVec) (i : ℕ) → elem i (iter_ones b) ≡ get_or_false L b i
  unfolding get_or_false
  elem-iter_ones b i = ground (arith, W.iter_ones-get b i, W.get-lt b i, W.get-ge b i)

  announced-IsCounted :
      (s t u : State L FS FL sha1) (peer : String) (b : BitVec)
      → Raises L FS FL sha1 s
          (adds L FS FL sha1 (HashMap.get s.peer_bitfields peer) (iter_ones b) s.local_bitfield)
          t
      → u.peer_bitfields ≡ HashMap.insert t.peer_bitfields peer b
      → u.local_bitfield ≡ t.local_bitfield
      → u.pieces_frequency ≡ t.pieces_frequency
      → IsCounted s
      → IsCounted u
  announced-IsCounted s t u peer b (e, f, le) e' f' g' v =
      insert-IsCounted s u peer b (rw e at e') (f' ∙ f)
        (λ i away. rw g' (ground (arith, le i, away, elem-iter_ones b i))) v

  pub handle_add_peer-IsCounted :
      (s : State L FS FL sha1) (peer : String) (b : BitVec)
      → IsCounted s
      → IfDone L FS FL sha1
          (λ (r : State L FS FL sha1 × Reply BitVec). IsCounted r.0)
          (handle_add_peer L FS FL sha1 s peer b)
  unfolding handle_add_peer update_freq_bitfield
  handle_add_peer-IsCounted s peer b v =
      let known = HashMap.get s.peer_bitfields peer in
      let raised = raise_all-Raises L FS FL sha1 known (iter_ones b) s in
      elim (Outcome-cases (raise_all L FS FL sha1 known (iter_ones b) s)) [
        | inl bad ↦ rw bad tt
        | inr (t, good) ↦ rw good (
            announced-IsCounted s t
              (record t {
                peer_bitfields = HashMap.insert t.peer_bitfields peer b;
                peer_active_work = HashMap.insert t.peer_active_work peer [];
              })
              peer b (rw good at raised) refl refl refl v)
      ]

  pub handle_add_bit_feild-IsCounted :
      (s : State L FS FL sha1) (peer : String) (b : BitVec)
      → IsCounted s
      → IfDone L FS FL sha1
          (λ (r : State L FS FL sha1 × Reply BitVec). IsCounted r.0)
          (handle_add_bit_feild L FS FL sha1 s peer b)
  unfolding handle_add_bit_feild update_freq_bitfield
  handle_add_bit_feild-IsCounted s peer b v =
      let known = HashMap.get s.peer_bitfields peer in
      let raised = raise_all-Raises L FS FL sha1 known (iter_ones b) s in
      elim (Outcome-cases (raise_all L FS FL sha1 known (iter_ones b) s)) [
        | inl bad ↦ rw bad tt
        | inr (t, good) ↦ rw good (
            announced-IsCounted s t
              (record t { peer_bitfields = HashMap.insert t.peer_bitfields peer b }) peer b
              (rw good at raised) refl refl refl v)
      ]

  -- The bit of `UpdateBitField` is set where it is counted already, or where it need not be.
  mark-IsCounted :
      (t : State L FS FL sha1) (peer : String) (idx : ℕ) (old : BitVec)
      → HashMap.get t.peer_bitfields peer ≡ some old
      → (get_or_false L t.local_bitfield idx ≡ true) ⊎ (get_or_false L old idx ≡ true)
      → IsCounted t
      → IfDone L FS FL sha1
          (λ (r : State L FS FL sha1 × Reply BitVec). IsCounted r.0)
          (set_bit L old idx true >>= λ b.
            done (record t { peer_bitfields = HashMap.insert t.peer_bitfields peer b }, no_reply))
  unfolding has_bit
  mark-IsCounted t peer idx old e k v = elim (Bool-cases (ltb idx (len old))) [
    | inr past ↦ rw (set_bit_oob L W old idx true (ltb→le _ _ past)) tt
    | inl inside ↦
        let lt = ltb→lt _ _ inside in
        rw (set_bit_lem L W old idx true lt) (
          insert-IsCounted t
            (record t { peer_bitfields = HashMap.insert t.peer_bitfields peer (set old idx true) })
            peer (set old idx true) refl refl
            (λ i away. rw e (elim (Bool-cases (idx == i)) [
              | inl same ↦
                  let eq = ==→eq idx i same in
                  let held : get_or_false L old i ≡ true = elim k [
                    | inl own ↦ absurd (cc (rw eq at own))
                    | inr there ↦ rw (← eq) there
                  ] in
                  rw held (ground arith)
              | inr other ↦
                  let bit = get_or_false-set L W old idx true i lt in ground (arith, bit, other)
            ]))
            v)
  ]

  -- A peer has a piece more, which is counted.
  module _ (s : State L FS FL sha1) (peer : String) (idx : ℕ) (b : BitVec)
      (known : HashMap.get s.peer_bitfields peer ≡ some b) (inside : idx < len b) where
    abbrev marked : State L FS FL sha1
    marked = record s { peer_bitfields = HashMap.insert s.peer_bitfields peer (set b idx true) }

    raised-IsCounted :
        (t : State L FS FL sha1)
        → Raises L FS FL sha1 marked (λ i. one_if (idx == i)) t
        → IsCounted s
        → IsCounted t
    unfolding has_bit
    raised-IsCounted t (e, f, le) v =
        insert-IsCounted s t peer (set b idx true) e f
          (λ i away. rw known (ground (arith, le i, get_or_false-set L W b idx true i inside))) v

    raised_known :
        (t : State L FS FL sha1)
        → Raises L FS FL sha1 marked (λ i. one_if (idx == i)) t
        → HashMap.get t.peer_bitfields peer ≡ some (set b idx true)
    raised_known t (e, _, _) =
        ap (λ (m : List (String × BitVec)). HashMap.get m peer) e
        ∙ get-insert s.peer_bitfields peer (set b idx true) peer
        ∙ rw (beq_refl peer) refl

    raised_bit : get_or_false L (set b idx true) idx ≡ true
    raised_bit = ground (arith, get_or_false-set L W b idx true idx inside)

  pub handle_update_bit_field-IsCounted :
      (s : State L FS FL sha1) (peer : String) (idx : ℕ)
      → IsCounted s
      → IfDone L FS FL sha1
          (λ (r : State L FS FL sha1 × Reply BitVec). IsCounted r.0)
          (handle_update_bit_field L FS FL sha1 s peer idx)
  unfolding handle_update_bit_field update_freq_have
  handle_update_bit_field-IsCounted s peer idx v =
      elim (Option-cases (HashMap.get s.peer_bitfields peer)) [
        | inl unknown ↦ elim (Bool-cases (get_or_false L s.local_bitfield idx)) [
          | inl here ↦ rw here (rw unknown tt)
          | inr away ↦ rw away (rw unknown (rw unknown tt))
        ]
        | inr (b, known) ↦ elim (Bool-cases (get_or_false L s.local_bitfield idx)) [
          | inl here ↦ rw here (rw known (mark-IsCounted s peer idx b known (inl here) v))
          | inr away ↦ elim (Bool-cases (get_or_false L b idx)) [
            | inl held ↦
                rw away
                  (rw known (rw held (rw known (mark-IsCounted s peer idx b known (inr held) v))))
            | inr lacks ↦ elim (Bool-cases (ltb idx (len b))) [
              | inr past ↦
                  rw away
                    (rw known (rw lacks (rw (set_bit_oob L W b idx true (ltb→le _ _ past)) tt)))
              | inl inside ↦
                  let lt = ltb→lt _ _ inside in
                  let s1 = marked s peer idx b known lt in
                  let raised = raise_frequency-Raises L FS FL sha1 s1 idx in
                  elim (Outcome-cases (raise_frequency L FS FL sha1 s1 idx)) [
                    | inl bad ↦
                        rw away
                          (rw known (rw lacks (rw (set_bit_lem L W b idx true lt) (rw bad tt))))
                    | inr (t, good) ↦
                        let r = rw good at raised in
                        let there = raised_known s peer idx b known lt t r in
                        rw away (
                          rw known (
                            rw lacks (
                              rw (set_bit_lem L W b idx true lt) (
                                rw good (
                                  rw there (
                                    mark-IsCounted t peer idx (set b idx true) there
                                      (inr (raised_bit s peer idx b known lt))
                                      (raised-IsCounted s peer idx b known lt t r v)))))))
                  ]
            ]
          ]
        ]
      ]
