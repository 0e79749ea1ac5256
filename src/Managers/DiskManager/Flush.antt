-- ===== src/Managers/DiskManager/Flush.antt =====
-- `FlushPieceToDisk`: a piece is written to the files that it crosses.
use fissure.Common.{
  ℕ, ◌+◌, ◌-◌, ◌<◌, ◌≤◌, ◌^◌, min, max, ◌≡◌, refl, ap, ◌∙◌, ◌⊎◌, inl, inr, true, false, done, some,
  List, [], ◌∷◌, ltb, leb, ◌==◌, length, get_elem?, get_elem?-slice, get_elem?-ge, length-slice,
  slice, drop, Bool-cases, ltb→lt, ltb→le, leb→le, leb→lt, ==→eq, arith,
}
use fissure.Common.Bytes.{wrap, wrap_lt}
use fissure.Managers.DiskManager.{
  FileSystem, LocalFile, finished, offset_in_file, bytes_in_file, write_part, flush_loop,
}
use fissure.Managers.DiskManager.Stream.{
  HealthyDisk, extent, le-extent, drop_cons, Tiled, byte_at, write_part_lem,
}

module _ (FS : FileSystem) where
  -- The ways in which the loop takes its first file.
  module _ (bytes : ℕ → ℕ → List ℕ) (files : List LocalFile)
      (piece_length start end idx pending file_start : ℕ) (handle : FS.File)
      (rest : List (ℕ × FS.File)) (f : LocalFile) (found : get_elem? files idx ≡ some f) where
    flush_ended :
        (pending == 0) ≡ true
        → flush_loop FS bytes files piece_length start end idx pending ((file_start, handle) ∷ rest)
          ≡ done (finished ((file_start, handle) ∷ rest))
    unfolding flush_loop
    flush_ended e = rw found (rw e refl)

    flush_skipped :
        (rest' : List (ℕ × FS.File))
        → (pending == 0) ≡ false
        → leb (wrap (file_start + f.size)) start ≡ true
        → flush_loop FS bytes files piece_length start end (idx + 1) pending rest
          ≡ done (finished rest')
        → flush_loop FS bytes files piece_length start end idx pending ((file_start, handle) ∷ rest)
          ≡ done (finished ((file_start, handle) ∷ rest'))
    unfolding flush_loop
    flush_skipped rest' e e' r = rw found (rw (e, e') (rw r refl))

    flush_written :
        (written : FS.File) (rest' : List (ℕ × FS.File))
        → let offset = offset_in_file start file_start in
          let count = bytes_in_file pending file_start (wrap (file_start + f.size)) offset in
          let from = piece_length - pending in
          (pending == 0) ≡ false
          → leb (wrap (file_start + f.size)) start ≡ false
          → leb end file_start ≡ false
          → write_part FS handle offset (bytes from (from + count)) ≡ finished written
          → flush_loop FS bytes files piece_length start end (idx + 1) (pending - count) rest
            ≡ done (finished rest')
          → flush_loop FS bytes files piece_length start end idx pending
              ((file_start, handle) ∷ rest)
            ≡ done (finished ((file_start, written) ∷ rest'))
    unfolding flush_loop
    flush_written written rest' e e' e'' w r = rw found (rw (e, e', e'') (rw w (rw r refl)))

  module _ (H : HealthyDisk FS) (files : List LocalFile) (piece : List ℕ) (bytes : ℕ → ℕ → List ℕ)
      (served : (a b : ℕ) → a ≤ b → b ≤ length piece → bytes a b ≡ slice piece a b) (start end : ℕ)
      (range : end ≡ start + length piece) where
    -- The stream from `offset` on, after the loop: the piece stands in its range, and every other
    -- byte that was there is as before.
    abbrev pub Flushed : List LocalFile → ℕ → List (ℕ × FS.File) → List (ℕ × FS.File) → Type 0
    Flushed fs offset hs hs' =
        Tiled FS H fs offset hs'
        × ((j : ℕ)
            → offset ≤ j
            → start ≤ j
            → j < end
            → byte_at FS H fs hs' j ≡ get_elem? piece (j - start))
        × ((j x : ℕ)
            → offset ≤ j
            → (j < start) ⊎ (end ≤ j)
            → byte_at FS H fs hs j ≡ some x
            → byte_at FS H fs hs' j ≡ some x)

    -- The first file, where nothing of the piece lies in it, stays as it is.
    Flushed-skip :
        (f : LocalFile) (fs : List LocalFile) (offset file_start : ℕ) (h : FS.File)
        (rest rest' : List (ℕ × FS.File))
        → file_start ≡ offset
        → (offset + f.size ≤ start) ⊎ (end ≤ offset)
        → Flushed fs (offset + f.size) rest rest'
        → Flushed (f ∷ fs) offset ((file_start, h) ∷ rest) ((file_start, h) ∷ rest')
    Flushed-skip f fs offset file_start h rest rest' same away (tiled, inside, outside) = (
      (same, tiled),
      λ j low from to. elim (Bool-cases (ltb j (file_start + f.size))) [
        | inl here ↦ absurd (ground (arith, away, ltb→lt _ _ here))
        | inr later ↦ rw later (inside j (omega (arith, ltb→le _ _ later)) from to)
      ],
      λ j x low out e. elim (Bool-cases (ltb j (file_start + f.size))) [
        | inl here ↦ rw here (rw here at e)
        | inr later ↦ rw later (outside j x (omega (arith, ltb→le _ _ later)) out (rw later at e))
      ],
    )

    -- The first file, after its part of the piece is written.
    Flushed-write :
        (f : LocalFile) (fs : List LocalFile) (offset file_start at count : ℕ) (h h' : FS.File)
        (rest rest' : List (ℕ × FS.File))
        → file_start ≡ offset
        → file_start + at ≡ max start file_start
        → at + count ≡ min (end - file_start) f.size
        → ((i : ℕ)
            → at ≤ i
            → i < at + count
            → get_elem? (H.bytes_of h') i ≡ get_elem? piece (file_start + i - start))
        → ((i : ℕ)
            → i < length (H.bytes_of h)
            → (i < at) ⊎ (at + count ≤ i)
            → get_elem? (H.bytes_of h') i ≡ get_elem? (H.bytes_of h) i)
        → Flushed fs (offset + f.size) rest rest'
        → Flushed (f ∷ fs) offset ((file_start, h) ∷ rest) ((file_start, h') ∷ rest')
    Flushed-write f fs offset file_start at count h h' rest rest' same first last wrote kept
          (tiled, inside, outside) =
        (
          (same, tiled),
          λ j low from to. elim (Bool-cases (ltb j (file_start + f.size))) [
            | inl here ↦
                let lt = ltb→lt _ _ here in
                let place : file_start + (j - file_start) ≡ j = omega arith in
                rw here (
                  wrote (j - file_start) (omega arith) (omega arith)
                  ∙ ap (λ (k : ℕ). get_elem? piece (k - start)) place)
            | inr later ↦ rw later (inside j (omega (arith, ltb→le _ _ later)) from to)
          ],
          λ j x low out e. elim (Bool-cases (ltb j (file_start + f.size))) [
            | inl here ↦
                let lt = ltb→lt _ _ here in
                let old : get_elem? (H.bytes_of h) (j - file_start) ≡ some x = rw here at e in
                rw here (
                  kept (j - file_start) (some_lt (H.bytes_of h) (j - file_start) x old)
                    (ground (arith, out))
                  ∙ old)
            | inr later ↦
                rw later (outside j x (omega (arith, ltb→le _ _ later)) out (rw later at e))
          ],
        )
      where
        some_lt : (bs : List ℕ) (i x : ℕ) → get_elem? bs i ≡ some x → i < length bs
        some_lt bs i x e = elim (Bool-cases (ltb i (length bs))) [
          | inl inside' ↦ ltb→lt _ _ inside'
          | inr past ↦ absurd (cc (get_elem?-ge bs i (ltb→le _ _ past)))
        ]

    -- The part of the piece that a file takes.
    part_eq :
        (file_start size at count pending : ℕ)
        → at ≡ offset_in_file start file_start
        → count ≡ bytes_in_file pending file_start (file_start + size) at
        → pending ≡ end - max start file_start
        → start < file_start + size
        → file_start < end
        → 0 < pending
        → (file_start + at ≡ max start file_start)
          × (at + count ≡ min (end - file_start) size)
          × (pending - count ≡ end - max start (file_start + size))
          × (length piece - pending + start ≡ file_start + at)
          × (length piece - pending + count ≤ length piece)
    unfolding offset_in_file bytes_in_file
    part_eq file_start size at count pending a c p lt lt' pos = ground (arith, range, a, c, p)

    pub flush_loop_lem :
        (fs : List LocalFile) (hs : List (ℕ × FS.File)) (idx offset pending : ℕ)
        → drop idx files ≡ fs
        → Tiled FS H fs offset hs
        → extent fs offset < 2 ^ 64
        → end ≤ extent fs offset
        → pending ≡ end - max start offset
        → (hs' : List (ℕ × FS.File)) × (flush_loop FS bytes files
              (length piece)
              start
              end
              idx
              pending
              hs
            ≡ done (finished hs'))
          × Flushed fs offset hs hs'
    unfolding flush_loop
    flush_loop_lem [] [] idx offset pending d t fits room p =
        ([], refl, (tt, (λ j low from to. absurd (omega arith)), (λ j x low out e. e)))
    flush_loop_lem [] (h ∷ hs) idx offset pending d t fits room p = absurd t
    flush_loop_lem (f ∷ fs) [] idx offset pending d t fits room p = absurd t
    flush_loop_lem (f ∷ fs) ((file_start, h) ∷ rest) idx offset pending d (same, tiled) fits room
          p =
        let (found, later) = drop_cons files idx f fs d in
        let bound = le-extent fs (offset + f.size) in
        let whole : wrap (file_start + f.size) ≡ file_start + f.size = wrap_lt _ (omega arith) in
        elim (Bool-cases (pending == 0)) [
          | inl none_left ↦
              let none_pending : pending ≡ 0 = ==→eq pending 0 none_left in
              (
                (file_start, h) ∷ rest,
                flush_ended bytes files (length piece) start end idx pending file_start h rest f
                    found none_left,
                ((same, tiled), (λ j low from to. absurd (omega arith)), (λ j x low out e. e)),
              )
          | inr some_left ↦ elim (Bool-cases (leb (file_start + f.size) start)) [
            | inl before ↦
                let low = leb→le _ _ before in
                let (rest', r, q) =
                  flush_loop_lem fs rest (idx + 1) (offset + f.size) pending later tiled fits room
                    (omega arith) in
                (
                  (file_start, h) ∷ rest',
                  flush_skipped bytes files (length piece) start end idx pending file_start h rest f
                      found rest' some_left (rw whole before) r,
                  Flushed-skip f fs offset file_start h rest rest' same (inl (omega arith)) q,
                )
            | inr after ↦
                let at = offset_in_file start file_start in
                let count = bytes_in_file pending file_start (wrap (file_start + f.size)) at in
                let counted : count ≡ bytes_in_file pending file_start (file_start + f.size) at =
                  ap (λ (e : ℕ). bytes_in_file pending file_start e at) whole in
                let left : 0 < pending = ground arith in
                let parts =
                  part_eq file_start f.size at count pending refl counted (omega arith)
                    (leb→lt _ _ after) (omega arith) left in
                let (first, last, next, from, most) = parts in
                let source = length piece - pending in
                let sent = served source (source + count) (omega arith) most in
                let sent_len : length (bytes source (source + count)) ≡ count =
                  ap length sent ∙ length-slice piece source (source + count) most ∙ omega arith in
                let (h', w, inside, outside) =
                  write_part_lem FS H h at (bytes source (source + count)) in
                let (rest', r, q) =
                  flush_loop_lem fs rest (idx + 1) (offset + f.size) (pending - count) later tiled
                    fits room (omega arith) in
                (
                  (file_start, h') ∷ rest',
                  flush_written bytes files (length piece) start end idx pending file_start h rest f
                      found h' rest' some_left (rw whole after) (ground arith) w r,
                  Flushed-write f fs offset file_start at count h h' rest rest' same first last
                      (λ i low high.
                        inside i low (omega (arith, sent_len))
                        ∙ ap (λ (b : List ℕ). get_elem? b (i - at)) sent
                        ∙ get_elem?-slice piece source (source + count) (i - at) (omega arith)
                        ∙ ap (get_elem? piece) (omega arith))
                      (λ i lt out. outside i lt (ground (arith, out, sent_len))) q,
                )
          ]
        ]
