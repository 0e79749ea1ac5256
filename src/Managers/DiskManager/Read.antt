-- ===== src/Managers/DiskManager/Read.antt =====
-- `GetDataWithLength`: a range of the stream is read from the files that it crosses.
use mathlib.Core.List.{append-nil}
use fissure.Common.{
  ℕ, zero, suc, ◌+◌, ◌-◌, ◌<◌, ◌≤◌, ◌^◌, min, max, ◌≡◌, refl, ap, ◌∙◌, inl, inr, true, false, done,
  some, List, [], ◌∷◌, ◌++◌, ltb, leb, ◌==◌, length, get_elem?, get_elem?-slice, get_elem?-append,
  get_elem?-ge, length-append, length-slice, slice, drop, Bool-cases, ltb→lt, ltb→le, leb→le,
  leb→lt, ==→eq, arith,
}
use fissure.Common.Bytes.{wrap, wrap_lt}
use fissure.Managers.DiskManager.{
  FileSystem, LocalFile, finished, offset_in_file, bytes_in_file, read_part, read_loop,
}
use fissure.Managers.DiskManager.Stream.{HealthyDisk, extent, le-extent, drop_cons, Tiled, byte_at}
use fissure.Managers.DiskManager.ReadSteps.{read_ended, read_skipped, read_taken}

module _ (FS : FileSystem) where
  module _ (H : HealthyDisk FS) (files : List LocalFile) (start end : ℕ)
      (ordered : start ≤ end) where
    read_part_lem :
        (f : FS.File) (offset count : ℕ)
        → offset + count ≤ length (H.bytes_of f)
        → (f' : FS.File) × (read_part FS f offset count
            ≡ finished (slice (H.bytes_of f) offset (offset + count), f'))
          × (H.bytes_of f' ≡ H.bytes_of f)
    unfolding read_part
    read_part_lem f offset count h =
        let (g, found, same, at) = H.seek-some f offset in
        let (f', got, same') = H.read_exact-some g count (omega (arith, at, ap length same)) in
        let taken : slice (H.bytes_of g) (H.position g) (H.position g + count)
            ≡ slice (H.bytes_of f) offset (offset + count) =
          ap (λ (b : List ℕ). slice b (H.position g) (H.position g + count)) same
          ∙ ap (λ (p : ℕ). slice (H.bytes_of f) p (p + count)) at in
        (
          f',
          rw (read_part, found) (rw got (ap (λ (b : List ℕ). finished (b, f')) taken)),
          same' ∙ same,
        )

    -- The part of the range that a file holds.
    share_eq :
        (file_start size at count pending : ℕ)
        → at ≡ offset_in_file start file_start
        → count ≡ bytes_in_file pending file_start (file_start + size) at
        → pending ≡ end - max start file_start
        → start < file_start + size
        → file_start < end
        → 0 < pending
        → (file_start + at ≡ max start file_start)
          × (at + count ≡ min (end - file_start) size)
          × (pending - count ≡ end - max start (file_start + size))
          × (count ≤ pending)
    unfolding offset_in_file bytes_in_file
    share_eq file_start size at count pending a c p lt lt' pos = ground (arith, a, c, p)

    -- The range from `offset` on, as the loop returns it behind the bytes that it had.
    abbrev pub Taken :
        List LocalFile → ℕ → ℕ → List (ℕ × FS.File) → List ℕ → List (ℕ × FS.File) → Type 0
    Taken fs offset pending hs bytes hs' =
        (length bytes ≡ pending)
        × ((j : ℕ) → j < pending → get_elem? bytes j ≡ byte_at FS H fs hs (max start offset + j))
        × Tiled FS H fs offset hs'
        × ((j : ℕ) → byte_at FS H fs hs' j ≡ byte_at FS H fs hs j)

    some_lt : (bs : List ℕ) (i x : ℕ) → get_elem? bs i ≡ some x → i < length bs
    some_lt bs i x e = elim (Bool-cases (ltb i (length bs))) [
      | inl inside ↦ ltb→lt _ _ inside
      | inr past ↦ absurd (cc (get_elem?-ge bs i (ltb→le _ _ past)))
    ]

    -- The first file has nothing of the range.
    Taken-skip :
        (f : LocalFile) (fs : List LocalFile) (offset pending file_start : ℕ) (h : FS.File)
        (rest rest' : List (ℕ × FS.File)) (bytes : List ℕ)
        → file_start ≡ offset
        → offset + f.size ≤ start
        → Taken fs (offset + f.size) pending rest bytes rest'
        → Taken (f ∷ fs) offset pending ((file_start, h) ∷ rest) bytes ((file_start, h) ∷ rest')
    Taken-skip f fs offset pending file_start h rest rest' bytes same before
          (len, at, tiled, kept) =
        (
          len,
          λ j lt.
              let behind : ltb (max start offset + j) (file_start + f.size) ≡ false =
                ground arith in
              let place : max start (offset + f.size) + j ≡ max start offset + j = omega arith in
              rw behind (at j lt ∙ ap (byte_at FS H fs rest) place),
          (same, tiled),
          λ j. elim (Bool-cases (ltb j (file_start + f.size))) [
            | inl here ↦ rw here refl
            | inr later ↦ rw later (kept j)
          ],
        )

    -- The first file gives its part.
    Taken-part :
        (f : LocalFile) (fs : List LocalFile) (offset pending file_start at count : ℕ)
        (h h' : FS.File) (rest rest' : List (ℕ × FS.File)) (bytes : List ℕ)
        → file_start ≡ offset
        → file_start + at ≡ max start file_start
        → at + count ≡ min (end - file_start) f.size
        → pending ≡ end - max start file_start
        → count ≤ pending
        → pending - count ≡ end - max start (file_start + f.size)
        → at + count ≤ length (H.bytes_of h)
        → H.bytes_of h' ≡ H.bytes_of h
        → start < file_start + f.size
        → Taken fs (offset + f.size) (pending - count) rest bytes rest'
        → Taken
            (f ∷ fs)
            offset
            pending
            ((file_start, h) ∷ rest)
            (slice (H.bytes_of h) at (at + count) ++ bytes)
            ((file_start, h') ∷ rest')
    Taken-part f fs offset pending file_start at count h h' rest rest' bytes same first last p most
          next room old reach (len, at_rest, tiled, kept) =
        let part = slice (H.bytes_of h) at (at + count) in
        let part_len : length part ≡ count =
          length-slice (H.bytes_of h) at (at + count) room ∙ omega arith in
        (
          length-append part bytes ∙ omega (arith, part_len, len),
          λ j lt. get_elem?-append part bytes j ∙ elim (Bool-cases (ltb j (length part))) [
            | inl inside ↦
                let lt' = ltb→lt _ _ inside in
                let here : ltb (max start offset + j) (file_start + f.size) ≡ true =
                  ground (arith, part_len, lt') in
                let place : at + j ≡ max start offset + j - file_start = omega arith in
                rw (inside, here)
                  (get_elem?-slice (H.bytes_of h) at (at + count) j (omega (arith, part_len))
                    ∙ ap (get_elem? (H.bytes_of h)) place)
            | inr outside ↦
                let ge = ltb→le _ _ outside in
                let behind : ltb (max start offset + j) (file_start + f.size) ≡ false =
                  ground (arith, part_len, ge, lt) in
                let place : max start (offset + f.size) + (j - length part) ≡ max start offset + j =
                  ground (arith, part_len, ge, lt) in
                rw (outside, behind)
                  (at_rest (j - length part) (omega (arith, part_len))
                    ∙ ap (byte_at FS H fs rest) place)
          ],
          (same, tiled),
          λ j. elim (Bool-cases (ltb j (file_start + f.size))) [
            | inl here ↦ rw here (ap (λ (b : List ℕ). get_elem? b (j - file_start)) old)
            | inr later ↦ rw later (kept j)
          ],
        )

    -- The files hold every byte of the range from `offset` on.
    abbrev pub Held : List LocalFile → ℕ → List (ℕ × FS.File) → Type 0
    Held fs offset hs =
        (j : ℕ) → offset ≤ j → start ≤ j → j < end → (x : ℕ) × (byte_at FS H fs hs j ≡ some x)

    Held-rest :
        (f : LocalFile) (fs : List LocalFile) (offset file_start : ℕ) (h : FS.File)
        (rest : List (ℕ × FS.File))
        → file_start ≡ offset
        → Held (f ∷ fs) offset ((file_start, h) ∷ rest)
        → Held fs (offset + f.size) rest
    Held-rest f fs offset file_start h rest same held j low from to =
        let (x, e) = held j (omega arith) from to in
        let behind : ltb j (file_start + f.size) ≡ false = ground arith in (x, rw behind at e)

    Held-length :
        (f : LocalFile) (fs : List LocalFile) (offset file_start at count : ℕ) (h : FS.File)
        (rest : List (ℕ × FS.File))
        → file_start ≡ offset
        → file_start + at ≡ max start file_start
        → at + count ≡ min (end - file_start) f.size
        → start < file_start + f.size
        → max start file_start < end
        → Held (f ∷ fs) offset ((file_start, h) ∷ rest)
        → at + count ≤ length (H.bytes_of h)
    Held-length f fs offset file_start at zero h rest same first last reach reach' held =
        omega arith
    Held-length f fs offset file_start at (suc n) h rest same first last reach reach' held =
        let j = file_start + at + n in
        let (x, e) = held j (omega arith) (omega arith) (omega arith) in
        let here : ltb j (file_start + f.size) ≡ true = ground arith in
        let place : j - file_start ≡ at + n = omega arith in
        omega (arith, some_lt (H.bytes_of h) (j - file_start) x (rw here at e))

    pub read_loop_lem :
        (fs : List LocalFile) (hs : List (ℕ × FS.File)) (idx offset pending : ℕ) (bytes : List ℕ)
        → drop idx files ≡ fs
        → Tiled FS H fs offset hs
        → extent fs offset < 2 ^ 64
        → end ≤ extent fs offset
        → pending ≡ end - max start offset
        → Held fs offset hs
        → (more : List ℕ) × (hs' : List (ℕ × FS.File)) × (read_loop FS files start end idx pending
              bytes hs
            ≡ done (finished (bytes ++ more, hs')))
          × Taken fs offset pending hs more hs'
    unfolding read_loop
    read_loop_lem [] [] idx offset pending bytes d t fits room p held = (
      [],
      [],
      rw (append-nil bytes) refl,
      (omega arith, λ j lt. absurd (omega arith), tt, λ j. refl),
    )
    read_loop_lem [] (h ∷ hs) idx offset pending bytes d t fits room p held = absurd t
    read_loop_lem (f ∷ fs) [] idx offset pending bytes d t fits room p held = absurd t
    read_loop_lem (f ∷ fs) ((file_start, h) ∷ rest) idx offset pending bytes d (same, tiled) fits
          room p held =
        let (found, later) = drop_cons files idx f fs d in
        let bound = le-extent fs (offset + f.size) in
        let whole : wrap (file_start + f.size) ≡ file_start + f.size = wrap_lt _ (omega arith) in
        let held' = Held-rest f fs offset file_start h rest same held in
        elim (Bool-cases (pending == 0)) [
          | inl none_left ↦
              let none_pending : pending ≡ 0 = ==→eq pending 0 none_left in
              (
                [],
                (file_start, h) ∷ rest,
                read_ended FS files start end idx pending file_start bytes h rest f found none_left
                    ∙ rw (append-nil bytes) refl,
                (omega arith, (λ j lt. absurd (omega arith)), (same, tiled), λ j. refl),
              )
          | inr some_left ↦ elim (Bool-cases (leb (file_start + f.size) start)) [
            | inl before ↦
                let low = leb→le _ _ before in
                let (more, rest', r, q) =
                  read_loop_lem fs rest (idx + 1) (offset + f.size) pending bytes later tiled fits
                    room (omega arith) held' in
                (
                  more,
                  (file_start, h) ∷ rest',
                  read_skipped FS files start end idx pending file_start bytes h rest f found
                      (bytes ++ more) rest' some_left (rw whole before) r,
                  Taken-skip f fs offset pending file_start h rest rest' more same (omega arith) q,
                )
            | inr after ↦
                let at = offset_in_file start file_start in
                let count = bytes_in_file pending file_start (wrap (file_start + f.size)) at in
                let counted : count ≡ bytes_in_file pending file_start (file_start + f.size) at =
                  ap (λ (e : ℕ). bytes_in_file pending file_start e at) whole in
                let left : 0 < pending = ground arith in
                let reach = leb→lt _ _ after in
                let (first, last, next, most) =
                  share_eq file_start f.size at count pending refl counted (omega arith) reach
                    (omega arith) left in
                let enough =
                  Held-length f fs offset file_start at count h rest same first last reach
                    (omega arith) held in
                let part = slice (H.bytes_of h) at (at + count) in
                let (h', w, old) = read_part_lem h at count enough in
                let (more, rest', r, q) =
                  read_loop_lem fs rest (idx + 1) (offset + f.size) (pending - count)
                    (bytes ++ part) later tiled fits room (omega arith) held' in
                (
                  part ++ more,
                  (file_start, h') ∷ rest',
                  read_taken FS files start end idx pending file_start bytes h rest f found part h'
                      more rest' some_left (rw whole after) (ground arith) w r,
                  Taken-part f fs offset pending file_start at count h h' rest rest' more same first
                      last (omega arith) most next enough old reach q,
                )
          ]
        ]
