-- ===== src/Managers/TorrentManager/Handlers.antt =====
-- The messages of torrent_manager.rs. A handler returns the new state and what it replies. Panics
-- end the actor's task. Times are nanoseconds.
use Prim.Native.String.{String}
use fissure.Common.{
  ℕ, ◌+◌, ◌-◌, ◌*◌, ◌%◌, ◌^◌, min, Bool, true, false, not, ◌&&◌, Outcome, done, panic, unwrap,
  ◌>>=◌, Option, some, none, List, [], ◌∷◌, ◌++◌, ltb, leb, if◌then◌else◌, length, get_elem?, set,
  drop,
}
use fissure.Common.Bits.{BitVecLib, set_bit, get_or_false, index}
use fissure.Common.HashMap
use fissure.Common.HashMap.{nat_Eq, string_Eq}
use fissure.Models.TorrentMeta.{get_piece_hash, get_piece_length}
use fissure.Managers.PieceManager.Handle.{PieceRequestManager, spawn}
use fissure.Managers.DiskManager.{FileSystem, flush_piece_to_disk, get_data_with_length}
use fissure.Managers.TorrentManager.{
  Floats, TorrentStats, State, set_insert, set_remove, drop_piece_everywhere, works_on,
}

-- `TorrentManagerMessage`, each with the time at which it is handled where the handler reads the
-- clock.
pub data Message (B : Type 0) : Type 0 where
  add_peer : String → B → Message B
  update_bit_field : String → ℕ → Message B
  add_bit_feild : String → B → Message B
  remove_peer : String → Message B
  piece_finish : String → ℕ → Message B
  request_work : String → ℕ → Message B
  get_torrent_stats : Message B
  update_and_get_active_request_count : String → ℕ → Message B
  has_useful_pieces : String → Message B
  get_active_peers : Message B
  get_data : ℕ → ℕ → ℕ → Message B
  get_piece_manager : ℕ → Message B
  get_have_message_progress : ℕ → Message B

pub data Reply (B : Type 0) : Type 0 where
  local : B → Reply B
  work : Option PieceRequestManager → Reply B
  torrent_stats : TorrentStats → Reply B
  active : Option (List (ℕ × ℕ)) → Reply B
  useful : Bool → Reply B
  peers : Option (List String) → Reply B
  bytes : Option (List ℕ) → Reply B
  progress : Option (List ℕ) → Reply B
  no_reply : Reply B

-- The first element that passes a fallible test.
unfoldable pub find : (ℕ → Bool) → List ℕ → Option ℕ
find p [] = none
find p (x ∷ xs) = let rest = find p xs in if p x then some x else rest

-- `self.rarity_bucket.iter().flatten()`, where `order` is the order in which a set is walked.
unfoldable pub candidates : (List ℕ → List ℕ) → List (List ℕ) → List ℕ
candidates order [] = []
candidates order (b ∷ bs) = order b ++ candidates order bs

-- `keys().cloned()`
unfoldable pub keys : {B : Type 0} → List (String × B) → List String
keys [] = []
keys ((k, v) ∷ m) = k ∷ keys m

module _ (L : BitVecLib) (FS : FileSystem) (FL : Floats) (sha1 : List ℕ → List ℕ) where
  open L use {BitVec, iter_ones, and_not, count_ones}

  abbrev S : Type 0
  S = State L FS FL sha1

  -- One more peer has piece `idx`: it moves to the next bucket. Indexing panics out of bounds.
  unfoldable pub raise_frequency : S → ℕ → Outcome S
  raise_frequency s idx = do
    old_freq ← unwrap (get_elem? s.pieces_frequency idx)
    let new_freq = min (old_freq + 1) 255
    old_bucket ← unwrap (get_elem? s.rarity_bucket (min old_freq 255))
    let without = set s.rarity_bucket (min old_freq 255) (set_remove old_bucket idx)
    new_bucket ← unwrap (get_elem? without new_freq)
    done (record s {
      rarity_bucket = set without new_freq (set_insert new_bucket idx);
      pieces_frequency = set s.pieces_frequency idx new_freq;
    })

  -- `is_new_piece_for_peer`
  unfoldable pub is_new_piece : Option BitVec → ℕ → Bool
  is_new_piece none idx = true
  is_new_piece (some old_b) idx = not (get_or_false L old_b idx)

  -- The loop of `update_freq_bitfield`.
  unfoldable pub raise_all : Option BitVec → List ℕ → S → Outcome S
  raise_all existing [] s = done s
  raise_all existing (idx ∷ rest) s =
      if get_or_false L s.local_bitfield idx
      then raise_all existing rest s
      else (if is_new_piece existing idx then raise_frequency s idx else done s)
        >>= raise_all existing rest

  unfoldable pub update_freq_bitfield : S → BitVec → String → Outcome S
  update_freq_bitfield s bitfield peer_id =
      raise_all (HashMap.get s.peer_bitfields peer_id) (iter_ones bitfield) s

  unfoldable pub update_freq_have : S → String → ℕ → Outcome S
  update_freq_have s peer_id idx =
      if get_or_false L s.local_bitfield idx
      then done s
      else elim (HashMap.get s.peer_bitfields peer_id) [
        | none ↦ done s
        | some peer_bitfield ↦
            if get_or_false L peer_bitfield idx
            then done s
            else (set_bit L peer_bitfield idx true >>= λ b.
                raise_frequency
                  (record s { peer_bitfields = HashMap.insert s.peer_bitfields peer_id b }) idx)
      ]

  unfoldable pub handle_add_peer : S → String → BitVec → Outcome (S × Reply BitVec)
  handle_add_peer s peer_id peer_bitfield = do
    t ← update_freq_bitfield s peer_bitfield peer_id
    done (
      record t {
        peer_bitfields = HashMap.insert t.peer_bitfields peer_id peer_bitfield;
        peer_active_work = HashMap.insert t.peer_active_work peer_id [];
      },
      local t.local_bitfield,
    )

  unfoldable pub handle_add_bit_feild : S → String → BitVec → Outcome (S × Reply BitVec)
  handle_add_bit_feild s peer_id peer_bitfield = do
    t ← update_freq_bitfield s peer_bitfield peer_id
    done (
      record t { peer_bitfields = HashMap.insert t.peer_bitfields peer_id peer_bitfield },
      no_reply,
    )

  unfoldable pub handle_update_bit_field : S → String → ℕ → Outcome (S × Reply BitVec)
  handle_update_bit_field s peer_id idx = do
    t ← update_freq_have s peer_id idx
    old ← unwrap (HashMap.get t.peer_bitfields peer_id)
    b ← set_bit L old idx true
    done (record t { peer_bitfields = HashMap.insert t.peer_bitfields peer_id b }, no_reply)

  -- The closure of `find` in `RequestWork`.
  unfoldable pub is_assignable : S → String → BitVec → ℕ → Bool
  is_assignable s peer_id current_peer_bitfield idx =
      let has_piece = get_or_false L current_peer_bitfield idx in
      let already_downloaded = get_or_false L s.local_bitfield idx in
      let already_assigned : Bool = elim (HashMap.get s.peer_active_work peer_id) [
        | some t ↦ works_on idx t
        | none ↦ false
      ] in
      elim (HashMap.get s.piece_concurrency_counts idx) [
        | some n ↦
            has_piece
            && not already_downloaded
            && leb n s.peer_options.per_piece_active_peer_count
            && not already_assigned
        | none ↦ false
      ]

  -- The piece manager of `idx`, which is created if there is none.
  unfoldable pub piece_manager_for : S → ℕ → Outcome (S × PieceRequestManager)
  piece_manager_for s idx = elim (HashMap.get s.active_pieces_manager idx) [
    | some manager ↦ done (s, manager)
    | none ↦ get_piece_hash s.client_torrent_meta.raw_torrent idx >>= λ hash.
        get_piece_length s.client_torrent_meta.raw_torrent idx >>= λ p_len.
        let spawned =
          spawn L sha1 s.tasks s.next_task idx hash p_len s.peer_options.block_request_timeout in
        done (
          record s {
            tasks = spawned.0;
            next_task = s.next_task + 1;
            active_pieces_manager = HashMap.insert s.active_pieces_manager idx spawned.1;
          },
          spawned.1,
        )
  ]

  -- The end of `RequestWork`, for the piece that was found. The `panic!`s of the source are those
  -- of the two `unwrap`s.
  unfoldable pub assign : S → String → ℕ → ℕ → Outcome (S × Reply BitVec)
  assign s peer_id now idx = do
    (t, manager) ← piece_manager_for s idx
    count ← unwrap (HashMap.get t.piece_concurrency_counts idx)
    assigned ← unwrap (HashMap.get t.peer_active_work peer_id)
    done (
      record t {
        piece_concurrency_counts = HashMap.insert t.piece_concurrency_counts idx (count + 1);
        peer_active_work = HashMap.insert t.peer_active_work peer_id (assigned ++ (idx, now) ∷ []);
      },
      work (some manager),
    )

  unfoldable pub handle_request_work :
      (List ℕ → List ℕ) → S → String → ℕ → Outcome (S × Reply BitVec)
  handle_request_work order s peer_id now = elim (HashMap.get s.peer_bitfields peer_id) [
    | none ↦ done (s, work none)
    | some b ↦ elim (find (is_assignable s peer_id b) (candidates order s.rarity_bucket)) [
      | none ↦ done (s, work none)
      | some idx ↦ assign s peer_id now idx
    ]
  ]

  -- The state of `PieceFinish` before the flush.
  unfoldable pub retire_piece : S → ℕ → Outcome S
  retire_piece s idx = do
    local_bitfield ← set_bit L s.local_bitfield idx true
    current_freq ← unwrap (get_elem? s.pieces_frequency idx)
    bucket ← unwrap (get_elem? s.rarity_bucket (min current_freq 255))
    done (record s {
      local_bitfield = local_bitfield;
      rarity_bucket = set s.rarity_bucket (min current_freq 255) (set_remove bucket idx);
      pieces_frequency = set s.pieces_frequency idx 0;
      piece_concurrency_counts = HashMap.remove s.piece_concurrency_counts idx;
      peer_active_work = drop_piece_everywhere idx s.peer_active_work;
    })

  -- The flush of a finished piece, and the log of finished pieces.
  unfoldable pub persist_piece : S → ℕ → PieceRequestManager → Outcome S
  persist_piece s idx manager =
      let flushed = flush_piece_to_disk FS L sha1 s.disk_manager s.tasks manager in
      let t = record s { disk_manager = flushed.0 } in
      let megabytes = FL.div (FL.from_u64 manager.piece_length) (FL.from_u64 1000000) in
      let log = s.downloaded_piece_index ++ idx % 2 ^ 32 ∷ [] in
      if flushed.1
      then (unwrap (FL.parse s.stats.downloaded) >>= λ downloaded. done (record t {
        stats = record s.stats { downloaded = FL.to_text (FL.add downloaded megabytes) };
        downloaded_piece_index = log;
        peer_notifier = length log;
      }))
      else done t

  -- The end of `PieceFinish`, for the piece manager if there is one.
  unfoldable pub release_manager : S → ℕ → Outcome (S × Reply BitVec)
  release_manager t idx =
      let managers = HashMap.remove t.active_pieces_manager idx in
      let u = record t { active_pieces_manager = managers } in
      elim (HashMap.get t.active_pieces_manager idx) [
        | none ↦ done (u, no_reply)
        | some manager ↦ persist_piece u idx manager >>= λ v. done (v, no_reply)
      ]

  unfoldable pub handle_piece_finish : S → ℕ → Outcome (S × Reply BitVec)
  handle_piece_finish s idx = do
    already ← index L s.local_bitfield idx
    if already then done (s, no_reply) else (retire_piece s idx >>= λ t. release_manager t idx)

  -- `retain` in `UpdateAndGetActiveRequestCount`: the work that is kept, and the counts.
  unfoldable pub retain_work :
      BitVec → ℕ → ℕ → List (ℕ × ℕ) → List (ℕ × ℕ) → Outcome (List (ℕ × ℕ) × List (ℕ × ℕ))
  retain_work local_bitfield timeout now [] counts = done ([], counts)
  retain_work local_bitfield timeout now ((piece, time) ∷ rest) counts = do
    finished ← index L local_bitfield piece
    let late = ltb (timeout * 1_000_000_000) (now - time)
    let lowered : List (ℕ × ℕ) = elim (HashMap.get counts piece) [
      | some n ↦ if ltb 0 n then HashMap.insert counts piece (n - 1) else counts
      | none ↦ counts
    ]
    (kept, counts') ←
        retain_work local_bitfield timeout now rest
          (if finished then counts else if late then lowered else counts)
    done (if finished then kept else if late then kept else (piece, time) ∷ kept, counts')

  unfoldable pub handle_update_active : S → String → ℕ → Outcome (S × Reply BitVec)
  handle_update_active s peer_id now = elim (HashMap.get s.peer_active_work peer_id) [
    | none ↦ done (s, active none)
    | some v ↦
        retain_work s.local_bitfield s.peer_options.piece_request_timeout now v
          s.piece_concurrency_counts
        >>= λ r. done (
          record s {
            peer_active_work = HashMap.insert s.peer_active_work peer_id r.0;
            piece_concurrency_counts = r.1;
          },
          active (some r.0),
        )
  ]

  unfoldable pub handle_has_useful_pieces : S → String → Outcome (Reply BitVec)
  handle_has_useful_pieces s peer_id = do
    peer_bf ← unwrap (HashMap.get s.peer_bitfields peer_id)
    done (useful (ltb 0 (count_ones (and_not s.local_bitfield peer_bf))))

  unfoldable pub handle_have_progress : S → ℕ → Outcome (Reply BitVec)
  handle_have_progress s since =
      if ltb (length s.downloaded_piece_index) since
      then panic
      else done (progress (some (drop since s.downloaded_piece_index)))

  -- One round of the loop of `run`. `order` is the order in which a `HashSet` is walked.
  unfoldable pub handle : (List ℕ → List ℕ) → S → Message BitVec → Outcome (S × Reply BitVec)
  handle order s (add_peer peer_id b) = handle_add_peer s peer_id b
  handle order s (update_bit_field peer_id idx) = handle_update_bit_field s peer_id idx
  handle order s (add_bit_feild peer_id b) = handle_add_bit_feild s peer_id b
  handle order s (remove_peer peer_id) = done (s, no_reply)
  handle order s (piece_finish peer_id idx) = handle_piece_finish s idx
  handle order s (request_work peer_id now) = handle_request_work order s peer_id now
  handle order s get_torrent_stats = done (s, torrent_stats s.stats)
  handle order s (update_and_get_active_request_count peer_id now) =
      handle_update_active s peer_id now
  handle order s (has_useful_pieces peer_id) = do
    r ← handle_has_useful_pieces s peer_id
    done (s, r)
  handle order s get_active_peers = done (s, peers (some (keys s.peer_bitfields)))
  handle order s (get_data piece_index offset count) =
      let answer =
        get_data_with_length FS s.disk_manager (piece_index % 2 ^ 32) (offset % 2 ^ 32)
          (count % 2 ^ 32) in
      done (record s { disk_manager = answer.0 }, bytes answer.1)
  handle order s (get_piece_manager piece_index) =
      done (s, work (HashMap.get s.active_pieces_manager piece_index))
  handle order s (get_have_message_progress since) = do
    r ← handle_have_progress s since
    done (s, r)

  -- The loop of `run` on the messages that come in.
  unfoldable pub run : (List ℕ → List ℕ) → S → List (Message BitVec) → Outcome S
  run order s [] = done s
  run order s (m ∷ messages) = do r ← handle order s m; run order r.0 messages
