-- ===== src/Orchestration/TorrentRefresh.antt =====
-- fissure_client/src/orchestration/torrent_refresh.rs: one pass of each of its two endless loops.
-- What a tracker answers is a parameter, and so is whether the channel's receiver is still there.
pub mod Order
pub mod UniqueIps
pub mod Fresh
pub mod Backoff
pub mod Legacy
pub mod Samples
mod Tests
use Prim.Native.String.{String}
use text.Mathlib.Text.{◌==◌ as str_eq, starts_with}
use fissure.Common.{
  ℕ, zero, suc, ◌+◌, ◌*◌, ◌%◌, ◌^◌, Bool, true, false, not, ◌&&◌, ◌||◌, Outcome, done, panic,
  unwrap, ◌>>=◌, Result, ok, err, Option, some, none, List, [], ◌∷◌, ◌++◌, ◌==◌, if◌then◌else◌,
  length, get_elem?,
}
use fissure.Common.Bytes.{as_u32}
use fissure.Protocols.Tracker.{FissureErr, Peer, TrackerResponse}

-- `read_guard.iter().any(|o| o.ip == f.ip)`
unfoldable pub is_seen : List Peer → Peer → Bool
is_seen [] f = false
is_seen (o ∷ seen) f = if str_eq o.ip f.ip then true else is_seen seen f

-- `new_resp_peer.retain(..)`
unfoldable pub retain_unseen : List Peer → List Peer → List Peer
retain_unseen seen [] = []
retain_unseen seen (f ∷ ps) =
    let rest = retain_unseen seen ps in if is_seen seen f then rest else f ∷ rest

-- `remove(idx)`
unfoldable pub remove_at : List String → ℕ → List String
remove_at [] idx = []
remove_at (u ∷ urls) zero = urls
remove_at (u ∷ urls) (suc idx) = u ∷ remove_at urls idx

-- What a pass over a tier comes to: what it sends to the orchestrator, and what it sleeps by.
pub record Pass : Type 0 where
  pub interval : ℕ
  pub tier_retry : ℕ
  pub sent : Option TrackerResponse

-- `seen` is shared by the tiers, and keeps its peers where a pass panics.
pub record TierState : Type 0 where
  pub seen : List Peer
  pub tier_clone : List String
  pub pass : Outcome Pass

-- The two functions of tracker.rs, each with what it returns for a URL.
pub record Trackers : Type 0 where
  pub http : String → Outcome (Result TrackerResponse FissureErr)
  pub udp : String → ℕ → Outcome (Result TrackerResponse FissureErr)

unfoldable pub ask : Trackers → String → ℕ → Outcome (Result TrackerResponse FissureErr)
ask trackers url tier_retry =
    if starts_with url "https" || starts_with url "http"
    then trackers.http url
    else trackers.udp url tier_retry

-- What follows a successful answer of the tracker at `idx`.
unfoldable pub accept :
    Bool → List Peer → List String → ℕ → String → ℕ → Option ℕ → Option (List Peer) → TierState
accept receiver seen tier_clone idx url tier_retry response_interval none = record {
  seen = seen;
  tier_clone = tier_clone;
  pass = panic;
}
accept receiver seen tier_clone idx url tier_retry response_interval (some ps) =
    let new_resp_peer = retain_unseen seen ps in
    record {
      seen = seen ++ new_resp_peer;
      tier_clone = url ∷ remove_at tier_clone idx;
      pass = do
        interval ← unwrap response_interval
        if receiver
            then done (record {
              interval = interval;
              tier_retry = tier_retry;
              sent = some (record { interval = some interval; peers = some new_resp_peer });
            })
            else panic;
    }

-- The `match tracker_res`. `failed` is what the next rounds come to.
unfoldable pub answered :
    Bool
    → List Peer
    → List String
    → ℕ
    → String
    → ℕ
    → TierState
    → Outcome (Result TrackerResponse FissureErr)
    → TierState
answered receiver seen tier_clone idx url tier_retry failed panic = record {
  seen = seen;
  tier_clone = tier_clone;
  pass = panic;
}
answered receiver seen tier_clone idx url tier_retry failed (done (err _)) = failed
answered receiver seen tier_clone idx url tier_retry failed (done (ok new_resp)) =
    accept receiver seen tier_clone idx url tier_retry new_resp.interval new_resp.peers

-- The `for idx in 0..tier_clone.len()`, with the number of rounds that are left.
unfoldable pub try_trackers :
    Bool → Trackers → List String → ℕ → ℕ → ℕ → List Peer → List String → TierState
try_trackers receiver trackers tier zero idx tier_retry seen tier_clone = record {
  seen = seen;
  tier_clone = tier_clone;
  pass = done (record { interval = 0; tier_retry = tier_retry; sent = none });
}
try_trackers receiver trackers tier (suc left) idx tier_retry seen tier_clone =
    let failed =
      try_trackers receiver trackers tier left (idx + 1) (as_u32 (tier_retry + 1)) seen
        tier_clone in
    elim (get_elem? tier idx) [
      | none ↦ record { seen = seen; tier_clone = tier_clone; pass = panic }
      | some url ↦
          answered receiver seen tier_clone idx url tier_retry failed (ask trackers url tier_retry)
    ]

-- One pass of the loop of a tier.
unfoldable pub tier_pass : Bool → Trackers → List String → List Peer → List String → TierState
tier_pass receiver trackers tier seen tier_clone =
    try_trackers receiver trackers tier (length tier_clone) 0 0 seen tier_clone

-- The seconds that a pass sleeps at its end.
unfoldable pub sleep_secs : Pass → ℕ
sleep_secs p = if not (p.interval == 0) then p.interval else as_u32 (5 ^ p.tier_retry)

-- The derived `==` of `Peer`, with that of `Option<String>`.
unfoldable pub id_eq : Option String → Option String → Bool
id_eq none none = true
id_eq (some a) (some b) = str_eq a b
id_eq _ _ = false

unfoldable pub peer_eq : Peer → Peer → Bool
peer_eq p q = id_eq p.peer_id q.peer_id && str_eq p.ip q.ip && p.port == q.port

-- `contains`
unfoldable pub contains : List Peer → Peer → Bool
contains [] p = false
contains (q ∷ qs) p = if peer_eq q p then true else contains qs p

-- The filter for `new_only`.
unfoldable pub new_only : List Peer → List Peer → List Peer
new_only old_peers [] = []
new_only old_peers (p ∷ ps) =
    let rest = new_only old_peers ps in if contains old_peers p then rest else p ∷ rest

-- What a pass of the legacy loop sends, keeps for the next pass, and sleeps.
pub record LegacyPass : Type 0 where
  pub sent : Option TrackerResponse
  pub old_tracker_response : Option TrackerResponse
  pub sleep : ℕ

abbrev none_if_empty : TrackerResponse → List Peer → Option TrackerResponse
none_if_empty new_resp [] = none
none_if_empty new_resp (p ∷ ps) = some (record new_resp { peers = some (p ∷ ps) })

-- `interval.unwrap_or(900)`
unfoldable pub sleep_of : Option ℕ → ℕ
sleep_of none = 900
sleep_of (some interval) = interval

unfoldable pub legacy_send :
    Option TrackerResponse → TrackerResponse → List Peer → Option TrackerResponse
legacy_send none new_resp new_peers = some new_resp
legacy_send (some old_resp) new_resp new_peers = elim old_resp.peers [
  | none ↦ none
  | some old_peers ↦ none_if_empty new_resp (new_only old_peers new_peers)
]

-- What follows a successful answer, by its peers.
unfoldable pub legacy_accept :
    Option TrackerResponse → TrackerResponse → Option (List Peer) → LegacyPass
legacy_accept old new_resp none = record { sent = none; old_tracker_response = old; sleep = 5 }
legacy_accept old new_resp (some new_peers) = record {
  sent = legacy_send old new_resp new_peers;
  old_tracker_response = some new_resp;
  sleep = sleep_of new_resp.interval;
}

unfoldable pub legacy_pass : Option TrackerResponse → Result TrackerResponse FissureErr → LegacyPass
legacy_pass old (err _) = record { sent = none; old_tracker_response = old; sleep = 5 }
legacy_pass old (ok new_resp) = legacy_accept old new_resp new_resp.peers
