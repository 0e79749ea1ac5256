-- ===== src/Orchestration/TorrentRefresh/Samples.antt =====
-- Trackers for the tests of torrent_refresh.rs and of the task behind it.
use Prim.Native.String.{String}
use mathlib.Core.Path.{subst}
use text.Mathlib.Text.{starts_with}
use fissure.Common.{
  ◌≡◌, refl, Bool, true, false, ◌||◌, done, ok, err, some, none, List, [], ◌∷◌, if◌then◌else◌,
}
use fissure.Protocols.Tracker.{FissureErr, Peer, TrackerResponse}
use fissure.Orchestration.TorrentRefresh.{Trackers, ask}
use fissure.Orchestration.TorrentRefresh.UniqueIps.{HasUniqueIps}
use fissure.Orchestration.TorrentRefresh.Fresh.{IsDistinct}

abbrev pub p : Peer
p = record { peer_id = none; ip = "10.0.0.1"; port = 1 }

abbrev pub q : Peer
q = record { peer_id = none; ip = "10.0.0.2"; port = 2 }

abbrev pub telling : List Peer → TrackerResponse
telling ps = record { interval = some 1800; peers = some ps }

abbrev pub refused : FissureErr
refused = record { error_string = "refused" }

-- All UDP trackers fail, and an HTTP tracker tells of one peer.
abbrev pub half : Trackers
half = record {
  http = λ url. done (ok (telling (p ∷ [])));
  udp = λ url tier_retry. done (err refused);
}

abbrev pub tier : List String
tier = "udp://a" ∷ "http://b" ∷ []

one-HasUniqueIps : HasUniqueIps (p ∷ [])
unfolding HasUniqueIps fissure.Orchestration.TorrentRefresh.is_seen
one-HasUniqueIps = (refl, tt)

answer-HasUniqueIps :
    (b : Bool) (r : TrackerResponse) (ps : List Peer)
    → (if b then done (ok (telling (p ∷ []))) else done (err refused)) ≡ done (ok r)
    → r.peers ≡ some ps
    → HasUniqueIps ps
answer-HasUniqueIps true r ps e n =
    let same : p ∷ [] ≡ ps = cc (e, n) in subst HasUniqueIps same one-HasUniqueIps
answer-HasUniqueIps false r ps e n = absurd (cc e)

pub half-IsDistinct : IsDistinct half
unfolding ask
half-IsDistinct url tier_retry r ps e n =
    answer-HasUniqueIps (starts_with url "https" || starts_with url "http") r ps e n
