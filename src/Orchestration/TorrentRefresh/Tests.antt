-- ===== src/Orchestration/TorrentRefresh/Tests.antt =====
-- Runs of torrent_refresh.rs, and its theorems there.
use Prim.Native.String.{String}
use fissure.Common.{◌≡◌, refl, true, Result, ok, err, none, List, [], ◌∷◌, ◌++◌, length, inl, inr}
use fissure.Protocols.Tracker.{FissureErr, TrackerResponse}
use fissure.Orchestration.TorrentRefresh.{
  Pass, TierState, Trackers, ask, tier_pass, sleep_secs, sleep_of, contains, legacy_pass,
}
use fissure.Orchestration.TorrentRefresh.UniqueIps.{HasUniqueIps}
use fissure.Orchestration.TorrentRefresh.Fresh.{sent_peers, tier_loop, tier_loop-HasUniqueIps}
use fissure.Orchestration.TorrentRefresh.Samples.{
  p, q, telling, refused, half, tier, half-IsDistinct,
}
use fissure.Orchestration.TorrentRefresh.Order.{IsLike, ask_in_order, tier_pass-ask_in_order}
use fissure.Orchestration.TorrentRefresh.Legacy.{legacy_loop, legacy_loop-sends_all, Told}

abbrev moved : List String
moved = "http://b" ∷ "http://b" ∷ []

tier_pass-ask_in_order_example :
    IsLike (tier_pass true half tier [] moved) (ask_in_order true half tier 0 [])
    × (length (tier_pass true half tier [] moved).tier_clone ≡ 2)
tier_pass-ask_in_order_example = tier_pass-ask_in_order true half tier [] moved refl

seen-HasUniqueIps : HasUniqueIps (q ∷ [])
unfolding HasUniqueIps fissure.Orchestration.TorrentRefresh.is_seen
seen-HasUniqueIps = (refl, tt)

tier_loop-HasUniqueIps_example :
    HasUniqueIps ((q ∷ []) ++ tier_loop true (half ∷ half ∷ []) tier (q ∷ []) tier)
tier_loop-HasUniqueIps_example =
    tier_loop-HasUniqueIps true (half ∷ half ∷ []) tier (q ∷ []) tier seen-HasUniqueIps
      (half-IsDistinct, (half-IsDistinct, tt))

abbrev results : List (Result TrackerResponse FissureErr)
results = ok (telling (p ∷ [])) ∷ err refused ∷ ok (telling (p ∷ q ∷ [])) ∷ []

results-Told : Told results q
unfolding contains sent_peers fissure.Orchestration.TorrentRefresh.peer_eq
    fissure.Orchestration.TorrentRefresh.id_eq
results-Told = inr (inl refl)

legacy_loop-sends_all_example : contains (legacy_loop none results) q ≡ true
legacy_loop-sends_all_example = legacy_loop-sends_all results q results-Told
