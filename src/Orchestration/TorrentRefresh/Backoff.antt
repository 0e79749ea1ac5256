-- ===== src/Orchestration/TorrentRefresh/Backoff.antt =====
-- How long a tier of torrent_refresh.rs sleeps.
use Prim.Native.String.{String}
use mathlib.Core.Path.{subst}
use native.Mathlib.Nat.{pow-le-pow_right}
use fissure.Common.{
  ℕ, zero, suc, ◌+◌, ◌^◌, ◌≤◌, ◌<◌, ◌≡◌, refl, ap, Bool, true, false, not, Outcome, done, panic,
  Result, ok, err, Option, some, none, List, arith, length, get_elem?, if◌then◌else◌, ◌==◌,
  Option-cases, inl, inr,
}
use fissure.Common.Bytes.{as_u32}
use fissure.Protocols.Tracker.{FissureErr, Peer, TrackerResponse}
use fissure.Orchestration.TorrentRefresh.{
  Pass, TierState, Trackers, ask, accept, answered, retain_unseen, try_trackers, tier_pass,
  sleep_secs,
}

-- `p` is what a pass may come to that has failed `tier_retry` times, with `left` rounds to go.
abbrev IsCounted : ℕ → ℕ → Pass → Type 0
IsCounted tier_retry left p =
    (p.tier_retry ≤ tier_retry + left)
    × (p.sent ≡ none → (p.interval ≡ 0) × (p.tier_retry ≡ tier_retry + left))

accept-IsCounted :
    (receiver : Bool) (seen : List Peer) (tier_clone : List String) (idx : ℕ) (url : String)
    (tier_retry left : ℕ) (interval : Option ℕ) (ps : Option (List Peer)) (p : Pass)
    → (accept receiver seen tier_clone idx url tier_retry interval ps).pass ≡ done p
    → IsCounted tier_retry left p
unfolding accept
accept-IsCounted receiver seen tier_clone idx url tier_retry left interval none p e = absurd (cc e)
accept-IsCounted receiver seen tier_clone idx url tier_retry left none (some ps) p e = absurd (cc e)
accept-IsCounted false seen tier_clone idx url tier_retry left (some i) (some ps) p e =
    absurd (cc e)
accept-IsCounted true seen tier_clone idx url tier_retry left (some i) (some ps) p e =
    let same : ◌≡◌ {A = Pass}
        (record {
          interval = i;
          tier_retry = tier_retry;
          sent = some (record { interval = some i; peers = some (retain_unseen seen ps) });
        })
        p =
      cc e in
    subst (λ q. IsCounted tier_retry left q) same (omega arith, λ h. absurd (cc h))

answered-IsCounted :
    (receiver : Bool) (seen : List Peer) (tier_clone : List String) (idx : ℕ) (url : String)
    (tier_retry left : ℕ) (failed : TierState)
    (answer : Outcome (Result TrackerResponse FissureErr)) (p : Pass)
    → ((q : Pass) → failed.pass ≡ done q → IsCounted tier_retry left q)
    → (answered receiver seen tier_clone idx url tier_retry failed answer).pass ≡ done p
    → IsCounted tier_retry left p
unfolding answered
answered-IsCounted receiver seen tier_clone idx url tier_retry left failed panic p h e =
    absurd (cc e)
answered-IsCounted receiver seen tier_clone idx url tier_retry left failed (done (err x)) p h e =
    h p e
answered-IsCounted receiver seen tier_clone idx url tier_retry left failed (done (ok r)) p h e =
    accept-IsCounted receiver seen tier_clone idx url tier_retry left r.interval r.peers p e

try_trackers-IsCounted :
    (receiver : Bool) (trackers : Trackers) (tier : List String) (left idx tier_retry : ℕ)
    (seen : List Peer) (tier_clone : List String) (p : Pass)
    → tier_retry + left < 2 ^ 32
    → (try_trackers receiver trackers tier left idx tier_retry seen tier_clone).pass ≡ done p
    → IsCounted tier_retry left p
unfolding try_trackers
try_trackers-IsCounted receiver trackers tier zero idx tier_retry seen tier_clone p few e =
    let same : ◌≡◌ {A = Pass} (record { interval = 0; tier_retry = tier_retry; sent = none }) p =
      cc e in
    subst (λ q. IsCounted tier_retry 0 q) same (omega arith, λ h. (refl, omega arith))
try_trackers-IsCounted receiver trackers tier (suc left) idx tier_retry seen tier_clone p few e =
    elim (Option-cases (get_elem? tier idx)) [
      | inl n ↦ absurd (cc (rw (try_trackers, n) at e))
      | inr (url, s) ↦
          answered-IsCounted receiver seen tier_clone idx url tier_retry (suc left) _
            (ask trackers url tier_retry) p
            (λ q eq.
              let same : as_u32 (tier_retry + 1) ≡ tier_retry + 1 = omega arith in
              let (a, b) =
                try_trackers-IsCounted receiver trackers tier left (idx + 1)
                  (as_u32 (tier_retry + 1)) seen tier_clone q (omega arith) eq in
              (omega arith, λ n. let (c, d) = b n in (c, omega arith)))
            (rw (try_trackers, s) at e)
    ]

power-IsU32 : (k : ℕ) → k ≤ 13 → as_u32 (5 ^ k) ≡ 5 ^ k
power-IsU32 k h = let le : 5 ^ k ≤ 5 ^ 13 = pow-le-pow_right (omega arith) h in omega arith

-- A pass over a tier of at most 13 trackers sleeps by what it has found: where a response is sent
-- with an interval other than 0, for that interval; else for 5 to the power of the number of
-- trackers that failed, without overflow. The failed trackers are at most those of the tier, and if
-- nothing is sent they are all of them.
pub tier_pass-sleep_secs :
    (receiver : Bool) (trackers : Trackers) (tier : List String) (seen : List Peer)
    (tier_clone : List String) (p : Pass)
    → length tier_clone ≤ 13
    → (tier_pass receiver trackers tier seen tier_clone).pass ≡ done p
    → (sleep_secs p ≡ (if p.interval == 0 then 5 ^ p.tier_retry else p.interval))
      × (p.tier_retry ≤ length tier_clone)
      × (p.sent ≡ none → sleep_secs p ≡ 5 ^ length tier_clone)
unfolding tier_pass sleep_secs
tier_pass-sleep_secs receiver trackers tier seen tier_clone p few e =
    let (le, all) =
      try_trackers-IsCounted receiver trackers tier (length tier_clone) 0 0 seen tier_clone p
        (omega arith) e in
    let fits = power-IsU32 p.tier_retry (omega arith) in
    (
      rw fits (flip p.interval),
      omega arith,
      λ n.
          let (zero_interval, failed) = all n in
          let same : p.tier_retry ≡ length tier_clone = omega arith in
          rw (zero_interval, fits) (ap (λ k. 5 ^ k) same),
    )
  where
    flip :
        (i : ℕ)
        → (if not (i == 0) then i else 5 ^ p.tier_retry) ≡ (if i == 0 then 5 ^ p.tier_retry else i)
    flip zero = refl
    flip (suc i) = ground arith
