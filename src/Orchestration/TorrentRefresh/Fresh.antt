-- ===== src/Orchestration/TorrentRefresh/Fresh.antt =====
-- No address is handed on twice by a tier of torrent_refresh.rs.
use Prim.Native.String.{String}
use mathlib.Core.Path.{subst}
use fissure.Common.{
  ℕ, zero, suc, ◌+◌, ◌≡◌, refl, ap, ◌∙◌, Bool, true, false, Outcome, done, panic, Result, ok, err,
  Option, some, none, List, [], ◌∷◌, ◌++◌, length, get_elem?, append_nil, append_assoc, All,
  Outcome-cases, Option-cases, inl, inr,
}
use fissure.Common.Bytes.{as_u32}
use fissure.Protocols.Tracker.{FissureErr, Peer, TrackerResponse}
use fissure.Orchestration.TorrentRefresh.{
  Pass, TierState, Trackers, ask, accept, answered, retain_unseen, try_trackers, tier_pass,
}
use fissure.Orchestration.TorrentRefresh.UniqueIps.{
  HasUniqueIps, retain_unseen-Unseen, retain_unseen-HasUniqueIps, HasUniqueIps-append,
}

-- What a tracker answers has no address twice.
abbrev pub IsDistinct : Trackers → Type 0
IsDistinct trackers =
    (url : String) (tier_retry : ℕ) (r : TrackerResponse) (ps : List Peer)
    → ask trackers url tier_retry ≡ done (ok r)
    → r.peers ≡ some ps
    → HasUniqueIps ps

-- The peers in what is sent.
unfoldable pub sent_peers : Option TrackerResponse → List Peer
sent_peers none = []
sent_peers (some r) = elim r.peers [ none ↦ [] | some ps ↦ ps ]

-- `s` comes from a pass that began with the peers `seen`.
abbrev IsFresh : List Peer → TierState → Type 0
IsFresh seen s =
    HasUniqueIps s.seen × ((p : Pass) → s.pass ≡ done p → s.seen ≡ seen ++ sent_peers p.sent)

accept-IsFresh :
    (receiver : Bool) (seen : List Peer) (tier_clone : List String) (idx : ℕ) (url : String)
    (tier_retry : ℕ) (interval : Option ℕ) (ps : Option (List Peer))
    → HasUniqueIps seen
    → ((qs : List Peer) → ps ≡ some qs → HasUniqueIps qs)
    → IsFresh seen (accept receiver seen tier_clone idx url tier_retry interval ps)
unfolding accept sent_peers
accept-IsFresh receiver seen tier_clone idx url tier_retry interval none hs h =
    (hs, λ p e. absurd (cc e))
accept-IsFresh receiver seen tier_clone idx url tier_retry none (some ps) hs h = (
  HasUniqueIps-append seen _ hs (retain_unseen-HasUniqueIps seen ps (h ps refl))
      (retain_unseen-Unseen seen ps),
  λ p e. absurd (cc e),
)
accept-IsFresh false seen tier_clone idx url tier_retry (some i) (some ps) hs h = (
  HasUniqueIps-append seen _ hs (retain_unseen-HasUniqueIps seen ps (h ps refl))
      (retain_unseen-Unseen seen ps),
  λ p e. absurd (cc e),
)
accept-IsFresh true seen tier_clone idx url tier_retry (some i) (some ps) hs h = (
  HasUniqueIps-append seen _ hs (retain_unseen-HasUniqueIps seen ps (h ps refl))
      (retain_unseen-Unseen seen ps),
  λ p e.
      let same : ◌≡◌ {A = Pass}
          (record {
            interval = i;
            tier_retry = tier_retry;
            sent = some (record { interval = some i; peers = some (retain_unseen seen ps) });
          })
          p =
        cc e in
      subst (λ (q : Pass). seen ++ retain_unseen seen ps ≡ seen ++ sent_peers q.sent) same refl,
)

answered-IsFresh :
    (receiver : Bool) (seen : List Peer) (tier_clone : List String) (idx : ℕ) (url : String)
    (tier_retry : ℕ) (failed : TierState) (answer : Outcome (Result TrackerResponse FissureErr))
    → HasUniqueIps seen
    → ((r : TrackerResponse) (qs : List Peer)
        → answer ≡ done (ok r)
        → r.peers ≡ some qs
        → HasUniqueIps qs)
    → IsFresh seen failed
    → IsFresh seen (answered receiver seen tier_clone idx url tier_retry failed answer)
unfolding answered
answered-IsFresh receiver seen tier_clone idx url tier_retry failed panic hs h hf =
    (hs, λ p e. absurd (cc e))
answered-IsFresh receiver seen tier_clone idx url tier_retry failed (done (err x)) hs h hf = hf
answered-IsFresh receiver seen tier_clone idx url tier_retry failed (done (ok r)) hs h hf =
    accept-IsFresh receiver seen tier_clone idx url tier_retry r.interval r.peers hs
      (λ qs e. h r qs refl e)

try_trackers-IsFresh :
    (receiver : Bool) (trackers : Trackers) (tier : List String) (left idx tier_retry : ℕ)
    (seen : List Peer) (tier_clone : List String)
    → HasUniqueIps seen
    → IsDistinct trackers
    → IsFresh seen (try_trackers receiver trackers tier left idx tier_retry seen tier_clone)
unfolding try_trackers sent_peers
try_trackers-IsFresh receiver trackers tier zero idx tier_retry seen tier_clone hs d = (
  hs,
  λ p e.
      let same : ◌≡◌ {A = Pass} (record { interval = 0; tier_retry = tier_retry; sent = none }) p =
        cc e in
      subst (λ (q : Pass). seen ≡ seen ++ sent_peers q.sent) same (append_nil seen),
)
try_trackers-IsFresh receiver trackers tier (suc left) idx tier_retry seen tier_clone hs d =
    let later =
      try_trackers-IsFresh receiver trackers tier left (idx + 1) (as_u32 (tier_retry + 1)) seen
        tier_clone hs d in
    elim (Option-cases (get_elem? tier idx)) [
      | inl n ↦ rw (try_trackers, n) (hs, λ p e. absurd (cc e))
      | inr (url, s) ↦
          rw (try_trackers, s)
            (answered-IsFresh receiver seen tier_clone idx url tier_retry _
              (ask trackers url tier_retry) hs (λ r qs a b. d url tier_retry r qs a b) later)
    ]

-- The passes of the endless loop of a tier, one for each element of the list, which says what the
-- trackers answer in it. A panic ends the task. All that is sent is collected.
unfoldable pub tier_loop : Bool → List Trackers → List String → List Peer → List String → List Peer
tier_loop receiver [] tier seen tier_clone = []
tier_loop receiver (trackers ∷ later) tier seen tier_clone =
    let s = tier_pass receiver trackers tier seen tier_clone in
    let rest = tier_loop receiver later tier s.seen s.tier_clone in
    elim s.pass [ panic ↦ [] | done p ↦ sent_peers p.sent ++ rest ]

tier_pass-IsFresh :
    (receiver : Bool) (trackers : Trackers) (tier : List String) (seen : List Peer)
    (tier_clone : List String)
    → HasUniqueIps seen
    → IsDistinct trackers
    → IsFresh seen (tier_pass receiver trackers tier seen tier_clone)
unfolding tier_pass
tier_pass-IsFresh receiver trackers tier seen tier_clone hs d =
    try_trackers-IsFresh receiver trackers tier (length tier_clone) 0 0 seen tier_clone hs d

joined : (s seen sent rest : List Peer) → s ≡ seen ++ sent → s ++ rest ≡ seen ++ (sent ++ rest)
joined s seen sent rest e = ap (λ t. t ++ rest) e ∙ append_assoc seen sent rest

append-nothing : (seen : List Peer) → HasUniqueIps seen → HasUniqueIps (seen ++ [])
append-nothing seen h = subst HasUniqueIps (append_nil seen) h

-- Over all passes of a tier's loop, no address is sent to the orchestrator twice, and none of the
-- addresses that were seen before is sent: the peers seen before and all that are sent have
-- addresses that differ, provided that those seen before do and that no single answer of a tracker
-- repeats an address.
pub tier_loop-HasUniqueIps :
    (receiver : Bool) (passes : List Trackers) (tier : List String) (seen : List Peer)
    (tier_clone : List String)
    → HasUniqueIps seen
    → All IsDistinct passes
    → HasUniqueIps (seen ++ tier_loop receiver passes tier seen tier_clone)
unfolding tier_loop
tier_loop-HasUniqueIps receiver [] tier seen tier_clone hs d = append-nothing seen hs
tier_loop-HasUniqueIps receiver (trackers ∷ later) tier seen tier_clone hs d =
    let s : TierState = tier_pass receiver trackers tier seen tier_clone in
    let fresh = tier_pass-IsFresh receiver trackers tier seen tier_clone hs d.0 in
    let rest = tier_loop-HasUniqueIps receiver later tier s.seen s.tier_clone fresh.0 d.1 in
    elim (Outcome-cases s.pass) [
      | inl e ↦ rw (tier_loop, e) (append-nothing seen hs)
      | inr (p, e) ↦
          rw (tier_loop, e)
            (subst HasUniqueIps
              (joined s.seen seen (sent_peers p.sent)
                (tier_loop receiver later tier s.seen s.tier_clone) (fresh.1 p e))
              rest)
    ]
