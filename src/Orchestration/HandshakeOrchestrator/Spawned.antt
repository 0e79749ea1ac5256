-- ===== src/Orchestration/HandshakeOrchestrator/Spawned.antt =====
-- For which peers handshake_orechestration.rs spawns a task, and when its loop ends.
use Prim.Native.String.{String}
use mathlib.Core.Path.{subst}
use fissure.Common.{
  ℕ, zero, suc, ◌-◌, ◌≤◌, ◌<◌, ◌≡◌, refl, sym, ap, ◌∙◌, Bool, done, panic, Option, some, none, List,
  [], ◌∷◌, ◌++◌, replicate, arith, append_nil, append_assoc, All, Outcome-cases, Option-cases, inl,
  inr, lt→ltb,
}
use fissure.Protocols.Tracker.{Peer, TrackerResponse}
use fissure.Orchestration.TorrentRefresh.{Trackers, TierState, tier_pass}
use fissure.Orchestration.TorrentRefresh.UniqueIps.{HasUniqueIps}
use fissure.Orchestration.TorrentRefresh.Fresh.{
  IsDistinct, sent_peers, tier_loop, tier_loop-HasUniqueIps,
}
use fissure.Orchestration.HandshakeOrchestrator.{
  Orchestrator, initial, round, handshake_orchestrator,
}

-- The channel: the responses, and then closed for the given number of receives.
abbrev pub received : List TrackerResponse → ℕ → List (Option TrackerResponse)
received [] n = replicate n none
received (r ∷ rs) n = some r ∷ received rs n

unfoldable pub all_peers : List TrackerResponse → List Peer
all_peers [] = []
all_peers (r ∷ rs) = sent_peers (some r) ++ all_peers rs

handshake_orchestrator-closed :
    (k n : ℕ) (ps : List Peer)
    → k ≤ n
    → handshake_orchestrator (record { retires = k; spawned = ps }) (replicate n none)
      ≡ record { retires = 0; spawned = ps }
unfolding handshake_orchestrator round
handshake_orchestrator-closed zero zero ps h = refl
handshake_orchestrator-closed zero (suc n) ps h = refl
handshake_orchestrator-closed (suc k) zero ps h = absurd (omega arith)
handshake_orchestrator-closed (suc k) (suc n) ps h =
    let less : suc k - 1 ≡ k = omega arith in
    rw (lt→ltb 0 (suc k) (omega arith), less) (handshake_orchestrator-closed k n ps (omega arith))

round-some :
    (s : Orchestrator) (r : TrackerResponse)
    → round s (some r) ≡ record { retires = 10; spawned = s.spawned ++ sent_peers (some r) }
unfolding round sent_peers
round-some s r = elim (Option-cases r.peers) [
  | inl e ↦ rw e (ap (λ ps. record { retires = 10; spawned = ps }) (append_nil s.spawned))
  | inr (ps, e) ↦ rw e refl
]

handshake_orchestrator-received :
    (k n : ℕ) (ps : List Peer) (rs : List TrackerResponse)
    → 0 < k
    → k ≤ 10
    → 10 ≤ n
    → handshake_orchestrator (record { retires = k; spawned = ps }) (received rs n)
      ≡ record { retires = 0; spawned = ps ++ all_peers rs }
unfolding handshake_orchestrator all_peers
handshake_orchestrator-received k n ps [] pos le h =
    handshake_orchestrator-closed k n ps (omega arith)
    ∙ ap (λ qs. record { retires = 0; spawned = qs }) (append_nil ps)
handshake_orchestrator-received k n ps (r ∷ rs) pos le h =
    rw (lt→ltb 0 k pos, round-some (record { retires = k; spawned = ps }) r)
      (handshake_orchestrator-received 10 n (ps ++ sent_peers (some r)) rs (omega arith)
          (omega arith) h
        ∙ ap (λ qs. record { retires = 0; spawned = qs })
            (append_assoc ps (sent_peers (some r)) (all_peers rs)))

-- The orchestrator ends once the refresh task has closed the channel: ten receives later, with as
-- many tasks spawned as there were peers in all responses, one for each of them, in order.
pub handshake_orchestrator-spawns_all :
    (responses : List TrackerResponse) (n : ℕ)
    → 10 ≤ n
    → handshake_orchestrator initial (received responses n)
      ≡ record { retires = 0; spawned = all_peers responses }
unfolding initial
handshake_orchestrator-spawns_all responses n h =
    handshake_orchestrator-received 10 n [] responses (omega arith) (omega arith) h

-- What one tier of the refresh task puts into the channel.
unfoldable pub tier_messages :
    Bool → List Trackers → List String → List Peer → List String → List TrackerResponse
tier_messages receiver [] tier seen tier_clone = []
tier_messages receiver (trackers ∷ later) tier seen tier_clone =
    let s = tier_pass receiver trackers tier seen tier_clone in
    let rest = tier_messages receiver later tier s.seen s.tier_clone in
    elim s.pass [ panic ↦ [] | done p ↦ elim p.sent [ none ↦ rest | some r ↦ r ∷ rest ] ]

all_peers-tier_messages :
    (receiver : Bool) (passes : List Trackers) (tier : List String) (seen : List Peer)
    (tier_clone : List String)
    → all_peers (tier_messages receiver passes tier seen tier_clone)
      ≡ tier_loop receiver passes tier seen tier_clone
unfolding tier_messages tier_loop all_peers sent_peers
all_peers-tier_messages receiver [] tier seen tier_clone = refl
all_peers-tier_messages receiver (trackers ∷ later) tier seen tier_clone =
    let s : TierState = tier_pass receiver trackers tier seen tier_clone in
    let rest = all_peers-tier_messages receiver later tier s.seen s.tier_clone in
    elim (Outcome-cases s.pass) [
      | inl e ↦ rw (tier_messages, tier_loop, e) refl
      | inr (p, e) ↦ elim (Option-cases p.sent) [
        | inl x ↦ rw (tier_messages, tier_loop, e, x) rest
        | inr (r, x) ↦
            rw (tier_messages, tier_loop, e, x) (ap (λ ps. sent_peers (some r) ++ ps) rest)
      ]
    ]

-- Between one tier of the refresh task and the orchestrator, no address is connected to twice, if
-- no single answer of a tracker repeats an address: the peers for which a task was spawned when the
-- loop has ended have addresses that differ.
pub handshake_orchestrator-HasUniqueIps :
    (receiver : Bool) (passes : List Trackers) (tier tier_clone : List String) (n : ℕ)
    → 10 ≤ n
    → All IsDistinct passes
    → HasUniqueIps
        (handshake_orchestrator initial
          (received (tier_messages receiver passes tier [] tier_clone) n)).spawned
unfolding HasUniqueIps
handshake_orchestrator-HasUniqueIps receiver passes tier tier_clone n h d =
    subst (λ (s : Orchestrator). HasUniqueIps s.spawned)
      (sym
        (handshake_orchestrator-spawns_all (tier_messages receiver passes tier [] tier_clone) n h))
      (subst HasUniqueIps (sym (all_peers-tier_messages receiver passes tier [] tier_clone))
        (tier_loop-HasUniqueIps receiver passes tier [] tier_clone tt d))
