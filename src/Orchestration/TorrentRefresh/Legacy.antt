-- ===== src/Orchestration/TorrentRefresh/Legacy.antt =====
-- Which peers the legacy loop of torrent_refresh.rs sends.
use Prim.Native.String.{String}
use mathlib.Core.Path.{subst}
use text.Mathlib.Text.{◌==◌ as str_eq}
use text.Mathlib.TextEquality.{eq_iff}
use fissure.Common.{
  ◌≡◌, refl, sym, ap, ◌∙◌, Bool, true, false, not, ◌&&◌, ◌||◌, Result, ok, err, Option, some, none,
  List, [], ◌∷◌, ◌++◌, ◌==◌, Bool-cases, Option-cases, append_assoc, inl, inr, ==→eq, ◌⊎◌,
}
use fissure.Protocols.Tracker.{FissureErr, Peer, TrackerResponse}
use fissure.Orchestration.TorrentRefresh.{
  LegacyPass, id_eq, peer_eq, contains, new_only, none_if_empty, legacy_send, legacy_accept,
  legacy_pass, sleep_of,
}
use fissure.Orchestration.TorrentRefresh.Fresh.{sent_peers}

id_eq-same : (a b : Option String) → id_eq a b ≡ true → a ≡ b
unfolding id_eq
id_eq-same none none h = refl
id_eq-same none (some b) h = absurd (cc h)
id_eq-same (some a) none h = absurd (cc h)
id_eq-same (some a) (some b) h = ap some ((eq_iff a b).0 h)

and-both : (a b c : Bool) → (a && b && c) ≡ true → (a ≡ true) × (b ≡ true) × (c ≡ true)
and-both true true true h = (refl, refl, refl)
and-both true true false h = absurd (cc h)
and-both true false c h = absurd (cc h)
and-both false b c h = absurd (cc h)

peer_eq-same : (p q : Peer) → peer_eq p q ≡ true → p ≡ q
unfolding peer_eq
peer_eq-same p q h =
    let (i, t, n) = and-both (id_eq p.peer_id q.peer_id) (str_eq p.ip q.ip) (p.port == q.port) h in
    cc (id_eq-same p.peer_id q.peer_id i, (eq_iff p.ip q.ip).0 t, ==→eq p.port q.port n)

contains-append :
    (xs ys : List Peer) (p : Peer) → contains (xs ++ ys) p ≡ (contains xs p || contains ys p)
unfolding contains
contains-append [] ys p = refl
contains-append (x ∷ xs) ys p =
    let rest = contains-append xs ys p in
    elim (Bool-cases (peer_eq x p)) [ inl t ↦ rw t refl | inr f ↦ rw f rest ]

contains-new_only :
    (old ps : List Peer) (p : Peer)
    → contains (new_only old ps) p ≡ (contains ps p && not (contains old p))
unfolding contains new_only
contains-new_only old [] p = refl
contains-new_only old (q ∷ ps) p =
    let rest = contains-new_only old ps p in
    elim (Bool-cases (contains old q)) [
      | inl s ↦ elim (Bool-cases (peer_eq q p)) [
        | inl t ↦
            let known : contains old p ≡ true =
              ap (λ x. contains old x) (sym (peer_eq-same q p t)) ∙ s in
            rw (s, t, rest, known) (and-false (contains ps p))
        | inr f ↦ rw (s, f) rest
      ]
      | inr n ↦ elim (Bool-cases (peer_eq q p)) [
        | inl t ↦
            let new : contains old p ≡ false =
              ap (λ x. contains old x) (sym (peer_eq-same q p t)) ∙ n in
            rw (n, t, new) refl
        | inr f ↦ rw (n, f) rest
      ]
    ]
  where
    and-false : (b : Bool) → (b && false) ≡ false
    and-false true = refl
    and-false false = refl

sent_peers-none_if_empty :
    (r : TrackerResponse) (ps : List Peer) → sent_peers (none_if_empty r ps) ≡ ps
unfolding sent_peers
sent_peers-none_if_empty r [] = refl
sent_peers-none_if_empty r (p ∷ ps) = refl

-- The loop keeps only responses that have peers.
abbrev pub IsKept : Option TrackerResponse → Type 0
IsKept none = Unit
IsKept (some r) = (ps : List Peer) × (r.peers ≡ some ps)

and-true : (b : Bool) → b ≡ (b && true)
and-true true = refl
and-true false = refl

legacy_send-contains :
    (old : Option TrackerResponse) (r : TrackerResponse) (ps : List Peer) (p : Peer)
    → IsKept old
    → r.peers ≡ some ps
    → contains (sent_peers (legacy_send old r ps)) p
      ≡ (contains ps p && not (contains (sent_peers old) p))
unfolding legacy_send sent_peers contains
legacy_send-contains none r ps p k e = rw e (and-true (contains ps p))
legacy_send-contains (some o) r ps p (qs, k) e =
    rw (k, sent_peers-none_if_empty r (new_only qs ps)) (contains-new_only qs ps p)

abbrev IsSent :
    Option TrackerResponse → TrackerResponse → List Peer → Peer → Option (List Peer) → Type 0
IsSent old r ps p found =
    (contains (sent_peers (legacy_accept old r found).sent) p
      ≡ (contains ps p && not (contains (sent_peers old) p)))
    × ((legacy_accept old r found).old_tracker_response ≡ some r)
    × ((legacy_accept old r found).sleep ≡ sleep_of r.interval)

-- A pass of the legacy loop whose response has peers sends exactly those of them that the last kept
-- response did not have, keeps the response, and sleeps for its interval, or 900 seconds where it
-- gives none. The last response has peers, as those that the loop keeps have.
pub legacy_pass-sends :
    (old : Option TrackerResponse) (r : TrackerResponse) (ps : List Peer) (p : Peer)
    → IsKept old
    → r.peers ≡ some ps
    → (contains (sent_peers (legacy_pass old (ok r)).sent) p
        ≡ (contains ps p && not (contains (sent_peers old) p)))
      × ((legacy_pass old (ok r)).old_tracker_response ≡ some r)
      × ((legacy_pass old (ok r)).sleep ≡ sleep_of r.interval)
unfolding legacy_pass legacy_accept
legacy_pass-sends old r ps p k e =
    subst (IsSent old r ps p) (sym e) (legacy_send-contains old r ps p k e, refl, refl)

-- All that the loop sends while it gets the given results.
unfoldable pub legacy_loop :
    Option TrackerResponse → List (Result TrackerResponse FissureErr) → List Peer
legacy_loop old [] = []
legacy_loop old (result ∷ later) =
    let s = legacy_pass old result in sent_peers s.sent ++ legacy_loop s.old_tracker_response later

-- `p` is among the peers of one of the results.
abbrev pub Told : List (Result TrackerResponse FissureErr) → Peer → Type 0
Told [] p = ⊥
Told (err x ∷ later) p = Told later p
Told (ok r ∷ later) p = (contains (sent_peers (some r)) p ≡ true) ⊎ Told later p

or-left : (a b : Bool) → a ≡ true → (a || b) ≡ true
or-left true b h = refl
or-left false b h = absurd (cc h)

or-right : (a b : Bool) → b ≡ true → (a || b) ≡ true
or-right true b h = refl
or-right false b h = h

-- What is known is what the kept response has, or what has been sent before it.
abbrev Covers : List Peer → Option TrackerResponse → Type 0
Covers log old = (p : Peer) → contains (sent_peers old) p ≡ true → contains log p ≡ true

sent_peers-some :
    (r : TrackerResponse) (ps : List Peer) → r.peers ≡ some ps → sent_peers (some r) ≡ ps
unfolding sent_peers
sent_peers-some r ps e =
    ap (λ (x : Option (List Peer)). elim x as (λ _. List Peer) [ none ↦ [] | some ps ↦ ps ]) e

covered :
    (known new old : Bool)
    → (old ≡ true → known ≡ true)
    → new ≡ true
    → (known || (new && not old)) ≡ true
covered true new old h n = refl
covered false true true h n = h refl
covered false true false h n = refl
covered false false old h n = absurd (cc n)

-- A pass with peers: the new response is covered by what was known and what is sent.
pass-Covers :
    (old : Option TrackerResponse) (log : List Peer) (r : TrackerResponse) (ps : List Peer)
    → IsKept old
    → Covers log old
    → r.peers ≡ some ps
    → Covers (log ++ sent_peers (legacy_pass old (ok r)).sent) (some r)
pass-Covers old log r ps k c e p h =
    let (sent, next, slept) = legacy_pass-sends old r ps p k e in
    rw (contains-append log (sent_peers (legacy_pass old (ok r)).sent) p, sent)
      (covered (contains log p) (contains ps p) (contains (sent_peers old) p) (c p)
        (subst (λ qs. contains qs p ≡ true) (sent_peers-some r ps e) h))

-- What a pass leaves for the next one, with `log` sent before it.
abbrev Keeps : List Peer → TrackerResponse → LegacyPass → Type 0
Keeps log r s =
    IsKept s.old_tracker_response
    × Covers (log ++ sent_peers s.sent) s.old_tracker_response
    × Covers (log ++ sent_peers s.sent) (some r)

Covers-grows :
    (log more : List Peer) (old : Option TrackerResponse)
    → Covers log old
    → Covers (log ++ more) old
Covers-grows log more old c p h =
    rw (contains-append log more p) (or-left (contains log p) (contains more p) (c p h))

untold_nothing :
    (r : TrackerResponse) (p : Peer) → r.peers ≡ none → contains (sent_peers (some r)) p ≡ true → ⊥
unfolding sent_peers contains
untold_nothing r p e h = cc (rw (sent_peers, e) at h)

legacy_accept-Keeps :
    (old : Option TrackerResponse) (log : List Peer) (r : TrackerResponse)
    → IsKept old
    → Covers log old
    → r.peers ≡ none
    → Keeps log r (legacy_accept old r none)
unfolding legacy_accept
legacy_accept-Keeps old log r k c e =
    (k, Covers-grows log _ old c, λ p h. absurd (untold_nothing r p e h))

legacy_pass-Keeps :
    (old : Option TrackerResponse) (log : List Peer) (r : TrackerResponse)
    → IsKept old
    → Covers log old
    → Keeps log r (legacy_pass old (ok r))
unfolding legacy_pass
legacy_pass-Keeps old log r k c = elim (Option-cases r.peers) [
  | inl e ↦
      subst (λ x. Keeps log r (legacy_accept old r x)) (sym e) (legacy_accept-Keeps old log r k c e)
  | inr (ps, e) ↦
      let covers = pass-Covers old log r ps k c e in
      let (sent, next, slept) =
        legacy_pass-sends old r ps (record { peer_id = none; ip = ""; port = 0 }) k e in
      (
        subst IsKept (sym next) (ps, e),
        subst (Covers (log ++ sent_peers (legacy_pass old (ok r)).sent)) (sym next) covers,
        covers,
      )
]

legacy_loop-Covers :
    (old : Option TrackerResponse) (log : List Peer)
    (results : List (Result TrackerResponse FissureErr)) (p : Peer)
    → IsKept old
    → Covers log old
    → Told results p
    → contains (log ++ legacy_loop old results) p ≡ true
unfolding legacy_loop sent_peers legacy_pass
legacy_loop-Covers old log [] p k c h = absurd h
legacy_loop-Covers old log (err x ∷ later) p k c h = legacy_loop-Covers old log later p k c h
legacy_loop-Covers old log (ok r ∷ later) p k c h =
    let s : LegacyPass = legacy_pass old (ok r) in
    let (kept, covers, told) = legacy_pass-Keeps old log r k c in
    let rest = legacy_loop s.old_tracker_response later in
    rw (← append_assoc log (sent_peers s.sent) rest) (elim h [
      | inl t ↦
          rw (contains-append (log ++ sent_peers s.sent) rest p)
            (or-left (contains (log ++ sent_peers s.sent) p) (contains rest p) (told p t))
      | inr t ↦
          legacy_loop-Covers s.old_tracker_response (log ++ sent_peers s.sent) later p kept covers t
    ])

-- Every peer that a tracker tells of in any successful answer is sent to the orchestrator, in that
-- pass or an earlier one, whatever errors and answers without peers come between.
pub legacy_loop-sends_all :
    (results : List (Result TrackerResponse FissureErr)) (p : Peer)
    → Told results p
    → contains (legacy_loop none results) p ≡ true
unfolding sent_peers contains
legacy_loop-sends_all results p h = legacy_loop-Covers none [] results p tt (λ q e. e) h
