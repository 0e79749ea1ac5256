-- ===== src/Orchestration/TorrentRefresh/Order.antt =====
-- In which order a tier of torrent_refresh.rs asks its trackers.
use Prim.Native.String.{String}
use fissure.Common.{
  ℕ, zero, suc, ◌+◌, ◌<◌, ◌≡◌, refl, ap, ◌∙◌, Bool, Outcome, done, panic, Result, ok, err, Option,
  some, none, List, [], ◌∷◌, arith, length, get_elem?, Option-cases, inl, inr,
}
use fissure.Common.Bytes.{as_u32}
use fissure.Protocols.Tracker.{FissureErr, Peer, TrackerResponse}
use fissure.Orchestration.TorrentRefresh.{
  TierState, Trackers, ask, accept, answered, remove_at, try_trackers, tier_pass,
}

-- The trackers of `urls` are asked in the order of the list, until one answers.
unfoldable pub ask_in_order : Bool → Trackers → List String → ℕ → List Peer → TierState
ask_in_order receiver trackers [] tier_retry seen = record {
  seen = seen;
  tier_clone = [];
  pass = done (record { interval = 0; tier_retry = tier_retry; sent = none });
}
ask_in_order receiver trackers (url ∷ urls) tier_retry seen =
    let failed = ask_in_order receiver trackers urls (as_u32 (tier_retry + 1)) seen in
    answered receiver seen [] 0 url tier_retry failed (ask trackers url tier_retry)

abbrev pub IsLike : TierState → TierState → Type 0
IsLike s t = (s.seen ≡ t.seen) × (s.pass ≡ t.pass)

accept-IsLike :
    (receiver : Bool) (seen : List Peer) (tier_clone : List String) (idx : ℕ) (url : String)
    (tier_retry : ℕ) (interval : Option ℕ) (ps : Option (List Peer))
    → IsLike
        (accept receiver seen tier_clone idx url tier_retry interval ps)
        (accept receiver seen [] 0 url tier_retry interval ps)
unfolding accept
accept-IsLike receiver seen tier_clone idx url tier_retry interval none = (refl, refl)
accept-IsLike receiver seen tier_clone idx url tier_retry interval (some ps) = (refl, refl)

answered-IsLike :
    (receiver : Bool) (seen : List Peer) (tier_clone : List String) (idx : ℕ) (url : String)
    (tier_retry : ℕ) (s t : TierState) (answer : Outcome (Result TrackerResponse FissureErr))
    → IsLike s t
    → IsLike
        (answered receiver seen tier_clone idx url tier_retry s answer)
        (answered receiver seen [] 0 url tier_retry t answer)
unfolding answered
answered-IsLike receiver seen tier_clone idx url tier_retry s t panic h = (refl, refl)
answered-IsLike receiver seen tier_clone idx url tier_retry s t (done (err x)) h = h
answered-IsLike receiver seen tier_clone idx url tier_retry s t (done (ok r)) h =
    accept-IsLike receiver seen tier_clone idx url tier_retry r.interval r.peers

abbrev IsFrom : List String → ℕ → List String → Type 0
IsFrom tier idx urls = (i : ℕ) → get_elem? tier (idx + i) ≡ get_elem? urls i

IsFrom-next :
    (tier : List String) (idx : ℕ) (url : String) (urls : List String)
    → IsFrom tier idx (url ∷ urls)
    → IsFrom tier (idx + 1) urls
IsFrom-next tier idx url urls h i =
    let e : idx + 1 + i ≡ idx + suc i = omega arith in ap (λ k. get_elem? tier k) e ∙ h (suc i)

IsFrom-head :
    (tier : List String) (idx : ℕ) (url : String) (urls : List String)
    → IsFrom tier idx (url ∷ urls)
    → get_elem? tier idx ≡ some url
IsFrom-head tier idx url urls h =
    let e : idx ≡ idx + 0 = omega arith in ap (λ k. get_elem? tier k) e ∙ h 0

try_trackers-IsLike :
    (receiver : Bool) (trackers : Trackers) (tier urls : List String) (idx tier_retry : ℕ)
    (seen : List Peer) (tier_clone : List String)
    → IsFrom tier idx urls
    → IsLike
        (try_trackers receiver trackers tier (length urls) idx tier_retry seen tier_clone)
        (ask_in_order receiver trackers urls tier_retry seen)
unfolding try_trackers ask_in_order
try_trackers-IsLike receiver trackers tier [] idx tier_retry seen tier_clone h = (refl, refl)
try_trackers-IsLike receiver trackers tier (url ∷ urls) idx tier_retry seen tier_clone h =
    rw (try_trackers, IsFrom-head tier idx url urls h)
      (answered-IsLike receiver seen tier_clone idx url tier_retry _ _ (ask trackers url tier_retry)
        (try_trackers-IsLike receiver trackers tier urls (idx + 1) (as_u32 (tier_retry + 1)) seen
          tier_clone (IsFrom-next tier idx url urls h)))

length-remove_at :
    (urls : List String) (idx : ℕ)
    → idx < length urls
    → suc (length (remove_at urls idx)) ≡ length urls
unfolding remove_at
length-remove_at [] idx h = absurd (omega arith)
length-remove_at (u ∷ urls) zero h = refl
length-remove_at (u ∷ urls) (suc idx) h = ap suc (length-remove_at urls idx (omega arith))

answered-length :
    (receiver : Bool) (seen : List Peer) (tier_clone : List String) (idx : ℕ) (url : String)
    (tier_retry : ℕ) (failed : TierState) (answer : Outcome (Result TrackerResponse FissureErr))
    → idx < length tier_clone
    → length failed.tier_clone ≡ length tier_clone
    → length (answered receiver seen tier_clone idx url tier_retry failed answer).tier_clone
      ≡ length tier_clone
unfolding answered accept
answered-length receiver seen tier_clone idx url tier_retry failed panic lt h = refl
answered-length receiver seen tier_clone idx url tier_retry failed (done (err x)) lt h = h
answered-length receiver seen tier_clone idx url tier_retry failed (done (ok r)) lt h =
    elim (Option-cases r.peers) [
      | inl e ↦ rw e refl
      | inr (ps, e) ↦ rw e (length-remove_at tier_clone idx lt)
    ]

try_trackers-length :
    (receiver : Bool) (trackers : Trackers) (tier : List String) (left idx tier_retry : ℕ)
    (seen : List Peer) (tier_clone : List String)
    → idx + left ≡ length tier_clone
    → length (try_trackers receiver trackers tier left idx tier_retry seen tier_clone).tier_clone
      ≡ length tier_clone
unfolding try_trackers
try_trackers-length receiver trackers tier zero idx tier_retry seen tier_clone h = refl
try_trackers-length receiver trackers tier (suc left) idx tier_retry seen tier_clone h =
    let later =
      try_trackers-length receiver trackers tier left (idx + 1) (as_u32 (tier_retry + 1)) seen
        tier_clone (omega arith) in
    elim (Option-cases (get_elem? tier idx)) [
      | inl e ↦ rw (try_trackers, e) refl
      | inr (url, e) ↦
          rw (try_trackers, e)
            (answered-length receiver seen tier_clone idx url tier_retry _
              (ask trackers url tier_retry) (omega arith) later)
    ]

-- A pass over a tier asks the trackers in the order in which the torrent file lists them, each once
-- and until one answers, whatever the moved copy `tier_clone` of the list holds: the pass reads only
-- its length, which it keeps. So with a copy as long as the tier, the peers that are seen, what is
-- sent and what is slept by are those of the plain search in the tier's own order, also in the next
-- pass.
pub tier_pass-ask_in_order :
    (receiver : Bool) (trackers : Trackers) (tier : List String) (seen : List Peer)
    (tier_clone : List String)
    → length tier_clone ≡ length tier
    → IsLike
        (tier_pass receiver trackers tier seen tier_clone)
        (ask_in_order receiver trackers tier 0 seen)
      × (length (tier_pass receiver trackers tier seen tier_clone).tier_clone ≡ length tier)
unfolding tier_pass
tier_pass-ask_in_order receiver trackers tier seen tier_clone h = (
  like,
  try_trackers-length receiver trackers tier (length tier_clone) 0 0 seen tier_clone (omega arith)
      ∙ h,
)
  where
    like :
        IsLike
          (try_trackers receiver trackers tier (length tier_clone) 0 0 seen tier_clone)
          (ask_in_order receiver trackers tier 0 seen)
    like = rw h (
        try_trackers-IsLike receiver trackers tier tier 0 0 seen tier_clone
          (λ i. let e : 0 + i ≡ i = omega arith in ap (λ k. get_elem? tier k) e))
