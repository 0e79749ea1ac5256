-- ===== src/Orchestration/TorrentRefresh/UniqueIps.antt =====
-- Lists of peers without a repeated address, for torrent_refresh.rs.
use Prim.Native.String.{String}
use text.Mathlib.Text.{◌==◌ as str_eq}
use text.Mathlib.TextEquality.{eq_iff}
use fissure.Common.{◌≡◌, refl, false, List, [], ◌∷◌, ◌++◌, arith, All, Bool-cases, inl, inr}
use fissure.Protocols.Tracker.{Peer}
use fissure.Orchestration.TorrentRefresh.{is_seen, retain_unseen}

-- No two of the peers have the same address.
unfoldable pub HasUniqueIps : List Peer → Type 0
HasUniqueIps [] = Unit
HasUniqueIps (p ∷ ps) = (is_seen ps p ≡ false) × HasUniqueIps ps

abbrev pub Unseen : List Peer → List Peer → Type 0
Unseen seen ps = All (λ p. is_seen seen p ≡ false) ps

pub retain_unseen-Unseen : (seen ps : List Peer) → Unseen seen (retain_unseen seen ps)
unfolding retain_unseen
retain_unseen-Unseen seen [] = tt
retain_unseen-Unseen seen (p ∷ ps) =
    let rest = retain_unseen-Unseen seen ps in
    elim (Bool-cases (is_seen seen p)) [ inl t ↦ rw t rest | inr f ↦ rw f (f, rest) ]

is_seen-retain_unseen :
    (seen ps : List Peer) (p : Peer)
    → is_seen ps p ≡ false
    → is_seen (retain_unseen seen ps) p ≡ false
unfolding is_seen retain_unseen
is_seen-retain_unseen seen [] p h = refl
is_seen-retain_unseen seen (q ∷ ps) p h = elim (Bool-cases (str_eq q.ip p.ip)) [
  | inl t ↦ absurd (cc (rw t at h))
  | inr f ↦
      let rest = is_seen-retain_unseen seen ps p (rw f at h) in
      elim (Bool-cases (is_seen seen q)) [ inl s ↦ rw s rest | inr n ↦ rw (n, f) rest ]
]

pub retain_unseen-HasUniqueIps :
    (seen ps : List Peer) → HasUniqueIps ps → HasUniqueIps (retain_unseen seen ps)
unfolding retain_unseen HasUniqueIps
retain_unseen-HasUniqueIps seen [] h = tt
retain_unseen-HasUniqueIps seen (p ∷ ps) h =
    let rest = retain_unseen-HasUniqueIps seen ps h.1 in
    let new = is_seen-retain_unseen seen ps p h.0 in
    elim (Bool-cases (is_seen seen p)) [ inl t ↦ rw t rest | inr f ↦ rw f (new, rest) ]

is_seen-append :
    (xs ys : List Peer) (p : Peer)
    → is_seen xs p ≡ false
    → is_seen ys p ≡ false
    → is_seen (xs ++ ys) p ≡ false
unfolding is_seen
is_seen-append [] ys p hx hy = hy
is_seen-append (x ∷ xs) ys p hx hy = elim (Bool-cases (str_eq x.ip p.ip)) [
  | inl t ↦ absurd (cc (rw t at hx))
  | inr f ↦ rw f (is_seen-append xs ys p (rw f at hx) hy)
]

str_eq-false_sym : (s t : String) → str_eq s t ≡ false → str_eq t s ≡ false
str_eq-false_sym s t h = ground (arith, eq_iff s t, eq_iff t s)

Unseen-head : (x : Peer) (xs ys : List Peer) → Unseen (x ∷ xs) ys → is_seen ys x ≡ false
unfolding is_seen
Unseen-head x xs [] h = refl
Unseen-head x xs (y ∷ ys) h =
    let hy = h.0 in
    elim (Bool-cases (str_eq x.ip y.ip)) [
      | inl t ↦ absurd (cc (rw t at hy))
      | inr f ↦ rw (str_eq-false_sym x.ip y.ip f) (Unseen-head x xs ys h.1)
    ]

Unseen-tail : (x : Peer) (xs ys : List Peer) → Unseen (x ∷ xs) ys → Unseen xs ys
unfolding is_seen
Unseen-tail x xs [] h = tt
Unseen-tail x xs (y ∷ ys) h =
    let hy = h.0 in
    elim (Bool-cases (str_eq x.ip y.ip)) [
      | inl t ↦ absurd (cc (rw t at hy))
      | inr f ↦ (rw f at hy, Unseen-tail x xs ys h.1)
    ]

pub HasUniqueIps-append :
    (xs ys : List Peer) → HasUniqueIps xs → HasUniqueIps ys → Unseen xs ys → HasUniqueIps (xs ++ ys)
unfolding HasUniqueIps
HasUniqueIps-append [] ys hx hy u = hy
HasUniqueIps-append (x ∷ xs) ys hx hy u = (
  is_seen-append xs ys x hx.0 (Unseen-head x xs ys u),
  HasUniqueIps-append xs ys hx.1 hy (Unseen-tail x xs ys u),
)
