-- ===== src/Protocols/PeerHandshake/Refusals.antt =====
-- Which peers peer_handshake.rs turns away.
use Prim.Native.String.{String}
use fissure.Common.{
  ℕ, zero, suc, ◌+◌, ◌≤◌, ◌<◌, ◌≡◌, ◌≢◌, ◌↔◌, refl, Bool, true, false, Option, some, none, List, [],
  ◌∷◌, arith, ltb, ◌==◌, length, le→ltb, lt→ltb, ne→==, ==→eq, ==→ne, if◌then◌else◌, Bool-cases,
  ltb→le, ltb→lt, inl, inr,
}
use fissure.Common.Text.{as_bytes}
use fissure.Protocols.Tracker.{Peer}
use fissure.Protocols.PeerHandshake.{
  PeerConnection, Network, handshake, read_exact, read_rest, read_handshake,
  peer_connection_from_peer_meta,
}
use fissure.Protocols.PeerHandshake.Handshakes.{address}

-- A length byte other than 0, and then as many bytes of a name, 8 reserved ones, a hash and an id.
abbrev pub IsHandshake : List ℕ → Type 0
IsHandshake [] = ⊥
IsHandshake (pstr_len ∷ stream) = (pstr_len ≢ 0) × (pstr_len + 48 ≤ length stream)

read_rest-short :
    (lossy : List ℕ → String) (now n : ℕ) (stream : List ℕ)
    → length stream < n + 48
    → read_rest lossy now n stream ≡ none
unfolding read_rest read_exact
read_rest-short lossy now zero stream h = refl
read_rest-short lossy now (suc n) stream h =
    rw (lt→ltb (length stream) (suc n + 8 + 20 + 20) (omega arith), ne→== (suc n) 0 (omega arith))
      refl

read_rest-long :
    (lossy : List ℕ → String) (now n : ℕ) (stream : List ℕ)
    → n ≢ 0
    → n + 48 ≤ length stream
    → (c : PeerConnection) × (read_rest lossy now n stream ≡ some c)
unfolding read_rest read_exact
read_rest-long lossy now n stream h le =
    rw (ne→== n 0 h, le→ltb (length stream) (n + 8 + 20 + 20) (omega arith)) (_, refl)

read_rest-empty :
    (lossy : List ℕ → String) (now n : ℕ) (stream : List ℕ)
    → n ≡ 0
    → read_rest lossy now n stream ≡ none
unfolding read_rest
read_rest-empty lossy now n stream e = rw e refl

guarded :
    {A : Type 0} {P : Type 0} (a b : Bool) (x : Option A)
    → ((x ≡ none) ↔ (¬ P))
    → ((if a then if b then x else none else none) ≡ none) ↔ (¬ ((a ≡ true) × (b ≡ true) × P))
guarded true true x h = (λ e (s, t, p). h.0 e p, λ n. h.1 (λ p. n (refl, refl, p)))
guarded true false x h = (λ e (s, t, p). cc t, λ n. refl)
guarded false b x h = (λ e (s, t, p). cc s, λ n. refl)

read_handshake-none :
    (lossy : List ℕ → String) (now : ℕ) (stream : List ℕ)
    → (read_handshake lossy now stream ≡ none) ↔ (¬ IsHandshake stream)
unfolding read_handshake
read_handshake-none lossy now [] = (λ e h. h, λ h. refl)
read_handshake-none lossy now (n ∷ stream) = (forth, back)
  where
    forth : read_rest lossy now n stream ≡ none → ¬ IsHandshake (n ∷ stream)
    forth e (some_name, le) =
        let (c, s) = read_rest-long lossy now n stream some_name le in cc (e, s)

    back : ¬ IsHandshake (n ∷ stream) → read_rest lossy now n stream ≡ none
    back h = elim (Bool-cases (ltb (length stream) (n + 48))) [
      | inl short ↦ read_rest-short lossy now n stream (ltb→lt (length stream) (n + 48) short)
      | inr long ↦ elim (Bool-cases (n == 0)) [
        | inl e ↦ read_rest-empty lossy now n stream (==→eq n 0 e)
        | inr f ↦ absurd (h (==→ne n 0 f, ltb→le (length stream) (n + 48) long))
      ]
    ]

-- A connection comes about exactly where the peer's address accepts, our handshake can be sent, and
-- what the peer sends begins with a length byte other than 0 and at least 48 bytes more than that
-- length; in every other case there is none.
pub peer_connection_from_peer_meta-none :
    (lossy : List ℕ → String) (network : Network) (p : Peer) (info_hash : List ℕ) (peer_id : String)
    → (peer_connection_from_peer_meta lossy network p info_hash peer_id ≡ none) ↔ (
        ¬ (
          (network.connect (address p) ≡ true)
          × (network.write_all (handshake info_hash (as_bytes peer_id)) ≡ true)
          × IsHandshake (network.received (handshake info_hash (as_bytes peer_id)))))
unfolding peer_connection_from_peer_meta address
peer_connection_from_peer_meta-none lossy network p info_hash peer_id =
    guarded (network.connect (address p))
      (network.write_all (handshake info_hash (as_bytes peer_id))) _
      (read_handshake-none lossy network.now _)
