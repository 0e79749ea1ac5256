-- ===== src/Protocols/PeerProtocolStateMachine/Window.antt =====
-- The request window of peer_protocol_state_machine.rs: its bound, and the end of its loop.
use fissure.Common.{
  ℕ, zero, suc, ◌+◌, ◌-◌, ◌^◌, ◌<◌, ◌≤◌, ◌≡◌, refl, Bool, true, false, Option, some, none, List, [],
  ◌∷◌, ◌++◌, leb, leb→lt, length, arith, Bool-cases, inl, inr,
}
use fissure.Common.Bits.{BitVecLib}
use fissure.Common.Bytes.{wrap, wrap_lt, as_u32}
use fissure.Models.PeerMessages.{request}
use fissure.Managers.PieceManager.AtMost.{request_block-le}
use fissure.Managers.PieceManager.Handle.{PieceRequestManager, Tasks, request_block}
use fissure.Managers.DiskManager.{FileSystem}
use fissure.Managers.TorrentManager.{Floats}
use fissure.Protocols.PeerProtocolStateMachine.{
  Env, Fsm, set_tasks, set_inflight, values, send, send_requests, progress_of, use_blocks,
  try_candidates, top_off_inflight_window, topoff_loop, run_window_topoff,
}

module _ (L : BitVecLib) (FS : FileSystem) (FL : Floats) (sha1 : List ℕ → List ℕ)
    (env : Env L.BitVec) where
  abbrev pub F : Type 0
  F = Fsm L FS FL sha1

  abbrev pub inflight : F → ℕ
  inflight s = s.network_state.inflight_messages

  abbrev pub max_inflight : ℕ
  max_inflight = env.peer_options.per_peer_inflight_count

  -- `n` requests have been sent, or fewer where the socket failed.
  abbrev IsSent : ℕ → F → F × Bool → Type 0
  IsSent n s r = (inflight r.0 ≤ inflight s + n) × (r.1 ≡ true → inflight r.0 ≡ inflight s + n)

  send_requests-IsSent :
      (index : ℕ) (ps : List (ℕ × ℕ)) (s : F)
      → inflight s + length ps < 2 ^ 64
      → IsSent (length ps) s (send_requests L FS FL sha1 env index ps s)
  unfolding send_requests send set_inflight
  send_requests-IsSent index [] s h = (omega arith, λ e. omega arith)
  send_requests-IsSent index (p ∷ ps) s h = elim (Bool-cases (env.writable s.sent)) [
    | inl t ↦
        let s1 : F =
          set_inflight L FS FL sha1 (record s { sent = s.sent ++ (request index p.0 p.1 ∷ []) })
            (wrap (inflight s + 1)) in
        let same : inflight s1 ≡ inflight s + 1 = wrap_lt (inflight s + 1) (omega arith) in
        let (le, all) = send_requests-IsSent index ps s1 (omega arith) in
        rw (send_requests, t) (omega arith, λ e. let eq = all e in omega arith)
    | inr f ↦ rw (send_requests, f) (omega arith, λ e. absurd (cc e))
  ]

  -- What a top-off may come to.
  abbrev pub IsToppedOff : F → F × Option Bool → Type 0
  IsToppedOff s (s', none) = inflight s' ≤ max_inflight
  IsToppedOff s (s', some false) = inflight s' ≡ inflight s
  IsToppedOff s (s', some true) = (inflight s < inflight s') × (inflight s' ≤ max_inflight)

  progress-IsToppedOff :
      (s : F) (n : ℕ) (r : F × Bool)
      → IsSent (suc n) s r
      → inflight s + suc n ≤ max_inflight
      → IsToppedOff s (progress_of L FS FL sha1 env r)
  unfolding progress_of
  progress-IsToppedOff s n (s', true) (le, all) h = let eq = all refl in (omega arith, omega arith)
  progress-IsToppedOff s n (s', false) (le, all) h = omega arith

  use_blocks-IsToppedOff :
      (index : ℕ) (ps : List (ℕ × ℕ)) (s : F) (next : F × Option Bool)
      → inflight s + length ps ≤ max_inflight
      → max_inflight < 2 ^ 64
      → IsToppedOff s next
      → IsToppedOff s (use_blocks L FS FL sha1 env index ps s next)
  unfolding use_blocks
  use_blocks-IsToppedOff index [] s next h w n = n
  use_blocks-IsToppedOff index (p ∷ ps) s next h w n =
      progress-IsToppedOff s (length ps) (send_requests L FS FL sha1 env index (p ∷ ps) s)
        (send_requests-IsSent index (p ∷ ps) s (omega arith)) h

  try_candidates-IsToppedOff :
      (cs : List PieceRequestManager) (window : ℕ) (s : F)
      → inflight s + window ≤ max_inflight
      → max_inflight < 2 ^ 64
      → IsToppedOff s (try_candidates L FS FL sha1 env cs window s)
  unfolding try_candidates set_tasks
  try_candidates-IsToppedOff [] window s h w = refl
  try_candidates-IsToppedOff (c ∷ cs) window s h w =
      let r : Tasks L sha1 × List (ℕ × ℕ) =
        request_block L sha1 s.manager.state.tasks c (as_u32 window) env.now in
      let s' : F = set_tasks L FS FL sha1 s r.0 in
      let few : length r.1 ≤ as_u32 window =
        request_block-le L sha1 s.manager.state.tasks c (as_u32 window) env.now in
      use_blocks-IsToppedOff c.index r.1 s' _ (omega arith) w
        (try_candidates-IsToppedOff cs window s' h w)

  pub top_off_inflight_window-IsToppedOff :
      (s : F) (is_choked : Bool)
      → inflight s ≤ max_inflight
      → max_inflight < 2 ^ 64
      → IsToppedOff s (top_off_inflight_window L FS FL sha1 env s is_choked)
  unfolding top_off_inflight_window
  top_off_inflight_window-IsToppedOff s true le w = refl
  top_off_inflight_window-IsToppedOff s false le w =
      elim (Bool-cases (leb max_inflight (inflight s))) [
        | inl t ↦ rw (top_off_inflight_window, t) refl
        | inr f ↦
            let lt : inflight s < max_inflight = leb→lt max_inflight (inflight s) f in
            rw (top_off_inflight_window, f)
              (try_candidates-IsToppedOff (env.shuffle (values s.network_state.active_requests))
                (max_inflight - inflight s) s (omega arith) w)
      ]

  abbrev pub HasEnded : Option (F × Bool) → Type 0
  HasEnded r = (s' : F) × (ok : Bool) × (r ≡ some (s', ok)) × (inflight s' ≤ max_inflight)

  -- The `match` of the loop on one top-off.
  topoff_cases :
      (s : F) (r : F × Option Bool) (again : Option (F × Bool))
      → inflight s ≤ max_inflight
      → IsToppedOff s r
      → (inflight s < inflight r.0 → inflight r.0 ≤ max_inflight → HasEnded again)
      → HasEnded (elim r.1 [
        | none ↦ some (r.0, false)
        | some true ↦ again
        | some false ↦ some (r.0, true)
      ])
  topoff_cases s (s', none) again le h later = (s', false, refl, h)
  topoff_cases s (s', some false) again le h later = (s', true, refl, omega arith)
  topoff_cases s (s', some true) again le (lt, h) later = later lt h

  topoff_loop-HasEnded :
      (fuel : ℕ) (is_choked : Bool) (s : F)
      → inflight s ≤ max_inflight
      → max_inflight < 2 ^ 64
      → max_inflight - inflight s < fuel
      → HasEnded (topoff_loop L FS FL sha1 env fuel is_choked s)
  unfolding topoff_loop
  topoff_loop-HasEnded zero is_choked s le w m = absurd (omega arith)
  topoff_loop-HasEnded (suc fuel) is_choked s le w m =
      let r : F × Option Bool = top_off_inflight_window L FS FL sha1 env s is_choked in
      topoff_cases s r (topoff_loop L FS FL sha1 env fuel is_choked r.0) le
        (top_off_inflight_window-IsToppedOff s is_choked le w)
        (λ lt top. topoff_loop-HasEnded fuel is_choked r.0 top w (omega arith))

  -- The light pass on a received block ends: with the window within its limit, which is a 64-bit
  -- number, the loop runs at most once more than there are free places, since each round that goes
  -- on has sent a request. When it ends the window is still within its limit, whether the socket
  -- failed or not.
  pub run_window_topoff-HasEnded :
      (fuel : ℕ) (s : F)
      → inflight s ≤ max_inflight
      → max_inflight < 2 ^ 64
      → max_inflight - inflight s < fuel
      → HasEnded (run_window_topoff L FS FL sha1 env fuel s)
  unfolding run_window_topoff
  run_window_topoff-HasEnded fuel s le w m = topoff_loop-HasEnded fuel s.peer.peer_choking s le w m
