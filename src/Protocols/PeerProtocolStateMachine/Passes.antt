-- ===== src/Protocols/PeerProtocolStateMachine/Passes.antt =====
-- The full pass of the writer in peer_protocol_state_machine.rs comes to an end.
use Prim.Native.String.{String}
use fissure.Common.{
  ℕ, zero, suc, ◌+◌, ◌-◌, ◌^◌, ◌<◌, ◌≤◌, ◌≡◌, refl, Bool, true, false, not, ◌&&◌, ◌||◌, Outcome,
  done, panic, Option, some, none, List, [], ◌∷◌, ◌++◌, ltb, ltb→lt, leb, if◌then◌else◌, arith,
  Bool-cases, Option-cases, inl, inr,
}
use fissure.Common.Bits.{BitVecLib}
use fissure.Common.Bytes.{wrap, wrap_lt, as_u32}
use fissure.Models.PeerMessages.{request, interested}
use fissure.Managers.PieceManager.Handle.{PieceRequestManager, Tasks, request_block}
use fissure.Managers.DiskManager.{FileSystem}
use fissure.Managers.TorrentManager.{Floats}
use fissure.Managers.TorrentManager.Handle.{request_piece}
use fissure.Protocols.PeerProtocolStateMachine.{
  Env, Fsm, set_tasks, set_inflight, values, send, send_requests, progress_of, use_blocks,
  try_candidates, top_off_inflight_window,
}
use fissure.Protocols.PeerProtocolStateMachine.Writer.{
  Round, again, over, panicked, add_active, end_round, request_work, full_round, run_full_pass,
}
use fissure.Protocols.PeerProtocolStateMachine.Window.{
  IsToppedOff, top_off_inflight_window-IsToppedOff,
}

module _ (L : BitVecLib) (FS : FileSystem) (FL : Floats) (sha1 : List ℕ → List ℕ)
    (env : Env L.BitVec) where
  abbrev S : Type 0
  S = Fsm L FS FL sha1

  abbrev pending : S → ℕ
  pending s = s.network_state.pending_active_request_count

  abbrev limit : ℕ
  limit = env.peer_options.per_peer_inflight_count

  abbrev max_active : ℕ
  max_active = env.peer_options.per_peer_active_request_count

  send_requests-pending :
      (index : ℕ) (ps : List (ℕ × ℕ)) (s : S)
      → pending (send_requests L FS FL sha1 env index ps s).0 ≡ pending s
  unfolding send_requests send set_inflight
  send_requests-pending index [] s = refl
  send_requests-pending index (p ∷ ps) s =
      let s1 : S =
        set_inflight L FS FL sha1 (record s { sent = s.sent ++ (request index p.0 p.1 ∷ []) })
          (wrap (s.network_state.inflight_messages + 1)) in
      let rest = send_requests-pending index ps s1 in
      elim (Bool-cases (env.writable s.sent)) [
        | inl t ↦ rw (send_requests, t) rest
        | inr f ↦ rw (send_requests, f) refl
      ]

  use_blocks-pending :
      (index : ℕ) (ps : List (ℕ × ℕ)) (s : S) (next : S × Option Bool)
      → pending next.0 ≡ pending s
      → pending (use_blocks L FS FL sha1 env index ps s next).0 ≡ pending s
  unfolding use_blocks progress_of
  use_blocks-pending index [] s next h = h
  use_blocks-pending index (p ∷ ps) s next h = send_requests-pending index (p ∷ ps) s

  try_candidates-pending :
      (cs : List PieceRequestManager) (window : ℕ) (s : S)
      → pending (try_candidates L FS FL sha1 env cs window s).0 ≡ pending s
  unfolding try_candidates set_tasks
  try_candidates-pending [] window s = refl
  try_candidates-pending (c ∷ cs) window s =
      let r : Tasks L sha1 × List (ℕ × ℕ) =
        request_block L sha1 s.manager.state.tasks c (as_u32 window) env.now in
      let s' : S = set_tasks L FS FL sha1 s r.0 in
      use_blocks-pending c.index r.1 s' (try_candidates L FS FL sha1 env cs window s')
        (try_candidates-pending cs window s')

  top_off-pending :
      (s : S) (is_choked : Bool)
      → pending (top_off_inflight_window L FS FL sha1 env s is_choked).0 ≡ pending s
  unfolding top_off_inflight_window
  top_off-pending s true = refl
  top_off-pending s false = elim (Bool-cases (leb limit s.network_state.inflight_messages)) [
    | inl t ↦ rw (top_off_inflight_window, t) refl
    | inr f ↦
        rw (top_off_inflight_window, f)
          (try_candidates-pending (env.shuffle (values s.network_state.active_requests))
            (limit - s.network_state.inflight_messages) s)
  ]

  -- What is left of both limits.
  abbrev pub slack : S → ℕ
  slack s = (max_active - pending s) + (limit - s.network_state.inflight_messages)

  -- A round that is followed by another has used something of the limits.
  abbrev IsRound : ℕ → S × Round → Type 0
  IsRound n (s', again) = (s'.network_state.inflight_messages ≤ limit) × (slack s' < n)
  IsRound n (s', over ok) = s'.network_state.inflight_messages ≤ limit
  IsRound n (s', panicked) = s'.network_state.inflight_messages ≤ limit

  -- `end_round` on the result of the top-off.
  closed :
      (n : ℕ) (s : S) (made : Bool) (r : S × Option Bool)
      → s.network_state.inflight_messages ≤ limit
      → IsToppedOff L FS FL sha1 env s r
      → pending r.0 ≡ pending s
      → slack s ≤ n
      → (made ≡ true → slack s < n)
      → IsRound n (
        r.0,
        elim r.1 [
          | none ↦ over false
          | some progressed ↦ if made || progressed then again else over true
        ],
      )
  closed n s made (s', none) le h same few less = h
  closed n s true (s', some false) le h same few less =
      let lt = less refl in (omega arith, omega arith)
  closed n s false (s', some false) le h same few less = omega arith
  closed n s true (s', some true) le (lt, top) same few less =
      let lt' = less refl in (omega arith, omega arith)
  closed n s false (s', some true) le (lt, top) same few less = (top, omega arith)

  end_round-IsRound :
      (n : ℕ) (s : S) (is_choked made : Bool)
      → limit < 2 ^ 64
      → s.network_state.inflight_messages ≤ limit
      → slack s ≤ n
      → (made ≡ true → slack s < n)
      → IsRound n (end_round L FS FL sha1 env s is_choked made)
  unfolding end_round
  end_round-IsRound n s is_choked made w le few less =
      closed n s made (top_off_inflight_window L FS FL sha1 env s is_choked) le
        (top_off_inflight_window-IsToppedOff L FS FL sha1 env s is_choked le w)
        (top_off-pending s is_choked) few less

  request_work-IsRound :
      (n : ℕ) (s : S) (is_choked : Bool)
      → limit < 2 ^ 64
      → max_active < 2 ^ 64
      → s.network_state.inflight_messages ≤ limit
      → slack s ≤ n
      → IsRound n (request_work L FS FL sha1 env s is_choked)
  unfolding request_work add_active
  request_work-IsRound n s is_choked w wa le few =
      elim (Bool-cases (not is_choked && ltb (pending s) max_active)) [
        | inr f ↦
            rw (request_work, f)
              (end_round-IsRound n s is_choked false w le few (λ e. absurd (cc e)))
        | inl t ↦ elim (Option-cases s.peer.peer_id) [
          | inl none_id ↦ rw (request_work, t, none_id) le
          | inr (peer_id, id) ↦
              rw (request_work, t, id) (given peer_id (and-right (not is_choked) _ t))
        ]
      ]
    where
      and-right : (a b : Bool) → (a && b) ≡ true → b ≡ true
      and-right true b e = e
      and-right false b e = absurd (cc e)

      given :
          (peer_id : String)
          → ltb (pending s) max_active ≡ true
          → IsRound n (elim (request_piece L FS FL sha1 env.order s.manager peer_id env.now).1 [
            | none ↦
                end_round L FS FL sha1 env
                  (record s {
                    manager = (request_piece L FS FL sha1 env.order s.manager peer_id env.now).0;
                  })
                  is_choked
                  false
            | some req ↦
                end_round L FS FL sha1 env
                  (add_active L FS FL sha1 env
                    (record s {
                      manager = (request_piece L FS FL sha1 env.order s.manager peer_id env.now).0;
                    })
                    req)
                  is_choked
                  true
          ])
      given peer_id t =
          let lt : pending s < max_active = ltb→lt (pending s) max_active t in
          let plus : wrap (pending s + 1) ≡ pending s + 1 = wrap_lt (pending s + 1) (omega arith) in
          let s' : S = record s {
            manager = (request_piece L FS FL sha1 env.order s.manager peer_id env.now).0;
          } in
          elim (Option-cases (request_piece L FS FL sha1 env.order s.manager peer_id env.now).1) [
            | inl e ↦ rw e (end_round-IsRound n s' is_choked false w le few (λ e. absurd (cc e)))
            | inr (req, e) ↦ rw e (
                end_round-IsRound n (add_active L FS FL sha1 env s' req) is_choked true w le
                  (omega arith) (λ e. omega arith))
          ]

  full_round-IsRound :
      (s : S)
      → limit < 2 ^ 64
      → max_active < 2 ^ 64
      → s.network_state.inflight_messages ≤ limit
      → IsRound (slack s) (full_round L FS FL sha1 env s)
  unfolding full_round send
  full_round-IsRound s w wa le =
      elim (Bool-cases (s.peer.has_useful_pieces && not s.peer.am_interested)) [
        | inr f ↦
            rw (full_round, f)
              (request_work-IsRound (slack s) s s.peer.peer_choking w wa le (omega arith))
        | inl t ↦ elim (Bool-cases (env.writable s.sent)) [
          | inr g ↦ rw (full_round, t, g) le
          | inl g ↦
              let s' : S = record s {
                sent = s.sent ++ (interested ∷ []);
                peer = record s.peer { am_interested = true };
              } in
              rw (full_round, t, g)
                (request_work-IsRound (slack s) s' s.peer.peer_choking w wa le (omega arith))
        ]
      ]

  abbrev pub HasEnded : Option (S × Outcome Bool) → Type 0
  HasEnded r =
      (s' : S) × (ok : Outcome Bool) × (r ≡ some (s', ok))
      × (s'.network_state.inflight_messages ≤ limit)

  -- The `match` of the loop on one round.
  round_cases :
      (n : ℕ) (r : S × Round) (rest : Option (S × Outcome Bool))
      → IsRound n r
      → (slack r.0 < n → r.0.network_state.inflight_messages ≤ limit → HasEnded rest)
      → HasEnded
          (elim r.1 [ again ↦ rest | over ok ↦ some (r.0, done ok) | panicked ↦ some (r.0, panic) ])
  round_cases n (s', again) rest (le, lt) later = later lt le
  round_cases n (s', over ok) rest h later = (s', done ok, refl, h)
  round_cases n (s', panicked) rest h later = (s', panic, refl, h)

  -- The full pass of the writer ends: with the window within its limit, and both limits 64-bit
  -- numbers, it runs at most once more than there are free places among the active pieces and in the
  -- window together, since each round that is followed by another has taken one of them. At the end
  -- the window is still within its limit.
  pub run_full_pass-HasEnded :
      (fuel : ℕ) (s : S)
      → limit < 2 ^ 64
      → max_active < 2 ^ 64
      → s.network_state.inflight_messages ≤ limit
      → slack s < fuel
      → HasEnded (run_full_pass L FS FL sha1 env fuel s)
  unfolding run_full_pass
  run_full_pass-HasEnded zero s w wa le m = absurd (omega arith)
  run_full_pass-HasEnded (suc fuel) s w wa le m =
      let r : S × Round = full_round L FS FL sha1 env s in
      round_cases (slack s) r (run_full_pass L FS FL sha1 env fuel r.0)
        (full_round-IsRound s w wa le)
        (λ lt top. run_full_pass-HasEnded fuel r.0 w wa top (omega arith))
