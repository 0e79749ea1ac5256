-- ===== src/Managers/ClientManager/Starting.antt =====
-- Which torrents the loop of client_manager.rs starts.
use fissure.Common.{
  ℕ, zero, suc, ◌+◌, ◌<◌, ◌≡◌, refl, Bool, true, false, ◌&&◌, done, List, ◌∷◌, length, arith,
}
use fissure.Common.Bits.{BitVecLib}
use fissure.Managers.DiskManager.{FileSystem}
use fissure.Managers.TorrentManager.{Floats}
use fissure.Managers.TorrentManager.Handle.{
  Actor, send, deliver, answer, get_torrent_stats, get_active_peers,
}
use fissure.Managers.TorrentManager.Handlers.{handle, keys}
use fissure.Managers.ClientManager.{
  ClientActor, ClientActorMessage, Outside, add_torret, stats_tick, timed_torrent_stats_logger,
  join_all, run,
}

module _ (L : BitVecLib) (FS : FileSystem) (FL : Floats) (sha1 : List ℕ → List ℕ)
    (order : List ℕ → List ℕ) where
  -- A torrent manager that lives answers both requests of the logger.
  stats_tick-alive :
      (a : Actor L FS FL sha1)
      → a.alive ≡ true
      → stats_tick L FS FL sha1 order a ≡ done (a.state.stats, length (keys a.state.peer_bitfields))
  unfolding stats_tick get_torrent_stats get_active_peers send deliver answer handle
  stats_tick-alive a e = rw (stats_tick, get_torrent_stats, get_active_peers, e) refl

  logger_goes_on :
      (managers : ℕ → Actor L FS FL sha1) (first n : ℕ)
      → ((k : ℕ) → k < first + n → (managers k).alive ≡ true)
      → timed_torrent_stats_logger L FS FL sha1 order managers first n ≡ false
  unfolding timed_torrent_stats_logger
  logger_goes_on managers first zero lives = refl
  logger_goes_on managers first (suc n) lives =
      rw (timed_torrent_stats_logger, stats_tick-alive (managers first) (lives first (omega arith)))
        (logger_goes_on managers (first + 1) n (λ k lt. lives k (omega arith)))

  waits :
      (world : Outside L FS FL sha1) (n : ℕ) (m : ClientActorMessage)
      → ((k : ℕ) → k < n → (world.managers m k).alive ≡ true)
      → join_all L FS FL sha1 order world n m ≡ false
  unfolding join_all
  waits world n m lives =
      rw (join_all, logger_goes_on (world.managers m) 0 n (λ k lt. lives k (omega arith)))
        (never (world.others_end m))
    where
      never : (a : Bool) → (a && false) ≡ false
      never true = refl
      never false = refl

  -- Of a torrent that is started without a panic: while its torrent manager lives, the client
  -- handles no further message. The logger of the torrent gets an answer at each of its ticks and so
  -- goes on, and the client, which waits for all three tasks of the torrent, has started this torrent
  -- and leaves every later message in its channel. This is so for any number of ticks in which the
  -- torrent manager lives, and whatever the other two tasks do.
  pub run-one_torrent :
      (world : Outside L FS FL sha1) (n : ℕ) (s t : ClientActor L FS FL sha1)
      (m : ClientActorMessage) (later : List ClientActorMessage)
      → add_torret L FS FL sha1 world s m ≡ done t
      → ((k : ℕ) → k < n → (world.managers m k).alive ≡ true)
      → run L FS FL sha1 order world n s (m ∷ later) ≡ done (t, later)
  unfolding run
  run-one_torrent world n s t m later e lives = rw (run, e, waits world n m lives) refl
