-- ===== src/AuthProxy/Shutdown.antt =====
-- Close of local_proxy.go. The server's Shutdown and Close are functions of the world.
use scrapemate.Prelude.{Bool, true, Option, none, some, ◌≡◌, if◌then◌else◌, arith}
use scrapemate.Errors.{Error, deadline_exceeded}

-- Whether `once` has run.
pub record Server (W : Type 0) : Type 0 where
  pub world : W
  pub closed : Bool

module _ {W : Type 0} (shutdown server_close : W → Option Error × W) where
  -- `err == context.DeadlineExceeded`
  unfoldable pub after_shutdown : Option Error × W → Option Error × W
  after_shutdown (some deadline_exceeded, w) = server_close w
  after_shutdown r = r

  unfoldable pub close : Server W → Option Error × Server W
  close s =
      if s.closed
      then (none, s)
      else let (e, w) = after_shutdown (shutdown s.world) in
        (e, record { world = w; closed = true })

  -- A second Close does nothing and returns nil, also if the first one failed.
  pub close-close : (s : Server W) → close (close s).1 ≡ (none, (close s).1)
  unfolding close
  close-close s = ground arith
