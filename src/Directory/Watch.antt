-- ===== src/Directory/Watch.antt =====
-- WatchRing of internal/directory/server.go: what a watcher is sent. The rings are those that the
-- calls of `send` read, the first before any signal; `takes n` tells whether the stream takes its n-th
-- message.
use prefixmesh.Prelude.{
  ◌==◌, if◌then◌else◌, length, ℕ, Bool, true, false, not, ◌&&◌, List, [], ◌∷◌, ◌++◌,
}
use prefixmesh.Directory.State.{Ring}

pub record Stream : Type 0 where
  pub last_sent : ℕ
  pub sent : List Ring

abbrev pub new_stream : Stream
new_stream = record { last_sent = 0; sent = [] }

abbrev pub add_if : Bool → List Ring → Ring → List Ring
add_if true out r = out ++ r ∷ []
add_if false out r = out

-- `send`: the stream, and whether there was no error.
unfoldable pub send_ring : (ℕ → Bool) → Stream → Ring → Stream × Bool
send_ring takes w r =
    let taken = takes (length w.sent) in
    if (r.epoch == w.last_sent) && not (w.last_sent == 0)
    then (w, true)
    else (record { last_sent = r.epoch; sent = add_if taken w.sent r }, taken)

abbrev pub unless_failed : Stream × Bool → Stream × Bool → Stream × Bool
unless_failed (w, false) rest = (w, false)
unless_failed (w, true) rest = rest

-- `WatchRing`, until the rings end with the stream's context or a send fails.
unfoldable pub watch_ring : (ℕ → Bool) → Stream → List Ring → Stream × Bool
unfolding send_ring
watch_ring takes w [] = (w, true)
watch_ring takes w (r ∷ rs) =
    unless_failed (send_ring takes w r) (watch_ring takes (send_ring takes w r).0 rs)
