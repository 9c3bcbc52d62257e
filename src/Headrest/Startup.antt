-- ===== src/Headrest/Startup.antt =====
-- The application of chicken/chicken.cpp from its start, without a connection yet.
use cooboc.Base.{ℕ, ◌^◌, ◌<◌, ◌≡◌, ap, ◌∙◌, false, some, List, [], ◌∷◌, ◌++◌, All}
use cooboc.Base.Int.{signed16}
use cooboc.Websocket.{WsHandler, daemon_round, Attempt}
use cooboc.Websocket.Handlers.{Entry}
use cooboc.Websocket.Lifecycle.{
  established, closing, IsOff, IsReady, IsFresh, found_ready, connects, closes,
}
use cooboc.Firmware.{report}
use cooboc.Link.{Clock, stamp, IsTimely, IsWaiting}
use cooboc.Headrest.{App, Step, read_step, round_step, daemon_step, run, step}
use cooboc.Headrest.Text.{read_distances}
use cooboc.Headrest.Distances.{writeable, distances_shown}

-- The connection is made and closed with each of the contexts, then made with the last one, and then
-- the other steps come.
unfoldable pub after_connections : List ℕ → ℕ → List Step → List Step
after_connections [] c ss = daemon_step (established c) ∷ ss
after_connections (x ∷ xs) c ss =
    daemon_step (established x) ∷ daemon_step closing ∷ after_connections xs c ss

abbrev showing : App → WsHandler → App
showing a w = record a { display = w }

after_daemon :
    (me : ℕ) (a : App) (w : WsHandler) (attempt : Attempt) (ss : List Step)
    → daemon_round me a.display attempt ≡ some w
    → run me a (daemon_step attempt ∷ ss) ≡ run me (showing a w) ss
unfolding run
after_daemon me a w attempt ss e = rw (stepped, run)
  where
    stepped : step me a (daemon_step attempt) ≡ some (showing a w)
    stepped = unfold step in rw (e, step)

connected_again :
    (me : ℕ) (es : List Entry) (a : App) (cs : List ℕ) (c : ℕ) (ss : List Step)
    → IsOff es a.display
    → All (IsFresh es) cs
    → IsFresh es c
    → (w : WsHandler) × (run me a (after_connections cs c ss) ≡ run me (showing a w) ss)
      × IsReady me es w
      × (w.written ≡ a.display.written)
unfolding after_connections
connected_again me es a [] c ss o fs f =
    let (w, e, ready, same) = connects me c es a.display o f in
    (w, after_daemon me a w (established c) ss e, ready, same)
connected_again me es a (x ∷ xs) c ss o (g, gs) f =
    let (w1, e1, ready1, same1) = connects me x es a.display o g in
    let (w2, e2, off, same2) = closes me es w1 ready1 in
    let (w, e, ready, same) = connected_again me es (showing a w2) xs c ss off gs f in
    (
      w,
      after_daemon me a w1 (established x) _ e1
          ∙ after_daemon me (showing a w1) w2 closing _ e2
          ∙ e,
      ready,
      same ∙ same2 ∙ same1,
    )

-- From a socket without a connection, whatever other entries its table has, if there is room for one
-- more: after the connection was made and closed any number of times and made again, each time with a context
-- that has no entry, a report of three 16-bit values that reaches the waiting driver without a pause of more
-- than 500 ms is shown in the next round. One text is written in all of that, and it reads back as the
-- board's two distances; the data are no longer new, and the position is the board's as a signed 16-bit
-- number.
pub shown_after_connections :
    (me : ℕ) (es : List Entry) (a : App) (cs : List ℕ) (c : ℕ) (clock : Clock) (p d1 d2 : ℕ)
    → IsOff es a.display
    → All (IsFresh es) cs
    → IsFresh es c
    → IsWaiting a.hr
    → IsTimely clock
    → p < 2 ^ 16
    → d1 < 2 ^ 16
    → d2 < 2 ^ 16
    → (a' : App) × (t : List ℕ) × (run me a (
          after_connections cs c
            (read_step (stamp clock 0 (report p d1 d2)) ∷ round_step writeable ∷ []))
        ≡ some a')
      × (a'.display.written ≡ a.display.written ++ (t ∷ []))
      × (read_distances t ≡ some (d1, d2))
      × (a'.hr.has_new_data ≡ false)
      × (a'.hr.hr_position ≡ signed16 p)
shown_after_connections me es a cs c clock p d1 d2 o fs f waiting timely hp h1 h2 =
    let (w, e, ready, same) =
      connected_again me es a cs c
        (read_step (stamp clock 0 (report p d1 d2)) ∷ round_step writeable ∷ []) o fs f in
    let (a', t, e', written, back, old, at) =
      distances_shown me (showing a w) clock p d1 d2 waiting timely hp h1 h2 ready.good
        (found_ready me es w ready) in
    (a', t, e ∙ e', written ∙ ap (λ ts. ts ++ (t ∷ [])) same, back, old, at)
