-- ===== src/Outbox/Written.antt =====
-- Which texts chicken/device/driver/io/websocket_handler.cpp writes of those that it is to send.
use cooboc.Base.{
  ℕ, ◌+◌, ◌≤◌, ◌≡◌, ◌⊎◌, Bool, true, false, Option, none, some, List, ◌++◌, length, take,
}
use cooboc.Outbox.{Sender, waiting, copying, copied, Shared, Turn, send_turn, service_turn}

-- What is in the array of the text sent last.
Held : List ℕ → ℕ → Sender → Option (List ℕ) → Type 0
Held buffer n waiting none = Unit
Held buffer n waiting (some text) = take n buffer ≡ text
Held buffer n (copying rest i) none = ⊥
Held buffer n (copying rest i) (some text) =
    (take i buffer ++ rest ≡ text) × (n ≡ length text) × (i + length rest ≡ n) × (n ≤ 4096)
Held buffer n copied none = ⊥
Held buffer n copied (some text) = take n buffer ≡ text

IsBusy : Sender → Type 0
IsBusy waiting = ⊥
IsBusy (copying rest i) = Unit
IsBusy copied = Unit

-- A callback is due, or will be, or the last text is written.
Pending : Shared → Sender → Type 0
Pending s w = (s.requested ≡ true) ⊎ IsBusy w ⊎ (s.written ≡ s.sent)

-- Nothing is requested before the first text.
Asked : Option (List ℕ) → Bool → Type 0
Asked none requested = requested ≡ false
Asked (some text) requested = Unit

IsKept : Shared → Sender → Type 0
IsKept s w =
    (length s.buffer ≡ 4096)
    × Held s.buffer s.send_length w s.sent
    × Asked s.sent s.requested
    × Pending s w

-- The texts fit the array.
unfoldable pub Fits : Turn → Type 0
Fits (send_turn text) = length text ≤ 4096
Fits (service_turn writeable) = Unit
