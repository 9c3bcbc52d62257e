-- ===== src/Websocket/Handlers.antt =====
-- The table from contexts to handlers in chicken/device/driver/io/websocket_handler.cpp.
use cooboc.Base.{
  ℕ, zero, suc, ◌-◌, Option, none, some, List, ◌==◌, if◌then◌else◌, get_or, set, length, replicate,
  ltb,
}
use cooboc.Base.Int.{ℤ, pos, negsuc}

abbrev socket_pool_size : ℕ
socket_pool_size = 1024

pub record Entry : Type 0 where
  pub ctx : ℕ
  pub handler : ℕ

-- `ctxList` and `handlerList` as one array, and `handlerLength`, an `int` that may fall below 0.
pub record HandlerMap : Type 0 where
  pub slots : List Entry
  pub handler_length : ℤ

abbrev pub no_entry : Entry
no_entry = record { ctx = 0; handler = 0 }

abbrev new_handler_map : HandlerMap
new_handler_map = record { slots = replicate socket_pool_size no_entry; handler_length = pos 0 }

-- The number of rounds of `for (i=0; i<handlerLength; ++i)`.
abbrev pub rounds : ℤ → ℕ
rounds (pos n) = n
rounds (negsuc n) = 0

abbrev pub up : ℤ → ℤ
up (pos n) = pos (suc n)
up (negsuc zero) = pos 0
up (negsuc (suc n)) = negsuc n

abbrev pub down : ℤ → ℤ
down (pos zero) = negsuc 0
down (pos (suc n)) = pos n
down (negsuc n) = negsuc (suc n)

-- `registerHandlerMap`; `none` is a write outside the array.
unfoldable pub register_handler : HandlerMap → ℕ → ℕ → Option HandlerMap
register_handler m ctx handler = elim m.handler_length [
  | pos n ↦
      if ltb n (length m.slots)
      then some (record {
        slots = set m.slots n (record { ctx = ctx; handler = handler });
        handler_length = pos (suc n);
      })
      else none
  | negsuc n ↦ none
]

-- The first loop of `removeHandler`, and that of `lookupHandler`: the first index from `i` on whose
-- context is `ctx`, with `left` rounds to go, or else the end.
unfoldable pub find_from : ℕ → ℕ → ℕ → List Entry → ℕ
find_from zero i ctx slots = i
find_from (suc left) i ctx slots =
    let rest = find_from left (suc i) ctx slots in
    if (get_or slots i no_entry).ctx == ctx then i else rest

-- `for (; i<handlerLength-1; ++i)`: the entries behind `i` move down by one.
unfoldable pub shift_from : ℕ → ℕ → List Entry → List Entry
shift_from zero i slots = slots
shift_from (suc left) i slots =
    shift_from left (suc i) (set slots i (get_or slots (suc i) no_entry))

-- `removeHandler` lowers the length also where the context is not found.
unfoldable pub remove_handler : HandlerMap → ℕ → HandlerMap
unfolding find_from shift_from
remove_handler m ctx =
    let n = rounds m.handler_length in
    let i = find_from n 0 ctx m.slots in
    record { slots = shift_from (n - 1 - i) i m.slots; handler_length = down m.handler_length }

unfoldable pub lookup_handler : HandlerMap → ℕ → Option ℕ
unfolding find_from
lookup_handler m ctx =
    let n = rounds m.handler_length in
    let i = find_from n 0 ctx m.slots in
    if i == n then none else some (get_or m.slots i no_entry).handler
