-- ===== src/Websocket/Table.antt =====
-- The table of chicken/device/driver/io/websocket_handler.cpp as an association list, in the order
-- of registration.
use cooboc.Base.{
  ℕ, suc, ◌-◌, ◌≤◌, ◌<◌, ◌≡◌, refl, sym, ap, subst, ◌∙◌, none, some, List, [], ◌∷◌, ◌++◌, arith,
  length, length-set, set, take, take-set_next, length-take, get_or-take, take-take,
}
use cooboc.Base.Int.{pos}
use cooboc.Websocket.Handlers.{
  Entry, HandlerMap, no_entry, find_from, shift_from, register_handler, remove_handler,
  lookup_handler,
}
use cooboc.Websocket.Search.{
  lookup_entry, erase_entry, find_from-index_of, index_of-le, lookup_of_index, erase_of_index,
  length-shift_from, index_of-lt, index_of_absent, shifted_out, index_of,
}

-- The length is no negative number and fits the array.
pub record IsTable (m : HandlerMap) (n : ℕ) : Type 0 where
  pub counted : m.handler_length ≡ pos n
  pub fits : n ≤ length m.slots

module _ (m : HandlerMap) (n c : ℕ) (table : IsTable m n) where
  abbrev entries : List Entry
  entries = take n m.slots

  index : ℕ
  index = find_from n 0 c m.slots

  index_lem : index ≡ index_of c entries
  unfolding index
  index_lem = find_from-index_of n 0 c m.slots (omega (arith, table.fits)) ∙ omega arith

  -- On a table whose length fits its array, `lookupHandler` gives the handler of the first entry for the context, or NULL if there is none.
  pub lookup_handler-entries : lookup_handler m c ≡ lookup_entry c (take n m.slots)
  unfolding lookup_handler index
  lookup_handler-entries = ground (
    arith,
    table.counted,
    index_lem,
    lookup_of_index c entries,
    index_of-le c entries,
    length-take n m.slots table.fits,
    get_or-take m.slots n (index_of c entries) no_entry,
  )

  -- With room left `registerHandlerMap` puts the new entry behind the others, and the length grows by 1.
  pub register_handler-entries :
      (h : ℕ)
      → n < length m.slots
      → (m' : HandlerMap) × (register_handler m c h ≡ some m')
        × IsTable m' (suc n)
        × (take (suc n) m'.slots ≡ take n m.slots ++ (record { ctx = c; handler = h } ∷ []))
  unfolding register_handler
  register_handler-entries h room =
      let e : Entry = record { ctx = c; handler = h } in
      (
        record { slots = set m.slots n e; handler_length = pos (suc n) },
        ground (arith, table.counted),
        record { counted = refl; fits = omega (arith, length-set m.slots n e) },
        take-set_next m.slots n e room,
      )

table_of : List Entry → ℕ → HandlerMap
table_of slots n = record { slots = slots; handler_length = pos n }

-- A table whose length is known is of this form.
with_table :
    (P : HandlerMap → Type 0) (m : HandlerMap) (n : ℕ)
    → m.handler_length ≡ pos n
    → P (table_of m.slots n)
    → P m
unfolding table_of
with_table P m n e h = subst (λ l. P (record { slots = m.slots; handler_length = l })) (sym e) h

-- On such a table that is not empty, `removeHandler` of a context that has an entry removes its first
-- entry, and no other.
pub remove_handler-entries :
    (m : HandlerMap) (n c : ℕ) {h : ℕ}
    → IsTable m (suc n)
    → lookup_entry c (take (suc n) m.slots) ≡ some h
    → IsTable (remove_handler m c) n
      × (take n (remove_handler m c).slots ≡ erase_entry c (take (suc n) m.slots))
unfolding remove_handler table_of
remove_handler-entries m n c found_in found =
    with_table
      (λ t.
        IsTable (remove_handler t c) n
        × (take n (remove_handler t c).slots ≡ erase_entry c (take (suc n) t.slots)))
      m (suc n) found_in.counted
      (
        record {
          counted = refl;
          fits = omega (arith, found_in.fits, length-shift_from (suc n - 1 - i) i m.slots);
        },
        ap (λ k. take n (shift_from (suc n - 1 - k) k m.slots)) at_index
            ∙ shifted_out m.slots n (index_of c es) found_in.fits
                (omega (arith, index_of-lt c es found, length-take (suc n) m.slots found_in.fits))
            ∙ sym (erase_of_index c es),
      )
  where
    es : List Entry
    es = take (suc n) m.slots

    i : ℕ
    i = find_from (suc n) 0 c m.slots

    at_index : i ≡ index_of c es
    at_index = find_from-index_of (suc n) 0 c m.slots (omega (arith, found_in.fits)) ∙ omega arith

-- On such a table that is not empty, `removeHandler` of a context that has no entry lowers the length all the same: the last entry, which
-- is another context's, is lost.
remove_handler_absent :
    (m : HandlerMap) (n c : ℕ)
    → IsTable m (suc n)
    → lookup_entry c (take (suc n) m.slots) ≡ none
    → IsTable (remove_handler m c) n
      × (take n (remove_handler m c).slots ≡ take n (take (suc n) m.slots))
unfolding remove_handler table_of
remove_handler_absent m n c table absent =
    with_table
      (λ t.
        IsTable (remove_handler t c) n
        × (take n (remove_handler t c).slots ≡ take n (take (suc n) t.slots)))
      m (suc n) table.counted
      (
        record {
          counted = refl;
          fits = omega (arith, table.fits, length-shift_from (suc n - 1 - i) i m.slots);
        },
        ap (λ k. take n (shift_from k i m.slots)) no_rounds
            ∙ unfold shift_from in sym (take-take m.slots n (suc n) (omega arith)),
      )
  where
    es : List Entry
    es = take (suc n) m.slots

    i : ℕ
    i = find_from (suc n) 0 c m.slots

    at_end : i ≡ suc n
    at_end =
        find_from-index_of (suc n) 0 c m.slots (omega (arith, table.fits))
        ∙ omega (arith, index_of_absent c es absent, length-take (suc n) m.slots table.fits)

    no_rounds : suc n - 1 - i ≡ 0
    no_rounds = omega (arith, at_end)
