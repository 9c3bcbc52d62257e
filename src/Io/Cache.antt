-- ===== src/Io/Cache.antt =====
-- The handlers that chicken/device/driver/io/io.cpp gives for names.
use cooboc.Base.{
  ℕ, suc, ◌+◌, ◌≤◌, ◌≡◌, ◌≢◌, refl, sym, ap, ◌∙◌, inl, inr, false, Option, none, some, List, [],
  ◌∷◌, ◌++◌, arith, length, get_or, zero, ◌⊎◌, ◌↔◌, Bool-cases,
}
use cooboc.Base.Texts.{same_text, same_text_refl, same_text→≡}
use cooboc.Io.{Name, find_port, get_handler, after_requests}

find_port-append_some :
    (name : Name) (i k : ℕ) (ns : List Name) (n : Name)
    → find_port name i ns ≡ some k
    → find_port name i (ns ++ (n ∷ [])) ≡ some k
unfolding find_port
find_port-append_some name i k [] n h = cc
find_port-append_some name i k (m ∷ ns) n h =
    ground (arith, find_port-append_some name (suc i) k ns n)

find_port-append_none :
    (name : Name) (i : ℕ) (ns : List Name)
    → find_port name i ns ≡ none
    → find_port name i (ns ++ (name ∷ [])) ≡ some (i + length ns)
unfolding find_port
find_port-append_none name i [] h = ground (arith, same_text_refl name)
find_port-append_none name i (m ∷ ns) h = ground (arith, find_port-append_none name (suc i) ns)

-- A handler, once given for a name.
abbrev Opened : List Name → Name → ℕ → Type 0
Opened opened name k = find_port name 0 opened ≡ some k

get_handler-Opened :
    (opened opened' : List Name) (name : Name) (k : ℕ)
    → get_handler opened name ≡ some (opened', k)
    → Opened opened' name k
unfolding get_handler
get_handler-Opened opened opened' name k h = ground (arith, find_port-append_none name 0 opened)

get_handler_again :
    (opened : List Name) (name : Name) (k : ℕ)
    → Opened opened name k
    → get_handler opened name ≡ some (opened, k)
unfolding get_handler
get_handler_again opened name k h = rw (h, get_handler) refl

Opened-get_handler :
    (opened opened' : List Name) (name other : Name) (k j : ℕ)
    → Opened opened name k
    → get_handler opened other ≡ some (opened', j)
    → Opened opened' name k
unfolding get_handler
Opened-get_handler opened opened' name other k j h g =
    ground (arith, find_port-append_some name 0 k opened other)

Opened-after_requests :
    (opened opened' : List Name) (ns : List Name) (name : Name) (k : ℕ)
    → Opened opened name k
    → after_requests opened ns ≡ some opened'
    → Opened opened' name k
unfolding after_requests
Opened-after_requests opened opened' [] name k h g = ground (arith, g, h)
Opened-after_requests opened opened' (n ∷ ns) name k h g =
    after_first (λ o h' g'. Opened-after_requests o opened' ns name k h' g') (get_handler opened n)
      refl g
  where
    after_first :
        ((o : List Name)
          → Opened o name k
          → after_requests o ns ≡ some opened'
          → Opened opened' name k)
        → (r : Option (List Name × ℕ)) → get_handler opened n ≡ r
        → elim r [ none ↦ none | some q ↦ after_requests q.0 ns ] ≡ some opened'
        → Opened opened' name k
    after_first rest none e q = cc
    after_first rest (some (o, j)) e q = rest o (Opened-get_handler opened o name n k j h e) q

find_port-le : (name : Name) (i m : ℕ) (ns : List Name) → find_port name i ns ≡ some m → i ≤ m
unfolding find_port
find_port-le name i m [] h = cc
find_port-le name i m (n ∷ ns) h = ground (arith, find_port-le name (suc i) m ns)

find_port-name :
    (name : Name) (i k : ℕ) (ns : List Name)
    → find_port name i ns ≡ some (i + k)
    → get_or ns k [] ≡ name
unfolding find_port
find_port-name name i k [] h = cc
find_port-name name i zero (n ∷ ns) h = elim (Bool-cases (same_text name n)) [
  | inl same ↦ sym (same_text→≡ name n same)
  | inr k ↦ ground (arith, find_port-le name (suc i) i ns, k)
]
find_port-name name i (suc k) (n ∷ ns) h = ground (arith, find_port-name name (suc i) k ns)

same_place :
    (ns : List Name) (n1 n2 : Name) (k1 k2 : ℕ)
    → Opened ns n1 k1
    → Opened ns n2 k2
    → k1 ≡ k2
    → n1 ≡ n2
same_place ns n1 n2 k1 k2 one two e =
    sym (find_port-name n1 0 k1 ns (one ∙ ap some (omega arith)))
    ∙ find_port-name n2 0 k1 ns (two ∙ ap some (omega arith))

one_place :
    (ns : List Name) (n1 n2 : Name) (k1 k2 : ℕ)
    → Opened ns n1 k1
    → Opened ns n2 k2
    → n1 ≡ n2
    → k1 ≡ k2
one_place ns n1 n2 k1 k2 one two e = cc (one, two, e)

nothing_new :
    (ns ms : List Name) (n1 n2 : Name) (k1 k2 : ℕ)
    → Opened ns n1 k1
    → get_handler ns n2 ≡ some (ms, k2)
    → n1 ≡ n2
    → ms ≡ ns
nothing_new ns ms n1 n2 k1 k2 held second e = cc (get_handler_again ns n1 k1 held, second, e)

named_apart : (n1 n2 : Name) → same_text n1 n2 ≡ false → n1 ≢ n2
named_apart n1 n2 k e = cc (same_text_refl n1, k, e)

-- A request for a port, any requests of the same kind after it that do not fill the array, and
-- another request: the two give the same handler exactly if they name the same port, and the second
-- of them opens no port then.
pub port_handlers :
    (o1 o2 o3 o4 between : List Name) (n1 n2 : Name) (k1 k2 : ℕ)
    → get_handler o1 n1 ≡ some (o2, k1)
    → after_requests o2 between ≡ some o3
    → get_handler o3 n2 ≡ some (o4, k2)
    → ((k1 ≡ k2) ↔ (n1 ≡ n2)) × ((n1 ≢ n2) ⊎ (o4 ≡ o3))
port_handlers o1 o2 o3 o4 between n1 n2 k1 k2 first after second =
    let held =
      Opened-after_requests o2 o3 between n1 k1 (get_handler-Opened o1 o2 n1 k1 first) after in
    let one = Opened-get_handler o3 o4 n1 n2 k1 k2 held second in
    let two = get_handler-Opened o3 o4 n2 k2 second in
    (
      (λ e. same_place o4 n1 n2 k1 k2 one two e, λ e. one_place o4 n1 n2 k1 k2 one two e),
      elim (Bool-cases (same_text n1 n2)) [
        | inl same ↦ inr (nothing_new o3 o4 n1 n2 k1 k2 held second (same_text→≡ n1 n2 same))
        | inr k ↦ inl (named_apart n1 n2 k)
      ],
    )
