-- ===== src/Waiters/Laws.antt =====
-- The size counter of the waiter map, who is found by which sequence, and what reaping removes.
use channel.Base.{
  ℕ, ◌+◌, ◌%◌, ◌≡◌, refl, ◌∙◌, arith, [], ◌∷◌, Option, none, some, if◌then◌else◌, ltb, length,
  Option-cases, inl, inr,
}
use channel.Base.Bytes.{u32_mod}
use channel.Base.Maps.{
  Map, lookup, insert, delete, nat_eq, Distinct, insert-Distinct, delete-Distinct, length-insert,
  length-delete,
}
use channel.Waiters.{
  Waiter, WaiterMap, waiter_ttl, add_waiter, remove_waiter, live_waiters, expired_count,
  reap_expired, clear,
}

-- Keys are distinct, and the counter is the number of waiters, modulo 2 ^ 32.
pub record Counts (w : WaiterMap) : Type 0 where
  pub distinct : Distinct w.m
  pub exact : w.size ≡ length w.m % u32_mod

pub add_waiter-Counts :
    (o deadline : Option ℕ) (now seq : ℕ) (w : WaiterMap)
    → Counts w
    → lookup seq w.m ≡ none
    → Counts (add_waiter o deadline now seq w)
unfolding add_waiter
add_waiter-Counts none deadline now seq w c free = c
add_waiter-Counts (some receiver) deadline now seq w c free =
    let new : Waiter = record { reply_receiver = receiver; ttl_ms = waiter_ttl deadline now } in
    let grows : length (insert seq new w.m) ≡ length w.m + 1 =
      length-insert seq new w.m ∙ rw free in
    record {
      distinct = insert-Distinct seq new w.m c.distinct;
      exact = omega (arith, grows, c.exact);
    }

-- A second waiter under a sequence that still waits, in a map whose counter is exact, is counted all
-- the same though it replaces the first: the counter is then one more than the number of waiters.
pub add_waiter_twice :
    (receiver : ℕ) (deadline : Option ℕ) (now seq : ℕ) (w : WaiterMap) (old : Waiter)
    → Counts w
    → lookup seq w.m ≡ some old
    → (add_waiter (some receiver) deadline now seq w).size
      ≡ (length (add_waiter (some receiver) deadline now seq w).m + 1) % u32_mod
unfolding add_waiter
add_waiter_twice receiver deadline now seq w old c found =
    let new : Waiter = record { reply_receiver = receiver; ttl_ms = waiter_ttl deadline now } in
    let same : length (insert seq new w.m) ≡ length w.m + 0 =
      length-insert seq new w.m ∙ rw found in
    omega (arith, same, c.exact)

pub remove_waiter-Counts : (seq : ℕ) (w : WaiterMap) → Counts w → Counts (remove_waiter seq w).0
unfolding remove_waiter
remove_waiter-Counts seq w c = elim (Option-cases (lookup seq w.m)) [
  | inl missing ↦ rw missing c
  | inr (old, found) ↦
      let shrinks : length (delete seq w.m) + 1 ≡ length w.m =
        rw found at (length-delete seq w.m c.distinct) in
      rw found (record {
        distinct = delete-Distinct seq w.m c.distinct;
        exact = omega (arith, shrinks, c.exact);
      })
]

lookup-live_waiters :
    (now k : ℕ) (m : Map ℕ Waiter) → lookup k m ≡ none → lookup k (live_waiters now m) ≡ none
unfolding live_waiters lookup
lookup-live_waiters now k [] h = refl
lookup-live_waiters now k ((j, w) ∷ m) h = ground (arith, lookup-live_waiters now k m)

live_waiters-Distinct : (now : ℕ) (m : Map ℕ Waiter) → Distinct m → Distinct (live_waiters now m)
unfolding live_waiters
live_waiters-Distinct now [] d = tt
live_waiters-Distinct now ((k, w) ∷ m) d =
    ground (arith, live_waiters-Distinct now m d.1, lookup-live_waiters now k m d.0)

length-live_waiters :
    (now : ℕ) (m : Map ℕ Waiter) → length (live_waiters now m) + expired_count now m ≡ length m
unfolding live_waiters expired_count
length-live_waiters now [] = refl
length-live_waiters now ((k, w) ∷ m) = ground (arith, length-live_waiters now m)

pub reap_expired-Counts : (now : ℕ) (w : WaiterMap) → Counts w → Counts (reap_expired now w)
unfolding reap_expired
reap_expired-Counts now w c = record {
  distinct = live_waiters-Distinct now w.m c.distinct;
  exact = omega (arith, length-live_waiters now w.m, c.exact);
}

pub clear-Counts : (w : WaiterMap) → Counts (clear w)
unfolding clear
clear-Counts w = record { distinct = tt; exact = refl }

-- What a reap leaves at a sequence: its waiter, unless that has expired.
unfoldable pub unexpired : ℕ → Option Waiter → Option Waiter
unexpired now none = none
unexpired now (some w) = if ltb w.ttl_ms now then none else some w

lookup-live_waiters-Distinct :
    (now k : ℕ) (m : Map ℕ Waiter)
    → Distinct m
    → lookup k (live_waiters now m) ≡ unexpired now (lookup k m)
unfolding live_waiters lookup unexpired
lookup-live_waiters-Distinct now k [] d = refl
lookup-live_waiters-Distinct now k ((j, w) ∷ m) d =
    ground (arith, d.0, lookup-live_waiters now k m, lookup-live_waiters-Distinct now k m d.1)

-- After a reap of a map with distinct keys, exactly the waiters that have not expired are found, and
-- those are unchanged.
pub lookup-reap_expired :
    (now k : ℕ) (w : WaiterMap)
    → Distinct w.m
    → lookup k (reap_expired now w).m ≡ unexpired now (lookup k w.m)
unfolding reap_expired
lookup-reap_expired now k w distinct = lookup-live_waiters-Distinct now k w.m distinct
