-- ===== src/Waiters.antt =====
-- impl.go: `waiterMap`, the reply receivers that wait by sequence number, and its separate size
-- counter, an int32 kept as its bit pattern. Receivers are named by numbers; times are milliseconds.
pub mod Laws
use channel.Base.{
  ℕ, ◌+◌, ◌-◌, ◌%◌, List, [], ◌∷◌, Bool, Option, none, some, if◌then◌else◌, ltb, length,
}
use channel.Base.Bytes.{u32_mod}
use channel.Base.Maps.{Map, lookup, insert, delete, nat_eq}

pub record Waiter : Type 0 where
  pub reply_receiver : ℕ
  pub ttl_ms : ℕ

pub record WaiterMap : Type 0 where
  pub m : Map ℕ Waiter
  pub size : ℕ

unfoldable pub no_waiters : WaiterMap
no_waiters = record { m = []; size = 0 }

abbrev pub default_ttl_ms : ℕ
default_ttl_ms = 30000

-- The deadline of the sendable's context, or 30 seconds from now.
unfoldable pub waiter_ttl : Option ℕ → ℕ → ℕ
waiter_ttl (some deadline) now = deadline
waiter_ttl none now = now + default_ttl_ms

-- `AddWaiter`, for a sendable of sequence `seq` with a reply receiver or none.
unfoldable pub add_waiter : Option ℕ → Option ℕ → ℕ → ℕ → WaiterMap → WaiterMap
unfolding waiter_ttl
add_waiter none deadline now seq w = w
add_waiter (some receiver) deadline now seq w = record {
  m = insert seq (record { reply_receiver = receiver; ttl_ms = waiter_ttl deadline now }) w.m;
  size = (w.size + 1) % u32_mod;
}

unfoldable pub drop_found : Option Waiter → ℕ → WaiterMap → WaiterMap × Option ℕ
drop_found none seq w = (w, none)
drop_found (some found) seq w = (
  record { m = delete seq w.m; size = (w.size + (u32_mod - 1)) % u32_mod },
  some found.reply_receiver,
)

-- `RemoveWaiter`: the map without the waiter, and its receiver.
unfoldable pub remove_waiter : ℕ → WaiterMap → WaiterMap × Option ℕ
unfolding drop_found
remove_waiter seq w = drop_found (lookup seq w.m) seq w

unfoldable pub live_waiters : ℕ → Map ℕ Waiter → Map ℕ Waiter
live_waiters now [] = []
live_waiters now ((k, w) ∷ m) =
    if ltb w.ttl_ms now then live_waiters now m else (k, w) ∷ live_waiters now m

unfoldable pub expired_count : ℕ → Map ℕ Waiter → ℕ
expired_count now [] = 0
expired_count now ((k, w) ∷ m) = (if ltb w.ttl_ms now then 1 else 0) + expired_count now m

-- `reapExpired`. Every value of the map is a waiter, so its other branch is not reached.
unfoldable pub reap_expired : ℕ → WaiterMap → WaiterMap
unfolding live_waiters expired_count
reap_expired now w = record {
  m = live_waiters now w.m;
  size = (w.size + (u32_mod - expired_count now w.m % u32_mod)) % u32_mod;
}

unfoldable pub clear : WaiterMap → WaiterMap
clear w = record { m = []; size = 0 }
