-- ===== src/Message/HeaderLaws.antt =====
-- Typed headers that are put are read back.
use channel.Base.{ℕ, ◌<◌, ◌^◌, ◌≡◌, ◌≢◌, refl, ap, arith, true}
use channel.Base.Bytes.{put_le, get_le-put_le, length-put_le}
use channel.Base.Maps.{nat_eq, lookup-insert_self, lookup-insert_ne}
use channel.Message.{Headers}
use channel.Message.Headers.{put_uint64_header, get_uint64_header}

pub get_uint64-put :
    (key v : ℕ) (h : Headers)
    → v < 2 ^ 64
    → get_uint64_header key (put_uint64_header key v h) ≡ (v, true)
unfolding get_uint64_header put_uint64_header
get_uint64-put key v h small =
    rw (get_uint64_header, lookup-insert_self key (put_le 8 v) h, length-put_le 8 v)
      (ap (λ (k : ℕ). (k, true)) (get_le-put_le 8 v (omega (arith, small))))

pub get_uint64-put_ne :
    (key other v : ℕ) (h : Headers)
    → other ≢ key
    → get_uint64_header key (put_uint64_header other v h) ≡ get_uint64_header key h
unfolding get_uint64_header put_uint64_header
get_uint64-put_ne key other v h differ =
    rw (get_uint64_header, lookup-insert_ne other key (put_le 8 v) h differ) refl
