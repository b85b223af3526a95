-- ===== src/Io.antt =====
-- The io.Reader that message.go reads from, and what it uses of package io: ReadAtLeast, ReadFull
-- and MultiReader. A stream arrives in chunks: one Read delivers one chunk, or as much of it as the
-- buffer takes. When the chunks are used up, Read returns the reader's error.
pub mod Segments
use channel.Base.{
  ℕ, ◌+◌, ◌-◌, ◌++◌, List, [], ◌∷◌, Bool, true, false, if◌then◌else◌, leb, ltb, length, take, drop,
  Result, ok, err,
}
use channel.Base.Bytes.{Bytes}

pub data IoError : Type 0 where
  eof unexpected_eof : IoError
  broken : ℕ → IoError

pub record Reader : Type 0 where
  pub chunks : List Bytes
  pub fate : IoError

-- All that is still to come.
unfoldable pub flatten : List Bytes → Bytes
flatten [] = []
flatten (c ∷ cs) = c ++ flatten cs

unfoldable pub contents : Reader → Bytes
unfolding flatten
contents r = flatten r.chunks

-- A stream that ends behind some bytes ends unexpectedly.
unfoldable pub short_read : Bytes → IoError → IoError
short_read (b ∷ bs) eof = unexpected_eof
short_read got fate = fate

-- The loop of ReadAtLeast, with `got` the filled part of a buffer of `size` bytes.
unfoldable pub read_loop : ℕ → ℕ → Bytes → List Bytes → IoError → Result IoError (Bytes × Reader)
unfolding short_read
read_loop need size got [] fate =
    if leb need (length got)
    then ok (got, record { chunks = []; fate = fate })
    else err (short_read got fate)
read_loop need size got (c ∷ cs) fate =
    let more = read_loop need size (got ++ c) cs fate in
    let room = size - length got in
    if leb need (length got)
    then ok (got, record { chunks = c ∷ cs; fate = fate })
    else if ltb room (length c)
    then ok (got ++ take room c, record { chunks = drop room c ∷ cs; fate = fate })
    else more

-- `io.ReadAtLeast(r, make([]byte, size), need)`, for `need` at most `size`.
unfoldable pub read_at_least : ℕ → ℕ → Reader → Result IoError (Bytes × Reader)
unfolding read_loop
read_at_least need size r = read_loop need size [] r.chunks r.fate

-- `io.ReadFull(r, make([]byte, n))`
unfoldable pub read_full : ℕ → Reader → Result IoError (Bytes × Reader)
unfolding read_at_least
read_full n r = read_at_least n n r

-- `io.MultiReader(bytes.NewReader(initial), r)`
unfoldable pub multi_reader : Bytes → Reader → Reader
multi_reader initial r = record r { chunks = initial ∷ r.chunks }
