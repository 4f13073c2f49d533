-- ===== src/Message.antt =====
-- message.go: messages, their reference counts, and the cache of message buffers.
-- A `Message` is the content that the program's pointer leads to. The reference count and the buffer
-- are shared by all the pointers to a message, so they stand apart, in `Counted`.
pub mod Pools
use mangos_v.Prelude.{
  ℕ, ◌+◌, ◌-◌, ◌%◌, ◌^◌, Bool, false, Option, none, some, List, [], ◌∷◌, ◌++◌, ltb, leb, ◌==◌,
  if◌then◌else◌,
}
use mangos_v.Prelude.Bytes.{Bytes, Slice, slice, bytes}

pub record Message : Type 0 where
  pub header : Slice
  pub body : Bytes
  pub port : Option ℕ  -- the pipe that it came in by
  pub expire : Option ℕ  -- the zero time is `none`

pub record Counted : Type 0 where
  pub msg : Message
  pub bsize : ℕ  -- the capacity of the body's buffer
  pub refcnt : ℕ  -- int32, as a bit pattern

-- `newMsg`.
unfoldable pub new_msg : ℕ → Counted
new_msg sz = record {
  msg = record { header = slice []; body = []; port = none; expire = none };
  bsize = sz;
  refcnt = 0;
}

-- One entry of `messageCache`: the messages that its pool holds.
pub record Shelf : Type 0 where
  pub maxbody : ℕ
  pub pool : List Counted

abbrev pub Cache : Type 0
Cache = List Shelf

abbrev empty_shelf : ℕ → Shelf
empty_shelf n = record { maxbody = n; pool = [] }

unfoldable pub message_cache : Cache
message_cache =
    empty_shelf 64
    ∷ empty_shelf 128
    ∷ empty_shelf 256
    ∷ empty_shelf 512
    ∷ empty_shelf 1024
    ∷ empty_shelf 4096
    ∷ empty_shelf 8192
    ∷ empty_shelf 65536
    ∷ []

-- `pool.Get`: a pooled message, or what `New` makes.
unfoldable pub get : Shelf → Counted × Shelf
get s = elim s.pool [ [] ↦ (new_msg s.maxbody, s) | m ∷ rest ↦ (m, record s { pool = rest }) ]

-- The loop of `NewMessage`: the first entry that is larger than `sz`.
unfoldable pub take_cached : ℕ → Cache → Option Counted × Cache
unfolding get
take_cached sz [] = (none, [])
take_cached sz (s ∷ cache) =
    let later = take_cached sz cache in
    if ltb sz s.maxbody then (some (get s).0, (get s).1 ∷ cache) else (later.0, s ∷ later.1)

-- The reset of `NewMessage`: one reference, an empty body and an empty header, neither nil.
-- `expire` and `Port` keep what an earlier use of the buffer left there.
abbrev renew : Counted → Counted
renew c = let m = c.msg in record c { msg = record m { header = slice []; body = [] }; refcnt = 1 }

unfoldable pub new_message : ℕ → Cache → Counted × Cache
unfolding take_cached new_msg
new_message sz cache =
    let (found, cache') = take_cached sz cache in
    (elim found [ none ↦ renew (new_msg sz) | some c ↦ renew c ], cache')

-- The loop of `Free` over the cache.
unfoldable pub shelve : Counted → Cache → Cache
shelve c [] = []
shelve c (s ∷ cache) =
    if c.bsize == s.maxbody then record s { pool = c ∷ s.pool } ∷ cache else s ∷ shelve c cache

-- `v > 0` for an int32 bit pattern.
abbrev pub is_positive : ℕ → Bool
is_positive v = if v == 0 then false else ltb v (2 ^ 31)

-- `atomic.AddInt32(&m.refcnt, -1)` and `(…, 1)`.
unfoldable pub release : Counted → Counted
release c = record c { refcnt = (c.refcnt + (2 ^ 32 - 1)) % 2 ^ 32 }

unfoldable pub dup : Counted → Counted
dup c = record c { refcnt = (c.refcnt + 1) % 2 ^ 32 }

unfoldable pub free : Counted → Cache → Counted × Cache
unfolding release shelve
free c cache = let c' = release c in (c', if is_positive c'.refcnt then cache else shelve c' cache)

-- `Expired`, at the time `now`.
unfoldable pub expired : ℕ → Message → Bool
expired now m = elim m.expire [ none ↦ false | some at ↦ leb at now ]

-- What a transport makes of the bytes that a peer sent: a message that holds them in its body.
unfoldable pub fresh : Bytes → Message
fresh b = record { header = slice []; body = b; port = none; expire = none }

-- What a transport sends of a message: its header, then its body.
unfoldable pub wire : Message → Bytes
wire m = bytes m.header ++ m.body
