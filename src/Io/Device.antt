-- ===== src/Io/Device.antt =====
-- The block I/O of cmfs-tools/libcmfs/unix_io.c without the cache: `unix_io_read_block` and
-- `unix_io_write_block_full` over `pread64` and `pwrite64`.
pub mod Bytes
pub mod Read
pub mod Write
use cmfs.Prelude.{
  ℕ, zero, suc, ◌+◌, ◌-◌, ◌*◌, ◌/◌, ◌%◌, ◌^◌, min, Bool, true, false, not, ◌&&◌, Option, none, some,
  List, [], ◌∷◌, ◌++◌, ltb, leb, ◌==◌, if◌then◌else◌, length, get_or, take, drop, replicate,
}
use cmfs.Prelude.Fault.{◌>>=◌}
use cmfs.Err.{io, short_read, short_write, Result, ok, err, ◌>>◌}

-- What a system call returns: -1 with an `errno`, or a number of bytes.
pub data Reply : Type 0 where
  failed : ℕ → Reply
  moved : ℕ → Reply

-- `io_channel`, with the device behind its file descriptor: the bytes of the disk, and how the
-- next system calls will end. After these, calls transfer all that they are asked for.
pub record Channel : Type 0 where
  pub io_blksize : ℕ
  pub io_error : ℕ
  pub io_nocache : Bool
  pub io_bytes_read : ℕ
  pub io_bytes_written : ℕ
  pub disk : ℕ → ℕ
  pub replies : List Reply

-- `n` bytes of the disk.
unfoldable pub bytes_at : (ℕ → ℕ) → ℕ → ℕ → List ℕ
bytes_at disk location zero = []
bytes_at disk location (suc n) = disk location ∷ bytes_at disk (location + 1) n

-- The disk with bytes written.
unfoldable pub store : (ℕ → ℕ) → ℕ → List ℕ → ℕ → ℕ
store disk location bytes a =
    if leb location a && ltb a (location + length bytes)
    then get_or bytes (a - location) 0
    else disk a

-- A call never transfers more than it is asked for.
abbrev pub clip : ℕ → Reply → Reply
clip want (failed e) = failed e
clip want (moved n) = moved (min n want)

unfoldable pub next_reply : ℕ → List Reply → Reply × List Reply
next_reply want [] = (moved want, [])
next_reply want (r ∷ rs) = (clip want r, rs)

-- The loop over `pread64`: the error code, the bytes that were read (`tot` is their number), and
-- the channel.
unfoldable pub read_loop :
    ℕ → ℕ → ℕ → List ℕ → Channel → Option (Result (Unit {0}) × List ℕ × Channel)
unfolding bytes_at next_reply
read_loop zero size location got ch = none
read_loop (suc fuel) size location got ch =
    let tot = length got in
    let (reply, rest) = next_reply (size - tot) ch.replies in
    let ch' = record ch { replies = rest } in
    elim (ltb tot size) [
      | false ↦ some (ok tt, got, ch)
      | true ↦ elim reply [
        | failed e ↦ some (err io, got, record ch' { io_error = e })
        | moved n ↦ elim (n == 0) [
          | true ↦ some (err io, got, ch')
          | false ↦ read_loop fuel size location (got ++ bytes_at ch.disk (location + tot) n) ch'
        ]
      ]
    ]

-- A `count` argument: a negative one is a number of bytes.
pub data Count : Type 0 where
  blocks : ℕ → Count
  in_bytes : ℕ → Count

-- The size in bytes. The product is an `int`, and `none` where it does not fit one.
abbrev pub size_of : ℕ → Count → Option ℕ
size_of blksize (blocks n) = if ltb (n * blksize) (2 ^ 31) then some (n * blksize) else none
size_of blksize (in_bytes n) = some n

-- Where a block lies on the device. The product is an `int64_t`, and `none` where it does not fit one.
-- Block numbers from 2^63 on, which are negative as an `int64_t`, are left out with it.
abbrev pub location_of : ℕ → ℕ → Option ℕ
location_of blksize blkno = if ltb (blkno * blksize) (2 ^ 63) then some (blkno * blksize) else none

-- What follows the loop: a short read, which fills up with zeros, and the statistics.
abbrev pub read_end :
    ℕ → List ℕ → Result (Unit {0}) × List ℕ × Channel → Result (Unit {0}) × List ℕ × Channel
read_end size buf (ok _, got, ch) = (
  if length got == size then ok tt else err short_read,
  got ++ (if length got == size then drop size buf else replicate (size - length got) 0),
  record ch { io_bytes_read = (ch.io_bytes_read + length got) % 2 ^ 64 },
)
read_end size buf (err e, got, ch) = (
  err e,
  got ++ drop (length got) buf,
  record ch { io_bytes_read = (ch.io_bytes_read + length got) % 2 ^ 64 },
)

-- The error code, `data` and the channel. Each round of the loop moves a byte, so it ends within
-- `size + 1` rounds.
unfoldable pub unix_io_read_block :
    Channel → ℕ → Count → List ℕ → Option (Result (Unit {0}) × List ℕ × Channel)
unfolding read_loop bytes_at next_reply
unix_io_read_block ch blkno count buf = do
  size ← size_of ch.io_blksize count
  location ← location_of ch.io_blksize blkno
  r ← read_loop (size + 1) size location [] ch
  some (read_end size buf r)

-- The loop over `pwrite64`: the error code, `tot` and the channel.
unfoldable pub write_loop :
    ℕ → ℕ → ℕ → List ℕ → ℕ → Channel → Option (Result (Unit {0}) × ℕ × Channel)
unfolding store next_reply
write_loop zero size location buf tot ch = none
write_loop (suc fuel) size location buf tot ch =
    let (reply, rest) = next_reply (size - tot) ch.replies in
    let ch' = record ch { replies = rest } in
    elim (ltb tot size) [
      | false ↦ some (ok tt, tot, ch)
      | true ↦ elim reply [
        | failed e ↦ some (err io, tot, record ch' { io_error = e })
        | moved n ↦ elim (n == 0) [
          | true ↦ some (err io, tot, ch')
          | false ↦
              write_loop fuel size location buf (tot + n)
                (record ch' { disk = store ch.disk (location + tot) (take n (drop tot buf)) })
        ]
      ]
    ]

abbrev pub write_end : ℕ → Result (Unit {0}) × ℕ × Channel → Result (Unit {0}) × ℕ × Channel
write_end size (ret, tot, ch) = (
  ret >> (if tot == size then ok tt else err short_write),
  tot / ch.io_blksize,
  record ch { io_bytes_written = (ch.io_bytes_written + tot) % 2 ^ 64 },
)

-- The error code, `*completed` and the channel.
unfoldable pub unix_io_write_block_full :
    Channel → ℕ → Count → List ℕ → Option (Result (Unit {0}) × ℕ × Channel)
unfolding write_loop store next_reply
unix_io_write_block_full ch blkno count buf = do
  size ← size_of ch.io_blksize count
  location ← location_of ch.io_blksize blkno
  r ← write_loop (size + 1) size location buf 0 ch
  some (write_end size r)

unfoldable pub unix_io_write_block :
    Channel → ℕ → Count → List ℕ → Option (Result (Unit {0}) × Channel)
unfolding unix_io_write_block_full
unix_io_write_block ch blkno count buf = do
  r ← unix_io_write_block_full ch blkno count buf
  some (r.0, r.2)
