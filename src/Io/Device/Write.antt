-- ===== src/Io/Device/Write.antt =====
-- `unix_io_write_block_full`: it ends, and what it writes.
use cmfs.Prelude.{
  ℕ, zero, suc, ◌+◌, ◌-◌, ◌*◌, ◌/◌, ◌%◌, ◌^◌, ◌<◌, ◌≤◌, true, ◌≡◌, refl, sym, ◌∙◌, ap, ◌⊎◌, inl,
  inr, arith, some, List, ltb, ◌==◌, Bool-cases, length, take, drop,
}
use cmfs.Err.{io, Result, ok, err}
use cmfs.Io.Device.{
  Channel, store, next_reply, write_loop, write_end, Count, size_of, unix_io_write_block_full,
}
use cmfs.Io.Device.Bytes.{next_reply-cases, store-store, store-nothing}

-- A write of `size` bytes at `location`: the first `tot` bytes of the buffer are on the disk, which
-- is unchanged elsewhere, and it succeeds exactly when all were moved.
pub record IsWrite (ch : Channel) (location size : ℕ) (buf : List ℕ) (ret : Result (Unit {0}))
    (completed : ℕ) (ch' : Channel) : Type 0 where
  pub tot : ℕ
  pub contents : (a : ℕ) → ch'.disk a ≡ store ch.disk location (take tot buf) a
  pub outcome : ((ret ≡ ok tt) × (tot ≡ size)) ⊎ ((ret ≡ err io) × (tot < size))
  pub blocks_done : completed ≡ tot / ch.io_blksize
  pub same_blksize : ch'.io_blksize ≡ ch.io_blksize
  pub same_nocache : ch'.io_nocache ≡ ch.io_nocache
  pub counted : ch'.io_bytes_written ≡ (ch.io_bytes_written + tot) % 2 ^ 64

-- What the loop leaves, from the channel `start` on.
record IsLoop (start : Channel) (location size : ℕ) (buf : List ℕ) (ret : Result (Unit {0}))
    (tot : ℕ) (ch' : Channel) : Type 0 where
  contents : (a : ℕ) → ch'.disk a ≡ store start.disk location (take tot buf) a
  outcome : ((ret ≡ ok tt) × (tot ≡ size)) ⊎ ((ret ≡ err io) × (tot < size))
  same_blksize : ch'.io_blksize ≡ start.io_blksize
  same_nocache : ch'.io_nocache ≡ start.io_nocache
  same_bytes_written : ch'.io_bytes_written ≡ start.io_bytes_written

-- What holds on the way: the bytes up to `tot` are written.
record Writes (start : Channel) (location : ℕ) (buf : List ℕ) (tot : ℕ) (ch : Channel)
    : Type 0 where
  contents : (a : ℕ) → ch.disk a ≡ store start.disk location (take tot buf) a
  same_blksize : ch.io_blksize ≡ start.io_blksize
  same_nocache : ch.io_nocache ≡ start.io_nocache
  same_bytes_written : ch.io_bytes_written ≡ start.io_bytes_written

module _ (start : Channel) (location size : ℕ) (buf : List ℕ) (long : size ≤ length buf) where
  stops :
      (ret : Result (Unit {0})) (tot : ℕ) (ch ch' : Channel)
      → Writes start location buf tot ch
      → ((ret ≡ ok tt) × (tot ≡ size)) ⊎ ((ret ≡ err io) × (tot < size))
      → ch'.disk ≡ ch.disk
      → ch'.io_blksize ≡ ch.io_blksize
      → ch'.io_nocache ≡ ch.io_nocache
      → ch'.io_bytes_written ≡ ch.io_bytes_written
      → IsLoop start location size buf ret tot ch'
  stops ret tot ch ch' w outcome d b n c = record {
    contents = λ a. ap (λ (f : ℕ → ℕ). f a) d ∙ w.contents a;
    outcome = outcome;
    same_blksize = b ∙ w.same_blksize;
    same_nocache = n ∙ w.same_nocache;
    same_bytes_written = c ∙ w.same_bytes_written;
  }

  write_loop_lem :
      (fuel tot : ℕ) (ch : Channel)
      → Writes start location buf tot ch
      → tot ≤ size
      → size - tot < fuel
      → (ret : Result (Unit {0})) × (tot' : ℕ) × (ch' : Channel) × (write_loop fuel size location
            buf tot ch
          ≡ some (ret, tot', ch'))
        × IsLoop start location size buf ret tot' ch'
  unfolding write_loop
  write_loop_lem zero tot ch w inside enough = absurd (omega arith)
  write_loop_lem (suc fuel) tot ch w inside enough =
      let ch' = record ch { replies = (next_reply (size - tot) ch.replies).1 } in
      elim (Bool-cases (ltb tot size)) [
        | inr done ↦ (
          ok tt,
          tot,
          ch,
          rw (done, write_loop) refl,
          stops (ok tt) tot ch ch w (inl (refl, ground arith)) refl refl refl refl,
        )
        | inl more ↦ elim (next_reply-cases (size - tot) ch.replies) [
          | inl (e, is_failed) ↦ (
            err io,
            tot,
            record ch' { io_error = e },
            rw (more, is_failed, write_loop) refl,
            stops (err io) tot ch (record ch' { io_error = e }) w (inr (refl, ground arith)) refl
                refl refl refl,
          )
          | inr (n, le, is_moved) ↦ elim (Bool-cases (n == 0)) [
            | inl nothing ↦ (
              err io,
              tot,
              ch',
              rw (more, is_moved, nothing, write_loop) refl,
              stops (err io) tot ch ch' w (inr (refl, ground arith)) refl refl refl refl,
            )
            | inr some_bytes ↦
                let next = record ch' {
                  disk = store ch.disk (location + tot) (take n (drop tot buf));
                } in
                let (ret, out, last, e, r) =
                  write_loop_lem fuel (tot + n) next
                    (record {
                      contents = λ a.
                          store-store start.disk ch.disk location tot n buf a (ground arith)
                            (w.contents a);
                      same_blksize = w.same_blksize;
                      same_nocache = w.same_nocache;
                      same_bytes_written = w.same_bytes_written;
                    })
                    (ground arith) (ground arith) in
                (ret, out, last, rw (more, is_moved, some_bytes, write_loop) e, r)
          ]
        ]
      ]

write_end-IsWrite :
    (ch : Channel) (location size : ℕ) (buf : List ℕ) (ret : Result (Unit {0})) (tot : ℕ)
    (ch' : Channel)
    → IsLoop ch location size buf ret tot ch'
    → (ch'' : Channel) × (write_end size (ret, tot, ch') ≡ (ret, tot / ch.io_blksize, ch''))
      × IsWrite ch location size buf ret (tot / ch.io_blksize) ch''
write_end-IsWrite ch location size buf ret tot ch' r = (
  record ch' { io_bytes_written = (ch'.io_bytes_written + tot) % 2 ^ 64 },
  elim r.outcome [
    | inl (is_ok, all) ↦
        let same : (tot == size) ≡ true = ground arith in rw (is_ok, same, r.same_blksize) refl
    | inr (is_err, lt) ↦ rw (is_err, r.same_blksize) refl
  ],
  record {
    tot = tot;
    contents = r.contents;
    outcome = r.outcome;
    blocks_done = refl;
    same_blksize = r.same_blksize;
    same_nocache = r.same_nocache;
    counted = rw r.same_bytes_written refl;
  },
)

-- With an `int` for its size, a buffer that holds as much and a range that ends below byte 2^63 of the
-- device, the write ends; its loop takes short transfers and stops at an error or where nothing is
-- taken. `CMFS_ET_SHORT_WRITE` is never returned.
pub unix_io_write_block_full-IsWrite :
    (ch : Channel) (blkno : ℕ) (count : Count) (buf : List ℕ) (size : ℕ)
    → size_of ch.io_blksize count ≡ some size
    → blkno * ch.io_blksize + size < 2 ^ 63
    → size ≤ length buf
    → (ret : Result (Unit {0})) × (completed : ℕ) × (ch' : Channel) × (unix_io_write_block_full ch
          blkno count buf
        ≡ some (ret, completed, ch'))
      × IsWrite ch (blkno * ch.io_blksize) size buf ret completed ch'
unfolding unix_io_write_block_full
unix_io_write_block_full-IsWrite ch blkno count buf size h inside long =
    let in_int64 : ltb (blkno * ch.io_blksize) (2 ^ 63) ≡ true = ground arith in
    let location = blkno * ch.io_blksize in
    let start : Writes ch location buf 0 ch = record {
      contents = λ a. sym (store-nothing ch.disk location a);
      same_blksize = refl;
      same_nocache = refl;
      same_bytes_written = refl;
    } in
    let (ret, tot, last, e, r) =
      write_loop_lem ch location size buf long (size + 1) 0 ch start (omega arith) (omega arith) in
    let (done, ends, r') = write_end-IsWrite ch location size buf ret tot last r in
    (ret, tot / ch.io_blksize, done, rw (h, in_int64, e) (ap some ends), r')
