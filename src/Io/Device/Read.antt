-- ===== src/Io/Device/Read.antt =====
-- `unix_io_read_block`: it ends, and what it reads.
use cmfs.Prelude.{
  ℕ, zero, suc, ◌+◌, ◌-◌, ◌*◌, ◌%◌, ◌^◌, ◌<◌, ◌≤◌, true, ◌≡◌, refl, sym, ◌∙◌, ap, ◌⊎◌, inl, inr,
  arith, some, List, [], ◌++◌, ltb, ◌==◌, Bool-cases, length, drop, length-append,
}
use cmfs.Err.{io, Result, ok, err}
use cmfs.Io.Device.{
  Channel, bytes_at, next_reply, read_loop, read_end, Count, size_of, unix_io_read_block,
}
use cmfs.Io.Device.Bytes.{length-bytes_at, bytes_at-append, next_reply-cases}

-- A read of `size` bytes at `location`: the `tot` bytes it moved are the disk's, the rest of the
-- buffer is as it was, and it succeeds exactly when all were moved.
pub record IsRead (ch : Channel) (location size : ℕ) (buf : List ℕ) (ret : Result (Unit {0}))
    (data' : List ℕ) (ch' : Channel) : Type 0 where
  pub tot : ℕ
  pub contents : data' ≡ bytes_at ch.disk location tot ++ drop tot buf
  pub outcome : ((ret ≡ ok tt) × (tot ≡ size)) ⊎ ((ret ≡ err io) × (tot < size))
  pub same_disk : ch'.disk ≡ ch.disk
  pub same_blksize : ch'.io_blksize ≡ ch.io_blksize
  pub same_nocache : ch'.io_nocache ≡ ch.io_nocache
  pub counted : ch'.io_bytes_read ≡ (ch.io_bytes_read + tot) % 2 ^ 64

-- What the loop leaves.
record IsLoop (ch : Channel) (location size : ℕ) (ret : Result (Unit {0})) (got : List ℕ)
    (ch' : Channel) : Type 0 where
  contents : got ≡ bytes_at ch.disk location (length got)
  outcome : ((ret ≡ ok tt) × (length got ≡ size)) ⊎ ((ret ≡ err io) × (length got < size))
  same_disk : ch'.disk ≡ ch.disk
  same_blksize : ch'.io_blksize ≡ ch.io_blksize
  same_nocache : ch'.io_nocache ≡ ch.io_nocache
  same_bytes_read : ch'.io_bytes_read ≡ ch.io_bytes_read

more-bytes :
    (ch : Channel) (location n : ℕ) (got : List ℕ)
    → got ≡ bytes_at ch.disk location (length got)
    → (length (got ++ bytes_at ch.disk (location + length got) n) ≡ length got + n)
      × (got ++ bytes_at ch.disk (location + length got) n
          ≡ bytes_at ch.disk location (length (got ++ bytes_at ch.disk (location + length got) n)))
more-bytes ch location n got h =
    let l : length (got ++ bytes_at ch.disk (location + length got) n) ≡ length got + n =
      length-append got _
      ∙ ap (λ t. length got + t) (length-bytes_at ch.disk (location + length got) n) in
    (
      l,
      ap (λ t. t ++ bytes_at ch.disk (location + length got) n) h
          ∙ sym (bytes_at-append ch.disk location (length got) n)
          ∙ ap (bytes_at ch.disk location) (sym l),
    )

read_loop_lem :
    (fuel size location : ℕ) (got : List ℕ) (ch : Channel)
    → got ≡ bytes_at ch.disk location (length got)
    → length got ≤ size
    → size - length got < fuel
    → (ret : Result (Unit {0})) × (got' : List ℕ) × (ch' : Channel) × (read_loop fuel size location
          got ch
        ≡ some (ret, got', ch'))
      × IsLoop ch location size ret got' ch'
unfolding read_loop
read_loop_lem zero size location got ch h inside enough = absurd (omega arith)
read_loop_lem (suc fuel) size location got ch h inside enough =
    let ch' = record ch { replies = (next_reply (size - length got) ch.replies).1 } in
    elim (Bool-cases (ltb (length got) size)) [
      | inr done ↦ (
        ok tt,
        got,
        ch,
        rw (done, read_loop) refl,
        record {
          contents = h;
          outcome = inl (refl, ground arith);
          same_disk = refl;
          same_blksize = refl;
          same_nocache = refl;
          same_bytes_read = refl;
        },
      )
      | inl more ↦ elim (next_reply-cases (size - length got) ch.replies) [
        | inl (e, is_failed) ↦ (
          err io,
          got,
          record ch' { io_error = e },
          rw (more, is_failed, read_loop) refl,
          record {
            contents = h;
            outcome = inr (refl, ground arith);
            same_disk = refl;
            same_blksize = refl;
            same_nocache = refl;
            same_bytes_read = refl;
          },
        )
        | inr (n, le, is_moved) ↦ elim (Bool-cases (n == 0)) [
          | inl nothing ↦ (
            err io,
            got,
            ch',
            rw (more, is_moved, nothing, read_loop) refl,
            record {
              contents = h;
              outcome = inr (refl, ground arith);
              same_disk = refl;
              same_blksize = refl;
              same_nocache = refl;
              same_bytes_read = refl;
            },
          )
          | inr some_bytes ↦
              let (l, c) = more-bytes ch location n got h in
              let got' = got ++ bytes_at ch.disk (location + length got) n in
              let (ret, out, last, e, r) =
                read_loop_lem fuel size location got' ch' c (ground (arith, l))
                  (ground (arith, l)) in
              (
                ret,
                out,
                last,
                rw (more, is_moved, some_bytes, read_loop) e,
                record {
                  contents = r.contents;
                  outcome = r.outcome;
                  same_disk = r.same_disk;
                  same_blksize = r.same_blksize;
                  same_nocache = r.same_nocache;
                  same_bytes_read = r.same_bytes_read;
                },
              )
        ]
      ]
    ]

read_end-IsRead :
    (ch : Channel) (location size : ℕ) (buf : List ℕ) (ret : Result (Unit {0})) (got : List ℕ)
    (ch' : Channel)
    → IsLoop ch location size ret got ch'
    → (data' : List ℕ) × (ch'' : Channel) × (read_end size buf (ret, got, ch') ≡ (ret, data', ch''))
      × IsRead ch location size buf ret data' ch''
read_end-IsRead ch location size buf (ok tt) got ch' r =
    let all : length got ≡ size = ground (arith, r.outcome) in
    let same : (length got == size) ≡ true = ground arith in
    (
      got ++ drop size buf,
      record ch' { io_bytes_read = (ch'.io_bytes_read + length got) % 2 ^ 64 },
      rw same refl,
      record {
        tot = size;
        contents = ap (λ t. t ++ drop size buf) (rw all at r.contents);
        outcome = inl (refl, refl);
        same_disk = r.same_disk;
        same_blksize = r.same_blksize;
        same_nocache = r.same_nocache;
        counted = rw (r.same_bytes_read, all) refl;
      },
    )
read_end-IsRead ch location size buf (err e) got ch' r = (
  got ++ drop (length got) buf,
  record ch' { io_bytes_read = (ch'.io_bytes_read + length got) % 2 ^ 64 },
  refl,
  record {
    tot = length got;
    contents = ap (λ t. t ++ drop (length got) buf) r.contents;
    outcome = inr (ground (arith, r.outcome));
    same_disk = r.same_disk;
    same_blksize = r.same_blksize;
    same_nocache = r.same_nocache;
    counted = rw r.same_bytes_read refl;
  },
)

-- With an `int` for its size, and a range that ends below byte 2^63 of the device, the read ends; its
-- loop takes short transfers and stops at an error or at the end of the device.
-- `CMFS_ET_SHORT_READ` is never returned.
pub unix_io_read_block-IsRead :
    (ch : Channel) (blkno : ℕ) (count : Count) (buf : List ℕ) (size : ℕ)
    → size_of ch.io_blksize count ≡ some size
    → blkno * ch.io_blksize + size < 2 ^ 63
    → (ret : Result (Unit {0})) × (data' : List ℕ) × (ch' : Channel) × (unix_io_read_block ch blkno
          count buf
        ≡ some (ret, data', ch'))
      × IsRead ch (blkno * ch.io_blksize) size buf ret data' ch'
unfolding unix_io_read_block
unix_io_read_block-IsRead ch blkno count buf size h inside =
    let in_int64 : ltb (blkno * ch.io_blksize) (2 ^ 63) ≡ true = ground arith in
    let (ret, got, last, e, r) =
      read_loop_lem (size + 1) size (blkno * ch.io_blksize) [] ch (unfold bytes_at in refl)
        (omega arith) (omega arith) in
    let (data', ch', e', r') = read_end-IsRead ch (blkno * ch.io_blksize) size buf ret got last r in
    (ret, data', ch', rw (h, in_int64, e) (ap some e'), r')
