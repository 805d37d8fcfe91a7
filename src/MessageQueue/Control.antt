-- ===== src/MessageQueue/Control.antt =====
-- mq_getattr.c, mq_setattr.c, mq_notify.c and mq_close.c.
use com_tutor.Base.Errno.{ebadf, ebusy, code}
use com_tutor.Base.{◌^◌, ◌%◌, ℕ, ◌+◌, ◌*◌, Bool, ◌&&◌, not, Option, none, some, ◌==◌, if◌then◌else◌}
use com_tutor.MessageQueue.Types.{
  Queue, Info, Event, Reply, done, failed, mqi_magic, round_up, msg_hdr_size,
}

-- `struct mymq_attr`, as getattr fills it in: the flags are those of the open, the rest the file's.
pub record Attr : Type 0 where
  pub nonblock : Bool
  pub maxmsg : ℕ
  pub msgsize : ℕ
  pub curmsgs : ℕ

unfoldable pub mymq_getattr : (lock : ℕ) → Info → Queue → Reply × Option Attr
mymq_getattr lock info q =
    if not (info.magic == mqi_magic)
    then (failed ebadf, none)
    else (if not (lock == 0) then (failed (code lock), none) else (
      done 0,
      some (record {
        nonblock = info.nonblock;
        maxmsg = q.maxmsg;
        msgsize = q.msgsize;
        curmsgs = q.curmsgs;
      }),
    ))

-- `wanted` is the bit O_NONBLOCK of `mqstat->mq_flags`; `old` tells whether `omqstat` is given.
unfoldable pub mymq_setattr :
    (lock : ℕ) → (wanted old : Bool) → Info → Queue → Reply × Option Attr × Info
mymq_setattr lock wanted old info q =
    if not (info.magic == mqi_magic)
    then (failed ebadf, none, info)
    else (if not (lock == 0) then (failed (code lock), none, info) else (
      done 0,
      (if old
          then some (record {
            nonblock = info.nonblock;
            maxmsg = q.maxmsg;
            msgsize = q.msgsize;
            curmsgs = q.curmsgs;
          })
          else none),
      record info { nonblock = wanted },
    ))

-- `self` is getpid(). `exists p` is the test `kill(p, 0) != -1 || errno != ESRCH`.
unfoldable pub mymq_notify :
    (lock self : ℕ) → (exists : ℕ → Bool) → Info → Option Event → Queue → Reply × Queue
mymq_notify lock self exists info none q =
    if not (info.magic == mqi_magic)
    then (failed ebadf, q)
    else (if not (lock == 0)
        then (failed (code lock), q)
        else (done 0, (if q.pid == self then record q { pid = 0 } else q)))
mymq_notify lock self exists info (some event) q =
    if not (info.magic == mqi_magic)
    then (failed ebadf, q)
    else (if not (lock == 0)
        then (failed (code lock), q)
        else (if not (q.pid == 0) && exists q.pid
            then (failed ebusy, q)
            else (done 0, record q { pid = self; event = event })))

-- The size of the mapped file; `hdr_size` is sizeof(struct mymq_hdr), which the system's types set.
-- `sizeof` makes the calculation one in unsigned long, which wraps.
abbrev pub ulong_range : ℕ
ulong_range = 2 ^ 64

unfoldable pub filesize : (hdr_size maxmsg msgsize : ℕ) → ℕ
unfolding round_up
filesize hdr_size maxmsg msgsize =
    (hdr_size + maxmsg * (msg_hdr_size + round_up msgsize)) % ulong_range

-- `unmap n` is what `munmap` of `n` bytes returns: none for 0, or the `errno` that comes with -1.
unfoldable pub mymq_close :
    (hdr_size lock self : ℕ)
    → (exists : ℕ → Bool) → (unmap : ℕ → Option ℕ) → Info
    → Queue
    → Reply × Info × Queue
mymq_close hdr_size lock self exists unmap info q =
    if not (info.magic == mqi_magic)
    then (failed ebadf, info, q)
    else (let (r, q') = mymq_notify lock self exists info none q in
        elim r [
          | done n ↦ elim (unmap (filesize hdr_size q'.maxmsg q'.msgsize)) [
            | none ↦ (done 0, record info { magic = 0 }, q')
            | some e ↦ (failed (code e), info, q')
          ]
          | other ↦ (other, info, q')
        ])
