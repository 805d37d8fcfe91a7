-- ===== src/MessageQueue/Types.antt =====
-- mqueue.h: the mapped file, the per-open descriptor, and what a call returns.
use com_tutor.Base.Errno.{Errno}
use com_tutor.Base.{ℕ, ◌+◌, ◌-◌, ◌*◌, ◌/◌, Bool, List, update}

-- `struct sigevent`, as far as the code reads it; `by_signal` is `sigev_notify == SIGEV_SIGNAL`.
pub record Event : Type 0 where
  pub by_signal : Bool
  pub signo : ℕ
  pub value : ℕ

-- A message slot after its `msg_next`: `struct mymsg_hdr` and the bytes that follow it.
pub record Slot : Type 0 where
  pub len : ℕ
  pub prio : ℕ
  pub body : List ℕ

-- A message as its sender and its receiver see it: `ptr` and `priop` of the calls.
pub record Message : Type 0 where
  pub prio : ℕ
  pub bytes : List ℕ

-- The mapped file. `next` is the `long` at a byte offset: `mqh_head` at `head_at`, `mqh_free` at
-- `free_at`, and at the offset of a slot its `msg_next`. So `&mqh_head` serves as the address of a
-- `struct mymsg_hdr` whose first member is the link, as the cast in mq_send.c has it.
pub record Queue : Type 0 where
  pub maxmsg : ℕ
  pub msgsize : ℕ
  pub curmsgs : ℕ
  pub nwait : ℕ
  pub pid : ℕ
  pub event : Event
  pub next : ℕ → ℕ
  pub slot : ℕ → Slot

-- `struct mymq_attr` is four longs, and `long` has eight bytes.
abbrev pub head_at : ℕ
head_at = 32

abbrev pub free_at : ℕ
free_at = 40

-- `struct mymq_info`. Of `mqi_flags` only the bit O_NONBLOCK is ever set.
pub record Info : Type 0 where
  pub magic : ℕ
  pub nonblock : Bool

abbrev pub mqi_magic : ℕ
mqi_magic = 0x98765432

-- MSGSIZE: the size of a message rounded up to a multiple of sizeof(long).
unfoldable pub round_up : ℕ → ℕ
round_up i = (i + 8 - 1) / 8 * 8

-- sizeof(struct mymsg_hdr): two longs and an unsigned int, padded.
abbrev pub msg_hdr_size : ℕ
msg_hdr_size = 24

-- What a call comes to: a result, -1 with `errno`, the abort of `err_dump`, a caller that still
-- sleeps in pthread_cond_wait, or a walk over the links that does not end.
pub data Reply : Type 0 where
  done : ℕ → Reply
  failed : Errno → Reply
  dumped sleeping looping : Reply

pub data Effect : Type 0 where
  cond_signal : Effect
  sigqueue : (pid signo value : ℕ) → Effect

-- The reply, the file after the call, and the signals sent, first to last.
pub record Outcome : Type 0 where
  pub reply : Reply
  pub queue : Queue
  pub sent : List Effect

abbrev pub outcome : Reply → Queue → List Effect → Outcome
outcome r q es = record { reply = r; queue = q; sent = es }

-- One store into a link.
abbrev pub set_next : ℕ → ℕ → Queue → Queue
set_next at i q = record q { next = update q.next at i }
