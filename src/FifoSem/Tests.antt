-- ===== src/FifoSem/Tests.antt =====
-- A FIFO of three bytes, and the theorems at it.
use com_tutor.Base.{
  ℕ, zero, suc, ◌≡◌, ◌≢◌, ◌⊎◌, refl, true, false, none, some, arith, ltb, if◌then◌else◌,
}
use com_tutor.Base.Errno.{eagain, code}
use com_tutor.FifoSem.{
  Handle, fifo_magic, took_byte, blocks, Pipe, IsPipe, Env, got_fd, Answers, opened, open_failed,
  fill, attach, mysem_open, mysem_close,
}
use com_tutor.FifoSem.Laws.{is_opened, open_after, open_restores}

abbrev three : Pipe
three = record {
  write = λ u. if ltb u 3 then none else some eagain;
  read = λ u. elim u [ zero ↦ blocks | suc v ↦ took_byte ];
}

three-IsPipe : IsPipe three 3
three-IsPipe = record {
  writes = λ u h. ground (arith, h);
  full = refl;
  takes = λ u. refl;
  waits = refl;
}

abbrev fine : Answers
fine = record {
  mkfifo = none;
  malloc = none;
  open_read = got_fd 3;
  open_write = got_fd 4;
  getfl = none;
  setfl = none;
  unlink = none;
}

abbrev no_memory : Answers
no_memory = record fine { malloc = some (code 12) }

abbrev empty_env : Env
empty_env = record { path = false; units = 0; fds = λ fd. ltb fd 3 }

abbrev handle : Handle
handle = record { magic = fifo_magic }

open_runs :
    let (r, s') = mysem_open three true true 2 fine empty_env in
    (r ≡ opened 3 4) × (s'.path ≡ true) × (s'.units ≡ 2) × (s'.fds 4 ≡ true)
unfolding mysem_open attach fill
open_runs = (refl, refl, refl, refl)

open_overflows :
    let (r, s') = mysem_open three true true 4 fine empty_env in
    (r ≡ open_failed eagain) × (s'.path ≡ false) × (s'.fds 3 ≡ false) × (s'.fds 4 ≡ false)
unfolding mysem_open attach fill
open_overflows = (refl, refl, refl, refl)

open_stays :
    let (r, s') = mysem_open three true true 2 no_memory empty_env in
    (r ≡ open_failed (code 12)) × (s'.path ≡ true) × (s'.units ≡ 0)
unfolding mysem_open attach fill
open_stays = (refl, refl, refl)

close_stops : (mysem_close (some (code 5)) none handle).1 ≡ 1
unfolding mysem_close
close_stops = refl

open_restores_example :
    let (r, s') = mysem_open three true true 4 fine empty_env in
    ((j : ℕ) → s'.fds j ≡ open_after r empty_env.fds j)
    × ((is_opened r ≡ true)
        ⊎ ((is_opened r ≡ false)
            × ((s'.path ≡ false)
                ⊎ ((false ≡ false)
                    × (fine.mkfifo ≡ none)
                    × ((fine.malloc ≢ none) ⊎ (fine.unlink ≢ none))
                    × (s'.path ≡ true)))))
open_restores_example =
    open_restores three true true 4 fine empty_env
      (record { makes = λ q. refl; finds = λ q. ground (arith, q) })
      (ground arith, ground arith, ground arith)
