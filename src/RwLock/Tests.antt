-- ===== src/RwLock/Tests.antt =====
-- The properties of the read-write lock at concrete locks and states of three threads.
use com_tutor.Base.{ℕ, ◌<◌, ◌≢◌, refl, inl, inr, arith, update}
use com_tutor.Base.Int.{pos, negsuc}
use com_tutor.RwLock.{Lock, rw_magic}
use com_tutor.RwLock.Threads.{
  Pc, idle, rd_sleeps, wr_sleeps, wr_woken, reading, writing, System, rd_round, Reach, start,
  start_lock, later, rdlock, wrlock, unlock_signal,
}
use com_tutor.RwLock.Safety.{CanGoOn, mutual_exclusion, no_lost_wakeup, writers_first}

-- Thread 0 writes, thread 1 waits to read, thread 2 waits to write; then thread 0 unlocks.
abbrev pcs : ℕ → Pc
pcs = update (update (update (λ _. idle) 0 writing) 1 rd_sleeps) 2 wr_sleeps

abbrev crowded : System
crowded = record {
  lock = record { magic = rw_magic; nwaitreaders = 1; nwaitwriters = 1; refcount = negsuc 0 };
  pc = pcs;
}

abbrev handed_over : System
handed_over = record {
  lock = record { magic = rw_magic; nwaitreaders = 1; nwaitwriters = 1; refcount = pos 0 };
  pc = update (update pcs 0 idle) 2 wr_woken;
}

crowded-Reach : Reach 3 crowded
crowded-Reach =
    later (later (later start (wrlock 0 (omega arith) refl)) (rdlock 1 (omega arith) refl))
      (wrlock 2 (omega arith) refl)

handed_over-Reach : Reach 3 handed_over
handed_over-Reach =
    later crowded-Reach
      (unlock_signal 0 2 writing (omega arith) (omega arith) refl (inr refl) refl refl)

mutual_exclusion_example : (crowded.pc 1 ≢ writing) × (crowded.pc 1 ≢ reading)
mutual_exclusion_example =
    mutual_exclusion crowded-Reach 0 1 (omega arith) (omega arith) (omega arith) refl

no_lost_wakeup_example : (j : ℕ) × (j < 3) × CanGoOn (handed_over.pc j)
no_lost_wakeup_example = no_lost_wakeup handed_over-Reach 1 (omega arith) (inl refl)

abbrev one_reads : System
one_reads = record { lock = (rd_round start_lock).0; pc = update (λ _. idle) 0 reading }

one_reads-Reach : Reach 3 one_reads
one_reads-Reach = later start (rdlock 0 (omega arith) refl)

writers_first_example :
    (one_reads.pc 0 ≢ writing) × (one_reads.pc 0 ≢ wr_sleeps) × (one_reads.pc 0 ≢ wr_woken)
writers_first_example =
    writers_first one_reads-Reach (rdlock 1 (omega arith) refl) 1 (ground arith) refl 0
      (omega arith)

abbrev two_read : Lock
two_read = record { magic = rw_magic; nwaitreaders = 0; nwaitwriters = 1; refcount = pos 2 }
