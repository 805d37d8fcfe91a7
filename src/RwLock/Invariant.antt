-- ===== src/RwLock/Invariant.antt =====
-- Every step of a thread keeps the counts of the lock in agreement with what the threads are doing.
use com_tutor.Base.{ℕ, ◌+◌, ◌-◌, ◌≡◌, ◌≢◌, refl, ◌∙◌, ap, ◌⊎◌, false, arith, update, update_off}
use com_tutor.Base.Int.{negsuc, inc}
use com_tutor.RwLock.{Lock, rd_blocked, wr_blocked, quiet, one_writer, all_readers, signal_of}
use com_tutor.RwLock.Threads.{
  Pc, idle, rd_sleeps, rd_woken, wr_sleeps, wr_woken, reading, writing, System, rd_round, wr_round,
  left, wake_reader, Step, rdlock, rd_return, wrlock, wr_return, tryrdlock, trywrlock, rd_spurious,
  wr_spurious, unlock_quiet, unlock_signal, unlock_signal_none, unlock_broadcast, Reach, start,
  later,
}
use com_tutor.Base.Counts.{total, total-map, total-none}
use com_tutor.Base.Counts.{total-sum}
use com_tutor.RwLock.Census.{
  in_rs, in_rk, in_ws, in_wk, in_r, in_w, Census, census, Moved, update-Moved, Agrees,
}

module _ (l : Lock) (c d : Census) (h : Agrees l c) where
  rd_round_keeps : Moved idle (rd_round l).1 c d → Agrees (rd_round l).0 d
  rd_round_keeps m = ground arith

  wr_round_keeps : Moved idle (wr_round l).1 c d → Agrees (wr_round l).0 d
  wr_round_keeps m = ground arith

  rd_return_keeps :
      (k : Lock)
      → k ≡ record l { nwaitreaders = l.nwaitreaders - 1 }
      → Moved rd_woken (rd_round k).1 c d
      → Agrees (rd_round k).0 d
  rd_return_keeps k e m = ground arith

  wr_return_keeps :
      (k : Lock)
      → k ≡ record l { nwaitwriters = l.nwaitwriters - 1 }
      → Moved wr_woken (wr_round k).1 c d
      → Agrees (wr_round k).0 d
  wr_return_keeps k e m = ground arith

  tryrdlock_keeps :
      rd_blocked l ≡ false
      → Moved idle reading c d
      → Agrees (record l { refcount = inc l.refcount }) d
  tryrdlock_keeps e m = ground arith

  trywrlock_keeps :
      wr_blocked l ≡ false → Moved idle writing c d → Agrees (record l { refcount = negsuc 0 }) d
  trywrlock_keeps e m = ground arith

  rd_spurious_keeps : Moved rd_sleeps rd_woken c d → Agrees l d
  rd_spurious_keeps m = ground arith

  wr_spurious_keeps : Moved wr_sleeps wr_woken c d → Agrees l d
  wr_spurious_keeps m = ground arith

  quiet_keeps :
      (p : Pc)
      → (p ≡ reading) ⊎ (p ≡ writing)
      → signal_of (left l) ≡ quiet
      → Moved p idle c d
      → Agrees (left l) d
  quiet_keeps p e s m = ground arith

  signal_none_keeps :
      (p : Pc)
      → (p ≡ reading) ⊎ (p ≡ writing)
      → signal_of (left l) ≡ one_writer
      → c.ws ≡ 0
      → Moved p idle c d
      → Agrees (left l) d
  signal_none_keeps p e s z m = ground arith

  signal_keeps :
      (p : Pc) (b : Census)
      → (p ≡ reading) ⊎ (p ≡ writing)
      → signal_of (left l) ≡ one_writer
      → Moved p idle c b
      → Moved wr_sleeps wr_woken b d
      → Agrees (left l) d
  signal_keeps p b e s m k = ground arith

  -- The broadcast moves every sleeping reader.
  broadcast_keeps :
      (p : Pc) (b : Census)
      → (p ≡ reading) ⊎ (p ≡ writing)
      → signal_of (left l) ≡ all_readers
      → b ≡ record c { rs = 0; rk = c.rs + c.rk }
      → Moved p idle b d
      → Agrees (left l) d
  broadcast_keeps p b e s z m = ground arith

all-wake_reader :
    (n : ℕ) (f : ℕ → Pc)
    → census n (λ j. wake_reader (f j))
      ≡ record (census n f) { rs = 0; rk = (census n f).rs + (census n f).rk }
all-wake_reader n f = λ i. record {
  rs = woken_rs i;
  rk = woken_rk i;
  ws = total-map in_ws in_ws wake_reader n f (λ p. ground arith) i;
  wk = total-map in_wk in_wk wake_reader n f (λ p. ground arith) i;
  r = total-map in_r in_r wake_reader n f (λ p. ground arith) i;
  w = total-map in_w in_w wake_reader n f (λ p. ground arith) i;
}
  where
    woken_rs : total in_rs n (λ j. wake_reader (f j)) ≡ 0
    woken_rs = total-none in_rs n (λ j. wake_reader (f j)) (λ i lt. ground arith)

    woken_rk : total in_rk n (λ j. wake_reader (f j)) ≡ total in_rs n f + total in_rk n f
    woken_rk =
        total-map in_rk (λ p. in_rs p + in_rk p) wake_reader n f (λ p. ground arith)
        ∙ total-sum in_rs in_rk (λ p. in_rs p + in_rk p) n f (λ p. refl)

pub Step-Agrees :
    {n : ℕ} {s t : System}
    → Step n s t
    → Agrees s.lock (census n s.pc)
    → Agrees t.lock (census n t.pc)
Step-Agrees {n} {s} (rdlock i lt e) h =
    rd_round_keeps s.lock _ _ h (update-Moved n s.pc i idle (rd_round s.lock).1 lt e)
Step-Agrees {n} {s} (rd_return i l lt e q) h =
    rd_return_keeps s.lock _ _ h l q (update-Moved n s.pc i rd_woken (rd_round l).1 lt e)
Step-Agrees {n} {s} (wrlock i lt e) h =
    wr_round_keeps s.lock _ _ h (update-Moved n s.pc i idle (wr_round s.lock).1 lt e)
Step-Agrees {n} {s} (wr_return i l lt e q) h =
    wr_return_keeps s.lock _ _ h l q (update-Moved n s.pc i wr_woken (wr_round l).1 lt e)
Step-Agrees {n} {s} (tryrdlock i lt e free) h =
    tryrdlock_keeps s.lock _ _ h free (update-Moved n s.pc i idle reading lt e)
Step-Agrees {n} {s} (trywrlock i lt e free) h =
    trywrlock_keeps s.lock _ _ h free (update-Moved n s.pc i idle writing lt e)
Step-Agrees {n} {s} (rd_spurious i lt e) h =
    rd_spurious_keeps s.lock _ _ h (update-Moved n s.pc i rd_sleeps rd_woken lt e)
Step-Agrees {n} {s} (wr_spurious i lt e) h =
    wr_spurious_keeps s.lock _ _ h (update-Moved n s.pc i wr_sleeps wr_woken lt e)
Step-Agrees {n} {s} (unlock_quiet i p lt e own sig) h =
    quiet_keeps s.lock _ _ h p own sig (update-Moved n s.pc i p idle lt e)
Step-Agrees {n} {s} (unlock_signal i j p lt ltj e own sig ej) h =
    signal_keeps s.lock _ _ h p _ own sig (update-Moved n s.pc i p idle lt e) (
      update-Moved n (update s.pc i idle) j wr_sleeps wr_woken ltj
        (update_off s.pc i idle j apart ∙ ej))
  where
    apart : i ≢ j
    apart q = ground (arith, ap s.pc q)
Step-Agrees {n} {s} (unlock_signal_none i p lt e own sig nobody) h =
    signal_none_keeps s.lock _ _ h p own sig
      (total-none in_ws n s.pc (λ j ltj. none_sleeps (s.pc j) (nobody j ltj)))
      (update-Moved n s.pc i p idle lt e)
  where
    none_sleeps : (p : Pc) → p ≢ wr_sleeps → in_ws p ≡ 0
    none_sleeps p q = ground arith
Step-Agrees {n} {s} (unlock_broadcast i p lt e own sig) h =
    broadcast_keeps s.lock _ _ h p _ own sig (all-wake_reader n s.pc)
      (update-Moved n (λ j. wake_reader (s.pc j)) i p idle lt (ap wake_reader e ∙ stays p own))
  where
    stays : (p : Pc) → (p ≡ reading) ⊎ (p ≡ writing) → wake_reader p ≡ p
    stays p own = ground arith

-- In every reachable state the counts of the lock agree with what the threads are doing.
pub Reach-Agrees : {n : ℕ} {s : System} → Reach n s → Agrees s.lock (census n s.pc)
Reach-Agrees {n} start = record {
  readers = omega (arith, zero_rs, zero_rk);
  writers = omega (arith, zero_ws, zero_wk);
  held = (zero_r, zero_w);
  some_writer = λ z k. absurd (omega (arith, zero_ws));
  no_reader = λ z k. zero_rs;
}
  where
    zero_rs : total in_rs n (λ _. idle) ≡ 0
    zero_rs = total-none in_rs n (λ _. idle) (λ i lt. refl)

    zero_rk : total in_rk n (λ _. idle) ≡ 0
    zero_rk = total-none in_rk n (λ _. idle) (λ i lt. refl)

    zero_ws : total in_ws n (λ _. idle) ≡ 0
    zero_ws = total-none in_ws n (λ _. idle) (λ i lt. refl)

    zero_wk : total in_wk n (λ _. idle) ≡ 0
    zero_wk = total-none in_wk n (λ _. idle) (λ i lt. refl)

    zero_r : total in_r n (λ _. idle) ≡ 0
    zero_r = total-none in_r n (λ _. idle) (λ i lt. refl)

    zero_w : total in_w n (λ _. idle) ≡ 0
    zero_w = total-none in_w n (λ _. idle) (λ i lt. refl)
Reach-Agrees (later r st) = Step-Agrees st (Reach-Agrees r)
