-- ===== src/RwLock/Census.antt =====
-- How many threads are doing each thing, and how the counts of the lock agree with that.
use com_tutor.Base.{ℕ, zero, suc, ◌+◌, ◌<◌, ◌≡◌, true, false, update}
use com_tutor.Base.Int.{ℤ, pos, negsuc, is_neg, is_zero}
use com_tutor.RwLock.{Lock}
use com_tutor.RwLock.Threads.{Pc, rd_sleeps, rd_woken, wr_sleeps, wr_woken, reading, writing}
use com_tutor.Base.Counts.{total, total-update}

abbrev pub in_rs : Pc → ℕ
in_rs rd_sleeps = 1
in_rs _ = 0

abbrev pub in_rk : Pc → ℕ
in_rk rd_woken = 1
in_rk _ = 0

abbrev pub in_ws : Pc → ℕ
in_ws wr_sleeps = 1
in_ws _ = 0

abbrev pub in_wk : Pc → ℕ
in_wk wr_woken = 1
in_wk _ = 0

abbrev pub in_r : Pc → ℕ
in_r reading = 1
in_r _ = 0

abbrev pub in_w : Pc → ℕ
in_w writing = 1
in_w _ = 0

-- Sleeping and woken readers, sleeping and woken writers, and the threads that hold the lock.
pub record Census : Type 0 where
  pub rs : ℕ
  pub rk : ℕ
  pub ws : ℕ
  pub wk : ℕ
  pub r : ℕ
  pub w : ℕ

abbrev pub census : ℕ → (ℕ → Pc) → Census
census n pc = record {
  rs = total in_rs n pc;
  rk = total in_rk n pc;
  ws = total in_ws n pc;
  wk = total in_wk n pc;
  r = total in_r n pc;
  w = total in_w n pc;
}

-- One thread has gone from `p` to `a`.
pub record Moved (p a : Pc) (c d : Census) : Type 0 where
  pub rs : d.rs + in_rs p ≡ c.rs + in_rs a
  pub rk : d.rk + in_rk p ≡ c.rk + in_rk a
  pub ws : d.ws + in_ws p ≡ c.ws + in_ws a
  pub wk : d.wk + in_wk p ≡ c.wk + in_wk a
  pub r : d.r + in_r p ≡ c.r + in_r a
  pub w : d.w + in_w p ≡ c.w + in_w a

pub update-Moved :
    (n : ℕ) (f : ℕ → Pc) (i : ℕ) (p a : Pc)
    → i < n
    → f i ≡ p
    → Moved p a (census n f) (census n (update f i a))
update-Moved n f i p a h e = record {
  rs = total-update in_rs n f i p a h e;
  rk = total-update in_rk n f i p a h e;
  ws = total-update in_ws n f i p a h e;
  wk = total-update in_wk n f i p a h e;
  r = total-update in_r n f i p a h e;
  w = total-update in_w n f i p a h e;
}

-- `refcount` counts the readers, or is -1 for the one writer.
abbrev pub Held : ℤ → ℕ → ℕ → Type 0
Held (pos k) r w = (r ≡ k) × (w ≡ 0)
Held (negsuc zero) r w = (r ≡ 0) × (w ≡ 1)
Held (negsuc (suc k)) r w = ⊥

-- The last two: while the lock is free, sleeping writers are accompanied by one that is woken; and
-- no reader sleeps when neither a writer holds the lock nor one waits for it.
pub record Agrees (l : Lock) (c : Census) : Type 0 where
  pub readers : l.nwaitreaders ≡ c.rs + c.rk
  pub writers : l.nwaitwriters ≡ c.ws + c.wk
  pub held : Held l.refcount c.r c.w
  pub some_writer : is_zero l.refcount ≡ true → 0 < c.ws → 0 < c.wk
  pub no_reader : is_neg l.refcount ≡ false → l.nwaitwriters ≡ 0 → c.rs ≡ 0
