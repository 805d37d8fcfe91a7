-- ===== src/MessageQueue/Create/Protocol.antt =====
-- How mymq_open ends: what a creator returns, what a failure cleans up, when a file that is there is
-- attached.
use com_tutor.Base.Errno.{Errno}
use com_tutor.Base.{
  ℕ, zero, suc, ◌+◌, ◌≤◌, ◌<◌, ◌≡◌, ◌≢◌, refl, subst, inl, inr, Bool, true, false, Option, none,
  some, List, [], ◌∷◌, arith, ◌==◌, Bool-cases, All, if_induction,
}
use com_tutor.Base.Int.{long_max, ℤ, pos, negsuc, is_pos, to_ℕ}
use com_tutor.MessageQueue.Types.{Queue, Info, mqi_magic, free_at, msg_hdr_size}
use com_tutor.MessageQueue.Control.{filesize}
use com_tutor.MessageQueue.Create.{
  Answers, Opened, created, attached, open_failed, undefined, in_bounds, check, check_rc,
  init_queue, set_up, create, attach, pass, mymq_open,
}
use com_tutor.MessageQueue.Invariant.{Holds}
use com_tutor.MessageQueue.Create.Layout.{init_queue-Holds, slots_in_file}

-- The file of a creator: nothing in it, at least one slot, and all of them free, behind the header and
-- in the file.
pub record IsNew (hdr_size : ℕ) (nonblock : Bool) (i : Info) (q : Queue) : Type 0 where
  pub free : List ℕ
  pub holds : Holds q [] free
  pub room : 0 < q.maxmsg
  pub in_file :
      All
        (λ i.
          (hdr_size ≤ i) × (i + (msg_hdr_size + q.msgsize) ≤ filesize hdr_size q.maxmsg q.msgsize))
        free
  pub info : i ≡ record { magic = mqi_magic; nonblock = nonblock }

abbrev CreatesNew : (hdr_size : ℕ) → Bool → Opened → Type 0
CreatesNew hdr_size nonblock (created i q) = IsNew hdr_size nonblock i q
CreatesNew hdr_size nonblock _ = Unit

-- The attributes are longs.
abbrev pub AreLong : Option (ℤ × ℤ) → Type 0
AreLong none = Unit
AreLong (some (m, s)) = (to_ℕ m ≤ long_max) × (to_ℕ s ≤ long_max)

module _ (hdr_size : ℕ) (big : free_at + 8 ≤ hdr_size) (nonblock : Bool) (blank : Queue) where
  check-CreatesNew :
      (e : Option Errno) (map info : Bool) (k : Opened)
      → CreatesNew hdr_size nonblock k
      → CreatesNew hdr_size nonblock (check e map info k)
  check-CreatesNew none map info k h = h
  check-CreatesNew (some e) map info k h = tt

  check_rc-CreatesNew :
      (rc : ℕ) (k : Opened)
      → CreatesNew hdr_size nonblock k
      → CreatesNew hdr_size nonblock (check_rc rc k)
  check_rc-CreatesNew rc k h = elim (Bool-cases (rc == 0)) [ inl t ↦ rw t h | inr t ↦ rw t tt ]

  set_up-CreatesNew :
      (m s : ℕ) (a : Answers)
      → 0 < m
      → s ≤ long_max
      → CreatesNew hdr_size nonblock (set_up hdr_size nonblock m s blank a)
  unfolding set_up init_queue
  set_up-CreatesNew m s a p small = check-CreatesNew a.lseek false false _ (
      check-CreatesNew a.write false false _ (
        check-CreatesNew a.mmap false false _ (
          check-CreatesNew a.malloc true false _ (
            if_induction (CreatesNew hdr_size nonblock) (in_bounds hdr_size m s) _ undefined
              (λ fit. check_rc-CreatesNew a.mutexattr_init _ (
                check_rc-CreatesNew a.mutex_init _ (
                  check_rc-CreatesNew a.condattr_init _ (
                    check_rc-CreatesNew a.cond_init _ (
                      check-CreatesNew a.fchmod true true _ (record {
                        free = _;
                        holds = init_queue-Holds hdr_size m s blank big p;
                        room = maxmsg_kept;
                        in_file = slots_in_file hdr_size m s p small fit;
                        info = refl;
                      }))))))
              (λ out. tt)))))
    where
      maxmsg_kept : 0 < (init_queue hdr_size m s blank).maxmsg
      maxmsg_kept = p

  pos_of_is_pos : (m : ℤ) → is_pos m ≡ true → 0 < to_ℕ m
  pos_of_is_pos (pos zero) h = cc
  pos_of_is_pos (pos (suc n)) h = omega arith
  pos_of_is_pos (negsuc n) h = cc

  create-CreatesNew :
      (attr : Option (ℤ × ℤ)) (a : Answers)
      → AreLong attr
      → CreatesNew hdr_size nonblock (create hdr_size nonblock attr blank a)
  unfolding create
  create-CreatesNew none a long = set_up-CreatesNew 128 1024 a (omega arith) (omega arith)
  create-CreatesNew (some (m, s)) a long = elim (Bool-cases (is_pos m)) [
    | inl t ↦ elim (Bool-cases (is_pos s)) [
      | inl u ↦ rw (t, u) (set_up-CreatesNew (to_ℕ m) (to_ℕ s) a (pos_of_is_pos m t) long.1)
      | inr u ↦ rw (t, u) tt
    ]
    | inr t ↦ rw t tt
  ]

abbrev Creates : (hdr_size : ℕ) → Bool → Option Opened → Type 0
Creates hdr_size b none = Unit
Creates hdr_size b (some o) = CreatesNew hdr_size b o

attach-Creates :
    (hdr_size : ℕ) (creat nonblock b : Bool) (a : Answers)
    → Creates hdr_size b (attach creat nonblock a)
unfolding attach
attach-Creates hdr_size creat nonblock b a = ground arith

module _ (hdr_size : ℕ) (big : free_at + 8 ≤ hdr_size) (excl nonblock : Bool)
    (attr : Option (ℤ × ℤ)) (long : AreLong attr) (blank : Queue) where
  pass-Creates :
      (creat : Bool) (a : Answers)
      → Creates hdr_size nonblock (pass hdr_size creat excl nonblock attr blank a)
  unfolding pass
  pass-Creates true a = ground (
    arith,
    create-CreatesNew hdr_size big nonblock blank attr a long,
    attach-Creates hdr_size true nonblock nonblock a,
  )
  pass-Creates false a = attach-Creates hdr_size false nonblock nonblock a

  open-CreatesNew :
      (creat : Bool) (answers : List Answers)
      → CreatesNew hdr_size nonblock (mymq_open hdr_size creat excl nonblock attr blank answers)
  unfolding mymq_open
  open-CreatesNew creat [] = tt
  open-CreatesNew creat (a ∷ as') = ground (arith, open-CreatesNew creat as', pass-Creates creat a)

  -- The file that a creator gets, if the call is not undefined, holds no message, and has at least one
  -- slot; its slots are all on the free list, and lie behind the header and, with a message of
  -- `mq_msgsize` bytes, within the size of the file that has been calculated. The attributes are longs,
  -- and the header is longer than them and the two links at its front.
  pub open_creates-IsNew :
      (creat : Bool) (answers : List Answers) {i : Info} {q : Queue}
      → mymq_open hdr_size creat excl nonblock attr blank answers ≡ created i q
      → IsNew hdr_size nonblock i q
  open_creates-IsNew creat answers h =
      subst (CreatesNew hdr_size nonblock) h (open-CreatesNew creat answers)

abbrev Unlinks : Bool → Option Opened → Type 0
Unlinks b (some (open_failed e unlinked unmapped freed)) = unlinked ≡ b
Unlinks b _ = Unit

set_up-Unlinks :
    (hdr_size : ℕ) (nonblock : Bool) (m s : ℕ) (blank : Queue) (a : Answers)
    → Unlinks true (some (set_up hdr_size nonblock m s blank a))
unfolding set_up
set_up-Unlinks hdr_size nonblock m s blank a = ground arith

create-Unlinks :
    (hdr_size : ℕ) (nonblock : Bool) (attr : Option (ℤ × ℤ)) (blank : Queue) (a : Answers)
    → Unlinks true (some (create hdr_size nonblock attr blank a))
unfolding create
create-Unlinks hdr_size nonblock none blank a = set_up-Unlinks hdr_size nonblock 128 1024 blank a
create-Unlinks hdr_size nonblock (some (m, s)) blank a =
    ground (arith, set_up-Unlinks hdr_size nonblock (to_ℕ m) (to_ℕ s) blank a)

attach-Unlinks : (creat nonblock : Bool) (a : Answers) → Unlinks false (attach creat nonblock a)
unfolding attach
attach-Unlinks creat nonblock a = ground arith

-- Whether a pass has created the file: O_CREAT was given, and the open with O_EXCL succeeded.
abbrev pub creates : Bool → Option Errno → Bool
creates true none = true
creates _ _ = false

pass-Unlinks :
    (hdr_size : ℕ) (creat excl nonblock : Bool) (attr : Option (ℤ × ℤ)) (blank : Queue)
    (a : Answers)
    → Unlinks (creates creat a.excl_open) (pass hdr_size creat excl nonblock attr blank a)
unfolding pass
pass-Unlinks hdr_size true excl nonblock attr blank a =
    ground (arith, create-Unlinks hdr_size nonblock attr blank a, attach-Unlinks true nonblock a)
pass-Unlinks hdr_size false excl nonblock attr blank a = attach-Unlinks false nonblock a

-- A failure unlinks the path exactly if this pass has created the file.
pub open_unlinks_own :
    (hdr_size : ℕ) (creat excl nonblock : Bool) (attr : Option (ℤ × ℤ)) (blank : Queue)
    (a : Answers) {e : Errno} {unlinked unmapped freed : Bool}
    → pass hdr_size creat excl nonblock attr blank a ≡ some (open_failed e unlinked unmapped freed)
    → unlinked ≡ creates creat a.excl_open
open_unlinks_own hdr_size creat excl nonblock attr blank a h =
    subst (Unlinks (creates creat a.excl_open)) h
      (pass-Unlinks hdr_size creat excl nonblock attr blank a)

set_up-never_attaches :
    (hdr_size : ℕ) (nonblock : Bool) (m s : ℕ) (blank : Queue) (a : Answers) (i : Info)
    → set_up hdr_size nonblock m s blank a ≢ attached i
unfolding set_up
set_up-never_attaches hdr_size nonblock m s blank a i h = ground arith

pub create-never_attaches :
    (hdr_size : ℕ) (nonblock : Bool) (attr : Option (ℤ × ℤ)) (blank : Queue) (a : Answers)
    (i : Info)
    → create hdr_size nonblock attr blank a ≢ attached i
unfolding create
create-never_attaches hdr_size nonblock none blank a i h =
    set_up-never_attaches hdr_size nonblock 128 1024 blank a i h
create-never_attaches hdr_size nonblock (some (m, s)) blank a i h =
    ground (arith, set_up-never_attaches hdr_size nonblock (to_ℕ m) (to_ℕ s) blank a i)

-- With O_CREAT and O_EXCL a file that is there is never attached.
pub open_exclusive :
    (hdr_size : ℕ) (nonblock : Bool) (attr : Option (ℤ × ℤ)) (blank : Queue)
    (answers : List Answers) (i : Info)
    → mymq_open hdr_size true true nonblock attr blank answers ≢ attached i
unfolding mymq_open pass
open_exclusive hdr_size nonblock attr blank [] i h = cc
open_exclusive hdr_size nonblock attr blank (a ∷ as') i h = ground (
  arith,
  create-never_attaches hdr_size nonblock attr blank a i,
  open_exclusive hdr_size nonblock attr blank as' i,
)
