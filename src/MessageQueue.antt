-- ===== src/MessageQueue.antt =====
-- POSIX message queues in a memory-mapped file: unixipc/my_pxmsg_mmap, with mqueue.h.
-- `Types` is the data of mqueue.h; `Send`, `Receive`, `Control` and `Create` are the operations of
-- mq_send.c, mq_receive.c, mq_getattr.c with its neighbours, and mq_open.c.
pub mod Types
pub mod Send
pub mod Receive
pub mod Control
pub mod Spec
mod Links
pub mod Invariant
pub mod SendLaws
pub mod SendCalls
pub mod ReceiveCalls
pub mod ControlLaws
pub mod Run
pub mod Create
mod Tests
mod ControlTests
pub mod ReceiveLaws
