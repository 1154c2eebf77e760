-- ===== src/Cct.antt =====
-- cct/: fibers, threads and the thread pool.
pub mod Fibers
pub mod Threads
pub mod Condition
pub mod Mutex
pub mod Semaphore
pub mod Pool
mod Examples
