-- ===== src/Lib.antt =====
-- cpp-utils: a verification library.
--
-- The repository holds small libraries for C++ programs. This development models
--   * serialize/serialize.h, serialize/serialize.cpp and serialize/example.hpp (Serialize.antt and
--     the folder Serialize). A `Serialize` writes values into a list of nodes, or reads them from a
--     copy of a string. `Serialize.antt` has the object, its constructors, `write`, `read` and
--     `toString`; `Fixed`, `Signed`, `ZigZag`, `Varint` and `Text` the values; `File` the files;
--     `Person` the example. `Writer`, `Spill`, `Lost` and `Streams` hold what is proved of the object.
--   * log/logStream.h and log/logStream.cpp (Log.antt and the folder Log). `Log/Stream.antt` has the
--     buffer of a thread, `Log/Record.antt` what is put into it for a record, `Log/Format.antt` the
--     numbers, `Log/Calendar.antt` `FastSecondToDate`. `Log/Logger.antt` has the class `Logger` of
--     log/logger.h and log/logger.cpp: a buffer for each thread.
--   * log/asyncLogging.h and log/asyncLogging.cpp (`Log/Async.antt`): the buffers that threads append
--     to and the thread that writes them, as a step relation, with the names of the files in
--     `Log/Async/Roll.antt`. It is the output function that programs give to `LogStream`.
--     `Log/Appender.antt` is log/appender.h, and `Log/Init.antt` is log/flog.h, which joins the logger
--     and the backend: `Log/Init/Ending.antt` has its destructor, step by step, and
--     `Log/Init/Ended.antt` what it does.
--   * ds/list.h (`Ds/LinkedList.antt`), a list with positions, ds/kv_skiplist.h (`Ds/SkipList.antt`), a
--     skip list on an explicit heap, and itc/mq.h (`Mq.antt`), a queue between threads, as a step
--     relation. The levels of a skip list are lists of nodes in `Ds/SkipList/Rows.antt` and
--     `Ds/SkipList/Whole.antt`; `Ds/SkipList/Spec.antt` has what the list is to its users,
--     `Ds/SkipList/Filled.antt` is about `insert` and `find`, `Ds/SkipList/Emptied.antt` about `erase`,
--     and `Ds/SkipList/Store.antt` about calls in a row.
--   * config/config.h and config/config.cpp (Config.antt and the folder Config). `Config/Var.antt` has
--     the class `ConfigVar`, `Config/Registry.antt` the table of the variables, `Config/Tree.antt` and
--     `Config/Registry/Load.antt` what is done with a YAML file, `Config/Cast.antt` the conversions
--     between containers and texts, and `Config/Yaml.antt` what is used of yaml-cpp. The children of
--     `Config/Cast.antt` are about sequences (`RoundTrip`), sets (`Members`) and maps (`Maps` and
--     `Unordered`).
--   * cct/fiber.h and cct/fiber.cpp (`Cct/Fibers.antt`), the fibers of a thread, with what `swapcontext`
--     saves and takes up as data; cct/thread.h, cct/thread.cpp and cct/currentThread.cpp
--     (`Cct/Threads.antt`); cct/mutex.h, cct/condition.h, cct/sem.h and cct/sem.cpp
--     (`Cct/Mutex.antt`, `Cct/Condition.antt`, `Cct/Semaphore.antt`);
--     cct/threadPool.h and cct/threadPool.cpp (`Cct/Pool.antt`), whose queue of tasks is `Mq`.
--     `Cct/Threads/Starting.antt` has the two threads of `start` and `join`, step by step.
--   * timestamp.h and timestamp.cpp (`Timestamp.antt`), and hook.h and hook.cpp (`Hook.antt`).
-- The functions of the program have their names in small letters with `_` between the words:
-- `writeVarUint32` is `write_var_uint32`. Operators of C++ have a name of their own.
--
-- How the program is modelled. An object is a record, and a member function takes it and returns it.
-- `Outcome` (Base/Result.antt) is what a call comes to: `ok`, `fault` for undefined behaviour (an
-- access outside of an array, a negative length, an overflow), `aborted` for a failed assertion and
-- for `exit`, `thrown` for an exception, and `out_of_fuel`. A byte is a number below 256, a string is
-- the list of its bytes, an integer of w bits is a number with its wrap-around written out, and a
-- signed one is in `ℤ`. `malloc`, the byte order of the machine, the file system, `strftime`, yaml-cpp
-- and boost::lexical_cast are parameters.
--
-- Fuel. `fill_nodes` has one round more than there are bytes, and each round takes some; the readers
-- of varints have one round for every seven bits and one for the end of the loop; `push_digits` and
-- `push_hex` have one round more than the number, which every round divides. The fuel of `append`
-- counts the calls that it makes of itself: two are enough where the record fits the buffer, and
-- where it does not no number is. `walk` of the skip list has one step more than the heap has nodes.
-- `list_all_nodes` has one call more than the tree is deep, and `decimal` one round more than the
-- number.
--
-- What is not modelled: the child process of `rollFile`, which runs another program; the switch
-- between threads within a call that holds a lock; the tests and experiments, and the programs
-- that pack log files; ds/hashtable.h, which declares a class and defines no operation of it but
-- `size`; the printing of `Person`; a callback of a `ConfigVar` that sets the variable that it is
-- called for; what other threads do to a skip list within `find`, which reads a node when the
-- lock is free again; and deallocation, but for the nodes of the skip list, the streams of the
-- logger and the fibers.
pub mod Base
pub mod Serialize
pub mod Log
pub mod Ds
pub mod Config
pub mod Cct
pub mod Mq
pub mod Timestamp
pub mod Hook
