-- ===== src/Lib.antt =====
-- SAllocator is a memory allocator in C++, with a wrapper of the memory calls of the system and a
-- detector that records the allocations of a program. There is an older allocator beside them, of
-- which few parts are written, and a log and a test program. This library models these parts.
--
-- * include/SAllocator.hpp, the arena of each thread with fast bins of free blocks: Stellatus.
--   `allocate` and `deallocate` are `Arena::allocate` and `Arena::deallocate`, `allocate_n` and
--   `deallocate_n` those of the class `SAllocator`, `os_alloc` and `os_free` the functions of these
--   names. The headers of the chunks lie in an explicit memory, and a read of a bin that does not
--   exist is a fault. Stellatus/Invariant says which blocks are in use and which are free, and
--   Stellatus/History follows arbitrary sequences of calls by any threads, in which threads may
--   end. Stellatus/Footprint counts what the system holds in the end.
-- * src/SysApi.cpp and include/JAllocatorImpl/SysApi.h, the functions of the namespace OSAllocator:
--   OsAllocator. `os_alloc`, `os_alloc_big_page`, `os_free` and `get_page_size` are OS_Alloc,
--   OS_AllocBigPage, OS_Free and GetPageSize, for both platforms and for builds with and without
--   assertions. The words of the headers lie in an explicit memory, where a new mapping is filled
--   with zeros, and a store of a header outside of its mapping is a fault of its own. OsAllocator/History follows sequences of calls.
-- * MemDetector/include/MemDetector.hpp, the records of the operators new and delete: MemDetector.
--   `enter`, `on` and `leave` are the constructor, the method and the destructor of EnableGuard,
--   `new_global` and `delete_global` those of GlobalData, and MemDetector/Operators has the twenty
--   operators. MemDetector/Spec says what they promise. MemDetector/Threads is the step relation of
--   any number of threads that run the operators and of the export thread, `exprot_thead_entry`.
-- * MemDetector/include/intern/AllocAction.hpp, the tables of the detector: AllocAction.
-- * MemoryPool/include/Allocator.hpp, an allocator over a resource of the standard library, with a
--   record for each thread: SysAllocator. `sys_malloc`, `sys_realloc`, `sys_free` and `register` are
--   SysAllocator::Malloc, Realloc and Free, and MemDetector::Register of that file, and `print` of
--   SysAllocator/Report is its MemDetector::Print. SysAllocator/Unrecorded runs sequences of calls.
-- * include/JAllocatorImpl/MemoryPoolConfig.hpp, the table of size classes: MemoryPoolConfig.
-- * include/static_for.hpp, loops that the compiler unrolls: StaticFor.
-- * MemDetector/include/intern/addr2sym.hpp, the name of the function at an address: Addr2sym, with a
--   function for each way to compile `addr2sym`. Addr2sym/Backtrace cuts the lines of the system.
-- * MemDetector/Log.h, the log: Log. `print`, `set_log_file` and `write` are Print, SetLogFile and Write.
-- * MemoryPool/include/MemoryPool.hpp, a resource on the stack: StackMemory.
-- * include/JAllocator.hpp, include/JAllocatorImpl/Block.hpp and Chunk.hpp, the parts of the older
--   allocator that have a body: JAllocator. JAllocator/Nodes has the nodes from their constructors to
--   their destructors.
-- * src/main.cpp, the test program, over Stellatus and OsAllocator: TestProgram. TestProgram/Sizes is
--   about the loops of `main`.
--
-- The calls of the system and of the C library are no code of the repository. The first two parts
-- and the nodes of JAllocator take them as the interface `Os` of Os, whose laws `IsLawful` say what their manuals say: a call
-- fails and changes nothing, or returns a new aligned block that overlaps none, and a block that is
-- given back is gone. Os/Bump is an instance of it, on which the tests run. The detector takes the
-- functions of the C library as the interface `Libc` of MemDetector/Operators, without laws, and
-- SysAllocator takes the resource as the interface `Pool`, which allocates blocks that overlap none.
-- Addr2sym takes the calls of the system as `Symbols`, Log the file streams as `Files`, StackMemory the
-- resource of the standard library as `Monotonic`, and the tests `memset` as an argument.
--
-- Addresses and sizes are numbers, and each sum, difference and product of the code is taken modulo
-- 2 ^ 64 (Base/Words); Bits has the masks of alignments that are powers of two. A size_t and a
-- pointer have 8 bytes, alignof(std::max_align_t) and sizeof(Chunk) are 16. All loops are structural
-- recursions but the one of `test_large_alloc`, which runs on fuel: its fuel has to be above
-- LARGE_SIZE / 4096, which is 2 ^ 21.
--
-- In Stellatus calls run one after the other: the arenas are thread-local, and the threads share only
-- the system. In MemDetector they do too, since a call holds a lock; MemDetector/Nested says what
-- happens to calls within that time, and MemDetector/Threads cuts the calls into the steps between
-- which other threads can come in. The code never starts the export thread; its steps are those that
-- it would make. The number of the thread that makes a call is an argument. Left out are the output
-- of the test program, the clocks, and the contents of the blocks, but for the headers.
--
-- Not modelled: Bin, Arena and ThreadLocalList of include/JAllocatorImpl and BlockGroup of Chunk.hpp,
-- whose functions have no body or name types that do not exist, and the records of MemoryPool.hpp
-- and of the test program that nothing uses.
pub mod Base
pub mod Bits
pub mod Os
pub mod Stellatus
pub mod OsAllocator
pub mod AllocAction
pub mod MemDetector
pub mod MemoryPoolConfig
pub mod SysAllocator
pub mod StaticFor
pub mod Addr2sym
pub mod Log
pub mod StackMemory
pub mod JAllocator
pub mod TestProgram
