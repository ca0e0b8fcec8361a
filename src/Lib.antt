-- ===== src/Lib.antt =====
-- Smalltalk/A, a Smalltalk virtual machine with actors in C, modelled and verified part by part.
--
-- The program's parts. src/vm is the object memory: tagged words (oop.h), the bump allocators of
-- the actor heaps and of the shared immutable space (heap.c, immutable_space.c), and the tables
-- that stand on them: classes by index (class_table.c), symbols by their bytes (symbol_table.c),
-- methods by selector (method_dict.c), handles on objects for C code (handle.c), and the chain of
-- exception handlers (handler.c). A method dictionary hashes a selector by the hash that the symbol
-- table stored in it, and an exception finds its handler through the class table. src/compiler turns
-- source text into methods, with a scanner and a recursive descent parser. src/actor runs actors:
-- the registry finds them by id for messages and for the waiters of futures, mailboxes hold the
-- messages to them, futures, found by id in a table, carry results between them, supervisors
-- restart them. src/scheduler spreads them over threads that steal work from each other's deques.
--
-- What models what.
--   Prelude: names from the libraries, C's Boolean tests, arrays as lists with native indices
--     (Lists, Parts), sums (Sums), masks (Words), `|` (Ors), and Pow2 for next_pow2 of
--     src/actor/registry.c and round_up_pow2 of src/vm/symbol_table.c.
--   Probe: open addressing with linear probing, which the C code writes out by hand in each table.
--     `seek` and `walk` are its loops, a record `Slots` is what a table says of its slots, and the
--     child modules prove once what the tables share: the probing invariant, searches, writes,
--     tombstones and rehashing.
--   Actor.Registry: src/actor/registry.c. Its operations run under a mutex and are functions on
--     the table. Looking up an actor raises its reference count, which is part of the result.
--   Actor.Future: src/actor/future.c. The calls of sta_future_resolve and sta_future_fail that run
--     on one future are threads with a program counter; a schedule says which one runs to its next
--     atomic operation. The plain stores of the winner are one step, since no other call reads or
--     writes those fields before the release store. The call of wake_waiter is one step too:
--     its lock, its lookup and its CAS on the waiter are not steps of this system.
--   Actor.FutureTable: src/actor/future_table.c. A removal closes the gap by putting the rest of the
--     cluster again: Probe.Gap, Refill, Close and Remove, for any table of this kind.
--   Actor.Mailbox: src/actor/mailbox.c, on a store of nodes that are allocated and freed. Threads
--     run sta_mailbox_enqueue and the owner sta_mailbox_dequeue, each step up to the next atomic
--     operation; `fault` is set when a node is used that is not allocated. The steps are
--     sequentially consistent.
--   Actor.Supervisor: src/actor/supervisor.c. Termination, escalation and events are a log.
--   Compiler.Scanner: src/compiler/scanner.c, with `current` as the bytes that are left.
--   Compiler.Ast, Compiler.Parser: src/compiler/ast.h and parser.c. Each level of precedence takes
--     the parser of nested expressions as an argument (Literals, Blocks, Sends, Expressions,
--     Methods); Runs and Rules are the rules by which the other modules follow the code.
--   Scheduler.Deque: src/scheduler/deque.c, one operation at a time, with counters that wrap.
--   Vm.Oop, Vm.Format, Vm.CompiledMethod: src/vm/oop.h, format.h and compiled_method.h.
--   Vm.Heap, Vm.ImmutableSpace: src/vm/heap.c and immutable_space.c, with the objects allocated.
--   Vm.ClassTable, Vm.SymbolTable, Vm.MethodDict: src/vm/class_table.c, symbol_table.c and
--     method_dict.c. A symbol is the record of its OOP, hash and bytes.
--   Vm.HandleTable: src/vm/handle.c, with the slabs numbered along their chain.
--   Vm.Handler: src/vm/handler.c.
--   Tests: runs on concrete inputs, and each theorem at one.
--
-- Numbers. Words are natural numbers with their wrap-around written out, as in `% 2 ^ 32`. An
-- allocation that may fail is an argument that says whether it succeeds, where the code goes on
-- after a failure; the hash table theorems ask for a capacity that can still double without
-- passing 2^29 or 2^28, far below where the counters overflow.
--
-- Loops. A loop that ends at an empty slot runs on as many rounds as the table has slots, and its
-- theorems prove that this is enough: a valid table has an empty slot, and a round visits each slot
-- once. The handler search climbs a class hierarchy on fuel, which is enough above the rank of the
-- exception's class. The parser's loops and recursion have fuel above the length of the source, of
-- which each consumes some. The loops of sta_mailbox_destroy and sta_mailbox_walk have fuel above
-- the number of messages. All other loops are recursion on a list or on their counter.
--
-- Not modelled. Message envelopes, frames, deep copies, the collector, the code generator, the
-- interpreter and its primitives, the scheduler's threads, images and the bootstrap; the prototypes
-- in *_spike.c; the memory orders of atomic operations; the fields of a future when it is created;
-- and what only frees memory.
pub mod Prelude
pub mod Probe
pub mod Actor
pub mod Compiler
pub mod Vm
pub mod Scheduler
pub mod Tests
