-- ===== src/Vm.antt =====
-- The object memory and the tables of the virtual machine, src/vm.
pub mod Oop
pub mod Format
pub mod CompiledMethod
pub mod Heap
pub mod ImmutableSpace
pub mod ClassTable
pub mod SymbolTable
pub mod MethodDict
pub mod Handler
pub mod HandleTable
