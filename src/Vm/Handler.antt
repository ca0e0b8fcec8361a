-- ===== src/Vm/Handler.antt =====
-- The exception handler stack, src/vm/handler.c. A chain is the list of its entries from the top;
-- what `setjmp` and the slab save is not modelled. The class index in an object's header, the
-- superclass slot of a class and nil are read from memory: they are arguments.
pub mod Find
use smalltalk_a_vm.Prelude.{
  ℕ, zero, suc, Bool, true, false, not, ◌&&◌, ◌||◌, Option, none, some, List, [], ◌∷◌, ◌==◌,
  if◌then◌else◌,
}
use smalltalk_a_vm.Vm.Oop.{is_smallint, is_char}
use smalltalk_a_vm.Vm.ClassTable.{ClassTable, get_class}

pub record HandlerEntry : Type 0 where
  pub exception_class : ℕ
  pub handler_block : ℕ
  pub is_ensure : Bool
  pub ensure_block : ℕ

-- `handler_top` and `signaled_exception`, which an actor has and the VM has.
pub record Handlers : Type 0 where
  pub handler_top : List HandlerEntry
  pub signaled_exception : ℕ

pub record ExecContext : Type 0 where
  pub actor : Option Handlers
  pub vm : Handlers

-- What `sta_handler_top_ptr` and `sta_handler_signaled_ptr` point into, read and written.
unfoldable pub handlers : ExecContext → Handlers
handlers ctx = elim ctx.actor [ none ↦ ctx.vm | some a ↦ a ]

unfoldable pub with_handlers : ExecContext → Handlers → ExecContext
with_handlers ctx h = elim ctx.actor [
  | none ↦ record ctx { vm = h }
  | some a ↦ record ctx { actor = some h }
]

unfoldable pub push : Handlers → HandlerEntry → Handlers
push h entry = record h { handler_top = entry ∷ h.handler_top }

abbrev pub below : List HandlerEntry → List HandlerEntry
below [] = []
below (entry ∷ prev) = prev

unfoldable pub pop : Handlers → Handlers
pop h = record h { handler_top = below h.handler_top }

unfoldable pub push_ctx : ExecContext → HandlerEntry → ExecContext
push_ctx ctx entry = with_handlers ctx (push (handlers ctx) entry)

unfoldable pub pop_ctx : ExecContext → ExecContext
pop_ctx ctx = with_handlers ctx (pop (handlers ctx))

unfoldable pub set_signaled_ctx : ExecContext → ℕ → ExecContext
set_signaled_ctx ctx exc = with_handlers ctx (record (handlers ctx) { signaled_exception = exc })

unfoldable pub get_signaled_ctx : ExecContext → ℕ
get_signaled_ctx ctx = (handlers ctx).signaled_exception

module _ (class_index superclass : ℕ → ℕ) (nil_oop : ℕ) where
  -- The loop of `is_kind_of`, on fuel.
  unfoldable pub climb : ℕ → ℕ → ℕ → Option Bool
  climb zero cls target_class = none
  climb (suc fuel) cls target_class =
      let rest = climb fuel (superclass cls) target_class in
      if cls == 0 || cls == nil_oop
      then some false
      else (if cls == target_class then some true else rest)

  unfoldable pub class_of : ClassTable → ℕ → ℕ
  class_of ct obj =
      get_class ct (if is_smallint obj then 1 else (if is_char obj then 6 else class_index obj))

  unfoldable pub is_kind_of : ClassTable → ℕ → ℕ → ℕ → Option Bool
  is_kind_of ct fuel obj target_class = climb fuel (class_of ct obj) target_class

  -- `sta_handler_find` and, on the context's chain, `sta_handler_find_ctx`: the outer option is none
  -- where the fuel runs out.
  unfoldable pub find : ClassTable → ℕ → List HandlerEntry → ℕ → Option (Option HandlerEntry)
  find ct fuel [] exception = some none
  find ct fuel (entry ∷ prev) exception =
      let rest = find ct fuel prev exception in
      if entry.is_ensure then rest else elim (is_kind_of ct fuel exception entry.exception_class) [
        | none ↦ none
        | some true ↦ some (some entry)
        | some false ↦ rest
      ]

  unfoldable pub find_ctx : ClassTable → ℕ → ExecContext → ℕ → Option (Option HandlerEntry)
  find_ctx ct fuel ctx exception = find ct fuel (handlers ctx).handler_top exception
