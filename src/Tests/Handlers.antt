-- ===== src/Tests/Handlers.antt =====
-- The handler stack, src/vm/handler.c, in a hierarchy of three classes.
use smalltalk_a_vm.Prelude.{
  ℕ, ◌<◌, ◌≡◌, ◌≢◌, arith, true, false, none, some, List, [], ◌∷◌, ◌++◌, ◌==◌, if◌then◌else◌, ◌⊎◌,
}
use smalltalk_a_vm.Vm.ClassTable.{ClassTable}
use smalltalk_a_vm.Vm.Handler.{
  HandlerEntry, ExecContext, handlers, push_ctx, pop_ctx, get_signaled_ctx, class_of, find,
}
use smalltalk_a_vm.Vm.Handler.Find.{push-pop, find_innermost, Matches, NoneMatches}

-- Error, 32, below Exception, 16, below Object, 8; nil is 4.
abbrev superclass : ℕ → ℕ
superclass c = if c == 32 then 16 else (if c == 16 then 8 else 4)

abbrev rank : ℕ → ℕ
rank c = if c == 32 then 3 else (if c == 16 then 2 else (if c == 4 then 0 else 1))

ranked : (c : ℕ) → c ≢ 0 → c ≢ 4 → rank (superclass c) < rank c
ranked c a b = ground arith

-- Every object that is no immediate has the class index 2, which is Error.
abbrev classes : ClassTable
classes = record { entries = 0 ∷ 8 ∷ 32 ∷ [] }

abbrev class_index : ℕ → ℕ
class_index obj = 2

abbrev on_error : HandlerEntry
on_error = record { exception_class = 16; handler_block = 64; is_ensure = false; ensure_block = 0 }

abbrev ensure : HandlerEntry
ensure = record { exception_class = 32; handler_block = 0; is_ensure = true; ensure_block = 80 }

abbrev running : ExecContext
running = record {
  actor = some (record { handler_top = on_error ∷ []; signaled_exception = 0 });
  vm = record { handler_top = []; signaled_exception = 0 };
}

push-pop_example :
    ((handlers (push_ctx running ensure)).handler_top ≡ ensure ∷ (handlers running).handler_top)
    × (pop_ctx (push_ctx running ensure) ≡ running)
    × (get_signaled_ctx (push_ctx running ensure) ≡ get_signaled_ctx running)
    × ((running.actor ≡ none) ⊎ ((push_ctx running ensure).vm ≡ running.vm))
push-pop_example = push-pop running ensure

low : rank (class_of class_index superclass 4 classes 1600) < 4
low = ground arith

find_innermost_example :
    ((find class_index superclass 4 classes 4 (ensure ∷ on_error ∷ []) 1600 ≡ some none)
      × NoneMatches class_index superclass 4 rank ranked classes 1600 (ensure ∷ on_error ∷ []))
    ⊎ ((before : List HandlerEntry) × (entry : HandlerEntry) × (rest : List HandlerEntry) × (find
            class_index superclass 4 classes 4
            (ensure ∷ on_error ∷ [])
            1600
          ≡ some (some entry))
        × (ensure ∷ on_error ∷ [] ≡ before ++ (entry ∷ rest))
        × NoneMatches class_index superclass 4 rank ranked classes 1600 before
        × Matches class_index superclass 4 rank ranked classes 1600 entry)
find_innermost_example =
    find_innermost class_index superclass 4 rank ranked classes 4 (ensure ∷ on_error ∷ []) 1600 low
