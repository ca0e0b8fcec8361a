-- ===== src/Compiler/Ast.antt =====
-- The syntax tree of a method, src/compiler/ast.h. The arrays of nodes and of cascade messages are
-- lists; strings are lists of bytes. A float literal keeps its text, which `strtod` reads.
use smalltalk_a_vm.Prelude.{ℕ, Bool, List}

abbrev pub Text : Type 0
Text = List ℕ

-- `STA_AstNode` and `STA_CascadeMsg`. The value of an integer is a 64-bit word.
mutual
  pub data Node : Type 0 where
    node_method :
        (line : ℕ) (selector : Text) (args : List Text) (temps : List Text) (body : Nodes) → Node
    node_return : (line : ℕ) (expr : Node) → Node
    node_assign : (line : ℕ) (variable : Node) (value : Node) → Node
    node_send : (line : ℕ) (receiver : Node) (selector : Text) (args : Nodes) → Node
    node_super_send : (line : ℕ) (receiver : Node) (selector : Text) (args : Nodes) → Node
    node_cascade : (line : ℕ) (receiver : Node) (messages : CascadeMsgs) → Node
    node_variable : (line : ℕ) (name : Text) → Node
    node_literal_int : (line : ℕ) (value : ℕ) → Node
    node_literal_float : (line : ℕ) (text : Text) → Node
    node_literal_string : (line : ℕ) (name : Text) → Node
    node_literal_symbol : (line : ℕ) (name : Text) → Node
    node_literal_char : (line : ℕ) (value : ℕ) → Node
    node_literal_array : (line : ℕ) (elements : Nodes) → Node
    node_literal_bool : (line : ℕ) (value : Bool) → Node
    node_literal_nil : (line : ℕ) → Node
    node_block : (line : ℕ) (args : List Text) (temps : List Text) (body : Nodes) → Node
    node_self : (line : ℕ) → Node

  pub data Nodes : Type 0 where
    no_nodes : Nodes
    nodes : Node → Nodes → Nodes

  pub data CascadeMsgs : Type 0 where
    no_messages : CascadeMsgs
    messages : (selector : Text) (args : Nodes) → CascadeMsgs → CascadeMsgs

-- `ptr_array_push`, on nodes and on cascade messages.
unfoldable pub push : Nodes → Node → Nodes
push no_nodes n = nodes n no_nodes
push (nodes x xs) n = nodes x (push xs n)

unfoldable pub push_message : CascadeMsgs → Text → Nodes → CascadeMsgs
push_message no_messages sel args = messages sel args no_messages
push_message (messages s xs rest) sel args = messages s xs (push_message rest sel args)

-- `n->line`
abbrev pub line_of : Node → ℕ
line_of (node_method line selector args temps body) = line
line_of (node_return line expr) = line
line_of (node_assign line variable value) = line
line_of (node_send line receiver selector args) = line
line_of (node_super_send line receiver selector args) = line
line_of (node_cascade line receiver msgs) = line
line_of (node_variable line name) = line
line_of (node_literal_int line value) = line
line_of (node_literal_float line text) = line
line_of (node_literal_string line name) = line
line_of (node_literal_symbol line name) = line
line_of (node_literal_char line value) = line
line_of (node_literal_array line elements) = line
line_of (node_literal_bool line value) = line
line_of (node_literal_nil line) = line
line_of (node_block line args temps body) = line
line_of (node_self line) = line
