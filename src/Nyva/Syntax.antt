-- ===== src/Nyva/Syntax.antt =====
-- The syntax tree of src/nyva.c. An argument list and a parameter list are always the child of one kind of
-- node, and stand in it; a parameter is an identifier, and is kept as its name.
use orta_vm.Prelude.{ℕ, suc, List, Str}
use orta_vm.Nyva.Tokens.{TokenType}

mutual
  pub data Node : Type 0 where
    var_declaration : Str → Child → Node
    assignment : Str → Node → Node
    -- The condition, the body and the body of `else`.
    if_statement : Node → Nodes → Branch → Node
    binary_expression : Node → TokenType → Node → Node
    identifier : Str → Node
    -- The value is an `int`, kept as its 32 bits.
    number : ℕ → Node
    string : Str → Node
    function_call : Str → Nodes → Node
    function_definition : Str → List Str → Nodes → Node
    return_statement : Child → Node
    for_statement : Node → Node → Node → Nodes → Node
    import_statement : Str → Node
    break_statement : Node
    while_statement : Node → Nodes → Node

  -- An array of nodes with its count.
  pub data Nodes : Type 0 where
    no_nodes : Nodes
    node : Node → Nodes → Nodes

  -- A pointer to a node that may be NULL.
  pub data Child : Type 0 where
    null_node : Child
    child : Node → Child

  -- An array that may be NULL.
  pub data Branch : Type 0 where
    no_branch : Branch
    branch : Nodes → Branch

unfoldable pub count_nodes : Nodes → ℕ
count_nodes no_nodes = 0
count_nodes (node n ns) = suc (count_nodes ns)
