-- ===== src/Codegen/Loops.antt =====
-- `LoopBlockStack` (src/codegen/code_generation_visitor.cxx): the blocks that `break` and `cycle` jump
-- to. `Block` is a basic block of LLVM; the head of the list is `back()`.
use b2_lang.Prelude.{Option, none, some, List, [], ◌∷◌}
use b2_lang.Error.{Result, ok, undefined}

pub record LoopBlocks (Block : Type 0) : Type 0 where
  pub body : Option Block
  pub end : Option Block

module _ {Block : Type 0} where
  unfoldable pub push_loop : LoopBlocks Block → List (LoopBlocks Block) → List (LoopBlocks Block)
  push_loop blocks stack = blocks ∷ stack

  unfoldable pub pop_loop : List (LoopBlocks Block) → Result (List (LoopBlocks Block))
  pop_loop [] = undefined
  pop_loop (blocks ∷ stack) = ok stack

  unfoldable pub back_loop : List (LoopBlocks Block) → Option (LoopBlocks Block)
  back_loop [] = none
  back_loop (blocks ∷ stack) = some blocks
