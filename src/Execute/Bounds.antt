-- ===== src/Execute/Bounds.antt =====
-- `execute`: no instruction leaves the bounds of the stack and of the frames.
use cpp_lox.OpCode.{OpCode}
use cpp_lox.Execute.Keeps.{Keeps}
