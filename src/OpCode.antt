-- ===== src/OpCode.antt =====
-- include/opcode.hpp: the operations of the machine, with the byte of each in `decode`.
use cpp_lox.Prelude.{ℕ, Option, List, [], ◌∷◌, get_elem?}

pub data OpCode : Type 0 where
  op_invalid op_return op_load_constant op_load_constant_long op_negate op_add op_subtract
        op_multiply op_divide op_nil op_uninitialized op_true op_false op_not op_equal op_greater
        op_less op_print op_pop_top op_define_global op_store_global op_load_global op_store_local
        op_load_local op_store_upvalue op_load_upvalue op_store_property op_load_property
        op_load_property_safe op_load_super op_load_index op_store_index op_close_upvalue
        op_jump_if_false op_jump_if_true op_pop_jump_if_false op_jump_forward op_jump_backward
        op_dup_top op_call op_class op_invoke op_super_invoke op_inherit op_closure op_zero
        op_minus_one op_one op_method op_list op_list_append op_map op_map_add :
      OpCode

-- `static_cast<uint8_t>(op)`
unfoldable pub to_byte : OpCode → ℕ
to_byte op_invalid = 0
to_byte op_return = 1
to_byte op_load_constant = 2
to_byte op_load_constant_long = 3
to_byte op_negate = 4
to_byte op_add = 5
to_byte op_subtract = 6
to_byte op_multiply = 7
to_byte op_divide = 8
to_byte op_nil = 9
to_byte op_uninitialized = 10
to_byte op_true = 11
to_byte op_false = 12
to_byte op_not = 13
to_byte op_equal = 14
to_byte op_greater = 15
to_byte op_less = 16
to_byte op_print = 17
to_byte op_pop_top = 18
to_byte op_define_global = 19
to_byte op_store_global = 20
to_byte op_load_global = 21
to_byte op_store_local = 22
to_byte op_load_local = 23
to_byte op_store_upvalue = 24
to_byte op_load_upvalue = 25
to_byte op_store_property = 26
to_byte op_load_property = 27
to_byte op_load_property_safe = 28
to_byte op_load_super = 29
to_byte op_load_index = 30
to_byte op_store_index = 31
to_byte op_close_upvalue = 32
to_byte op_jump_if_false = 33
to_byte op_jump_if_true = 34
to_byte op_pop_jump_if_false = 35
to_byte op_jump_forward = 36
to_byte op_jump_backward = 37
to_byte op_dup_top = 38
to_byte op_call = 39
to_byte op_class = 40
to_byte op_invoke = 41
to_byte op_super_invoke = 42
to_byte op_inherit = 43
to_byte op_closure = 44
to_byte op_zero = 45
to_byte op_minus_one = 46
to_byte op_one = 47
to_byte op_method = 48
to_byte op_list = 49
to_byte op_list_append = 50
to_byte op_map = 51
to_byte op_map_add = 52

-- the operations in the order of their bytes
abbrev pub opcodes : List OpCode
opcodes =
    op_invalid ∷ op_return ∷ op_load_constant ∷ op_load_constant_long ∷ op_negate ∷ op_add
    ∷ op_subtract ∷ op_multiply ∷ op_divide ∷ op_nil ∷ op_uninitialized ∷ op_true ∷ op_false
    ∷ op_not ∷ op_equal ∷ op_greater ∷ op_less ∷ op_print ∷ op_pop_top ∷ op_define_global
    ∷ op_store_global ∷ op_load_global ∷ op_store_local ∷ op_load_local ∷ op_store_upvalue
    ∷ op_load_upvalue ∷ op_store_property ∷ op_load_property ∷ op_load_property_safe ∷ op_load_super
    ∷ op_load_index ∷ op_store_index ∷ op_close_upvalue ∷ op_jump_if_false ∷ op_jump_if_true
    ∷ op_pop_jump_if_false ∷ op_jump_forward ∷ op_jump_backward ∷ op_dup_top ∷ op_call ∷ op_class
    ∷ op_invoke ∷ op_super_invoke ∷ op_inherit ∷ op_closure ∷ op_zero ∷ op_minus_one ∷ op_one
    ∷ op_method ∷ op_list ∷ op_list_append ∷ op_map ∷ op_map_add ∷ []

-- `static_cast<OpCode>(byte)`; `none` is a byte that is no operation
unfoldable pub decode : ℕ → Option OpCode
decode byte = get_elem? opcodes byte
