-- ===== src/Token.antt =====
-- include/token.hpp and include/errcodes.hpp: the kinds of tokens, and what can be wrong with one.
use cpp_lox.Prelude.{ℕ, List}

pub data TokenType : Type 0 where
  left_paren_token right_paren_token left_brace_token right_brace_token left_bracket_token
        right_bracket_token comma_token dot_token minus_token plus_token semicolon_token slash_token
        star_token bang_token bang_equal_token equal_token equal_equal_token greater_token
        greater_equal_token less_token less_equal_token identifier_token string_token
        number_int_token number_real_token and_token class_token const_token else_token false_token
        for_token fun_token if_token nil_token not_token or_token print_token return_token
        super_token this_token true_token var_token while_token error_token end_of_file_token
        colon_token question_mark_token question_dot_token switch_token case_token default_token
        break_token continue_token token_count :
      TokenType

pub data ErrorCode : Type 0 where
  no_error unterminated_string unrecognized_character invalid_decimal_literal : ErrorCode

-- The lexeme is kept as its characters.
pub record Token : Type 0 where
  pub token_type : TokenType
  pub line : ℕ
  pub err : ErrorCode
  pub lexeme : List ℕ
