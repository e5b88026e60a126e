-- ===== src/Lexer/Tests.antt =====
-- The tokens of a small source.
use cpp_lox.Prelude.{ℕ, ◌≤◌, ◌≡◌, refl, true, List, [], ◌∷◌, arith, length}
use cpp_lox.Token.{
  TokenType, Token, fun_token, identifier_token, number_real_token, question_dot_token,
  end_of_file_token, no_error,
}
use cpp_lox.Lexer.{
  Iterator, is_digit, is_alpha, is_word, is_at_end, peek, peek_next, match_char, skip_comment,
  blank, skip_whitespace, skip_string, match_string, skip_while, match_number, match_identifier,
  match_either, scan_symbol, scan_token, next, initial, steps, is_end,
}
use cpp_lox.Lexer.Keywords.{same_text, check_keyword, get_identifier_type, keyword}
use cpp_lox.Lexer.KeywordTable.{get_identifier_type-take}
use cpp_lox.Lexer.Scan.{Scanned, next-Scanned}
use cpp_lox.Lexer.Tokens.{initial-IsAt, steps-IsEnd}

-- `fun // x`, a line end, `f?.3.5`
abbrev source : List ℕ
source = 102 ∷ 117 ∷ 110 ∷ 32 ∷ 47 ∷ 47 ∷ 32 ∷ 120 ∷ 10 ∷ 102 ∷ 63 ∷ 46 ∷ 51 ∷ 46 ∷ 53 ∷ []

abbrev no_token : Token
no_token = record { token_type = end_of_file_token; line = 1; err = no_error; lexeme = [] }

abbrev begin : Iterator
begin = next source (initial source no_token)

program : Unit {0}
unfolding is_digit is_alpha is_word is_at_end peek peek_next match_char skip_comment blank
    skip_whitespace skip_string match_string skip_while match_number match_identifier match_either
    scan_symbol scan_token next initial steps is_end same_text check_keyword get_identifier_type
program = tt

abbrev kinds : List TokenType
kinds =
    begin.current_token_type
    ∷ (steps source 1 begin).current_token_type
    ∷ (steps source 2 begin).current_token_type
    ∷ (steps source 3 begin).current_token_type
    ∷ (steps source 4 begin).current_token_type
    ∷ []

kinds_lem :
    kinds
    ≡ fun_token ∷ identifier_token ∷ question_dot_token ∷ number_real_token ∷ end_of_file_token ∷ []
unfolding program
kinds_lem = refl

second_line : (steps source 1 begin).cached_token.line ≡ 2
unfolding program
second_line = refl

next-Scanned_example : Scanned source (initial source no_token) begin.current_token_type begin
next-Scanned_example = next-Scanned source (initial source no_token) (initial-IsAt source no_token)

steps-IsEnd_example : (n : ℕ) × (n ≤ length source) × (is_end source (steps source n begin) ≡ true)
steps-IsEnd_example = steps-IsEnd source no_token

-- `foreach` is no keyword, its first three characters are one
abbrev word : List ℕ
word = 102 ∷ 111 ∷ 114 ∷ 101 ∷ 97 ∷ 99 ∷ 104 ∷ []

get_identifier_type-take_example : get_identifier_type word 3 ≡ keyword (102 ∷ 111 ∷ 114 ∷ [])
get_identifier_type-take_example = get_identifier_type-take word 3 (omega arith) (omega arith)
