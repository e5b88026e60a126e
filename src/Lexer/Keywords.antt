-- ===== src/Lexer/Keywords.antt =====
-- src/compiler/lexer.cpp: `check_keyword` and `get_identifier_type`. `text` is the source from
-- `start`, and `length` the number of characters from `start` to `current`.
use cpp_lox.Prelude.{
  ℕ, ◌+◌, Bool, true, false, ◌&&◌, List, [], ◌∷◌, ltb, ◌==◌, if◌then◌else◌, get_or, take, drop,
}
use cpp_lox.Token.{
  TokenType, and_token, break_token, case_token, class_token, const_token, continue_token,
  default_token, else_token, false_token, for_token, fun_token, identifier_token, if_token,
  nil_token, not_token, or_token, print_token, return_token, super_token, switch_token, this_token,
  true_token, var_token, while_token,
}

-- `==` of two strings
unfoldable pub same_text : List ℕ → List ℕ → Bool
same_text [] [] = true
same_text [] (y ∷ ys) = false
same_text (x ∷ xs) [] = false
same_text (x ∷ xs) (y ∷ ys) = (x == y) && same_text xs ys

unfoldable pub check_keyword : List ℕ → ℕ → ℕ → ℕ → List ℕ → TokenType → TokenType
check_keyword text length idx count rest type =
    if (length == idx + count) && same_text (take count (drop idx text)) rest
    then type
    else identifier_token

unfoldable pub get_identifier_type : List ℕ → ℕ → TokenType
get_identifier_type text length =
    if get_or text 0 0 == 97
    then check_keyword text length 1 2 (110 ∷ 100 ∷ []) and_token
    else if get_or text 0 0 == 99
    then (if ltb 1 length
        then (if get_or text 1 0 == 97
            then check_keyword text length 2 2 (115 ∷ 101 ∷ []) case_token
            else if get_or text 1 0 == 108
            then check_keyword text length 2 3 (97 ∷ 115 ∷ 115 ∷ []) class_token
            else if get_or text 1 0 == 111
            then (if ltb 3 length && (get_or text 2 0 == 110)
                then (if get_or text 3 0 == 115
                    then check_keyword text length 4 1 (116 ∷ []) const_token
                    else if get_or text 3 0 == 116
                    then check_keyword text length 4 4 (105 ∷ 110 ∷ 117 ∷ 101 ∷ []) continue_token
                    else identifier_token)
                else identifier_token)
            else identifier_token)
        else identifier_token)
    else if get_or text 0 0 == 98
    then check_keyword text length 1 4 (114 ∷ 101 ∷ 97 ∷ 107 ∷ []) break_token
    else if get_or text 0 0 == 100
    then check_keyword text length 1 6 (101 ∷ 102 ∷ 97 ∷ 117 ∷ 108 ∷ 116 ∷ []) default_token
    else if get_or text 0 0 == 101
    then (if ltb 1 length
        then (if get_or text 1 0 == 99
            then check_keyword text length 2 2 (104 ∷ 111 ∷ []) print_token
            else if get_or text 1 0 == 108
            then check_keyword text length 2 2 (115 ∷ 101 ∷ []) else_token
            else identifier_token)
        else identifier_token)
    else if get_or text 0 0 == 102
    then (if ltb 1 length
        then (if get_or text 1 0 == 97
            then check_keyword text length 2 3 (108 ∷ 115 ∷ 101 ∷ []) false_token
            else if get_or text 1 0 == 111
            then check_keyword text length 2 1 (114 ∷ []) for_token
            else if get_or text 1 0 == 117
            then check_keyword text length 2 1 (110 ∷ []) fun_token
            else identifier_token)
        else identifier_token)
    else if get_or text 0 0 == 105
    then check_keyword text length 1 1 (102 ∷ []) if_token
    else if get_or text 0 0 == 110
    then (if ltb 1 length
        then (if get_or text 1 0 == 105
            then check_keyword text length 2 1 (108 ∷ []) nil_token
            else if get_or text 1 0 == 111
            then check_keyword text length 2 1 (116 ∷ []) not_token
            else identifier_token)
        else identifier_token)
    else if get_or text 0 0 == 111
    then check_keyword text length 1 1 (114 ∷ []) or_token
    else if get_or text 0 0 == 114
    then check_keyword text length 1 5 (101 ∷ 116 ∷ 117 ∷ 114 ∷ 110 ∷ []) return_token
    else if get_or text 0 0 == 115
    then (if ltb 1 length
        then (if get_or text 1 0 == 119
            then check_keyword text length 2 4 (105 ∷ 116 ∷ 99 ∷ 104 ∷ []) switch_token
            else if get_or text 1 0 == 117
            then check_keyword text length 2 3 (112 ∷ 101 ∷ 114 ∷ []) super_token
            else identifier_token)
        else identifier_token)
    else if get_or text 0 0 == 116
    then (if ltb 1 length
        then (if get_or text 1 0 == 104
            then check_keyword text length 2 2 (105 ∷ 115 ∷ []) this_token
            else if get_or text 1 0 == 114
            then check_keyword text length 2 2 (117 ∷ 101 ∷ []) true_token
            else identifier_token)
        else identifier_token)
    else if get_or text 0 0 == 118
    then check_keyword text length 1 2 (97 ∷ 114 ∷ []) var_token
    else if get_or text 0 0 == 119
    then check_keyword text length 1 4 (104 ∷ 105 ∷ 108 ∷ 101 ∷ []) while_token
    else identifier_token

-- the keywords of the language
unfoldable pub keyword : List ℕ → TokenType
keyword w =
    if same_text w (97 ∷ 110 ∷ 100 ∷ [])
    then and_token
    else if same_text w (99 ∷ 97 ∷ 115 ∷ 101 ∷ [])
    then case_token
    else if same_text w (99 ∷ 108 ∷ 97 ∷ 115 ∷ 115 ∷ [])
    then class_token
    else if same_text w (99 ∷ 111 ∷ 110 ∷ 115 ∷ 116 ∷ [])
    then const_token
    else if same_text w (99 ∷ 111 ∷ 110 ∷ 116 ∷ 105 ∷ 110 ∷ 117 ∷ 101 ∷ [])
    then continue_token
    else if same_text w (98 ∷ 114 ∷ 101 ∷ 97 ∷ 107 ∷ [])
    then break_token
    else if same_text w (100 ∷ 101 ∷ 102 ∷ 97 ∷ 117 ∷ 108 ∷ 116 ∷ [])
    then default_token
    else if same_text w (101 ∷ 99 ∷ 104 ∷ 111 ∷ [])
    then print_token
    else if same_text w (101 ∷ 108 ∷ 115 ∷ 101 ∷ [])
    then else_token
    else if same_text w (102 ∷ 97 ∷ 108 ∷ 115 ∷ 101 ∷ [])
    then false_token
    else if same_text w (102 ∷ 111 ∷ 114 ∷ [])
    then for_token
    else if same_text w (102 ∷ 117 ∷ 110 ∷ [])
    then fun_token
    else if same_text w (105 ∷ 102 ∷ [])
    then if_token
    else if same_text w (110 ∷ 105 ∷ 108 ∷ [])
    then nil_token
    else if same_text w (110 ∷ 111 ∷ 116 ∷ [])
    then not_token
    else if same_text w (111 ∷ 114 ∷ [])
    then or_token
    else if same_text w (114 ∷ 101 ∷ 116 ∷ 117 ∷ 114 ∷ 110 ∷ [])
    then return_token
    else if same_text w (115 ∷ 119 ∷ 105 ∷ 116 ∷ 99 ∷ 104 ∷ [])
    then switch_token
    else if same_text w (115 ∷ 117 ∷ 112 ∷ 101 ∷ 114 ∷ [])
    then super_token
    else if same_text w (116 ∷ 104 ∷ 105 ∷ 115 ∷ [])
    then this_token
    else if same_text w (116 ∷ 114 ∷ 117 ∷ 101 ∷ [])
    then true_token
    else if same_text w (118 ∷ 97 ∷ 114 ∷ [])
    then var_token
    else if same_text w (119 ∷ 104 ∷ 105 ∷ 108 ∷ 101 ∷ [])
    then while_token
    else identifier_token
