-- ===== src/Lexer.antt =====
-- src/compiler/lexer.cpp and include/lexer.hpp: the iterator over the tokens of a source.
-- The source is a list of bytes; `isalpha`, `isdigit` and `isalnum` are those of the "C" locale. A
-- loop runs on fuel: each round of it takes a character, and `width` is the number of characters.
pub mod Keywords
pub mod KeywordTable
pub mod Position
pub mod Loops
pub mod Scan
pub mod Tokens
mod Tests
use cpp_lox.Prelude.{
  ℕ, zero, suc, ◌+◌, ◌-◌, Bool, true, false, not, ◌&&◌, ◌||◌, List, [], ◌∷◌, ltb, leb, ◌==◌,
  if◌then◌else◌, length, get_or, take, drop,
}
use cpp_lox.Token.{
  TokenType, left_paren_token, right_paren_token, left_brace_token, right_brace_token,
  left_bracket_token, right_bracket_token, comma_token, dot_token, minus_token, plus_token,
  semicolon_token, slash_token, star_token, bang_token, bang_equal_token, equal_token,
  equal_equal_token, greater_token, greater_equal_token, less_token, less_equal_token, string_token,
  number_int_token, number_real_token, error_token, end_of_file_token, colon_token,
  question_mark_token, question_dot_token, ErrorCode, no_error, unterminated_string,
  unrecognized_character, invalid_decimal_literal, Token,
}
use Keywords.{get_identifier_type}

pub record Iterator : Type 0 where
  pub start : ℕ
  pub current : ℕ
  pub line : ℕ
  pub current_token_type : TokenType
  pub err : ErrorCode
  pub cached_token : Token

unfoldable pub is_digit : ℕ → Bool
is_digit ch = leb 48 ch && leb ch 57

unfoldable pub is_alpha : ℕ → Bool
is_alpha ch = (leb 65 ch && leb ch 90) || (leb 97 ch && leb ch 122)

-- `isalnum(ch) || ch == '_'`
unfoldable pub is_word : ℕ → Bool
is_word ch = is_alpha ch || is_digit ch || (ch == 95)

-- what a round of `skip_whitespace` meets
pub data Blank : Type 0 where
  space newline comment other : Blank

module _ (source : List ℕ) where
  abbrev pub width : ℕ
  width = length source

  -- moves to the next character; the one that it returns is `get_or source s.current 0`
  abbrev pub advance : Iterator → Iterator
  advance s = record s { current = s.current + 1 }

  unfoldable pub is_at_end : Iterator → Bool
  is_at_end s = leb width s.current

  unfoldable pub peek : Iterator → ℕ
  peek s = if ltb s.current width then get_or source s.current 0 else 0

  unfoldable pub peek_next : Iterator → ℕ
  peek_next s = if ltb (s.current + 1) width then get_or source (s.current + 1) 0 else 0

  -- whether the character is there, and the iterator behind it
  unfoldable pub match_char : Iterator → ℕ → Bool × Iterator
  match_char s ch =
      if is_at_end s
      then (false, s)
      else if get_or source s.current 0 == ch
      then (true, advance s)
      else (false, s)

  -- `while (!is_at_end() && peek() != '\n') advance();`
  unfoldable pub skip_comment : ℕ → Iterator → Iterator
  skip_comment zero s = s
  skip_comment (suc fuel) s = elim (not (is_at_end s) && not (peek s == 10)) [
    | true ↦ skip_comment fuel (advance s)
    | false ↦ s
  ]

  unfoldable pub blank : Iterator → Blank
  blank s =
      let ch = peek s in
      if (ch == 32) || (ch == 9) || (ch == 13)
      then space
      else if ch == 10
      then newline
      else if (ch == 47) && (peek_next s == 47)
      then comment
      else other

  unfoldable pub skip_whitespace : ℕ → Iterator → Iterator
  skip_whitespace zero s = s
  skip_whitespace (suc fuel) s = elim (blank s) [
    | space ↦ skip_whitespace fuel (advance s)
    | newline ↦ skip_whitespace fuel (advance (record s { line = s.line + 1 }))
    | comment ↦ skip_whitespace fuel (skip_comment width s)
    | other ↦ s
  ]

  -- the loop of `match_string`
  unfoldable pub skip_string : ℕ → Iterator → Iterator
  skip_string zero s = s
  skip_string (suc fuel) s = elim (not (peek s == 34) && not (is_at_end s)) [
    | true ↦
        skip_string fuel (advance (record s { line = if peek s == 10 then s.line + 1 else s.line }))
    | false ↦ s
  ]

  unfoldable pub match_string : Iterator → TokenType × Iterator
  match_string s =
      let done = skip_string width s in
      if is_at_end done
      then (error_token, record done { err = unterminated_string })
      else (string_token, advance done)

  -- `while (p(peek())) advance();`
  unfoldable pub skip_while : (ℕ → Bool) → ℕ → Iterator → Iterator
  skip_while p zero s = s
  skip_while p (suc fuel) s = elim (p (peek s)) [ true ↦ skip_while p fuel (advance s) | false ↦ s ]

  unfoldable pub match_number : Iterator → TokenType × Iterator
  match_number s =
      let digits = skip_while is_digit width s in
      let is_real = peek digits == 46 in
      let number = if is_real then skip_while is_digit width (advance digits) else digits in
      let rest = skip_while is_word width number in
      if is_word (peek number)
      then (error_token, record rest { err = invalid_decimal_literal })
      else (if is_real then number_real_token else number_int_token, rest)

  unfoldable pub match_identifier : Iterator → TokenType × Iterator
  match_identifier s =
      let rest = skip_while is_word width s in
      (get_identifier_type (drop rest.start source) (rest.current - rest.start), rest)

  -- `match(ch) ? long : short`
  unfoldable pub match_either : Iterator → ℕ → TokenType → TokenType → TokenType × Iterator
  match_either s ch long short = let r = match_char s ch in (if r.0 then long else short, r.1)

  -- the `switch` of `scan_token`, on the tokens of one or two characters
  unfoldable pub scan_symbol : ℕ → Iterator → TokenType × Iterator
  scan_symbol ch s =
      if ch == 58
      then (colon_token, s)
      else if ch == 63
      then match_either s 46 question_dot_token question_mark_token
      else if ch == 40
      then (left_paren_token, s)
      else if ch == 41
      then (right_paren_token, s)
      else if ch == 123
      then (left_brace_token, s)
      else if ch == 125
      then (right_brace_token, s)
      else if ch == 91
      then (left_bracket_token, s)
      else if ch == 93
      then (right_bracket_token, s)
      else if ch == 59
      then (semicolon_token, s)
      else if ch == 44
      then (comma_token, s)
      else if ch == 46
      then (dot_token, s)
      else if ch == 45
      then (minus_token, s)
      else if ch == 43
      then (plus_token, s)
      else if ch == 47
      then (slash_token, s)
      else if ch == 42
      then (star_token, s)
      else if ch == 33
      then match_either s 61 bang_equal_token bang_token
      else if ch == 61
      then match_either s 61 equal_equal_token equal_token
      else if ch == 60
      then match_either s 61 less_equal_token less_token
      else if ch == 62
      then match_either s 61 greater_equal_token greater_token
      else (error_token, record s { err = unrecognized_character })

  unfoldable pub scan_token : Iterator → TokenType × Iterator
  scan_token s =
      let skipped = skip_whitespace width s in
      let first = record skipped { start = skipped.current } in
      let ch = get_or source first.current 0 in
      let second = advance first in
      if is_at_end first
      then (end_of_file_token, first)
      else if is_alpha ch || (ch == 95)
      then match_identifier second
      else if ch == 34
      then match_string second
      else if is_digit ch
      then match_number second
      else scan_symbol ch second

  -- what `operator++` writes after the scan
  abbrev pub cache : TokenType × Iterator → Iterator
  cache (type, s) = record s {
    current_token_type = type;
    cached_token = record {
      token_type = type;
      line = s.line;
      err = s.err;
      lexeme = take (s.current - s.start) (drop s.start source);
    };
  }

  -- `operator++`
  unfoldable pub next : Iterator → Iterator
  next s =
      let cleared = record s { err = no_error } in
      cache (
        if is_at_end cleared
        then (end_of_file_token, record cleared { start = width; current = width })
        else scan_token (record cleared { start = cleared.current }))

  -- `cbegin()` before its first `++`
  unfoldable pub initial : Token → Iterator
  initial token = record {
    start = 0;
    current = 0;
    line = 1;
    current_token_type = end_of_file_token;
    err = no_error;
    cached_token = token;
  }

  -- `n` times `operator++`
  unfoldable pub steps : ℕ → Iterator → Iterator
  steps zero s = s
  steps (suc n) s = steps n (next s)

  -- `it == cend()`
  unfoldable pub is_end : Iterator → Bool
  is_end s = (s.start == width) && (s.current == width)
