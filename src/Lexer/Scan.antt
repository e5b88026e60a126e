-- ===== src/Lexer/Scan.antt =====
-- A token is a piece of the source behind the one before it, and its line is counted.
use cpp_lox.Prelude.{
  ℕ, zero, suc, ◌+◌, ◌-◌, ◌<◌, ◌≤◌, ◌≡◌, refl, ap, ◌∙◌, inl, inr, ◌⊎◌, Bool, true, false, ◌||◌,
  List, [], ◌∷◌, ◌==◌, if◌then◌else◌, arith, length, get_or, take, drop, Bool-cases, if-cases,
}
use cpp_lox.Token.{TokenType, ErrorCode, end_of_file_token, no_error}
use cpp_lox.Lexer.{
  Iterator, other, advance, is_at_end, peek, blank, is_digit, is_alpha, is_word, match_char,
  match_string, match_number, match_identifier, match_either, scan_symbol, scan_token, skip_while,
  skip_string, skip_whitespace, cache, next,
}
use cpp_lox.Lexer.Position.{
  newlines, IsAt, Moves, stay-Moves, Moves-chain, advance-Moves, blank-Met, met_space, met_newline,
  met_comment, met_other,
}
use cpp_lox.Lexer.Keywords.{keyword}
use cpp_lox.Lexer.KeywordTable.{get_identifier_type-take}
use cpp_lox.Lexer.Loops.{skip_whitespace-Moves, skip_while-Moves, skip_string-Moves}

length-drop : (n : ℕ) (xs : List ℕ) → length (drop n xs) ≡ length xs - n
length-drop zero xs = omega arith
length-drop (suc n) [] = omega arith
length-drop (suc n) (x ∷ xs) = omega (arith, length-drop n xs)

module _ (source : List ℕ) where
  err-Moves :
      (s r : Iterator) (e : ErrorCode) → Moves source s r → Moves source s (record r { err = e })
  err-Moves s r e m = record {
    forward = m.forward;
    start = m.start;
    at = record { bounded = m.at.bounded; counted = m.at.counted };
  }

  match_string-Moves : (s : Iterator) → IsAt source s → Moves source s (match_string source s).1
  unfolding match_string is_at_end peek
  match_string-Moves s at =
      let (m, end) = skip_string-Moves source (length source) s at (omega arith) in
      let done = skip_string source (length source) s in
      elim (Bool-cases (is_at_end source done)) [
        | inl e ↦ rw e (err-Moves s done _ m)
        | inr e ↦ rw e (
            Moves-chain source _ _ _ m
              (advance-Moves source done m.at (ground arith) (ground arith)))
      ]

  digits-Moves :
      (s : Iterator) → IsAt source s → Moves source s (skip_while source is_digit (length source) s)
  unfolding is_digit
  digits-Moves s at =
      (skip_while-Moves source is_digit refl refl (length source) s at (omega arith)).0

  word-Moves :
      (s : Iterator) → IsAt source s → Moves source s (skip_while source is_word (length source) s)
  unfolding is_word is_digit is_alpha
  word-Moves s at = (skip_while-Moves source is_word refl refl (length source) s at (omega arith)).0

  match_number-Moves : (s : Iterator) → IsAt source s → Moves source s (match_number source s).1
  unfolding match_number peek
  match_number-Moves s at =
      let digits = skip_while source is_digit (length source) s in
      let m = digits-Moves s at in
      let number =
        if-cases (Moves source s) (peek source digits == 46)
          {x = skip_while source is_digit (length source) (advance source digits)} {y = digits}
          (λ e.
            let one = advance-Moves source digits m.at (ground arith) (ground arith) in
            Moves-chain source _ _ _ m (Moves-chain source _ _ _ one (digits-Moves _ one.at)))
          (λ _. m) in
      let rest = Moves-chain source _ _ _ number (word-Moves _ number.at) in
      let after =
        if peek source digits == 46
        then skip_while source is_digit (length source) (advance source digits)
        else digits in
      elim (Bool-cases (is_word (peek source after))) [
        | inl e ↦ rw (match_number, e) (err-Moves s _ _ rest)
        | inr e ↦ rw (match_number, e) rest
      ]

  match_either-Moves :
      (s : Iterator) (ch : ℕ) (long short : TokenType)
      → (ch == 10) ≡ false
      → IsAt source s
      → Moves source s (match_either source s ch long short).1
  unfolding match_either match_char is_at_end
  match_either-Moves s ch long short n at =
      if-cases (λ (r : Bool × Iterator). Moves source s r.1) (is_at_end source s)
        (λ _. stay-Moves source s at)
        (λ e.
          if-cases (λ (r : Bool × Iterator). Moves source s r.1) (get_or source s.current 0 == ch)
            (λ f. advance-Moves source s at (ground arith) (ground arith))
            (λ f. stay-Moves source s at))

  scan_symbol-Moves :
      (ch : ℕ) (s : Iterator) → IsAt source s → Moves source s (scan_symbol source ch s).1
  unfolding scan_symbol
  scan_symbol-Moves ch s at =
      let still : Moves source s s = stay-Moves source s at in
      let P : TokenType × Iterator → Type 0 = λ r. Moves source s r.1 in
      if-cases P (ch == 58) (λ _. still)
        (λ _.
          if-cases P (ch == 63) (λ _. match_either-Moves s 46 _ _ refl at)
            (λ _.
              if-cases P (ch == 40) (λ _. still)
                (λ _.
                  if-cases P (ch == 41) (λ _. still)
                    (λ _.
                      if-cases P (ch == 123) (λ _. still)
                        (λ _.
                          if-cases P (ch == 125) (λ _. still)
                            (λ _.
                              if-cases P (ch == 91) (λ _. still)
                                (λ _.
                                  if-cases P (ch == 93) (λ _. still)
                                    (λ _.
                                      if-cases P (ch == 59) (λ _. still)
                                        (λ _.
                                          if-cases P (ch == 44) (λ _. still)
                                            (λ _.
                                              if-cases P (ch == 46) (λ _. still)
                                                (λ _.
                                                  if-cases P (ch == 45) (λ _. still)
                                                    (λ _.
                                                      if-cases P (ch == 43) (λ _. still)
                                                        (λ _.
                                                          if-cases P (ch == 47) (λ _. still)
                                                            (λ _.
                                                            if-cases P (ch == 42) (λ _. still)
                                                            (λ _.
                                                            if-cases P (ch == 33)
                                                            (λ _.
                                                            match_either-Moves s 61 _ _ refl at)
                                                            (λ _.
                                                            if-cases P (ch == 61)
                                                            (λ _.
                                                            match_either-Moves s 61 _ _ refl at)
                                                            (λ _.
                                                            if-cases P (ch == 60)
                                                            (λ _.
                                                            match_either-Moves s 61 _ _ refl at)
                                                            (λ _.
                                                            if-cases P (ch == 62)
                                                            (λ _.
                                                            match_either-Moves s 61 _ _ refl at)
                                                            (λ _.
                                                            err-Moves s s _ still)))))))))))))))))))

  -- a token `t` and the iterator `r` behind it, from the iterator `s`
  pub record Scanned (s : Iterator) (t : TokenType) (r : Iterator) : Type 0 where
    pub at : IsAt source r
    pub after : s.current ≤ r.start
    pub ordered : r.start ≤ r.current
    pub ends :
        ((t ≡ end_of_file_token) × (r.start ≡ length source) × (r.current ≡ length source))
        ⊎ (r.start < r.current)
    pub word :
        r.start < r.current
        → (is_alpha (get_or source r.start 0) || (get_or source r.start 0 == 95)) ≡ true
        → t ≡ keyword (take (r.current - r.start) (drop r.start source))

  match_identifier-Moves :
      (s : Iterator) → IsAt source s → Moves source s (match_identifier source s).1
  unfolding match_identifier
  match_identifier-Moves s at = word-Moves s at

  match_identifier-keyword :
      (s : Iterator)
      → IsAt source s
      → s.start < s.current
      → (match_identifier source s).0
        ≡ keyword (
            take
              ((match_identifier source s).1.current - (match_identifier source s).1.start)
              (drop (match_identifier source s).1.start source))
  unfolding match_identifier
  match_identifier-keyword s at h =
      let m = word-Moves s at in
      let rest = skip_while source is_word (length source) s in
      get_identifier_type-take (drop rest.start source) (rest.current - rest.start)
        (omega (arith, m.start, m.forward))
        (omega (arith, m.start, m.forward, m.at.bounded, length-drop rest.start source))

  no_newline :
      (s : Iterator)
      → blank source s ≡ other
      → s.current < length source
      → (get_or source s.current 0 == 10) ≡ false
  no_newline s e h = elim (blank-Met source s) [
    | met_space f k n ↦ n
    | met_newline f k n ↦ absurd (cc (e, f))
    | met_comment f k c ↦ ground arith
    | met_other f n ↦ n h
  ]

  -- behind the first character of a token
  behind-Scanned :
      (s second : Iterator) (t : TokenType) (r : Iterator)
      → second.current ≡ second.start + 1
      → s.current ≤ second.start
      → Moves source second r
      → ((is_alpha (get_or source second.start 0) || (get_or source second.start 0 == 95)) ≡ true
          → t ≡ keyword (take (r.current - r.start) (drop r.start source)))
      → Scanned s t r
  behind-Scanned s second t r e h m typed = record {
    word = λ _ k. typed (rw m.start at k);
    at = m.at;
    after = omega (arith, m.start);
    ordered = omega (arith, m.start, m.forward);
    ends = inr (omega (arith, m.start, m.forward));
  }

  scan_token-Scanned :
      (s : Iterator) → IsAt source s → Scanned s (scan_token source s).0 (scan_token source s).1
  unfolding scan_token is_at_end
  scan_token-Scanned s at =
      let (m, end) = skip_whitespace-Moves source (length source) s at (omega arith) in
      let skipped = skip_whitespace source (length source) s in
      let first = record skipped { start = skipped.current } in
      let ch = get_or source skipped.current 0 in
      let first_at : IsAt source first = record {
        bounded = m.at.bounded;
        counted = m.at.counted;
      } in
      let P : TokenType × Iterator → Type 0 = λ r. Scanned s r.0 r.1 in
      if-cases P (is_at_end source first)
        (λ e. record {
          at = first_at;
          after = m.forward;
          ordered = omega arith;
          ends = inl (refl, ground (arith, m.at.bounded), ground (arith, m.at.bounded));
          word = λ h _. absurd (omega arith);
        })
        (λ e.
          let one : Moves source first (advance source first) =
            advance-Moves source first first_at (ground arith)
              (no_newline skipped end (ground arith)) in
          let IsFirst : Type 0 = (is_alpha ch || (ch == 95)) ≡ true in
          let behind : (r : TokenType × Iterator)
              → Moves source (advance source first) r.1
              → (IsFirst → r.0 ≡ keyword (take (r.1.current - r.1.start) (drop r.1.start source)))
              → P r =
            λ r k typed. behind-Scanned s (advance source first) r.0 r.1 refl m.forward k typed in
          if-cases P (is_alpha ch || (ch == 95))
            (λ _.
              behind _ (match_identifier-Moves _ one.at)
                (λ _. match_identifier-keyword _ one.at (omega arith)))
            (λ f.
              let never : IsFirst → ⊥ = λ g. cc (f, g) in
              if-cases P (ch == 34)
                (λ _. behind _ (match_string-Moves _ one.at) (λ g. absurd (never g)))
                (λ _.
                  if-cases P (is_digit ch)
                    (λ _. behind _ (match_number-Moves _ one.at) (λ g. absurd (never g)))
                    (λ _. behind _ (scan_symbol-Moves ch _ one.at) (λ g. absurd (never g))))))

  cache-Scanned :
      (s : Iterator) (r : TokenType × Iterator)
      → Scanned s r.0 r.1
      → Scanned s (cache source r).current_token_type (cache source r)
  cache-Scanned s r w = record {
    at = record { bounded = w.at.bounded; counted = w.at.counted };
    after = w.after;
    ordered = w.ordered;
    ends = w.ends;
    word = w.word;
  }

  -- `operator++` from an iterator inside the source with its line counted gives such an iterator.
  -- The token starts at the old place or later and is the end of the file at the end of the source
  -- or has a character, and a token that starts with a letter or `_` has the kind of its lexeme in
  -- the table of keywords.
  pub next-Scanned :
      (s : Iterator) → IsAt source s → Scanned s (next source s).current_token_type (next source s)
  unfolding next is_at_end
  next-Scanned s at =
      let scan =
        scan_token-Scanned (record s { err = no_error; start = s.current })
          (record { bounded = at.bounded; counted = at.counted }) in
      let P : TokenType × Iterator → Type 0 =
        λ r. Scanned s (cache source r).current_token_type (cache source r) in
      if-cases P (is_at_end source s)
        (λ e.
          let same : s.current ≡ length source = ground (arith, at.bounded) in
          record {
            at = record {
              bounded = omega arith;
              counted = at.counted ∙ ap (λ n. 1 + newlines source n) same;
            };
            after = omega (arith, same);
            ordered = omega arith;
            ends = inl (refl, refl, refl);
            word = λ h _. absurd (omega arith);
          })
        (λ e. cache-Scanned s _ (record {
          at = scan.at;
          after = scan.after;
          ordered = scan.ordered;
          ends = scan.ends;
          word = scan.word;
        }))
