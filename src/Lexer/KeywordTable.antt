-- ===== src/Lexer/KeywordTable.antt =====
-- `get_identifier_type`, a tree of tests of single characters, against the table of the keywords.
use cpp_lox.Prelude.{
  ℕ, zero, suc, ◌+◌, ◌<◌, ◌≤◌, ◌≡◌, refl, sym, ap, subst, ◌∙◌, inl, inr, true, false, ◌&&◌, List,
  [], ◌∷◌, ◌++◌, ltb, ◌==◌, if◌then◌else◌, arith, take, drop, length, Bool-cases,
}
use cpp_lox.Token.{TokenType, identifier_token}
use cpp_lox.Lexer.Keywords.{check_keyword, get_identifier_type, keyword, same_text}

-- the test of `check_keyword`, of the rest of a word
same_text-take :
    (n : ℕ) (w after r : List ℕ)
    → length r ≡ n
    → ((length w == n) && same_text (take n (w ++ after)) r) ≡ same_text w r
unfolding same_text
same_text-take zero [] after [] h = refl
same_text-take zero [] after (y ∷ r) h = absurd (omega arith)
same_text-take zero (x ∷ w) after [] h = ground arith
same_text-take zero (x ∷ w) after (y ∷ r) h = absurd (omega arith)
same_text-take (suc n) [] after [] h = absurd (omega arith)
same_text-take (suc n) [] after (y ∷ r) h = ground arith
same_text-take (suc n) (x ∷ w) after [] h = absurd (omega arith)
same_text-take (suc n) (x ∷ w) after (y ∷ r) h =
    ground (arith, same_text-take n w after r (omega arith))

-- `check_keyword` where `a` characters before the rest of the word are known
check_keyword-rest :
    (a n : ℕ) (text w after r : List ℕ) (length_ : ℕ) (t : TokenType)
    → length r ≡ n
    → length_ ≡ a + length w
    → drop a text ≡ w ++ after
    → check_keyword text length_ a n r t ≡ (if same_text w r then t else identifier_token)
unfolding check_keyword
check_keyword-rest a n text w after r length_ t h k e =
    let same : (length_ == a + n) ≡ (length w == n) = ground arith in
    rw (e, same, same_text-take n w after r h)

take-drop : (n : ℕ) (xs : List ℕ) → take n xs ++ drop n xs ≡ xs
take-drop zero xs = refl
take-drop (suc n) [] = refl
take-drop (suc n) (x ∷ xs) = ap (λ t. x ∷ t) (take-drop n xs)

length-take : (n : ℕ) (xs : List ℕ) → n ≤ length xs → length (take n xs) ≡ n
length-take zero xs h = refl
length-take (suc n) [] h = absurd (omega arith)
length-take (suc n) (x ∷ xs) h = ap suc (length-take n xs (omega arith))

module _ (after : List ℕ) where
  abbrev SameKind : List ℕ → Type 0
  SameKind w = get_identifier_type (w ++ after) (length w) ≡ keyword w

  -- a split on a character of the word
  on_char : (P : ℕ → Type 0) (c a : ℕ) → P c → ((a == c) ≡ false → P a) → P a
  on_char P c a here other = elim (Bool-cases (a == c)) [
    | inl e ↦ subst P (ground arith) here
    | inr n ↦ other n
  ]

  agrees_a : (w : List ℕ) → SameKind (97 ∷ w)
  unfolding get_identifier_type keyword same_text
  agrees_a w =
      check_keyword-rest 1 2 (97 ∷ (w ++ after)) w after (110 ∷ 100 ∷ []) _ _ refl (omega arith)
        refl

  agrees_b : (w : List ℕ) → SameKind (98 ∷ w)
  unfolding get_identifier_type keyword same_text
  agrees_b w =
      check_keyword-rest 1 4 (98 ∷ (w ++ after)) w after (114 ∷ 101 ∷ 97 ∷ 107 ∷ []) _ _ refl
        (omega arith) refl

  agrees_d : (w : List ℕ) → SameKind (100 ∷ w)
  unfolding get_identifier_type keyword same_text
  agrees_d w =
      check_keyword-rest 1 6 (100 ∷ (w ++ after)) w after (101 ∷ 102 ∷ 97 ∷ 117 ∷ 108 ∷ 116 ∷ []) _
        _ refl (omega arith) refl

  agrees_i : (w : List ℕ) → SameKind (105 ∷ w)
  unfolding get_identifier_type keyword same_text
  agrees_i w =
      check_keyword-rest 1 1 (105 ∷ (w ++ after)) w after (102 ∷ []) _ _ refl (omega arith) refl

  agrees_o : (w : List ℕ) → SameKind (111 ∷ w)
  unfolding get_identifier_type keyword same_text
  agrees_o w =
      check_keyword-rest 1 1 (111 ∷ (w ++ after)) w after (114 ∷ []) _ _ refl (omega arith) refl

  agrees_r : (w : List ℕ) → SameKind (114 ∷ w)
  unfolding get_identifier_type keyword same_text
  agrees_r w =
      check_keyword-rest 1 5 (114 ∷ (w ++ after)) w after (101 ∷ 116 ∷ 117 ∷ 114 ∷ 110 ∷ []) _ _
        refl (omega arith) refl

  agrees_v : (w : List ℕ) → SameKind (118 ∷ w)
  unfolding get_identifier_type keyword same_text
  agrees_v w =
      check_keyword-rest 1 2 (118 ∷ (w ++ after)) w after (97 ∷ 114 ∷ []) _ _ refl (omega arith)
        refl

  agrees_w : (w : List ℕ) → SameKind (119 ∷ w)
  unfolding get_identifier_type keyword same_text
  agrees_w w =
      check_keyword-rest 1 4 (119 ∷ (w ++ after)) w after (104 ∷ 105 ∷ 108 ∷ 101 ∷ []) _ _ refl
        (omega arith) refl

  agrees_e : (w : List ℕ) → SameKind (101 ∷ w)
  unfolding get_identifier_type keyword same_text
  agrees_e [] = refl
  agrees_e (b ∷ w) =
      let two : ltb 1 (suc (suc (length w))) ≡ true = ground arith in
      on_char (λ x. SameKind (101 ∷ x ∷ w)) 99 b
        (rw two (
          check_keyword-rest 2 2 (101 ∷ 99 ∷ (w ++ after)) w after (104 ∷ 111 ∷ []) _ _ refl
            (omega arith) refl))
        (λ n0.
          on_char (λ x. SameKind (101 ∷ x ∷ w)) 108 b
            (rw two (
              check_keyword-rest 2 2 (101 ∷ 108 ∷ (w ++ after)) w after (115 ∷ 101 ∷ []) _ _ refl
                (omega arith) refl))
            (λ n1. rw (two, n0, n1)))

  agrees_f : (w : List ℕ) → SameKind (102 ∷ w)
  unfolding get_identifier_type keyword same_text
  agrees_f [] = refl
  agrees_f (b ∷ w) =
      let two : ltb 1 (suc (suc (length w))) ≡ true = ground arith in
      on_char (λ x. SameKind (102 ∷ x ∷ w)) 97 b
        (rw two (
          check_keyword-rest 2 3 (102 ∷ 97 ∷ (w ++ after)) w after (108 ∷ 115 ∷ 101 ∷ []) _ _ refl
            (omega arith) refl))
        (λ n0.
          on_char (λ x. SameKind (102 ∷ x ∷ w)) 111 b
            (rw two (
              check_keyword-rest 2 1 (102 ∷ 111 ∷ (w ++ after)) w after (114 ∷ []) _ _ refl
                (omega arith) refl))
            (λ n1.
              on_char (λ x. SameKind (102 ∷ x ∷ w)) 117 b
                (rw two (
                  check_keyword-rest 2 1 (102 ∷ 117 ∷ (w ++ after)) w after (110 ∷ []) _ _ refl
                    (omega arith) refl))
                (λ n2. rw (two, n0, n1, n2))))

  agrees_n : (w : List ℕ) → SameKind (110 ∷ w)
  unfolding get_identifier_type keyword same_text
  agrees_n [] = refl
  agrees_n (b ∷ w) =
      let two : ltb 1 (suc (suc (length w))) ≡ true = ground arith in
      on_char (λ x. SameKind (110 ∷ x ∷ w)) 105 b
        (rw two (
          check_keyword-rest 2 1 (110 ∷ 105 ∷ (w ++ after)) w after (108 ∷ []) _ _ refl
            (omega arith) refl))
        (λ n0.
          on_char (λ x. SameKind (110 ∷ x ∷ w)) 111 b
            (rw two (
              check_keyword-rest 2 1 (110 ∷ 111 ∷ (w ++ after)) w after (116 ∷ []) _ _ refl
                (omega arith) refl))
            (λ n1. rw (two, n0, n1)))

  agrees_s : (w : List ℕ) → SameKind (115 ∷ w)
  unfolding get_identifier_type keyword same_text
  agrees_s [] = refl
  agrees_s (b ∷ w) =
      let two : ltb 1 (suc (suc (length w))) ≡ true = ground arith in
      on_char (λ x. SameKind (115 ∷ x ∷ w)) 119 b
        (rw two (
          check_keyword-rest 2 4 (115 ∷ 119 ∷ (w ++ after)) w after (105 ∷ 116 ∷ 99 ∷ 104 ∷ []) _ _
            refl (omega arith) refl))
        (λ n0.
          on_char (λ x. SameKind (115 ∷ x ∷ w)) 117 b
            (rw two (
              check_keyword-rest 2 3 (115 ∷ 117 ∷ (w ++ after)) w after (112 ∷ 101 ∷ 114 ∷ []) _ _
                refl (omega arith) refl))
            (λ n1. rw (two, n0, n1)))

  agrees_t : (w : List ℕ) → SameKind (116 ∷ w)
  unfolding get_identifier_type keyword same_text
  agrees_t [] = refl
  agrees_t (b ∷ w) =
      let two : ltb 1 (suc (suc (length w))) ≡ true = ground arith in
      on_char (λ x. SameKind (116 ∷ x ∷ w)) 104 b
        (rw two (
          check_keyword-rest 2 2 (116 ∷ 104 ∷ (w ++ after)) w after (105 ∷ 115 ∷ []) _ _ refl
            (omega arith) refl))
        (λ n0.
          on_char (λ x. SameKind (116 ∷ x ∷ w)) 114 b
            (rw two (
              check_keyword-rest 2 2 (116 ∷ 114 ∷ (w ++ after)) w after (117 ∷ 101 ∷ []) _ _ refl
                (omega arith) refl))
            (λ n1. rw (two, n0, n1)))

  -- `co`: the two keywords that share `con`
  agrees_con : (w : List ℕ) → SameKind (99 ∷ 111 ∷ 110 ∷ w)
  unfolding get_identifier_type keyword same_text
  agrees_con [] = refl
  agrees_con (d ∷ w) =
      let two : ltb 1 (suc (suc (suc (suc (length w))))) ≡ true = ground arith in
      let four : ltb 3 (suc (suc (suc (suc (length w))))) ≡ true = ground arith in
      on_char (λ x. SameKind (99 ∷ 111 ∷ 110 ∷ x ∷ w)) 115 d
        (rw (two, four)
          (check_keyword-rest 4 1 (99 ∷ 111 ∷ 110 ∷ 115 ∷ (w ++ after)) w after (116 ∷ []) _ _ refl
            (omega arith) refl))
        (λ n.
          on_char (λ x. SameKind (99 ∷ 111 ∷ 110 ∷ x ∷ w)) 116 d
            (rw (two, four)
              (check_keyword-rest 4 4 (99 ∷ 111 ∷ 110 ∷ 116 ∷ (w ++ after)) w after
                (105 ∷ 110 ∷ 117 ∷ 101 ∷ []) _ _ refl (omega arith) refl))
            (λ m. rw (two, four, n, m)))

  agrees_co : (w : List ℕ) → SameKind (99 ∷ 111 ∷ w)
  unfolding get_identifier_type keyword same_text
  agrees_co [] = refl
  agrees_co (c ∷ w) =
      on_char (λ x. SameKind (99 ∷ 111 ∷ x ∷ w)) 110 c (agrees_con w)
        (λ n.
          let two : ltb 1 (suc (suc (suc (length w)))) ≡ true = ground arith in
          elim (Bool-cases (ltb 3 (suc (suc (suc (length w)))))) [
            | inl e ↦ rw (two, n, e)
            | inr e ↦ rw (two, n, e)
          ])

  agrees_c : (w : List ℕ) → SameKind (99 ∷ w)
  unfolding get_identifier_type keyword same_text
  agrees_c [] = refl
  agrees_c (b ∷ w) =
      let two : ltb 1 (suc (suc (length w))) ≡ true = ground arith in
      on_char (λ x. SameKind (99 ∷ x ∷ w)) 97 b
        (rw two (
          check_keyword-rest 2 2 (99 ∷ 97 ∷ (w ++ after)) w after (115 ∷ 101 ∷ []) _ _ refl
            (omega arith) refl))
        (λ n0.
          on_char (λ x. SameKind (99 ∷ x ∷ w)) 108 b
            (rw two (
              check_keyword-rest 2 3 (99 ∷ 108 ∷ (w ++ after)) w after (97 ∷ 115 ∷ 115 ∷ []) _ _
                refl (omega arith) refl))
            (λ n1.
              on_char (λ x. SameKind (99 ∷ x ∷ w)) 111 b (agrees_co w)
                (λ n2. rw (two, n0, n1, n2))))

  -- The tree and the table agree on every word, whatever follows it.
  pub get_identifier_type-keyword : (c : ℕ) (w : List ℕ) → SameKind (c ∷ w)
  unfolding get_identifier_type keyword same_text
  get_identifier_type-keyword c w =
      let P : ℕ → Type 0 = λ x. SameKind (x ∷ w) in
      on_char P 97 c (agrees_a w) (λ n0. on_char P 99 c (agrees_c w) (λ n1.
        on_char P 98 c (agrees_b w) (λ n2. on_char P 100 c (agrees_d w) (λ n3.
          on_char P 101 c (agrees_e w) (λ n4. on_char P 102 c (agrees_f w) (λ n5.
            on_char P 105 c (agrees_i w) (λ n6. on_char P 110 c (agrees_n w) (λ n7.
              on_char P 111 c (agrees_o w) (λ n8. on_char P 114 c (agrees_r w) (λ n9.
                on_char P 115 c (agrees_s w) (λ n10. on_char P 116 c (agrees_t w) (λ n11.
                  on_char P 118 c (agrees_v w) (λ n12. on_char P 119 c (agrees_w w) (λ n13.
                    rw (n0, n1, n2, n3, n4, n5, n6, n7, n8, n9, n10, n11, n12, n13)))))))))))))))

-- A non-empty word at the start of a text has the kind of the table, whatever follows it.
pub get_identifier_type-take :
    (text : List ℕ) (n : ℕ)
    → 0 < n
    → n ≤ length text
    → get_identifier_type text n ≡ keyword (take n text)
get_identifier_type-take text zero h k = absurd (omega arith)
get_identifier_type-take [] (suc n) h k = absurd (omega arith)
get_identifier_type-take (x ∷ text) (suc n) h k =
    ap (λ t. get_identifier_type (x ∷ t) (suc n)) (sym (take-drop n text))
    ∙ ap (get_identifier_type (x ∷ (take n text ++ drop n text)))
        (ap suc (sym (length-take n text (omega arith))))
    ∙ get_identifier_type-keyword (drop n text) x (take n text)
