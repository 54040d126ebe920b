-- ===== src/Cpf/CheckDigits.antt =====
-- What the constructor of a CPF accepts, with the rule of the two check digits written out.
use blanco_financas_api.Prelude.{
  ℕ, ◌≡◌, ◌↔◌, ◌⊎◌, refl, sym, ap, ◌∙◌, arith, ◌==◌, ◌+◌, ◌*◌, ◌%◌, ==_iff, Bool, true, not,
  Bool-cases, inl, inr, Option, [], ◌∷◌, filter_by, All, ◌&&◌, Text,
}
use blanco_financas_api.Errors.{ok, err, invalid_cpf}
use blanco_financas_api.Cpf.{
  make_cpf, is_valid, is_digit, digit, digits, weighted, check_digit, all_are,
}
use blanco_financas_api.Cpf.Format.{eleven, is_valid-length}

-- The check digit of a weighted sum is ten times the sum, modulo 11 and, for ten, 0.
check_digit_lem : (total : ℕ) → check_digit total ≡ ((10 * total) % 11) % 10
check_digit_lem total = ground arith

and_first : (p q : Bool) → (p && q) ≡ true → p ≡ true
and_first p q h = ground arith

and_second : (p q : Bool) → (p && q) ≡ true → q ≡ true
and_second p q h = ground arith

all_are_iff : (c : ℕ) (xs : Text) → (all_are c xs ≡ true) ↔ All (λ x. x ≡ c) xs
all_are_iff c [] = (λ h. tt, λ h. refl)
all_are_iff c (x ∷ xs) =
    let same = ==_iff x c in
    let rest = all_are_iff c xs in
    (
      λ h. (same.0 (and_first _ _ h), rest.0 (and_second _ _ h)),
      λ a. rw (same.1 a.0, rest.1 a.1) refl,
    )

module _ (digit_value : ℕ → Option ℕ) where
  -- The value of a character.
  abbrev n : ℕ → ℕ
  n c = digit digit_value c

  -- Eleven characters that are not all the same. The first nine, weighted 10 to 2, give the tenth
  -- digit, and the first ten, weighted 11 to 2, the last: ten times the sum, modulo 11, with 0 in
  -- place of ten.
  pub record IsCpf (text : Text) : Type 0 where
    pub a : ℕ
    pub b : ℕ
    pub c : ℕ
    pub d : ℕ
    pub e : ℕ
    pub f : ℕ
    pub g : ℕ
    pub h : ℕ
    pub i : ℕ
    pub j : ℕ
    pub k : ℕ
    pub shape : text ≡ a ∷ b ∷ c ∷ d ∷ e ∷ f ∷ g ∷ h ∷ i ∷ j ∷ k ∷ []
    pub differ : ¬ All (λ x. x ≡ a) text
    pub first_check :
        ((10
              * (10 * n a
                  + 9 * n b
                  + 8 * n c
                  + 7 * n d
                  + 6 * n e
                  + 5 * n f
                  + 4 * n g
                  + 3 * n h
                  + 2 * n i))
            % 11)
          % 10
        ≡ n j
    pub second_check :
        ((10
              * (11 * n a
                  + 10 * n b
                  + 9 * n c
                  + 8 * n d
                  + 7 * n e
                  + 6 * n f
                  + 5 * n g
                  + 4 * n h
                  + 3 * n i
                  + 2 * n j))
            % 11)
          % 10
        ≡ n k

  weighted_nine :
      (a b c d e f g h i : ℕ)
      → weighted 10 (digits digit_value (a ∷ b ∷ c ∷ d ∷ e ∷ f ∷ g ∷ h ∷ i ∷ []))
        ≡ 10 * n a + 9 * n b + 8 * n c + 7 * n d + 6 * n e + 5 * n f + 4 * n g + 3 * n h + 2 * n i
  weighted_nine a b c d e f g h i = omega arith

  weighted_ten :
      (a b c d e f g h i j : ℕ)
      → weighted 11 (digits digit_value (a ∷ b ∷ c ∷ d ∷ e ∷ f ∷ g ∷ h ∷ i ∷ j ∷ []))
        ≡ 11 * n a
          + 10 * n b
          + 9 * n c
          + 8 * n d
          + 7 * n e
          + 6 * n f
          + 5 * n g
          + 4 * n h
          + 3 * n i
          + 2 * n j
  weighted_ten a b c d e f g h i j = omega arith

  -- The test on eleven characters.
  is_valid_shape :
      (text : Text) (a b c d e f g h i j k : ℕ)
      → text ≡ a ∷ b ∷ c ∷ d ∷ e ∷ f ∷ g ∷ h ∷ i ∷ j ∷ k ∷ []
      → is_valid digit_value text ≡ (
          not (all_are a text)
          && (n j
                == ((10
                      * (10 * n a
                          + 9 * n b
                          + 8 * n c
                          + 7 * n d
                          + 6 * n e
                          + 5 * n f
                          + 4 * n g
                          + 3 * n h
                          + 2 * n i))
                    % 11)
                  % 10
              && n k
                == ((10
                      * (11 * n a
                          + 10 * n b
                          + 9 * n c
                          + 8 * n d
                          + 7 * n e
                          + 6 * n f
                          + 5 * n g
                          + 4 * n h
                          + 3 * n i
                          + 2 * n j))
                    % 11)
                  % 10))
  unfolding is_valid
  is_valid_shape text a b c d e f g h i j k q = rw q (
      let one =
        ap check_digit (weighted_nine a b c d e f g h i)
        ∙ check_digit_lem (
            10 * n a
            + 9 * n b
            + 8 * n c
            + 7 * n d
            + 6 * n e
            + 5 * n f
            + 4 * n g
            + 3 * n h
            + 2 * n i) in
      let two =
        ap check_digit (weighted_ten a b c d e f g h i j)
        ∙ check_digit_lem (
            11 * n a
            + 10 * n b
            + 9 * n c
            + 8 * n d
            + 7 * n e
            + 6 * n f
            + 5 * n g
            + 4 * n h
            + 3 * n i
            + 2 * n j) in
      rw (one, two) refl)

  accepted-IsCpf : (text : Text) → is_valid digit_value text ≡ true → IsCpf text
  accepted-IsCpf text v =
      let (a, b, c, d, e, f, g, h, i, j, k, q) = eleven text (is_valid-length digit_value text v) in
      let w = rw (is_valid_shape text a b c d e f g h i j k q) at v in
      record {
        a = a;
        b = b;
        c = c;
        d = d;
        e = e;
        f = f;
        g = g;
        h = h;
        i = i;
        j = j;
        k = k;
        shape = q;
        differ = λ same. let z = (all_are_iff a text).1 same in absurd (ground (arith, w, z));
        first_check = sym ((==_iff _ _).0 (and_first _ _ (and_second _ _ w)));
        second_check = sym ((==_iff _ _).0 (and_second _ _ (and_second _ _ w)));
      }

  IsCpf-accepted : (text : Text) → IsCpf text → is_valid digit_value text ≡ true
  IsCpf-accepted text r =
      is_valid_shape text r.a r.b r.c r.d r.e r.f r.g r.h r.i r.j r.k r.shape
      ∙ elim (Bool-cases (all_are r.a text)) [
        | inl same ↦ absurd (r.differ ((all_are_iff r.a text).0 same))
        | inr other ↦
            rw (other, (==_iff _ _).1 (sym r.first_check), (==_iff _ _).1 (sym r.second_check)) refl
      ]

  -- Of any text, the constructor takes out all but the digits, and accepts what is left exactly
  -- where it is a CPF: eleven digits, not all the same, of which the last two are the check digits
  -- of those before. Any other text raises `InvalidCPFError`.
  pub make_cpf_accepts :
      (value : Text)
      → let cleaned = filter_by (is_digit digit_value) value in
        (IsCpf cleaned × (make_cpf digit_value value ≡ ok (record { value = cleaned })))
        ⊎ ((¬ IsCpf cleaned) × (make_cpf digit_value value ≡ err invalid_cpf))
  unfolding make_cpf
  make_cpf_accepts value =
      let cleaned = filter_by (is_digit digit_value) value in
      elim (Bool-cases (is_valid digit_value cleaned)) [
        | inl v ↦ inl (accepted-IsCpf cleaned v, rw v refl)
        | inr w ↦ inr (λ r. let v = IsCpf-accepted cleaned r in absurd cc, rw w refl)
      ]
