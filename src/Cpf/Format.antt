-- ===== src/Cpf/Format.antt =====
-- The printed form of a CPF is read back as the same CPF.
use blanco_financas_api.Prelude.{
  ℕ, suc, ◌≡◌, refl, sym, ap, ◌∙◌, arith, Bool, true, Bool-cases, inl, inr, Option, none, List, [],
  ◌∷◌, filter_by, All, length, Text,
}
use blanco_financas_api.Errors.{ok, ok_injective}
use blanco_financas_api.Cpf.{Cpf, make_cpf, formatted, is_valid, is_digit}

-- A list of at least one element.
uncons :
    (n : ℕ) (xs : List ℕ)
    → length xs ≡ suc n
    → (y : ℕ) × (ys : List ℕ) × (xs ≡ y ∷ ys) × (length ys ≡ n)
uncons n [] h = absurd (omega arith)
uncons n (y ∷ ys) h = (y, ys, refl, omega arith)

no_more : (xs : List ℕ) → length xs ≡ 0 → xs ≡ []
no_more [] h = refl
no_more (x ∷ xs) h = absurd (omega arith)

prepend : (x : ℕ) {ys zs : List ℕ} → ys ≡ zs → x ∷ ys ≡ x ∷ zs
prepend x h = ap (λ l. x ∷ l) h

pub eleven :
    (xs : List ℕ)
    → length xs ≡ 11
    → (a : ℕ) × (b : ℕ) × (c : ℕ) × (d : ℕ) × (e : ℕ) × (f : ℕ) × (g : ℕ) × (h : ℕ) × (i : ℕ)
      × (j : ℕ) × (k : ℕ) × (xs ≡ a ∷ b ∷ c ∷ d ∷ e ∷ f ∷ g ∷ h ∷ i ∷ j ∷ k ∷ [])
eleven xs l =
    let (a, x1, p1, l1) = uncons 10 xs l in
    let (b, x2, p2, l2) = uncons 9 x1 l1 in
    let (c, x3, p3, l3) = uncons 8 x2 l2 in
    let (d, x4, p4, l4) = uncons 7 x3 l3 in
    let (e, x5, p5, l5) = uncons 6 x4 l4 in
    let (f, x6, p6, l6) = uncons 5 x5 l5 in
    let (g, x7, p7, l7) = uncons 4 x6 l6 in
    let (h, x8, p8, l8) = uncons 3 x7 l7 in
    let (i, x9, p9, l9) = uncons 2 x8 l8 in
    let (j, x10, p10, l10) = uncons 1 x9 l9 in
    let (k, x11, p11, l11) = uncons 0 x10 l10 in
    (
      a,
      b,
      c,
      d,
      e,
      f,
      g,
      h,
      i,
      j,
      k,
      p1
          ∙ prepend a (
              p2
              ∙ prepend b (
                  p3
                  ∙ prepend c (
                      p4
                      ∙ prepend d (
                          p5
                          ∙ prepend e (
                              p6
                              ∙ prepend f (
                                  p7
                                  ∙ prepend g (
                                      p8
                                      ∙ prepend h (
                                          p9
                                          ∙ prepend i (
                                              p10
                                              ∙ prepend j
                                                  (p11 ∙ prepend k (no_more x11 l11))))))))))),
    )

filter_by-passes : (p : ℕ → Bool) (xs : List ℕ) → All (λ x. p x ≡ true) (filter_by p xs)
filter_by-passes p [] = tt
filter_by-passes p (x ∷ xs) = ground (arith, filter_by-passes p xs)

module _ (digit_value : ℕ → Option ℕ) where
  cleaned-formatted :
      (c : Cpf)
      → All (λ x. is_digit digit_value x ≡ true) c.value
      → length c.value ≡ 11
      → digit_value b'.' ≡ none
      → digit_value b'-' ≡ none
      → filter_by (is_digit digit_value) (formatted c) ≡ c.value
  unfolding formatted
  cleaned-formatted c a l dot dash =
      let (p, q, r, s, t, u, v, w, x, y, z, e) = eleven c.value l in
      let b : All (λ n. is_digit digit_value n ≡ true)
          (p ∷ q ∷ r ∷ s ∷ t ∷ u ∷ v ∷ w ∷ x ∷ y ∷ z ∷ []) =
        rw e at a in
      let (d0, (d1, (d2, (d3, (d4, (d5, (d6, (d7, (d8, (d9, (d10, _))))))))))) = b in
      rw (e, dot, dash, d0, d1, d2, d3, d4, d5, d6, d7, d8, d9, d10) refl

  make_cpf_value :
      (text : Text) {c : Cpf}
      → make_cpf digit_value text ≡ ok c
      → (c.value ≡ filter_by (is_digit digit_value) text) × (is_valid digit_value c.value ≡ true)
  unfolding make_cpf
  make_cpf_value text {c} h =
      let cleaned = filter_by (is_digit digit_value) text in
      elim (Bool-cases (is_valid digit_value cleaned)) [
        | inl v ↦
            let k : ok (record { value = cleaned }) ≡ ok c = rw v at h in
            let e : c.value ≡ cleaned = ap (λ (x : Cpf). x.value) (sym (ok_injective k)) in
            (e, rw e v)
        | inr n ↦ absurd (let k = rw n at h in cc)
      ]

  pub is_valid-length : (text : Text) → is_valid digit_value text ≡ true → length text ≡ 11
  unfolding is_valid
  is_valid-length text h = ground arith

  -- A CPF that was accepted prints as a text that is accepted again and gives the same CPF, where
  -- the point and the hyphen are no digits.
  pub make_cpf-formatted :
      (text : Text) {c : Cpf}
      → digit_value b'.' ≡ none
      → digit_value b'-' ≡ none
      → make_cpf digit_value text ≡ ok c
      → make_cpf digit_value (formatted c) ≡ ok c
  unfolding make_cpf
  make_cpf-formatted text {c} dot dash h =
      let (e, v) = make_cpf_value text h in
      let all_digits : All (λ x. is_digit digit_value x ≡ true) c.value =
        rw e (filter_by-passes (is_digit digit_value) text) in
      rw (cleaned-formatted c all_digits (is_valid-length c.value v) dot dash, v) refl
