-- ===== src/Webhooks/Signature/Header.antt =====
-- A header as Mercado Pago writes it is read back.
use blanco_financas_api.Prelude.{
  ℕ, ◌==◌, ◌≡◌, refl, ap, ◌∙◌, true, false, some, [], ◌∷◌, All, Text, codes, same_text_refl, String,
  ℤ,
}
use mathlib.Core.List.{◌++◌, reverse, reverse-cons, reverse-reverse}
use blanco_financas_api.Plans.{is_space}
use blanco_financas_api.Webhooks.Signature.{
  Verifier, split_at, partition_at, strip_start, strip, parse_signature, read_int, out_of_time,
  manifest_of, compare_digest, judge_parts, judge, is_ascii, is_empty_text, valid,
}

-- A text without commas and white space.
abbrev pub Plain : Text → Type 0
Plain s = All (λ c. ((c == b',') ≡ false) × (is_space c ≡ false)) s

split_at-append : (s t : Text) → Plain s → split_at b',' (s ++ (b',' ∷ t)) ≡ s ∷ split_at b',' t
unfolding split_at
split_at-append [] t p = refl
split_at-append (c ∷ s) t p = rw (p.0.0, split_at-append s t p.1) refl

split_at_whole : (s : Text) → Plain s → split_at b',' s ≡ s ∷ []
unfolding split_at
split_at_whole [] p = refl
split_at_whole (c ∷ s) p = rw (p.0.0, split_at_whole s p.1) refl

strip_start_whole : (s : Text) → Plain s → strip_start s ≡ s
unfolding strip_start
strip_start_whole [] p = refl
strip_start_whole (c ∷ s) p = rw (p.0.1) refl

Plain-append : (s t : Text) → Plain s → Plain t → Plain (s ++ t)
Plain-append [] t p q = q
Plain-append (c ∷ s) t p q = (p.0, Plain-append s t p.1 q)

reverse-Plain : (s : Text) → Plain s → Plain (reverse s)
reverse-Plain [] p = tt
reverse-Plain (c ∷ s) p =
    rw (reverse-cons c s) (Plain-append (reverse s) (c ∷ []) (reverse-Plain s p.1) (p.0, tt))

strip_whole : (s : Text) → Plain s → strip s ≡ s
unfolding strip
strip_whole s p =
    rw (strip_start_whole s p, strip_start_whole (reverse s) (reverse-Plain s p))
      (reverse-reverse s)

ts_Plain : (ts : Text) → Plain ts → Plain (codes "ts=" ++ ts)
unfolding is_space
ts_Plain ts p = ((refl, refl), ((refl, refl), ((refl, refl), p)))

v1_Plain : (hash : Text) → Plain hash → Plain (codes "v1=" ++ hash)
unfolding is_space
v1_Plain hash p = ((refl, refl), ((refl, refl), ((refl, refl), p)))

-- A header of a time and a hash, neither of which holds a comma or white space, is read as those
-- two.
parse_signature-print :
    (ts hash : Text)
    → Plain ts
    → Plain hash
    → parse_signature (codes "ts=" ++ (ts ++ (codes ",v1=" ++ hash)))
      ≡ record { ts = ts; v1_hash = hash }
unfolding parse_signature partition_at
parse_signature-print ts hash p q =
    let first = ts_Plain ts p in
    let second = v1_Plain hash q in
    let parts : split_at b',' ((codes "ts=" ++ ts) ++ (b',' ∷ (codes "v1=" ++ hash)))
        ≡ (codes "ts=" ++ ts) ∷ (codes "v1=" ++ hash) ∷ [] =
      rw
        (
          split_at-append (codes "ts=" ++ ts) (codes "v1=" ++ hash) first,
          split_at_whole (codes "v1=" ++ hash) second,
        )
        refl in
    rw (parts, strip_whole (codes "ts=" ++ ts) first, strip_whole (codes "v1=" ++ hash) second) refl

compare_digest_same : (v : Verifier) (d : Text) → is_ascii d ≡ true → compare_digest v d d ≡ valid
unfolding compare_digest
compare_digest_same v d h = rw (h, same_text_refl d) refl

judge_parts_signed :
    (v : Verifier) (now : ℕ) (request_id id ts : Text) {t : ℤ}
    → is_empty_text ts ≡ false
    → is_empty_text (v.digest (manifest_of v id request_id ts)) ≡ false
    → is_ascii (v.digest (manifest_of v id request_id ts)) ≡ true
    → read_int v.digit_value ts ≡ some t
    → out_of_time v.tolerance_seconds now t ≡ false
    → judge_parts v now id request_id
        (record { ts = ts; v1_hash = v.digest (manifest_of v id request_id ts) })
      ≡ valid
unfolding judge_parts
judge_parts_signed v now request_id id ts timed signed ascii reads near =
    rw (timed, signed, reads, near)
      (compare_digest_same v (v.digest (manifest_of v id request_id ts)) ascii)

-- Mercado Pago's notification with its own time and digest is accepted, where the digest is not
-- empty and of plain ASCII characters, as the time's text is, the text reads as a time within the
-- tolerance, and the notification names its order.
pub judge_signed :
    (v : Verifier) (now : ℕ) (request_id : Text) (id : String) (ts : Text) {t : ℤ}
    → is_empty_text (codes id) ≡ false
    → is_empty_text ts ≡ false
    → is_empty_text (v.digest (manifest_of v (codes id) request_id ts)) ≡ false
    → is_ascii (v.digest (manifest_of v (codes id) request_id ts)) ≡ true
    → Plain ts
    → Plain (v.digest (manifest_of v (codes id) request_id ts))
    → read_int v.digit_value ts ≡ some t
    → out_of_time v.tolerance_seconds now t ≡ false
    → judge v now (record {
      x_signature =
          codes "ts="
          ++ (ts ++ (codes ",v1=" ++ v.digest (manifest_of v (codes id) request_id ts)));
      x_request_id = request_id;
      data_id = some id;
    })
      ≡ valid
unfolding judge
judge_signed v now request_id id ts named timed signed ascii p q reads near =
    let hash = v.digest (manifest_of v (codes id) request_id ts) in
    rw named (
      ap (judge_parts v now (codes id) request_id) (parse_signature-print ts hash p q)
      ∙ judge_parts_signed v now request_id (codes id) ts timed signed ascii reads near)
