-- ===== src/Executor/Correlation.antt =====
-- runner/internal/correlation/id.go and control-plane/internal/runqueue/queue.go: the correlation
-- identifiers that the queue makes.
use Prim.Native.Char.{code}
use Prim.Native.String.append
use Prim.Native.String.{◌++◌ as append_text}
use proof_layer.Base.{
  ℕ, zero, suc, ◌/◌, ◌%◌, ◌<◌, ◌≡◌, refl, sym, ap, subst, ◌∙◌, ◌++◌, true, String, List, [], ◌∷◌,
  arith, Bytes, All, length, codes, hex, hex_digit, upper_char, to_upper,
}
use proof_layer.Base.Patterns.{Class, is_upper_hex, is_char, times, matches}
use proof_layer.RunQueue.Patterns.{correlation_id_of}
use proof_layer.Executor.Identity.{valid_correlation}

digit_upper : (n : ℕ) → n < 16 → is_upper_hex (code (upper_char (hex_digit n))) ≡ true
unfolding upper_char
digit_upper zero h = refl
digit_upper (suc zero) h = refl
digit_upper (suc (suc zero)) h = refl
digit_upper (suc (suc (suc zero))) h = refl
digit_upper (suc (suc (suc (suc zero)))) h = refl
digit_upper (suc (suc (suc (suc (suc zero))))) h = refl
digit_upper (suc (suc (suc (suc (suc (suc zero)))))) h = refl
digit_upper (suc (suc (suc (suc (suc (suc (suc zero))))))) h = refl
digit_upper (suc (suc (suc (suc (suc (suc (suc (suc zero)))))))) h = refl
digit_upper (suc (suc (suc (suc (suc (suc (suc (suc (suc zero))))))))) h = refl
digit_upper (suc (suc (suc (suc (suc (suc (suc (suc (suc (suc zero)))))))))) h = refl
digit_upper (suc (suc (suc (suc (suc (suc (suc (suc (suc (suc (suc zero))))))))))) h = refl
digit_upper (suc (suc (suc (suc (suc (suc (suc (suc (suc (suc (suc (suc zero)))))))))))) h = refl
digit_upper (suc (suc (suc (suc (suc (suc (suc (suc (suc (suc (suc (suc (suc zero))))))))))))) h =
    refl
digit_upper (suc (suc (suc (suc (suc (suc (suc (suc (suc (suc (suc (suc (suc (suc zero))))))))))))))
      h =
    refl
digit_upper
      (suc (suc (suc (suc (suc (suc (suc (suc (suc (suc (suc (suc (suc (suc (suc zero)))))))))))))))
      h =
    refl
digit_upper
      (suc
        (suc (suc (suc (suc (suc (suc (suc (suc (suc (suc (suc (suc (suc (suc (suc n))))))))))))))))
      h =
    absurd (omega (arith, h))

-- Two digits for each byte.
abbrev digits : ℕ → List Class
digits zero = []
digits (suc n) = is_upper_hex ∷ (is_upper_hex ∷ digits n)

hex-upper :
    (n : ℕ) (bytes : Bytes)
    → length bytes ≡ n
    → All (λ (b : ℕ). b < 256) bytes
    → matches (digits n) (codes (to_upper (hex bytes))) ≡ true
unfolding matches to_upper hex
hex-upper zero [] e h = refl
hex-upper zero (b ∷ bytes) e h = absurd (omega (arith, e))
hex-upper (suc n) [] e h = absurd (omega (arith, e))
hex-upper (suc n) (b ∷ bytes) e h =
    rw (digit_upper (b / 16) (omega (arith, h.0)), digit_upper (b % 16) (omega arith))
      (hex-upper n bytes (omega (arith, e)) h.1)

codes-append : (s t : String) → codes (append_text s t) ≡ codes s ++ codes t
codes-append String.[] t = ap codes (append.nil t)
codes-append (String.◌∷◌ c s) t =
    ap codes (append.cons c s t) ∙ ap (λ cs. code c ∷ cs) (codes-append s t)

abbrev correlation_classes : List Class
correlation_classes = is_char b'P' ∷ (is_char b'L' ∷ (is_char b'-' ∷ times 32 is_upper_hex))

-- The runner accepts the form of each correlation identifier that the queue makes of 16 random
-- bytes.
pub correlation_id_of-valid :
    (bytes : Bytes)
    → length bytes ≡ 16
    → All (λ (b : ℕ). b < 256) bytes
    → valid_correlation (correlation_id_of bytes) ≡ true
unfolding correlation_id_of valid_correlation matches
correlation_id_of-valid bytes e h =
    subst (λ cs. matches correlation_classes cs ≡ true)
      (sym (codes-append "PL-" (to_upper (hex bytes)))) (hex-upper 16 bytes e h)
