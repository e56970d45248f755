-- ===== src/Storage/Kafka/Keys.antt =====
-- The keys of the transitions, written and parsed.
use Prim.Native.Char.{code, len_utf8}
use Prim.Native.String.{◌++◌ as append}
use riquet.Domain.Types.{Sequence}
use riquet.Prelude.{
  String, ap, arith, number_eq, refl, some, string_eq, suc, zero, ℕ, ◌%◌, ◌*◌, ◌+◌, ◌/◌, ◌<◌, ◌^◌,
  ◌∙◌, ◌≡◌,
}
use riquet.Prelude.Texts.{after_prefix-append}
use riquet.Storage.Kafka.Layout.{
  count_bytes, digit, parse_transition_key, read_digits, transition_key, transition_prefix,
  write_digits,
}

-- 10 ^ k
abbrev ten_to : ℕ → ℕ
ten_to zero = 1
ten_to (suc k) = 10 * ten_to k

digit-code : (d : ℕ) → d < 10 → (code (digit d) ≡ b'0' + d) × (len_utf8 (digit d) ≡ 1)
digit-code zero h = (refl, refl)
digit-code (suc zero) h = (refl, refl)
digit-code (suc (suc zero)) h = (refl, refl)
digit-code (suc (suc (suc zero))) h = (refl, refl)
digit-code (suc (suc (suc (suc zero)))) h = (refl, refl)
digit-code (suc (suc (suc (suc (suc zero))))) h = (refl, refl)
digit-code (suc (suc (suc (suc (suc (suc zero)))))) h = (refl, refl)
digit-code (suc (suc (suc (suc (suc (suc (suc zero))))))) h = (refl, refl)
digit-code (suc (suc (suc (suc (suc (suc (suc (suc zero)))))))) h = (refl, refl)
digit-code (suc (suc (suc (suc (suc (suc (suc (suc (suc zero))))))))) h = (refl, refl)
digit-code (suc (suc (suc (suc (suc (suc (suc (suc (suc (suc d)))))))))) h = absurd (omega arith)

read_digits-digit :
    (n d : ℕ) (rest : String)
    → d < 10
    → read_digits n (String.◌∷◌ (digit d) rest) ≡ read_digits (n * 10 + d) rest
unfolding read_digits
read_digits-digit n d rest h = ground (arith, (digit-code d h).0)

read_digits-write_digits :
    (k m n : ℕ) (rest : String)
    → n < ten_to k
    → read_digits m (write_digits k n rest) ≡ read_digits (m * ten_to k + n) rest
unfolding write_digits
read_digits-write_digits zero m n rest h =
    ap (λ x. read_digits x rest) (let e : m ≡ m * 1 + n = omega arith in e)
read_digits-write_digits (suc k) m n rest h =
    read_digits-write_digits k m (n / 10) (String.◌∷◌ (digit (n % 10)) rest) (omega arith)
    ∙ (read_digits-digit (m * ten_to k + n / 10) (n % 10) rest (omega arith)
        ∙ ap (λ x. read_digits x rest)
            (let e : (m * ten_to k + n / 10) * 10 + n % 10 ≡ m * (10 * ten_to k) + n =
                grind arith in
              e))

count_bytes-write_digits :
    (k n : ℕ) (rest : String) → count_bytes (write_digits k n rest) ≡ k + count_bytes rest
unfolding write_digits count_bytes
count_bytes-write_digits zero n rest = omega arith
count_bytes-write_digits (suc k) n rest =
    let width = (digit-code (n % 10) (omega arith)).1 in
    count_bytes-write_digits k (n / 10) (String.◌∷◌ (digit (n % 10)) rest)
    ∙ (let e : k + (len_utf8 (digit (n % 10)) + count_bytes rest) ≡ suc k + count_bytes rest =
          omega (arith, width) in
        e)

parse_transition_key-prefixed :
    (raw : String) (n : ℕ)
    → count_bytes raw ≡ 20
    → read_digits 0 raw ≡ some n
    → 0 < n
    → n < 2 ^ 64
    → parse_transition_key (append transition_prefix raw) ≡ some n
unfolding parse_transition_key
parse_transition_key-prefixed raw n size digits positive range =
    ground (arith, after_prefix-append transition_prefix raw, size, digits, positive, range)

read_digits-end : (n : ℕ) → read_digits n "" ≡ some n
unfolding read_digits
read_digits-end n = refl

count_bytes-end : count_bytes "" ≡ 0
unfolding count_bytes
count_bytes-end = refl

-- Parsing the record key of a sequence gives the sequence back, for every uint64 but zero.
pub parse_transition_key-transition_key :
    (sequence : Sequence)
    → 0 < sequence
    → sequence < 2 ^ 64
    → parse_transition_key (transition_key sequence) ≡ some sequence
unfolding transition_key
parse_transition_key-transition_key sequence positive range =
    parse_transition_key-prefixed (write_digits 20 sequence "") sequence
      (count_bytes-write_digits 20 sequence "" ∙ ap (λ n. 20 + n) count_bytes-end)
      (read_digits-write_digits 20 0 sequence "" (omega arith)
        ∙ (ap (λ n. read_digits n "")
              (let e : 0 * ten_to 20 + sequence ≡ sequence = omega arith in e)
            ∙ read_digits-end sequence))
      positive range
