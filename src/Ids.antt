-- ===== src/Ids.antt =====
-- internal/domain/id.go: NewID, a random prefix and a counter in sixteen hexadecimal digits.
use mathlib.Core.List.{append_cancel_left, head-eq_of_cons-eq, tail-eq_of_cons-eq}
use fileupload.Base.{
  refl, ◌≢◌, List, length, length-append, ap, ℕ, zero, suc, ◌+◌, ◌*◌, ◌/◌, ◌%◌, ◌^◌, ◌<◌, ◌≡◌, [],
  ◌∷◌, ◌++◌, Bytes, ltb, if◌then◌else◌, arith,
}
use fileupload.Domain.{ok}
use fileupload.World.{World, result, after, Exec}

hex_digit : ℕ → ℕ
hex_digit d = if ltb d 10 then 48 + d else 87 + d

-- the digits of n in k places, most significant first
unfoldable pub hex_fixed : ℕ → ℕ → Bytes
unfolding hex_digit
hex_fixed zero n = []
hex_fixed (suc k) n = hex_fixed k (n / 16) ++ hex_digit (n % 16) ∷ []

-- fmt.Sprintf("%s%016x", prefix, n) after the atomic increment
unfoldable pub new_id : Exec Bytes
unfolding hex_fixed
new_id w =
    let n = (w.id_counter + 1) % 2 ^ 64 in
    (ok (w.id_prefix ++ hex_fixed 16 n), record w { id_counter = n })

hex_digit_inj : (a b : ℕ) → a < 16 → b < 16 → hex_digit a ≡ hex_digit b → a ≡ b
unfolding hex_digit
hex_digit_inj a b ha hb e = ground arith

snoc_inj {ℓ} :
    {A : Type ℓ} (xs ys : List A) {x y : A} → xs ++ x ∷ [] ≡ ys ++ y ∷ [] → (xs ≡ ys) × (x ≡ y)
snoc_inj [] [] e = (refl, head-eq_of_cons-eq e)
snoc_inj [] (b ∷ ys) {x} {y} e = absurd (omega (arith, ap length e, length-append ys (y ∷ [])))
snoc_inj (a ∷ xs) [] {x} {y} e = absurd (omega (arith, ap length e, length-append xs (x ∷ [])))
snoc_inj (a ∷ xs) (b ∷ ys) e =
    let (front, back) = snoc_inj xs ys (tail-eq_of_cons-eq e) in
    (cc (front, head-eq_of_cons-eq e), back)

-- 16 ^ k, as the recursion on the places has it
abbrev pow16 : ℕ → ℕ
pow16 zero = 1
pow16 (suc k) = pow16 k * 16

hex_fixed_inj : (k a b : ℕ) → a < pow16 k → b < pow16 k → hex_fixed k a ≡ hex_fixed k b → a ≡ b
unfolding hex_fixed
hex_fixed_inj zero a b ha hb e = omega arith
hex_fixed_inj (suc k) a b ha hb e =
    let (front, back) = snoc_inj (hex_fixed k (a / 16)) (hex_fixed k (b / 16)) e in
    omega (
      arith,
      hex_fixed_inj k (a / 16) (b / 16) (omega arith) (omega arith) front,
      hex_digit_inj (a % 16) (b % 16) (omega arith) (omega arith) back,
    )

-- The world after n identifiers have been drawn.
abbrev drawn : ℕ → World → World
drawn zero w = w
drawn (suc n) w = after new_id (drawn n w)

drawn_counter :
    (n : ℕ) (w : World)
    → w.id_counter + n < 2 ^ 64
    → ((drawn n w).id_counter ≡ w.id_counter + n) × ((drawn n w).id_prefix ≡ w.id_prefix)
unfolding new_id
drawn_counter zero w h = (omega arith, refl)
drawn_counter (suc n) w h = ground (arith, drawn_counter n w)

-- Two identifiers that one process draws differ, as long as its counter does not wrap around.
new_id_distinct :
    (m n : ℕ) (w : World)
    → m < n
    → w.id_counter + n + 1 < 2 ^ 64
    → result new_id (drawn m w) ≢ result new_id (drawn n w)
unfolding new_id
new_id_distinct m n w lt h e =
    let (at_m, same_m) = drawn_counter m w (omega arith) in
    let (at_n, same_n) = drawn_counter n w (omega arith) in
    let same : w.id_prefix ++ hex_fixed 16 (((drawn m w).id_counter + 1) % 2 ^ 64)
        ≡ w.id_prefix ++ hex_fixed 16 (((drawn n w).id_counter + 1) % 2 ^ 64) =
      cc (e, same_m, same_n) in
    absurd (
      omega (
        arith,
        hex_fixed_inj 16 (((drawn m w).id_counter + 1) % 2 ^ 64)
            (((drawn n w).id_counter + 1) % 2 ^ 64) (omega arith) (omega arith)
            (append_cancel_left w.id_prefix _ _ same),
      ))

-- Only the counter moves.
pub new_id_world : (w : World) → (n : ℕ) × (after new_id w ≡ record w { id_counter = n })
unfolding new_id
new_id_world w = ((w.id_counter + 1) % 2 ^ 64, refl)
