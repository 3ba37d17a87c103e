-- ===== src/Seri/Fuel.antt =====
-- The reader of lua-seri.c takes a byte with each value, so that its calls end on any bytes.
use ddzproject.Prelude.{
  ◌<◌, ℕ, zero, suc, ◌+◌, ◌-◌, ◌*◌, ◌/◌, ◌^◌, ◌≤◌, ◌≢◌, List, [], ◌∷◌, length, ◌==◌, arith, bit_and,
}
use ddzproject.Seri.{Value, nil, table, Items, item, pair}
use ddzproject.Seri.Unpack.{
  Unpacked, unpacked, invalid, outside, out_of_fuel, ◌>>=◌, pure, get_scalar, get_array_size,
  unpack_one, push_value, unpack_items, unpack_pairs, unpack_entry, unpack_all, luaseri_unpack,
}
use ddzproject.Seri.Ends.{
  Settles, Settles-bind, Settles-weaken, Settles-if, get_scalar-Ends, get_array_size-Ends,
}

-- A call has four units of fuel for each byte that is left, and those for the ends.
mutual
  unfolding unpack_one

  unpack_one-Settles :
      (fuel : ℕ) (l : List ℕ) (n : ℕ)
      → length l ≤ n
      → 4 * n + 1 ≤ fuel
      → Settles 1 n (unpack_one fuel l)
  unpack_one-Settles zero l n le enough = absurd (omega arith)
  unpack_one-Settles (suc fuel) [] n le enough = tt
  unpack_one-Settles (suc fuel) (t ∷ l) n le enough =
      Settles-weaken 0 1 (n - 1) n (push_value fuel (bit_and t 7) (t / 2 ^ 3) l) (omega arith)
        (push_value-Settles fuel (bit_and t 7) (t / 2 ^ 3) l (n - 1) (omega arith) (omega arith))

  push_value-Settles :
      (fuel t c : ℕ) (l : List ℕ) (n : ℕ)
      → length l ≤ n
      → 4 * n + 4 ≤ fuel
      → Settles 0 n (push_value fuel t c l)
  push_value-Settles zero t c l n le enough = absurd (omega arith)
  push_value-Settles (suc fuel) t c l n le enough =
      Settles-if (t == 6) 0 n _ (get_scalar t c l)
        (Settles-bind (get_array_size c)
          (λ m. unpack_items fuel m >>= λ is. unpack_pairs fuel >>= λ ps. pure (table is ps)) l 0 0
          n (get_array_size-Ends c l n le)
          (λ m rest le₁.
            Settles-bind (unpack_items fuel m)
              (λ is. unpack_pairs fuel >>= λ ps. pure (table is ps)) rest 0 0 n
              (unpack_items-Settles fuel m rest n (omega arith) (omega arith))
              (λ is rest₂ le₂.
                Settles-bind (unpack_pairs fuel) (λ ps. pure (table is ps)) rest₂ 0 0 n
                  (unpack_pairs-Settles fuel rest₂ n (omega arith) (omega arith))
                  (λ ps rest₃ le₃. omega arith))))
        (get_scalar-Ends t c l n le)

  unpack_items-Settles :
      (fuel m : ℕ) (l : List ℕ) (n : ℕ)
      → length l ≤ n
      → 4 * n + 3 ≤ fuel
      → Settles 0 n (unpack_items fuel m l)
  unpack_items-Settles zero m l n le enough = absurd (omega arith)
  unpack_items-Settles (suc fuel) m l n le enough =
      Settles-if (m == 0) 0 n (unpacked (Items.no_items, l)) _ (omega arith) (
        Settles-bind (unpack_one fuel) (λ v. unpack_items fuel (m - 1) >>= λ vs. pure (item v vs)) l
          1 0 n (unpack_one-Settles fuel l n le (omega arith))
          (λ v rest le₁.
            Settles-bind (unpack_items fuel (m - 1)) (λ vs. pure (item v vs)) rest 0 0 n
              (Settles-weaken 0 0 (n - 1) n (unpack_items fuel (m - 1) rest) (omega arith)
                (unpack_items-Settles fuel (m - 1) rest (n - 1) (omega arith) (omega arith)))
              (λ vs rest₂ le₂. omega arith)))

  unpack_pairs-Settles :
      (fuel : ℕ) (l : List ℕ) (n : ℕ)
      → length l ≤ n
      → 4 * n + 3 ≤ fuel
      → Settles 0 n (unpack_pairs fuel l)
  unpack_pairs-Settles zero l n le enough = absurd (omega arith)
  unpack_pairs-Settles (suc fuel) l n le enough =
      Settles-bind (unpack_one fuel) (unpack_entry fuel) l 1 0 n
        (unpack_one-Settles fuel l n le (omega arith))
        (λ k rest le₁.
          Settles-weaken 0 0 (n - 1) n (unpack_entry fuel k rest) (omega arith)
            (unpack_entry-Settles fuel k rest (n - 1) (omega arith) (omega arith)))

  unpack_entry-Settles :
      (fuel : ℕ) (k : Value) (l : List ℕ) (n : ℕ)
      → length l ≤ n
      → 4 * n + 2 ≤ fuel
      → Settles 0 n (unpack_entry fuel k l)
  unpack_entry-Settles zero k l n le enough = absurd (omega arith)
  unpack_entry-Settles (suc fuel) nil l n le enough = omega arith
  unpack_entry-Settles (suc fuel) k l n le enough =
      Settles-bind (unpack_one fuel) (λ v. unpack_pairs fuel >>= λ ps. pure (pair k v ps)) l 1 0 n
        (unpack_one-Settles fuel l n le (omega arith))
        (λ v rest le₁.
          Settles-bind (unpack_pairs fuel) (λ ps. pure (pair k v ps)) rest 0 0 n
            (Settles-weaken 0 0 (n - 1) n (unpack_pairs fuel rest) (omega arith)
              (unpack_pairs-Settles fuel rest (n - 1) (omega arith) (omega arith)))
            (λ ps rest₂ le₂. omega arith))

abbrev Returns : Unpacked (List Value) → Type 0
Returns r = r ≢ out_of_fuel

value_Returns : (vs : List Value) → Returns (unpacked vs)
value_Returns vs e = cc

invalid_Returns : Returns invalid
invalid_Returns e = cc

outside_Returns : Returns outside
outside_Returns e = cc

abbrev other_values : Value → Unpacked (List Value) → Unpacked (List Value)
other_values v (unpacked vs) = unpacked (v ∷ vs)
other_values v invalid = invalid
other_values v outside = outside
other_values v out_of_fuel = out_of_fuel

first_value : ℕ → Unpacked (Value × List ℕ) → Unpacked (List Value)
first_value fuel (unpacked (v, rest)) = other_values v (unpack_all fuel rest)
first_value fuel invalid = invalid
first_value fuel outside = outside
first_value fuel out_of_fuel = out_of_fuel

unpack_all-Returns : (fuel : ℕ) (l : List ℕ) → 4 * length l + 1 ≤ fuel → Returns (unpack_all fuel l)
unfolding unpack_all first_value
unpack_all-Returns zero l enough = absurd (omega arith)
unpack_all-Returns (suc fuel) [] enough = value_Returns []
unpack_all-Returns (suc fuel) (t ∷ l) enough =
    elim (push_value fuel (bit_and t 7) (t / 2 ^ 3) l)
        as (λ r. Settles 0 (length l) r → Returns (first_value fuel r)) [
          | unpacked (v, rest) ↦ (λ le.
              elim (unpack_all fuel rest) as (λ r. Returns r → Returns (other_values v r)) [
                | unpacked vs ↦ (λ h. value_Returns (v ∷ vs))
                | invalid ↦ (λ h. invalid_Returns)
                | outside ↦ (λ h. outside_Returns)
                | out_of_fuel ↦ (λ h. h)
              ]
                (unpack_all-Returns fuel rest (omega arith)))
          | invalid ↦ (λ h. invalid_Returns)
          | outside ↦ (λ h. outside_Returns)
          | out_of_fuel ↦ (λ h. absurd h)
        ]
      (push_value-Settles fuel (bit_and t 7) (t / 2 ^ 3) l (length l) (omega arith) (omega arith))

-- The reader ends on any message below 2 GB: it gives values, or raises the error of an invalid message, or
-- reads outside of the buffer with a length that is negative, but it never lacks the fuel.
pub luaseri_unpack-Returns :
    (bytes : List ℕ) → length bytes < 2 ^ 31 → luaseri_unpack bytes ≢ out_of_fuel
unfolding luaseri_unpack
luaseri_unpack-Returns bytes small = unpack_all-Returns (4 * length bytes + 4) bytes (omega arith)
